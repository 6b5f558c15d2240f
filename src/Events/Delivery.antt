-- ===== src/Events/Delivery.antt =====
-- What subscribers receive.
use mathlib.Core.List.{append-nil, append_assoc}
use lattice_hub.Base.{
  ℕ, zero, suc, ◌≤◌, ◌≡◌, refl, sym, ap, ◌∙◌, inl, inr, Option, none, some, List, [], ◌∷◌, ◌++◌,
  arith, ltb, ◌==◌, if◌then◌else◌, length, Bool-cases, length-append, take, take_all,
}
use lattice_hub.Events.{
  Event, Client, EventBroker, publish, offer, offer_all, unsubscribe, remove, queue_of,
}

unfoldable pub publish_all : EventBroker → List Event → EventBroker
publish_all b [] = b
publish_all b (e ∷ es) = publish_all (publish b e) es

abbrev pub map_queue : (List Event → List Event) → Option (List Event) → Option (List Event)
map_queue f none = none
map_queue f (some q) = some (f q)

pub queue_of-offer_all :
    (ch : ℕ) (e : Event) (cs : List Client)
    → queue_of ch (offer_all e cs) ≡ map_queue (offer e) (queue_of ch cs)
unfolding queue_of offer_all
queue_of-offer_all ch e [] = refl
queue_of-offer_all ch e (c ∷ cs) = ground (arith, queue_of-offer_all ch e cs)

take-offer : (e : Event) (es q : List Event) → take 32 (offer e q ++ es) ≡ take 32 (q ++ e ∷ es)
unfolding offer
take-offer e es q = elim (Bool-cases (ltb (length q) 32)) [
  | inl h ↦ rw h (ap (λ (l : List Event). take 32 l) (append_assoc q (e ∷ []) es))
  | inr h ↦ rw h (take_past 32 q es (e ∷ es) (ground arith))
]
  where
    take_past :
        (n : ℕ) (xs ys zs : List Event) → n ≤ length xs → take n (xs ++ ys) ≡ take n (xs ++ zs)
    take_past zero xs ys zs h = refl
    take_past (suc n) [] ys zs h = absurd (omega arith)
    take_past (suc n) (x ∷ xs) ys zs h = ap (◌∷◌ x) (take_past n xs ys zs (omega arith))

length-offer : (e : Event) (q : List Event) → length q ≤ 32 → length (offer e q) ≤ 32
unfolding offer
length-offer e q h = ground (arith, length-append q (e ∷ []))

-- A subscriber that does not read gets the events in the order of publication until its 32 places
-- are full, and loses the rest; this is so whatever the other subscribers do, and nobody waits.
queue_of-publish_all :
    (b : EventBroker) (es : List Event) (ch : ℕ) (q : List Event)
    → queue_of ch b.clients ≡ some q
    → length q ≤ 32
    → queue_of ch (publish_all b es).clients ≡ some (take 32 (q ++ es))
unfolding publish_all publish
queue_of-publish_all b [] ch q h le =
    h ∙ ap some (sym (take_all 32 q le) ∙ ap (take 32) (sym (append-nil q)))
queue_of-publish_all b (e ∷ es) ch q h le =
    queue_of-publish_all (publish b e) es ch (offer e q)
      (queue_of-offer_all ch e b.clients ∙ ap (map_queue (offer e)) h) (length-offer e q le)
    ∙ ap some (take-offer e es q)

pub queue_of-remove :
    (ch gone : ℕ) (cs : List Client)
    → queue_of ch (remove gone cs) ≡ (if gone == ch then none else queue_of ch cs)
unfolding queue_of remove
queue_of-remove ch gone [] = ground arith
queue_of-remove ch gone (c ∷ cs) = ground (arith, queue_of-remove ch gone cs)

-- Who leaves gets nothing more, and takes nothing from the others.
queue_of-unsubscribe :
    (b : EventBroker) (gone ch : ℕ) (e : Event)
    → queue_of ch (publish (unsubscribe b gone) e).clients
      ≡ (if gone == ch then none else queue_of ch (publish b e).clients)
unfolding unsubscribe publish
queue_of-unsubscribe b gone ch e = ground (
  arith,
  queue_of-offer_all ch e (remove gone b.clients),
  queue_of-offer_all ch e b.clients,
  queue_of-remove ch gone b.clients,
)
