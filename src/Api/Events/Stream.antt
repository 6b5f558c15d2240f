-- ===== src/Api/Events/Stream.antt =====
-- What a client of the event stream receives.
use mathlib.Core.Option
use mathlib.Core.List.{append_assoc}
use lattice_hub.Base.{
  ℕ, zero, suc, ◌<◌, ◌≡◌, refl, sym, ap, ◌∙◌, inl, inr, true, Option, none, some, List, [], ◌∷◌,
  ◌++◌, arith, ◌==◌, Text, codes, length, Bool-cases, some-injective, length-append, split, lacks,
  subst, split-append,
}
use lattice_hub.Events.{
  Event, EventType, Client, EventBroker, subscribe, unsubscribe, queue_of, publish, offer, motion,
  node_online, node_offline, enrolled, health, command_ack, route_update,
}
use lattice_hub.Events.Delivery.{queue_of-offer_all, map_queue, queue_of-remove}
use lattice_hub.Api.Events.{
  Action, publishes, reads, event_loop, v1_events, receive, stream_text, event_text, type_name,
  Object, event_payload,
}

-- The events published meanwhile.
abbrev pub published : List Action → List Event
published [] = []
published (publishes e ∷ acts) = e ∷ published acts
published (reads ∷ acts) = published acts

-- With so many events waiting, no event comes that finds the channel full, and at the end none
-- waits.
abbrev KeepsUp : ℕ → List Action → Type 0
KeepsUp n [] = n ≡ 0
KeepsUp n (publishes e ∷ acts) = (n < 32) × KeepsUp (suc n) acts
KeepsUp zero (reads ∷ acts) = KeepsUp zero acts
KeepsUp (suc n) (reads ∷ acts) = KeepsUp n acts

receive_waiting :
    (ch : ℕ) (e : Event) (q : List Event) (cs : List Client)
    → queue_of ch cs ≡ some (e ∷ q)
    → ((receive ch cs).0 ≡ some e) × (queue_of ch (receive ch cs).1 ≡ some q)
unfolding receive queue_of
receive_waiting ch e q [] h = absurd (ground arith)
receive_waiting ch e q (c ∷ cs) h = elim (Bool-cases (c.channel == ch)) [
  | inl s ↦
      let at : c.queue ≡ e ∷ q = some-injective c.queue (e ∷ q) (rw s at h) in
      rw (s, at) (refl, rw s refl)
  | inr s ↦ let (taken, left) = receive_waiting ch e q cs (rw s at h) in rw s (taken, rw s left)
]

receive_empty : (ch : ℕ) (cs : List Client) → queue_of ch cs ≡ some [] → receive ch cs ≡ (none, cs)
unfolding receive queue_of
receive_empty ch [] h = refl
receive_empty ch (c ∷ cs) h = elim (Bool-cases (c.channel == ch)) [
  | inl s ↦ let at : c.queue ≡ [] = some-injective c.queue [] (rw s at h) in rw (s, at) refl
  | inr s ↦
      rw s
        (ap (λ (r : Option Event × List Client). (r.0, c ∷ r.1)) (receive_empty ch cs (rw s at h)))
]

offer-fits : (e : Event) (q : List Event) → length q < 32 → offer e q ≡ q ++ e ∷ []
unfolding offer
offer-fits e q h = ground arith

-- From any queue on: what waits and what is published is what is written, in order.
event_loop_lem :
    (ch : ℕ) (acts : List Action) (b : EventBroker) (q : List Event)
    → queue_of ch b.clients ≡ some q
    → KeepsUp (length q) acts
    → (event_loop ch acts b).1 ≡ q ++ published acts
unfolding event_loop publish
event_loop_lem ch [] b [] h k = refl
event_loop_lem ch [] b (e ∷ q) h k = absurd (omega arith)
event_loop_lem ch (publishes e ∷ acts) b q h k =
    let fits = offer-fits e q k.0 in
    let long : length (q ++ e ∷ []) ≡ suc (length q) = omega (arith, length-append q (e ∷ [])) in
    event_loop_lem ch acts (publish b e) (q ++ e ∷ [])
      (queue_of-offer_all ch e b.clients ∙ ap (map_queue (offer e)) h ∙ ap some fits)
      (subst (λ n. KeepsUp n acts) (sym long) k.1)
    ∙ append_assoc q (e ∷ []) (published acts)
event_loop_lem ch (reads ∷ acts) b [] h k =
    rw (receive_empty ch b.clients h) (event_loop_lem ch acts b [] h k)
event_loop_lem ch (reads ∷ acts) b (e ∷ q) h k =
    let (taken, left) = receive_waiting ch e q b.clients h in
    rw taken (
      ap (◌∷◌ e)
        (event_loop_lem ch acts (record b { clients = (receive ch b.clients).1 }) q left k))

v1_events_lem :
    (acts : List Action) (b : EventBroker)
    → KeepsUp 0 acts
    → ((v1_events true acts b).1 ≡ some (published acts))
      × (queue_of b.next_channel (v1_events true acts b).0.clients ≡ none)
unfolding v1_events subscribe unsubscribe queue_of
v1_events_lem acts b k =
    let c : Client = record { channel = b.next_channel; queue = [] } in
    let b1 = (subscribe b).0 in
    (
      ap some (event_loop_lem b.next_channel acts b1 [] (first c b.clients) k),
      queue_of-remove b.next_channel b.next_channel (event_loop b.next_channel acts b1).0.clients
          ∙ ground arith,
    )
  where
    first : (c : Client) (cs : List Client) → queue_of c.channel (c ∷ cs) ≡ some c.queue
    first c cs = ground arith

text_parts : (a b s : Text) → (a ++ 10 ∷ (b ++ 10 ∷ 10 ∷ [])) ++ s ≡ a ++ 10 ∷ (b ++ 10 ∷ 10 ∷ s)
text_parts a b s =
    append_assoc a (10 ∷ (b ++ 10 ∷ 10 ∷ [])) s
    ∙ ap (λ (t : Text). a ++ 10 ∷ t) (append_assoc b (10 ∷ 10 ∷ []) s)

split_nil : split 10 [] ≡ [] ∷ []
unfolding split
split_nil = refl

module _ (json : Object → Text) where
  -- The lines of an event, as a browser takes them apart.
  abbrev lines : List Event → List Text
  lines [] = [] ∷ []
  lines (e ∷ es) =
      (codes "event: " ++ type_name e.event_type)
      ∷ (codes "data: " ++ json (event_payload e))
      ∷ []
      ∷ lines es

  type_name_lacks : (t : EventType) → lacks 10 (codes "event: " ++ type_name t) ≡ true
  type_name_lacks motion = refl
  type_name_lacks node_online = refl
  type_name_lacks node_offline = refl
  type_name_lacks enrolled = refl
  type_name_lacks health = refl
  type_name_lacks command_ack = refl
  type_name_lacks route_update = refl

  split-stream_text :
      ((o : Object) → lacks 10 (json o) ≡ true)
      → (es : List Event) → split 10 (stream_text json es) ≡ lines es
  unfolding event_text
  split-stream_text h [] = split_nil
  split-stream_text h (e ∷ es) =
      let head = codes "event: " ++ type_name e.event_type in
      let object = codes "data: " ++ json (event_payload e) in
      let more = stream_text json es in
      ap (split 10) (text_parts head object more)
      ∙ split-append 10 head (object ++ 10 ∷ 10 ∷ more) (type_name_lacks e.event_type)
      ∙ ap (λ (ts : List Text). head ∷ ts)
          (split-append 10 object (10 ∷ more) (h (event_payload e)))
      ∙ ap (λ (ts : List Text). head ∷ object ∷ ts)
          (split-append 10 [] more refl ∙ ap (λ (ts : List Text). [] ∷ ts) (split-stream_text h es))

  -- A client that keeps up is written every event that is published while it is connected, once and
  -- in order, and when it has gone its channel is closed: taken apart at the line feeds, what it is
  -- written is, for each event, the line with its type, the line with its object, and a blank line.
  -- This is so where the JSON of an object has no line feed.
  pub v1_events-lines :
      (acts : List Action) (b : EventBroker)
      → ((o : Object) → lacks 10 (json o) ≡ true)
      → KeepsUp 0 acts
      → let (b', written) = v1_events true acts b in
        (Option.map (λ (es : List Event). split 10 (stream_text json es)) written
          ≡ some (lines (published acts)))
        × (queue_of b.next_channel b'.clients ≡ none)
  v1_events-lines acts b h k =
      let (all, gone) = v1_events_lem acts b k in
      (
        ap (Option.map (λ (es : List Event). split 10 (stream_text json es))) all
            ∙ ap some (split-stream_text h (published acts)),
        gone,
      )
