-- ===== src/EventStore/Backoff.antt =====
-- The waits of the loop that creates topics, and its end.
use lattice_hub.Base.{
  ℕ, ◌≤◌, ◌≡◌, refl, sym, ◌∙◌, inl, inr, List, [], ◌∷◌, arith, Bool-cases, Option-cases, subst, ap,
  true, false, Option, none, some, ◌++◌, Text, Result, ok, err, All,
}
use lattice_hub.EventStore.{Store, Stats}
use lattice_hub.Base.Maps.{Map}
use lattice_hub.EventStore.Ensure.{
  Attempt, TopicError, already_exists, refused, note_refusal, ensure_topics_loop,
  ensure_topics_once, next_backoff, BrokerAnswer, refusals, ensure_topics, ensured, with_stats,
}

-- An attempt never changes what the loop was set up with.
ensured_names :
    (now : ℕ) (answer : BrokerAnswer) (s : Store)
    → ((ensure_topics_once now answer s).0.max_backoff ≡ s.max_backoff)
      × ((ensure_topics_once now answer s).0.topic_names ≡ s.topic_names)
unfolding ensure_topics_once
ensured_names now answer s = (refl, refl)

-- The waits, with the next one due.
abbrev Waits : ℕ → ℕ → List ℕ → Type 0
Waits most b [] = Unit
Waits most b (w ∷ ws) = (w ≡ b) × Waits most (next_backoff most b) ws

loop_waits :
    (most b : ℕ) (rounds : List Attempt) (s : Store)
    → s.max_backoff ≡ most
    → Waits most b (ensure_topics_loop b rounds s).waits
unfolding ensure_topics_loop
loop_waits most b [] s h = tt
loop_waits most b (a ∷ later) s h = elim (Option-cases (ensure_topics_once a.at a.answer s).1) [
  | inl e ↦ rw e tt
  | inr (f, e) ↦ elim (Bool-cases a.is_cancelled) [
    | inl c ↦ rw (e, c) tt
    | inr c ↦
        rw (e, c)
          (
            refl,
            subst
                (λ (m : ℕ).
                  Waits most (next_backoff most b)
                    (ensure_topics_loop (next_backoff m b) later
                      (ensure_topics_once a.at a.answer s).0).waits)
                (sym h)
                (loop_waits most (next_backoff most b) later (ensure_topics_once a.at a.answer s).0
                  ((ensured_names a.at a.answer s).0 ∙ h)),
          )
  ]
]

Waits-bounds :
    (most b low : ℕ) (ws : List ℕ)
    → low ≤ b
    → b ≤ most
    → Waits most b ws
    → All (λ w. (low ≤ w) × (w ≤ most)) ws
Waits-bounds most b low [] h k v = tt
Waits-bounds most b low (w ∷ ws) h k v = (
  omega (arith, v.0),
  Waits-bounds most (next_backoff most b) low ws (ground arith) (ground arith) v.1,
)

-- The loop waits for the backoff it starts with and twice as long each time, never less than that
-- backoff and never longer than the greatest.
ensure_topics_loop_bounds :
    (b : ℕ) (rounds : List Attempt) (s : Store)
    → b ≤ s.max_backoff
    → Waits s.max_backoff b (ensure_topics_loop b rounds s).waits
      × All (λ w. (b ≤ w) × (w ≤ s.max_backoff)) (ensure_topics_loop b rounds s).waits
ensure_topics_loop_bounds b rounds s h =
    let v = loop_waits s.max_backoff b rounds s refl in
    (v, Waits-bounds s.max_backoff b b (ensure_topics_loop b rounds s).waits (omega arith) h v)

-- The broker has the topic, newly or from before.
abbrev Accepts : Option TopicError → Type 0
Accepts none = Unit
Accepts (some already_exists) = Unit
Accepts (some (refused e)) = ⊥

refusals-none :
    (errors : Text → Option TopicError) (ts : List Text)
    → All (λ t. Accepts (errors t)) ts
    → refusals errors [] ts ≡ []
unfolding refusals
refusals-none errors [] h = refl
refusals-none errors (t ∷ ts) h =
    ap (λ (m : Map Text). refusals errors m ts) (noted t (errors t) h.0)
    ∙ refusals-none errors ts h.1
  where
    noted : (t : Text) (e : Option TopicError) → Accepts e → note_refusal t e [] ≡ []
    noted t none a = refl
    noted t (some already_exists) a = refl
    noted t (some (refused e)) a = absurd a

-- An attempt that the broker accepts for every topic succeeds.
ensure_topics_once-accepted :
    (now : ℕ) (errors : Text → Option TopicError) (s : Store)
    → All (λ t. Accepts (errors t)) s.topic_names
    → ((ensure_topics_once now (ok errors) s).1 ≡ none)
      × ((ensure_topics_once now (ok errors) s).0.stats.topics_ready ≡ true)
unfolding ensure_topics_once ensure_topics
ensure_topics_once-accepted now errors s h =
    subst
      (λ (m : Map Text).
        ((with_stats s (ensured now s.topic_names s.stats (ok m))).1 ≡ none)
        × ((with_stats s (ensured now s.topic_names s.stats (ok m))).0.stats.topics_ready ≡ true))
      (sym (refusals-none errors s.topic_names h)) (refl, refl)

once-ok :
    (a : Attempt) (s : Store) (errors : Text → Option TopicError)
    → a.answer ≡ ok errors
    → All (λ t. Accepts (errors t)) s.topic_names
    → ((ensure_topics_once a.at a.answer s).1 ≡ none)
      × ((ensure_topics_once a.at a.answer s).0.stats.topics_ready ≡ true)
once-ok a s errors e h =
    subst
      (λ (r : BrokerAnswer).
        ((ensure_topics_once a.at r s).1 ≡ none)
        × ((ensure_topics_once a.at r s).0.stats.topics_ready ≡ true))
      (sym e) (ensure_topics_once-accepted a.at errors s h)

ensured_ready :
    (now : ℕ) (ts : List Text) (st : Stats) (r : Result Text (Map Text))
    → (ensured now ts st r).1 ≡ none
    → (ensured now ts st r).0.topics_ready ≡ true
ensured_ready now ts st (err e) h = absurd (ground arith)
ensured_ready now ts st (ok []) h = refl
ensured_ready now ts st (ok (f ∷ fs)) h = absurd (ground arith)

once_ready :
    (now : ℕ) (answer : BrokerAnswer) (s : Store)
    → (ensure_topics_once now answer s).1 ≡ none
    → (ensure_topics_once now answer s).0.stats.topics_ready ≡ true
unfolding ensure_topics_once
once_ready now answer s h =
    ensured_ready now s.topic_names s.stats (ensure_topics answer s.topic_names) h

-- The loop does not give up: as long as the store is not closed meanwhile, once the broker accepts
-- every topic, after any number of failures, the loop has ended and the topics are ready.
pub ensure_topics_loop-ends :
    (b : ℕ) (before : List Attempt) (a : Attempt) (later : List Attempt) (s : Store)
    (errors : Text → Option TopicError)
    → All (λ r. r.is_cancelled ≡ false) before
    → a.answer ≡ ok errors
    → All (λ t. Accepts (errors t)) s.topic_names
    → ((ensure_topics_loop b (before ++ a ∷ later) s).ended ≡ true)
      × ((ensure_topics_loop b (before ++ a ∷ later) s).store.stats.topics_ready ≡ true)
unfolding ensure_topics_loop
ensure_topics_loop-ends b [] a later s errors c e h =
    let (q, r) = once-ok a s errors e h in rw q (refl, r)
ensure_topics_loop-ends b (x ∷ before) a later s errors c e h =
    elim (Option-cases (ensure_topics_once x.at x.answer s).1) [
      | inl q ↦ rw q (refl, once_ready x.at x.answer s q)
      | inr (f, q) ↦
          rw (q, c.0)
            (ensure_topics_loop-ends (next_backoff s.max_backoff b) before a later
              (ensure_topics_once x.at x.answer s).0 errors c.1 e
              (subst (λ (ts : List Text). All (λ t. Accepts (errors t)) ts)
                (sym (ensured_names x.at x.answer s).1) h))
    ]
