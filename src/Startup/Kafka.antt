-- ===== src/Startup/Kafka.antt =====
-- Connecting to Kafka at the start: the loop in main of server/orchestrator/main.go.
use lattice_hub.Base.{
  ℕ, ◌+◌, ◌≡◌, refl, inl, inr, true, false, not, Option, none, some, List, [], ◌∷◌, arith, ltb,
  if◌then◌else◌, Text, Option-cases, is_some,
}
use lattice_hub.EventStore.{Store, new_store, disconnected_stats}
use lattice_hub.EventStore.Ensure.{BrokerAnswer, connect}

-- One attempt: the time, what the broker's port answers, and what the request for topics answers.
pub record Try : Type 0 where
  pub at : ℕ
  pub dial : Option Text
  pub answer : BrokerAnswer

abbrev max_retries : ℕ
max_retries = 3

abbrev attempted : Try → Store × Option Text
attempted t = connect t.at t.dial t.answer new_store

-- From the i-th attempt on: a store that fails to connect is dropped before the next attempt, but
-- not after the last one.
unfoldable retry_connect : ℕ → List Try → Option Store → Option Store
unfolding connect new_store
retry_connect i [] current = current
retry_connect i (t ∷ ts) current =
    let (s, e) = attempted t in
    let rest = retry_connect (i + 1) ts (if ltb (i + 1) max_retries then none else some s) in
    if not (is_some e) then some s else rest

unfoldable connect_kafka : Try → Try → Try → Option Store
unfolding retry_connect
connect_kafka a b c = retry_connect 0 (a ∷ b ∷ c ∷ []) none

attempt_failed :
    (t : Try)
    → is_some t.dial ≡ true
    → ((attempted t).0 ≡ new_store) × (is_some (attempted t).1 ≡ true)
unfolding connect
attempt_failed t h = elim (Option-cases t.dial) [
  | inl e ↦ absurd (ground (arith, e))
  | inr (x, e) ↦ rw (attempted, e) (refl, refl)
]

-- The hub is never without an event store: also where every attempt failed it keeps one, which is
-- not connected, whose topics are not ready, and which has no writer.
connect_kafka-failed :
    (a b c : Try)
    → is_some a.dial ≡ true
    → is_some b.dial ≡ true
    → is_some c.dial ≡ true
    → (s : Store) × (connect_kafka a b c ≡ some s)
      × (s.has_writer ≡ false)
      × (s.stats.connected ≡ false)
      × (s.stats.topics_ready ≡ false)
unfolding connect_kafka connect new_store disconnected_stats
connect_kafka-failed a b c x y z =
    let (_, fa) = attempt_failed a x in
    let (_, fb) = attempt_failed b y in
    let (sc, fc) = attempt_failed c z in (new_store, rw (fa, fb, fc, sc) refl, refl, refl, refl)
