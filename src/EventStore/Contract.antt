-- ===== src/EventStore/Contract.antt =====
-- What the hub asks of an event store: EventStoreInterface of
-- server/orchestrator/eventStore/eventstore.go, with WriteMessage and Stats as the hub calls them:
-- each write is followed by RecordKafkaWrite of server/orchestrator/mesh/metrics.go. The store of
-- Kafka and the stand-in of the tests fill the interface in Contract.Kafka and Contract.Mock.
use lattice_hub.Base.{
  ℕ, ◌+◌, ◌%◌, ◌≡◌, Option, none, some, List, [], ◌∷◌, arith, if◌then◌else◌, Text, codes, text_eq,
  ◌-◌,
}
pub mod Kafka
pub mod Mock
use lattice_hub.EventStore.{Stats}
use lattice_hub.EventStore.Ensure.{BrokerAnswer}
use lattice_hub.EventStore.Counts.{IsCounted}
use lattice_hub.Metrics.{record_kafka_write}

abbrev pub failed : Option Text → ℕ
failed none = 0
failed (some e) = 1

-- Connect, WriteMessage, Close and Stats, with what the client of Kafka answers to each.
pub record EventStoreInterface (S : Type 0) : Type 0 where
  pub connect : ℕ → Option Text → BrokerAnswer → S → S × Option Text
  pub write_message : ℕ → Option Text → Text → Text → S → S × Option Text
  pub close : Option Text → S → S × Option Text
  pub stats : S → Stats

-- A way to account for the writes of a store, to which B happens between the calls: what becomes of
-- a write, and how many writes are reported lost afterwards. Both stores have one.
pub record Accounting {S : Type 0} (i : EventStoreInterface S) (B : Type 0) : Type 1 where
  pub happens : B → S → S
  pub outcome : Option Text → S → Option Text
  pub losses : B → ℕ
  pub IsValid : S → Type 0
  pub write_message-IsValid :
      (now : ℕ) (answer : Option Text) (event topic : Text) (s : S)
      → IsValid s
      → IsValid (i.write_message now answer event topic s).0
  pub write_message-counted :
      (now : ℕ) (answer : Option Text) (event topic : Text) (s : S)
      → IsValid s
      → (i.stats (i.write_message now answer event topic s).0).failed_writes
        ≡ ((i.stats s).failed_writes + failed (outcome answer s)) % 18446744073709551616
  pub happens-IsValid : (b : B) (s : S) → IsValid s → IsValid (happens b s)
  pub happens-counted :
      (b : B) (s : S)
      → IsValid s
      → (i.stats (happens b s)).failed_writes
        ≡ ((i.stats s).failed_writes + losses b) % 18446744073709551616
  pub stats-IsCounted : (s : S) → IsValid s → IsCounted (i.stats s)

-- A write of the hub, with the time and the broker's answer, or what happens to the store.
pub data StoreStep (B : Type 0) : Type 0 where
  writes : ℕ → Option Text → Text → Text → StoreStep B
  meanwhile : B → StoreStep B

-- The writes that the metrics count as errors.
abbrev pub error_labels : List (Text × Text) → ℕ
error_labels [] = 0
error_labels ((t, label) ∷ ls) = (if text_eq label (codes "error") then 1 else 0) + error_labels ls

module _ {S B : Type 0} (i : EventStoreInterface S) (happens : B → S → S) where
  -- The hub's writes in sequence, and the labels that they are counted under.
  unfoldable pub run_writes : List (StoreStep B) → S → S × List (Text × Text)
  unfolding record_kafka_write
  run_writes [] s = (s, [])
  run_writes (writes now answer event topic ∷ ws) s =
      let (t, e) = i.write_message now answer event topic s in
      let (u, ls) = run_writes ws t in (u, record_kafka_write topic e ∷ ls)
  run_writes (meanwhile b ∷ ws) s = run_writes ws (happens b s)

module _ {S B : Type 0} (i : EventStoreInterface S) (c : Accounting i B) where
  -- The writes that fail, at once or afterwards.
  unfoldable pub failures : List (StoreStep B) → S → ℕ
  failures [] s = 0
  failures (writes now answer event topic ∷ ws) s =
      failed (c.outcome answer s) + failures ws (i.write_message now answer event topic s).0
  failures (meanwhile b ∷ ws) s = c.losses b + failures ws (c.happens b s)

  -- After any writes the count has grown by the number of failures, and is the sum of the topics'
  -- counts.
  pub run_writes-IsCounted :
      (ws : List (StoreStep B)) (s : S)
      → c.IsValid s
      → let t = (run_writes i c.happens ws s).0 in
        IsCounted (i.stats t)
        × ((i.stats t).failed_writes
            ≡ ((i.stats s).failed_writes + failures ws s) % 18446744073709551616)
  unfolding run_writes failures
  run_writes-IsCounted [] s v =
      let counted = c.stats-IsCounted s v in (counted, omega (arith, counted))
  run_writes-IsCounted (writes now answer event topic ∷ ws) s v =
      let next = i.write_message now answer event topic s in
      let (counted, grown) =
        run_writes-IsCounted ws next.0 (c.write_message-IsValid now answer event topic s v) in
      (counted, omega (arith, grown, c.write_message-counted now answer event topic s v))
  run_writes-IsCounted (meanwhile b ∷ ws) s v =
      let (counted, grown) = run_writes-IsCounted ws (c.happens b s) (c.happens-IsValid b s v) in
      (counted, omega (arith, grown, c.happens-counted b s v))
