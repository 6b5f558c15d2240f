-- ===== src/EventStore/Contract/Kafka.antt =====
-- The store of Kafka, server/orchestrator/eventStore/kafka.go, as an event store; what happens to
-- it is the Completion callback of its writer.
use lattice_hub.EventStore.{
  close, Store, write_message, completion, record_write_failure, record_failure,
}
use lattice_hub.EventStore.Ensure.{connect}
use lattice_hub.Metrics.{record_kafka_write}
use lattice_hub.EventStore.Contract.{
  Accounting, StoreStep, writes, meanwhile, run_writes, failures, error_labels,
  run_writes-IsCounted, EventStoreInterface, failed,
}
use lattice_hub.Base.{
  if◌then◌else◌, Bool, codes, text_eq, ℕ, ◌+◌, ◌%◌, ◌≡◌, refl, inl, inr, Option, none, some, List,
  [], ◌∷◌, arith, Text, length, Bool-cases, Option-cases, ap, ◌∙◌,
}
use lattice_hub.EventStore.Counts.{
  IsCounted, write_message-IsCounted, completion-IsCounted, record_failure-IsCounted,
}

-- What becomes of a write, on what the broker answers.
abbrev written : Option Text → Store → Option Text
written answer s = if s.has_writer then answer else some (codes "not connected")

-- A batch that the writer completes: its topics, and the error.
abbrev Batch : Type 0
Batch = List Text × Option Text

abbrev lost : Batch → ℕ
lost (ts, none) = 0
lost (ts, some e) = length ts

pub write_message-counted :
    (now : ℕ) (answer : Option Text) (t : Text) (s : Store)
    → IsCounted s.stats
    → (write_message now answer t s).0.stats.failed_writes
      ≡ (s.stats.failed_writes + failed (written answer s)) % 18446744073709551616
unfolding write_message record_write_failure record_failure
write_message-counted now answer t s h = elim (Bool-cases s.has_writer) [
  | inr e ↦ rw e refl
  | inl e ↦ elim (Option-cases answer) [
    | inl q ↦ rw (e, q) (omega (arith, h))
    | inr (f, q) ↦ rw (e, q) refl
  ]
]

completion-counted :
    (now : ℕ) (ts : List Text) (e : Text) (s : Store)
    → IsCounted s.stats
    → (completion now ts (some e) s).stats.failed_writes
      ≡ (s.stats.failed_writes + length ts) % 18446744073709551616
unfolding completion record_write_failure record_failure
completion-counted now [] e s h = omega (arith, h)
completion-counted now (t ∷ ts) e s h = omega (
  arith,
  completion-counted now ts e (record_write_failure now t e s)
      (record_failure-IsCounted now t e s.stats h),
)

batch-counted :
    (now : ℕ) (b : Batch) (s : Store)
    → IsCounted s.stats
    → (completion now b.0 b.1 s).stats.failed_writes
      ≡ (s.stats.failed_writes + lost b) % 18446744073709551616
unfolding completion
batch-counted now (ts, none) s h = omega (arith, h)
batch-counted now (ts, some e) s h = completion-counted now ts e s h

unfoldable pub kafka_store : EventStoreInterface Store
kafka_store = record {
  connect = connect;
  write_message = λ now answer event topic s. write_message now answer topic s;
  close = close;
  stats = λ s. s.stats;
}

-- The callback, at a time.
abbrev pub completes : ℕ × Batch → Store → Store
completes b s = completion b.0 b.1.0 b.1.1 s

accounting : Accounting kafka_store (ℕ × Batch)
unfolding kafka_store
accounting = record {
  happens = completes;
  outcome = written;
  losses = λ b. lost b.1;
  IsValid = λ s. IsCounted s.stats;
  write_message-IsValid =
      λ now answer event topic s v. write_message-IsCounted now answer topic s v;
  write_message-counted = λ now answer event topic s v. write_message-counted now answer topic s v;
  happens-IsValid = λ b s v. completion-IsCounted b.0 b.1.0 b.1.1 s v;
  happens-counted = λ b s v. batch-counted b.0 b.1 s v;
  stats-IsCounted = λ s v. v;
}

-- The failures of some steps, by what the broker answered alone: each write before the first
-- connection, and after it each that the writer refuses; and each message of a batch that is lost.
abbrev pub expected : Bool → List (StoreStep (ℕ × Batch)) → ℕ
expected has_writer [] = 0
expected has_writer (writes now answer event topic ∷ ws) =
    (if has_writer then failed answer else 1) + expected has_writer ws
expected has_writer (meanwhile b ∷ ws) = lost b.1 + expected has_writer ws

abbrev write_count : List (StoreStep (ℕ × Batch)) → ℕ
write_count [] = 0
write_count (writes now answer event topic ∷ ws) = 1 + write_count ws
write_count (meanwhile b ∷ ws) = write_count ws

write_message-has_writer :
    (now : ℕ) (answer : Option Text) (t : Text) (s : Store)
    → (write_message now answer t s).0.has_writer ≡ s.has_writer
unfolding write_message record_write_failure
write_message-has_writer now answer t s = ground arith

completion-has_writer :
    (now : ℕ) (ts : List Text) (e : Option Text) (s : Store)
    → (completion now ts e s).has_writer ≡ s.has_writer
unfolding completion record_write_failure
completion-has_writer now ts none s = refl
completion-has_writer now [] (some e) s = refl
completion-has_writer now (t ∷ ts) (some e) s =
    completion-has_writer now ts (some e) (record_write_failure now t e s)

failed-written :
    (answer : Option Text) (s : Store)
    → failed (written answer s) ≡ (if s.has_writer then failed answer else 1)
failed-written answer s = elim (Bool-cases s.has_writer) [ inl e ↦ rw e refl | inr e ↦ rw e refl ]

failures_lem :
    (ws : List (StoreStep (ℕ × Batch))) (s : Store)
    → failures kafka_store accounting ws s ≡ expected s.has_writer ws
unfolding failures kafka_store accounting
failures_lem [] s = refl
failures_lem (writes now answer event topic ∷ ws) s =
    let next = (write_message now answer topic s).0 in
    omega (
      arith,
      failed-written answer s,
      failures_lem ws next
          ∙ ap (λ (b : Bool). expected b ws) (write_message-has_writer now answer topic s),
    )
failures_lem (meanwhile b ∷ ws) s = omega (
  arith,
  failures_lem ws (completes b s)
      ∙ ap (λ (w : Bool). expected w ws) (completion-has_writer b.0 b.1.0 b.1.1 s),
)

label_lem :
    (now : ℕ) (answer : Option Text) (topic : Text) (s : Store)
    → error_labels (record_kafka_write topic (write_message now answer topic s).1 ∷ [])
      ≡ (if s.has_writer then 0 else 1)
unfolding write_message record_kafka_write text_eq
label_lem now answer topic s = elim (Bool-cases s.has_writer) [
  | inr e ↦ rw e refl
  | inl e ↦ elim (Option-cases answer) [ inl q ↦ rw (e, q) refl | inr (f, q) ↦ rw (e, q) refl ]
]

labels_lem :
    (ws : List (StoreStep (ℕ × Batch))) (s : Store)
    → error_labels (run_writes kafka_store completes ws s).1
      ≡ (if s.has_writer then 0 else write_count ws)
unfolding run_writes kafka_store
labels_lem [] s = ground arith
labels_lem (writes now answer event topic ∷ ws) s =
    let (next, e) = write_message now answer topic s in
    let rest =
      labels_lem ws next
      ∙ ap (λ (b : Bool). if b then 0 else write_count ws)
          (write_message-has_writer now answer topic s) in
    ground (arith, label_lem now answer topic s, rest)
labels_lem (meanwhile b ∷ ws) s =
    labels_lem ws (completes b s)
    ∙ ap (λ (w : Bool). if w then 0 else write_count ws) (completion-has_writer b.0 b.1.0 b.1.1 s)

-- After any writes of the hub and any batches that the writer completes, the store's count of
-- failed writes has grown by the failures that the broker's answers make, and is the sum of the
-- topics' counts, both modulo 2 ^ 64. The metrics count as errors all of the writes to a store that
-- never connected, and none of the writes to one that has, whatever the broker answered.
pub kafka_writes_lem :
    (ws : List (StoreStep (ℕ × Batch))) (s : Store)
    → IsCounted s.stats
    → let (t, ls) = run_writes kafka_store completes ws s in
      IsCounted t.stats
      × (t.stats.failed_writes
          ≡ (s.stats.failed_writes + expected s.has_writer ws) % 18446744073709551616)
      × (error_labels ls ≡ (if s.has_writer then 0 else write_count ws))
unfolding kafka_store accounting
kafka_writes_lem ws s v =
    let (counted, grown) = run_writes-IsCounted kafka_store accounting ws s v in
    (counted, omega (arith, grown, failures_lem ws s), labels_lem ws s)
