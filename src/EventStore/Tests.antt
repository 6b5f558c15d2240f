-- ===== src/EventStore/Tests.antt =====
-- A store whose broker refuses a topic at first.
use lattice_hub.Base.{
  ◌≡◌, refl, true, false, Option, none, some, List, [], ◌∷◌, if◌then◌else◌, Text, codes, text_eq,
  ok, ℕ, ◌%◌, ◌+◌,
}
use lattice_hub.EventStore.{new_store}
use lattice_hub.EventStore.Contract.{StoreStep, writes, meanwhile, run_writes, error_labels}
use lattice_hub.EventStore.Contract.Kafka
use lattice_hub.EventStore.Contract.Kafka.{kafka_store, expected, kafka_writes_lem}
use lattice_hub.EventStore.Ensure.{TopicError, refused, already_exists, Attempt, ensure_topics_loop}
use lattice_hub.EventStore.Calls.{StoreCall, connects, writes, completes, retries, run_calls}
use lattice_hub.EventStore.Counts.{IsCounted, run_calls-IsCounted}
use lattice_hub.EventStore.Ready.{IsReady, run_calls-IsReady}
use lattice_hub.EventStore.Backoff.{ensure_topics_loop-ends}

abbrev accepts : Text → Option TopicError
accepts t = if text_eq t (codes "mesh-messages") then some already_exists else none

abbrev refuses : Text → Option TopicError
refuses t = some (refused (codes "no leader"))

abbrev some_calls : List StoreCall
some_calls =
    writes 1 none (codes "mesh-messages")
    ∷ connects 2 none (ok refuses)
    ∷ completes 3 (codes "mesh-messages" ∷ codes "motion-trigger" ∷ []) (some (codes "lost"))
    ∷ retries 4 (ok accepts)
    ∷ []

run_calls-IsCounted_example : IsCounted (run_calls some_calls new_store).stats
run_calls-IsCounted_example = run_calls-IsCounted some_calls

run_calls-IsReady_example : IsReady (run_calls some_calls new_store)
run_calls-IsReady_example = run_calls-IsReady some_calls

abbrev fails : Attempt
fails = record { at = 1; answer = ok refuses; is_cancelled = false }

abbrev works : Attempt
works = record { at = 9; answer = ok accepts; is_cancelled = false }

ensure_topics_loop-ends_example :
    ((ensure_topics_loop 1000000000 (fails ∷ fails ∷ works ∷ []) new_store).ended ≡ true)
    × ((ensure_topics_loop 1000000000
          (fails ∷ fails ∷ works ∷ [])
          new_store).store.stats.topics_ready
        ≡ true)
unfolding new_store text_eq
ensure_topics_loop-ends_example =
    ensure_topics_loop-ends 1000000000 (fails ∷ fails ∷ []) works [] new_store accepts
      (refl, (refl, tt)) refl (tt, (tt, (tt, tt)))

-- Two writes before the hub has reached Kafka, and a batch of two that is lost.
abbrev early_writes : List (StoreStep (ℕ × (List Text × Option Text)))
early_writes =
    writes 1 none (codes "{}") (codes "mesh-messages")
    ∷ meanwhile (2, (codes "mesh-messages" ∷ codes "motion-trigger" ∷ [], some (codes "lost")))
    ∷ writes 3 none (codes "{}") (codes "motion-trigger")
    ∷ []

kafka_writes_lem_example :
    let (t, ls) = run_writes kafka_store Kafka.completes early_writes new_store in
    IsCounted t.stats
    × (t.stats.failed_writes
        ≡ (new_store.stats.failed_writes + expected new_store.has_writer early_writes)
          % 18446744073709551616)
    × (error_labels ls ≡ (if new_store.has_writer then 0 else 2))
unfolding kafka_store new_store run_calls
kafka_writes_lem_example = kafka_writes_lem early_writes new_store (run_calls-IsCounted [])
