-- ===== src/EventStore.antt =====
-- The event store: server/orchestrator/eventStore (eventstore.go, topics.go, ensure.go, kafka.go),
-- the hub's writer to Kafka and its account of what the broker did. The Kafka client is outside the
-- repository: what it answers is an argument. An error is its text.
use lattice_hub.Base.{
  ℕ, ◌+◌, ◌-◌, ◌*◌, ◌%◌, Bool, false, not, Option, none, some, List, [], ◌∷◌, if◌then◌else◌, Text,
  codes, or_else,
}
pub mod Ensure
pub mod Calls
pub mod Contract
pub mod Counts
pub mod Mock
pub mod Ready
pub mod Backoff
mod Tests
use lattice_hub.Base.Maps.{Map, lookup, insert}

pub record TopicStats : Type 0 where
  pub ready : Bool
  pub failed_writes : ℕ
  pub last_error : Text
  pub last_failure_at : Option ℕ

pub record Stats : Type 0 where
  pub connected : Bool
  pub topics_ready : Bool
  pub topics : Map TopicStats
  pub failed_writes : ℕ
  pub last_error : Text
  pub last_failure_at : Option ℕ

abbrev pub no_stats : TopicStats
no_stats = record { ready = false; failed_writes = 0; last_error = []; last_failure_at = none }

-- Topics.
abbrev producer_topics : List Text
producer_topics = codes "motion-trigger" ∷ codes "mesh-enrollment" ∷ codes "mesh-messages" ∷ []

abbrev none_of : List Text → Map TopicStats
none_of [] = []
none_of (t ∷ ts) = insert t no_stats (none_of ts)

unfoldable pub disconnected_stats : Stats
disconnected_stats = record {
  connected = false;
  topics_ready = false;
  topics = none_of producer_topics;
  failed_writes = 0;
  last_error = [];
  last_failure_at = none;
}

pub record Store : Type 0 where
  -- The writer is not nil.
  pub has_writer : Bool
  pub topic_names : List Text
  pub initial_backoff : ℕ
  pub max_backoff : ℕ
  -- A loop is creating topics in the background.
  pub is_ensuring : Bool
  pub stats : Stats

unfoldable pub new_store : Store
unfolding disconnected_stats
new_store = record {
  has_writer = false;
  topic_names = producer_topics;
  initial_backoff = 1000000000;
  max_backoff = 30 * 1000000000;
  is_ensuring = false;
  stats = disconnected_stats;
}

-- topicStatsLocked.
unfoldable pub topic_stats : Stats → Text → TopicStats
topic_stats st t = or_else (lookup t st.topics) no_stats

-- The counters are uint64.
abbrev pub next_count : ℕ → ℕ
next_count n = (n + 1) % 18446744073709551616

abbrev pub failed_once : ℕ → Text → TopicStats → TopicStats
failed_once now e ts = record ts {
  failed_writes = next_count ts.failed_writes;
  last_error = e;
  last_failure_at = some now;
}

unfoldable pub record_failure : ℕ → Text → Text → Stats → Stats
unfolding topic_stats
record_failure now t e st = record st {
  topics = insert t (failed_once now e (topic_stats st t)) st.topics;
  failed_writes = next_count st.failed_writes;
  last_error = e;
  last_failure_at = some now;
}

-- recordWriteFailure.
unfoldable pub record_write_failure : ℕ → Text → Text → Store → Store
unfolding record_failure
record_write_failure now t e s = record s { stats = record_failure now t e s.stats }

-- The writer's Completion callback: the topics of the messages of a batch, and what became of it.
unfoldable pub completion : ℕ → List Text → Option Text → Store → Store
unfolding record_write_failure
completion now ts none s = s
completion now [] (some e) s = s
completion now (t ∷ ts) (some e) s = completion now ts (some e) (record_write_failure now t e s)

-- WriteMessage, with what the writer answered: only a store that never connected reports an error.
unfoldable pub write_message : ℕ → Option Text → Text → Store → Store × Option Text
unfolding record_write_failure
write_message now answer t s =
    if not s.has_writer
    then (record_write_failure now t (codes "not connected") s, some (codes "not connected"))
    else elim answer [ none ↦ (s, none) | some e ↦ (record_write_failure now t e s, none) ]

abbrev pub set_connected : Bool → Store → Store
set_connected b s = record s { stats = record s.stats { connected = b } }

-- Close: the loop is stopped, and what the writer's Close reports is reported.
unfoldable pub close : Option Text → Store → Store × Option Text
close answer s =
    (set_connected false (record s { is_ensuring = false }), if s.has_writer then answer else none)

-- KafkaStats of server/orchestrator/mesh/server.go.
unfoldable kafka_stats : Option Store → Stats
unfolding disconnected_stats
kafka_stats none = disconnected_stats
kafka_stats (some s) = s.stats
