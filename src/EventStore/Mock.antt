-- ===== src/EventStore/Mock.antt =====
-- The stand-in of the tests: MockEventStore of server/orchestrator/mesh/mock_event_store.go.
use lattice_hub.EventStore.Counts.{IsCounted, total, total-insert}
use lattice_hub.Base.{
  ℕ, ◌+◌, ◌%◌, ◌≡◌, refl, sym, ap, ◌∙◌, inl, inr, true, Option, none, some, List, [], ◌∷◌, ◌++◌,
  arith, Text, text_eq, text_eq_iff, Bool-cases, Option-cases, is_some, or_else, text_eq_refl,
}
use lattice_hub.Base.Maps.{
  Entries, Entries-lookup, Map, lookup, insert, IsMap, insert-IsMap, lookup-insert,
}
use lattice_hub.EventStore.{
  Stats, TopicStats, no_stats, topic_stats, next_count, disconnected_stats,
}

pub record MockEventStore : Type 0 where
  pub messages : List Text
  pub topics : List Text
  pub write_err : Option Text
  pub failed_writes : Map ℕ
  pub last_error : Text
  pub last_failure_at : Option ℕ

unfoldable new_mock_event_store : MockEventStore
new_mock_event_store = record {
  messages = [];
  topics = [];
  write_err = none;
  failed_writes = [];
  last_error = [];
  last_failure_at = none;
}

unfoldable pub mock_write_message : ℕ → Text → Text → MockEventStore → MockEventStore × Option Text
mock_write_message now event topic m = elim m.write_err [
  | some e ↦ (
    record m {
      failed_writes =
          insert topic (next_count (or_else (lookup topic m.failed_writes) 0)) m.failed_writes;
      last_error = e;
      last_failure_at = some now;
    },
    some e,
  )
  | none ↦ (record m { messages = m.messages ++ event ∷ []; topics = m.topics ++ topic ∷ [] }, none)
]

unfoldable all_ready : Map TopicStats → Map TopicStats
all_ready [] = []
all_ready ((t, ts) ∷ m) = (t, record ts { ready = true }) ∷ all_ready m

-- The loop over the failed writes, each topic once.
unfoldable pub count_failures : MockEventStore → Map ℕ → Stats → Stats
unfolding topic_stats
count_failures m [] st = st
count_failures m ((t, n) ∷ fs) st = count_failures m fs (record st {
  topics =
      insert t
        (record (topic_stats st t) {
          failed_writes = n;
          last_error = m.last_error;
          last_failure_at = m.last_failure_at;
        })
        st.topics;
  failed_writes = (st.failed_writes + n) % 18446744073709551616;
})

-- Every topic ready, and no failure.
unfoldable pub ready_stats : Stats
unfolding disconnected_stats all_ready
ready_stats = record disconnected_stats {
  connected = true;
  topics_ready = true;
  topics = all_ready disconnected_stats.topics;
}

unfoldable pub mock_stats : MockEventStore → Stats
unfolding ready_stats count_failures
mock_stats m =
    let st = count_failures m m.failed_writes ready_stats in
    record st { last_error = m.last_error; last_failure_at = m.last_failure_at }

-- No topic of the list has a count yet.
abbrev Fresh : Map ℕ → Stats → Type 0
Fresh fs st = (t : Text) → is_some (lookup t fs) ≡ true → (topic_stats st t).failed_writes ≡ 0

count_failures-IsCounted :
    (m : MockEventStore) (fs : Map ℕ) (st : Stats)
    → IsMap fs
    → Fresh fs st
    → IsCounted st
    → IsCounted (count_failures m fs st)
unfolding count_failures lookup
count_failures-IsCounted m [] st v f h = h
count_failures-IsCounted m ((t, n) ∷ fs) st v f h =
    let ts : TopicStats = record (topic_stats st t) {
      failed_writes = n;
      last_error = m.last_error;
      last_failure_at = m.last_failure_at;
    } in
    count_failures-IsCounted m fs _ v.1 (fresh ts) (counted ts)
  where
    fresh :
        (ts : TopicStats) (u : Text)
        → is_some (lookup u fs) ≡ true
        → (or_else (lookup u (insert t ts st.topics)) no_stats).failed_writes ≡ 0
    fresh ts u e = elim (Bool-cases (text_eq t u)) [
      | inl q ↦
          let same = (text_eq_iff t u).0 q in
          absurd (ground (arith, e, ap (λ (x : Text). lookup x fs) (sym same) ∙ v.0))
      | inr q ↦ rw (lookup-insert t u ts st.topics, q) (f u (rw q e))
    ]

    counted :
        (ts : TopicStats)
        → (st.failed_writes + ts.failed_writes) % 18446744073709551616
          ≡ total (insert t ts st.topics) % 18446744073709551616
    counted ts =
        let zero_before : (topic_stats st t).failed_writes ≡ 0 = f t (rw (text_eq_refl t) refl) in
        omega (arith, h, zero_before, total-insert t ts st.topics)

abbrev NoFailures : Text → TopicStats → Type 0
NoFailures t ts = ts.failed_writes ≡ 0

no_failures :
    (m : Map TopicStats) (t : Text)
    → Entries NoFailures m
    → (or_else (lookup t m) no_stats).failed_writes ≡ 0
no_failures m t h = elim (Option-cases (lookup t m)) [
  | inl e ↦ rw e refl
  | inr (ts, e) ↦ rw e (Entries-lookup NoFailures t m h e)
]

ready-Entries : Entries NoFailures ready_stats.topics
unfolding ready_stats disconnected_stats all_ready insert text_eq
ready-Entries = (refl, (refl, (refl, tt)))

ready_stats-none : (t : Text) → (topic_stats ready_stats t).failed_writes ≡ 0
unfolding topic_stats
ready_stats-none t = no_failures ready_stats.topics t ready-Entries

ready_stats-IsCounted : IsCounted ready_stats
unfolding ready_stats disconnected_stats all_ready insert text_eq
ready_stats-IsCounted = refl

pub mock_stats-IsCounted : (m : MockEventStore) → IsMap m.failed_writes → IsCounted (mock_stats m)
unfolding mock_stats
mock_stats-IsCounted m v =
    count_failures-IsCounted m m.failed_writes ready_stats v (λ t e. ready_stats-none t)
      ready_stats-IsCounted

pub mock_write_message-IsMap :
    (now : ℕ) (event topic : Text) (m : MockEventStore)
    → IsMap m.failed_writes
    → IsMap (mock_write_message now event topic m).0.failed_writes
unfolding mock_write_message
mock_write_message-IsMap now event topic m v = elim (Option-cases m.write_err) [
  | inl e ↦ rw (e, mock_write_message) v
  | inr (e, q) ↦
      rw (q, mock_write_message)
        (insert-IsMap topic (next_count (or_else (lookup topic m.failed_writes) 0)) m.failed_writes
          v)
]

-- What is written, and the error that WriteErr is set to before.
pub record MockWrite : Type 0 where
  pub at : ℕ
  pub event : Text
  pub topic : Text
  pub failing : Option Text

unfoldable mock_writes : List MockWrite → MockEventStore → MockEventStore
mock_writes [] m = m
mock_writes (w ∷ ws) m =
    mock_writes ws (mock_write_message w.at w.event w.topic (record m { write_err = w.failing })).0

mock_writes-kept :
    (ws : List MockWrite) (m : MockEventStore)
    → IsMap m.failed_writes
    → IsMap (mock_writes ws m).failed_writes
unfolding mock_writes
mock_writes-kept [] m v = v
mock_writes-kept (w ∷ ws) m v =
    mock_writes-kept ws _
      (mock_write_message-IsMap w.at w.event w.topic (record m { write_err = w.failing }) v)

-- The stand-in counts as the store does: whatever is written and whatever fails, the count of all
-- failed writes is the sum of the topics' counts, modulo 2 ^ 64.
mock_writes-IsCounted :
    (ws : List MockWrite) → IsCounted (mock_stats (mock_writes ws new_mock_event_store))
unfolding new_mock_event_store
mock_writes-IsCounted ws =
    mock_stats-IsCounted (mock_writes ws new_mock_event_store)
      (mock_writes-kept ws new_mock_event_store tt)
