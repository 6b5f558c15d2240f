-- ===== src/EventStore/Contract/Mock.antt =====
-- The stand-in of the tests, server/orchestrator/mesh/mock_event_store.go, as an event store; what
-- happens to it is that a test sets WriteErr.
use lattice_hub.Base.{
  ℕ, ◌+◌, ◌%◌, ◌<◌, ◌≡◌, inl, inr, Option, [], ◌∷◌, arith, Text, Bool-cases, Option-cases, or_else,
  text_eq, none,
}
use lattice_hub.Base.Maps.{Map, lookup, insert, IsMap}
use lattice_hub.EventStore.{Stats, TopicStats, topic_stats, next_count}
use lattice_hub.EventStore.Mock.{
  MockEventStore, mock_write_message, mock_stats, mock_stats-IsCounted, mock_write_message-IsMap,
  count_failures, ready_stats,
}
use lattice_hub.EventStore.Contract.{EventStoreInterface, Accounting, failed}

abbrev sum : Map ℕ → ℕ
sum [] = 0
sum ((t, n) ∷ fs) = n + sum fs

sum-insert :
    (t : Text) (n : ℕ) (fs : Map ℕ) → sum (insert t n fs) + or_else (lookup t fs) 0 ≡ sum fs + n
unfolding insert lookup
sum-insert t n [] = omega arith
sum-insert t n ((j, k) ∷ fs) = elim (Bool-cases (text_eq j t)) [
  | inl e ↦ rw (e, insert, lookup) (omega arith)
  | inr e ↦ rw (e, insert, lookup) (omega (arith, sum-insert t n fs))
]

count_failures-sum :
    (m : MockEventStore) (fs : Map ℕ) (st : Stats)
    → (count_failures m fs st).failed_writes % 18446744073709551616
      ≡ (st.failed_writes + sum fs) % 18446744073709551616
unfolding count_failures
count_failures-sum m [] st = omega arith
count_failures-sum m ((t, n) ∷ fs) st =
    let ts : TopicStats = record (topic_stats st t) {
      failed_writes = n;
      last_error = m.last_error;
      last_failure_at = m.last_failure_at;
    } in
    omega (
      arith,
      count_failures-sum m fs (record st {
        topics = insert t ts st.topics;
        failed_writes = (st.failed_writes + n) % 18446744073709551616;
      }),
    )

mock_stats-sum :
    (m : MockEventStore)
    → (mock_stats m).failed_writes % 18446744073709551616
      ≡ sum m.failed_writes % 18446744073709551616
unfolding mock_stats ready_stats
mock_stats-sum m = omega (arith, count_failures-sum m m.failed_writes ready_stats)

-- The count is below 2 ^ 64.
mock_stats-lt :
    (m : MockEventStore)
    → IsMap m.failed_writes
    → (mock_stats m).failed_writes < 18446744073709551616
mock_stats-lt m v = omega (arith, mock_stats-IsCounted m v)

mock_write_message-sum :
    (now : ℕ) (event topic : Text) (m : MockEventStore)
    → sum (mock_write_message now event topic m).0.failed_writes % 18446744073709551616
      ≡ (sum m.failed_writes + failed m.write_err) % 18446744073709551616
unfolding mock_write_message
mock_write_message-sum now event topic m = elim (Option-cases m.write_err) [
  | inl e ↦ rw (e, mock_write_message) (omega arith)
  | inr (f, e) ↦
      let before = or_else (lookup topic m.failed_writes) 0 in
      rw (e, mock_write_message)
        (omega (arith, sum-insert topic (next_count before) m.failed_writes))
]

-- A count below 2 ^ 64 that grows by k, on what the topics' counts say.
counts :
    (a b k x y : ℕ)
    → a < 18446744073709551616
    → a % 18446744073709551616 ≡ x % 18446744073709551616
    → b % 18446744073709551616 ≡ y % 18446744073709551616
    → x % 18446744073709551616 ≡ (y + k) % 18446744073709551616
    → a ≡ (b + k) % 18446744073709551616
counts a b k x y lt ax by grown = omega arith

pub write_message-counted :
    (now : ℕ) (event topic : Text) (m : MockEventStore)
    → IsMap m.failed_writes
    → (mock_stats (mock_write_message now event topic m).0).failed_writes
      ≡ ((mock_stats m).failed_writes + failed m.write_err) % 18446744073709551616
write_message-counted now event topic m v =
    let next = (mock_write_message now event topic m).0 in
    counts (mock_stats next).failed_writes (mock_stats m).failed_writes (failed m.write_err)
      (sum next.failed_writes) (sum m.failed_writes)
      (mock_stats-lt next (mock_write_message-IsMap now event topic m v)) (mock_stats-sum next)
      (mock_stats-sum m) (mock_write_message-sum now event topic m)

-- A test that sets WriteErr changes no count.
set-counted :
    (e : Option Text) (m : MockEventStore)
    → IsMap m.failed_writes
    → (mock_stats (record m { write_err = e })).failed_writes
      ≡ ((mock_stats m).failed_writes + 0) % 18446744073709551616
set-counted e m v =
    let next = record m { write_err = e } in
    counts (mock_stats next).failed_writes (mock_stats m).failed_writes 0 (sum m.failed_writes)
      (sum m.failed_writes) (mock_stats-lt next v) (mock_stats-sum next) (mock_stats-sum m)
      (omega arith)

unfoldable mock_store : EventStoreInterface MockEventStore
mock_store = record {
  connect = λ now dial answer m. (m, none);
  write_message = λ now answer event topic m. mock_write_message now event topic m;
  close = λ answer m. (m, none);
  stats = mock_stats;
}

accounting : Accounting mock_store (Option Text)
unfolding mock_store
accounting = record {
  happens = λ b m. record m { write_err = b };
  outcome = λ answer m. m.write_err;
  losses = λ b. 0;
  IsValid = λ m. IsMap m.failed_writes;
  write_message-IsValid =
      λ now answer event topic m v. mock_write_message-IsMap now event topic m v;
  write_message-counted = λ now answer event topic m v. write_message-counted now event topic m v;
  happens-IsValid = λ b m v. v;
  happens-counted = λ b m v. set-counted b m v;
  stats-IsCounted = mock_stats-IsCounted;
}
