-- ===== src/EventStore/Counts.antt =====
-- The failure counts of the event store, in all and for each topic.
use lattice_hub.EventStore.Calls.{
  run_call, run_calls, StoreCall, writes, completes, connects, retries, closes,
}
use lattice_hub.EventStore.Ensure.{
  mark_all, connect, ensured, ensure_topics_once, mark, BrokerAnswer, ensure_topics,
}
use lattice_hub.Base.{
  ℕ, ◌+◌, ◌%◌, ◌≡◌, inl, inr, [], ◌∷◌, arith, Text, text_eq, Bool-cases, or_else, refl, sym, ap,
  ◌∙◌, true, false, Option, none, some, List, codes, Option-cases, Result, ok, err,
}
use lattice_hub.Base.Maps.{Map, lookup, insert}
use lattice_hub.EventStore.{
  Stats, TopicStats, no_stats, topic_stats, record_failure, failed_once, next_count, completion,
  new_store, write_message, record_write_failure, disconnected_stats, close, Store, set_connected,
}

-- The failed writes of all topics.
abbrev pub total : Map TopicStats → ℕ
total [] = 0
total ((t, ts) ∷ m) = ts.failed_writes + total m

-- The sum counts as the counter does, modulo 2 ^ 64.
abbrev pub IsCounted : Stats → Type 0
IsCounted st = st.failed_writes ≡ total st.topics % 18446744073709551616

pub total-insert :
    (t : Text) (ts : TopicStats) (m : Map TopicStats)
    → total (insert t ts m) + (or_else (lookup t m) no_stats).failed_writes
      ≡ total m + ts.failed_writes
unfolding insert lookup
total-insert t ts [] = omega arith
total-insert t ts ((j, u) ∷ m) = elim (Bool-cases (text_eq j t)) [
  | inl e ↦ rw (e, insert, lookup) (omega arith)
  | inr e ↦ rw (e, insert, lookup) (omega (arith, total-insert t ts m))
]

next_total :
    (a b c x : ℕ)
    → x ≡ b % 18446744073709551616
    → c + a ≡ b + next_count a
    → next_count x ≡ c % 18446744073709551616
next_total a b c x h e = omega arith

pub record_failure-IsCounted :
    (now : ℕ) (t e : Text) (st : Stats) → IsCounted st → IsCounted (record_failure now t e st)
unfolding record_failure topic_stats
record_failure-IsCounted now t e st h =
    next_total (topic_stats st t).failed_writes (total st.topics)
      (total (insert t (failed_once now e (topic_stats st t)) st.topics)) st.failed_writes h
      (total-insert t (failed_once now e (topic_stats st t)) st.topics)

pub completion-IsCounted :
    (now : ℕ) (ts : List Text) (e : Option Text) (s : Store)
    → IsCounted s.stats
    → IsCounted (completion now ts e s).stats
unfolding completion record_write_failure
completion-IsCounted now ts none s h = h
completion-IsCounted now [] (some e) s h = h
completion-IsCounted now (t ∷ ts) (some e) s h =
    completion-IsCounted now ts (some e) (record_write_failure now t e s)
      (record_failure-IsCounted now t e s.stats h)

pub write_message-IsCounted :
    (now : ℕ) (answer : Option Text) (t : Text) (s : Store)
    → IsCounted s.stats
    → IsCounted (write_message now answer t s).0.stats
unfolding write_message record_write_failure
write_message-IsCounted now answer t s h = elim (Bool-cases s.has_writer) [
  | inr e ↦ rw e (record_failure-IsCounted now t (codes "not connected") s.stats h)
  | inl e ↦ elim (Option-cases answer) [
    | inl q ↦ rw (e, q) h
    | inr (f, q) ↦ rw (e, q) (record_failure-IsCounted now t f s.stats h)
  ]
]

-- Marking a topic keeps its count.
mark_count :
    (now : ℕ) (e : Option Text) (ts : TopicStats) → (mark now e ts).failed_writes ≡ ts.failed_writes
mark_count now none ts = refl
mark_count now (some e) ts = refl

total-mark_all :
    (now : ℕ) (failed : Map Text) (ts : List Text) (m : Map TopicStats)
    → total (mark_all now failed ts m) ≡ total m
unfolding mark_all
total-mark_all now failed [] m = refl
total-mark_all now failed (t ∷ ts) m =
    total-mark_all now failed ts
      (insert t (mark now (lookup t failed) (or_else (lookup t m) no_stats)) m)
    ∙ omega (
      arith,
      total-insert t (mark now (lookup t failed) (or_else (lookup t m) no_stats)) m,
      mark_count now (lookup t failed) (or_else (lookup t m) no_stats),
    )

ensured-IsCounted :
    (now : ℕ) (ts : List Text) (st : Stats) (r : Result Text (Map Text))
    → IsCounted st
    → IsCounted (ensured now ts st r).0
ensured-IsCounted now ts st (err e) h = h
ensured-IsCounted now ts st (ok []) h =
    h ∙ ap (λ (n : ℕ). n % 18446744073709551616) (sym (total-mark_all now [] ts st.topics))
ensured-IsCounted now ts st (ok (f ∷ fs)) h =
    h ∙ ap (λ (n : ℕ). n % 18446744073709551616) (sym (total-mark_all now (f ∷ fs) ts st.topics))

ensure_topics_once-IsCounted :
    (now : ℕ) (answer : BrokerAnswer) (s : Store)
    → IsCounted s.stats
    → IsCounted (ensure_topics_once now answer s).0.stats
unfolding ensure_topics_once
ensure_topics_once-IsCounted now answer s h =
    ensured-IsCounted now s.topic_names s.stats (ensure_topics answer s.topic_names) h

connect-IsCounted :
    (now : ℕ) (e : Option Text) (answer : BrokerAnswer) (s : Store)
    → IsCounted s.stats
    → IsCounted (connect now e answer s).0.stats
unfolding connect
connect-IsCounted now (some e) answer s h = h
connect-IsCounted now none answer s h =
    ensure_topics_once-IsCounted now answer
      (set_connected true (record s { is_ensuring = false; has_writer = true })) h

run_call-IsCounted :
    (c : StoreCall) (s : Store) → IsCounted s.stats → IsCounted (run_call c s).stats
unfolding run_call close
run_call-IsCounted (writes now answer t) s h = write_message-IsCounted now answer t s h
run_call-IsCounted (completes now ts e) s h = completion-IsCounted now ts e s h
run_call-IsCounted (connects now e answer) s h = connect-IsCounted now e answer s h
run_call-IsCounted (retries now answer) s h = ensure_topics_once-IsCounted now answer s h
run_call-IsCounted (closes answer) s h = h

run_calls-kept :
    (cs : List StoreCall) (s : Store) → IsCounted s.stats → IsCounted (run_calls cs s).stats
unfolding run_calls
run_calls-kept [] s h = h
run_calls-kept (c ∷ cs) s h = run_calls-kept cs (run_call c s) (run_call-IsCounted c s h)

-- Whatever is written, whatever fails and whenever topics are created: in a store that started new,
-- the count of all failed writes is the sum of the topics' counts, as far as 64 bits hold it.
pub run_calls-IsCounted : (cs : List StoreCall) → IsCounted (run_calls cs new_store).stats
unfolding new_store disconnected_stats insert text_eq
run_calls-IsCounted cs = run_calls-kept cs new_store refl
