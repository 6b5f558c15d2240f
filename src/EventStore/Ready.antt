-- ===== src/EventStore/Ready.antt =====
-- What "topics ready" means.
use lattice_hub.Base.{
  ℕ, ◌≡◌, ◌∙◌, inl, inr, Bool, true, false, Option, none, some, List, [], ◌∷◌, arith, if◌then◌else◌,
  Text, codes, text_eq, text_eq_iff, text_eq_refl, Bool-cases, Option-cases, or_else, Result, ok,
  err, All,
}
use lattice_hub.Base.Maps.{Map, lookup, insert, lookup-insert}
use lattice_hub.EventStore.Ensure.{
  BrokerAnswer, mark_all, ensured, ensure_topics, ensure_topics_once, connect,
}
use lattice_hub.EventStore.Calls.{
  StoreCall, writes, completes, connects, retries, closes, run_call, run_calls,
}
use lattice_hub.EventStore.{
  close, new_store, disconnected_stats, set_connected, Store, Stats, TopicStats, no_stats,
  topic_stats, record_failure, record_write_failure, completion, write_message, failed_once,
}

abbrev is_ready : Map TopicStats → Text → Bool
is_ready m t = (or_else (lookup t m) no_stats).ready

-- A store that calls its topics ready has a ready entry for each.
abbrev pub IsReady : Store → Type 0
IsReady s = s.stats.topics_ready ≡ true → All (λ t. is_ready s.stats.topics t ≡ true) s.topic_names

All-weaken : {P Q : Text → Type 0} (ts : List Text) → ((t : Text) → P t → Q t) → All P ts → All Q ts
All-weaken [] f h = tt
All-weaken (t ∷ ts) f h = (f t h.0, All-weaken ts f h.1)

All-all : {P : Text → Type 0} (ts : List Text) → ((t : Text) → P t) → All P ts
All-all [] f = tt
All-all (t ∷ ts) f = (f t, All-all ts f)

is_ready-insert :
    (t u : Text) (v : TopicStats) (m : Map TopicStats)
    → is_ready (insert t v m) u ≡ (if text_eq t u then v.ready else is_ready m u)
is_ready-insert t u v m = rw (is_ready, lookup-insert t u v m) (ground arith)

-- A failed write leaves a ready topic ready.
is_ready-failed :
    (now : ℕ) (t u e : Text) (st : Stats)
    → is_ready st.topics u ≡ true
    → is_ready (record_failure now t e st).topics u ≡ true
unfolding record_failure topic_stats
is_ready-failed now t u e st h =
    is_ready-insert t u (failed_once now e (topic_stats st t)) st.topics
    ∙ ground (arith, text_eq_iff t u)

record_write_failure-IsReady :
    (now : ℕ) (t e : Text) (s : Store) → IsReady s → IsReady (record_write_failure now t e s)
unfolding record_write_failure record_failure
record_write_failure-IsReady now t e s h r =
    All-weaken s.topic_names (λ u q. is_ready-failed now t u e s.stats q) (h r)

completion-IsReady :
    (now : ℕ) (ts : List Text) (e : Option Text) (s : Store)
    → IsReady s
    → IsReady (completion now ts e s)
unfolding completion
completion-IsReady now ts none s h = h
completion-IsReady now [] (some e) s h = h
completion-IsReady now (t ∷ ts) (some e) s h =
    completion-IsReady now ts (some e) (record_write_failure now t e s)
      (record_write_failure-IsReady now t e s h)

write_message-IsReady :
    (now : ℕ) (answer : Option Text) (t : Text) (s : Store)
    → IsReady s
    → IsReady (write_message now answer t s).0
unfolding write_message
write_message-IsReady now answer t s h = elim (Bool-cases s.has_writer) [
  | inr e ↦ rw e (record_write_failure-IsReady now t (codes "not connected") s h)
  | inl e ↦ elim (Option-cases answer) [
    | inl q ↦ rw (e, q) h
    | inr (f, q) ↦ rw (e, q) (record_write_failure-IsReady now t f s h)
  ]
]

is_ready-marked :
    (now : ℕ) (ts : List Text) (m : Map TopicStats) (u : Text)
    → is_ready m u ≡ true
    → is_ready (mark_all now [] ts m) u ≡ true
unfolding mark_all lookup
is_ready-marked now [] m u h = h
is_ready-marked now (t ∷ ts) m u h =
    is_ready-marked now ts (insert t (record (or_else (lookup t m) no_stats) { ready = true }) m) u
      (is_ready-insert t u (record (or_else (lookup t m) no_stats) { ready = true }) m
        ∙ ground arith)

-- Without refusals every topic is marked as ready.
mark_all-ready :
    (now : ℕ) (ts : List Text) (m : Map TopicStats)
    → All (λ t. is_ready (mark_all now [] ts m) t ≡ true) ts
unfolding mark_all lookup
mark_all-ready now [] m = tt
mark_all-ready now (t ∷ ts) m = (
  is_ready-marked now ts (insert t (record (or_else (lookup t m) no_stats) { ready = true }) m) t (
      is_ready-insert t t (record (or_else (lookup t m) no_stats) { ready = true }) m
      ∙ ground (arith, text_eq_refl t)),
  mark_all-ready now ts (insert t (record (or_else (lookup t m) no_stats) { ready = true }) m),
)

ensured-IsReady :
    (now : ℕ) (ts : List Text) (st : Stats) (r : Result Text (Map Text))
    → (ensured now ts st r).0.topics_ready ≡ true
    → All (λ t. is_ready (ensured now ts st r).0.topics t ≡ true) ts
ensured-IsReady now ts st (err e) h = absurd (ground arith)
ensured-IsReady now ts st (ok []) h = mark_all-ready now ts st.topics
ensured-IsReady now ts st (ok (f ∷ fs)) h = absurd (ground arith)

ensure_topics_once-IsReady :
    (now : ℕ) (answer : BrokerAnswer) (s : Store) → IsReady (ensure_topics_once now answer s).0
unfolding ensure_topics_once
ensure_topics_once-IsReady now answer s h =
    ensured-IsReady now s.topic_names s.stats (ensure_topics answer s.topic_names) h

connect-IsReady :
    (now : ℕ) (e : Option Text) (answer : BrokerAnswer) (s : Store)
    → IsReady s
    → IsReady (connect now e answer s).0
unfolding connect
connect-IsReady now (some e) answer s h = h
connect-IsReady now none answer s h =
    ensure_topics_once-IsReady now answer
      (set_connected true (record s { is_ensuring = false; has_writer = true }))

run_call-IsReady : (c : StoreCall) (s : Store) → IsReady s → IsReady (run_call c s)
unfolding run_call close
run_call-IsReady (writes now answer t) s h = write_message-IsReady now answer t s h
run_call-IsReady (completes now ts e) s h = completion-IsReady now ts e s h
run_call-IsReady (connects now e answer) s h = connect-IsReady now e answer s h
run_call-IsReady (retries now answer) s h = ensure_topics_once-IsReady now answer s
run_call-IsReady (closes answer) s h = h

run_calls-kept : (cs : List StoreCall) (s : Store) → IsReady s → IsReady (run_calls cs s)
unfolding run_calls
run_calls-kept [] s h = h
run_calls-kept (c ∷ cs) s h = run_calls-kept cs (run_call c s) (run_call-IsReady c s h)

-- Whatever calls were made, a store that started new and reports its topics as ready has a ready
-- entry for each topic.
pub run_calls-IsReady : (cs : List StoreCall) → IsReady (run_calls cs new_store)
unfolding new_store disconnected_stats
run_calls-IsReady cs = run_calls-kept cs new_store (λ h. absurd (ground arith))
