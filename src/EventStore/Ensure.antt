-- ===== src/EventStore/Ensure.antt =====
-- Creating the topics: server/orchestrator/eventStore/ensure.go, and Connect, ensureTopicsOnce and
-- ensureTopicsLoop of kafka.go. A broker's answer is an error of the request, or what it says of
-- each topic.
use lattice_hub.Base.{
  ℕ, ◌*◌, Bool, true, false, not, Option, none, some, List, [], ◌∷◌, ◌++◌, leb, if◌then◌else◌, Text,
  codes, is_some, or_else, Result, ok, err,
}
use lattice_hub.Base.Maps.{Map, lookup, insert}
use lattice_hub.EventStore.{no_stats, Store, Stats, TopicStats, set_connected}

pub data TopicError : Type 0 where
  already_exists : TopicError
  refused : Text → TopicError

abbrev pub BrokerAnswer : Type 0
BrokerAnswer = Result Text (Text → Option TopicError)

abbrev pub note_refusal : Text → Option TopicError → Map Text → Map Text
note_refusal t none m = m
note_refusal t (some already_exists) m = m
note_refusal t (some (refused e)) m = insert t e m

unfoldable pub refusals : (Text → Option TopicError) → Map Text → List Text → Map Text
refusals errors m [] = m
refusals errors m (t ∷ ts) = refusals errors (note_refusal t (errors t) m) ts

unfoldable pub ensure_topics : BrokerAnswer → List Text → Result Text (Map Text)
unfolding refusals
ensure_topics (err e) ts = err e
ensure_topics (ok errors) ts = ok (refusals errors [] ts)

abbrev part_of : Text → Option Text → List Text → List Text
part_of t none rest = rest
part_of t (some e) rest = (t ++ codes ": " ++ e) ∷ rest

abbrev parts : Map Text → List Text → List Text
parts failed [] = []
parts failed (t ∷ ts) = part_of t (lookup t failed) (parts failed ts)

-- strings.Join with "; ".
abbrev join_parts : List Text → Text
join_parts [] = []
join_parts (p ∷ []) = p
join_parts (p ∷ q ∷ ps) = p ++ codes "; " ++ join_parts (q ∷ ps)

unfoldable pub join_topic_errors : List Text → Map Text → Text
join_topic_errors ts failed = codes "create topics: " ++ join_parts (parts failed ts)

abbrev pub mark : ℕ → Option Text → TopicStats → TopicStats
mark now none ts = record ts { ready = true }
mark now (some e) ts = record ts { ready = false; last_error = e; last_failure_at = some now }

unfoldable pub mark_all : ℕ → Map Text → List Text → Map TopicStats → Map TopicStats
mark_all now failed [] m = m
mark_all now failed (t ∷ ts) m =
    mark_all now failed ts (insert t (mark now (lookup t failed) (or_else (lookup t m) no_stats)) m)

abbrev pub failed_stats : ℕ → Text → Stats → Stats
failed_stats now e st = record st {
  topics_ready = false;
  last_error = e;
  last_failure_at = some now;
}

abbrev is_empty : Map Text → Bool
is_empty [] = true
is_empty (x ∷ m) = false

abbrev pub after_marks : ℕ → List Text → Map Text → Stats → Stats × Option Text
after_marks now ts failed st =
    if is_empty failed
    then (record st { topics_ready = true }, none)
    else (failed_stats now (join_topic_errors ts failed) st, some (join_topic_errors ts failed))

abbrev pub ensured : ℕ → List Text → Stats → Result Text (Map Text) → Stats × Option Text
ensured now ts st (err e) = (failed_stats now e st, some e)
ensured now ts st (ok failed) =
    after_marks now ts failed (record st { topics = mark_all now failed ts st.topics })

abbrev pub with_stats : Store → Stats × Option Text → Store × Option Text
with_stats s (st, e) = (record s { stats = st }, e)

unfoldable pub ensure_topics_once : ℕ → BrokerAnswer → Store → Store × Option Text
unfolding ensure_topics mark_all join_topic_errors
ensure_topics_once now answer s =
    with_stats s (ensured now s.topic_names s.stats (ensure_topics answer s.topic_names))

-- Connect, with what the broker's port and the first request answer. A running loop is stopped
-- first.
unfoldable pub connect : ℕ → Option Text → BrokerAnswer → Store → Store × Option Text
unfolding ensure_topics_once
connect now (some e) answer s = (s, some e)
connect now none answer s =
    let s1 = set_connected true (record s { is_ensuring = false; has_writer = true }) in
    let (s2, e) = ensure_topics_once now answer s1 in (record s2 { is_ensuring = is_some e }, none)

-- One round of the loop: when it asks, what the broker answers, and whether the store is closed
-- before the wait is over.
pub record Attempt : Type 0 where
  pub at : ℕ
  pub answer : BrokerAnswer
  pub is_cancelled : Bool

-- What the loop did in some rounds: the store, the waits in order, and whether the loop has ended.
pub record Rounds : Type 0 where
  pub store : Store
  pub waits : List ℕ
  pub ended : Bool

abbrev pub next_backoff : ℕ → ℕ → ℕ
next_backoff most b = if leb (b * 2) most then b * 2 else most

abbrev waited : ℕ → Rounds → Rounds
waited b r = record r { waits = b ∷ r.waits }

abbrev end_loop : Store → Rounds
end_loop s = record { store = record s { is_ensuring = false }; waits = []; ended = true }

unfoldable pub ensure_topics_loop : ℕ → List Attempt → Store → Rounds
unfolding ensure_topics_once
ensure_topics_loop backoff [] s = record { store = s; waits = []; ended = false }
ensure_topics_loop backoff (a ∷ later) s =
    let (s1, e) = ensure_topics_once a.at a.answer s in
    let rest = ensure_topics_loop (next_backoff s.max_backoff backoff) later s1 in
    if not (is_some e)
    then end_loop s1
    else if a.is_cancelled
    then end_loop s1
    else waited backoff rest
