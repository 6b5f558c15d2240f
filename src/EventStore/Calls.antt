-- ===== src/EventStore/Calls.antt =====
-- The event store as a sequence of calls: from the hub (WriteMessage, Connect, Close), from the
-- writer (Completion) and from the loop that creates topics (ensureTopicsOnce).
use lattice_hub.Base.{ℕ, Option, List, [], ◌∷◌, Text}
use lattice_hub.EventStore.{Store, completion, write_message, close}
use lattice_hub.EventStore.Ensure.{BrokerAnswer, ensure_topics_once, connect}

pub data StoreCall : Type 0 where
  writes : ℕ → Option Text → Text → StoreCall
  completes : ℕ → List Text → Option Text → StoreCall
  connects : ℕ → Option Text → BrokerAnswer → StoreCall
  retries : ℕ → BrokerAnswer → StoreCall
  closes : Option Text → StoreCall

unfoldable pub run_call : StoreCall → Store → Store
unfolding write_message completion connect ensure_topics_once close
run_call (writes now answer t) s = (write_message now answer t s).0
run_call (completes now ts e) s = completion now ts e s
run_call (connects now e answer) s = (connect now e answer s).0
run_call (retries now answer) s = (ensure_topics_once now answer s).0
run_call (closes answer) s = (close answer s).0

unfoldable pub run_calls : List StoreCall → Store → Store
unfolding run_call
run_calls [] s = s
run_calls (c ∷ cs) s = run_calls cs (run_call c s)
