-- ===== src/Server/Lifecycle/Waiting.antt =====
-- Stop of a running hub and the goroutines that it waits for: Stop of server/orchestrator/mesh/server.go holds ms.mu
-- from its first line to its last, wg.Wait included, and messageProcessor and the offline detector
-- take ms.mu within a handler (publishHealthEvent, checkOfflineNodes). Here Stop and one such
-- goroutine take turns, a call of the lock at a time.
use lattice_hub.Base.{◌⊎◌, inl, inr}

-- How far Stop has come: it holds the lock and cancels, it waits for the others, it has returned.
pub data StopStage : Type 0 where
  before locked waiting returned : StopStage

-- The goroutine is between two handlers, is on its way to the lock within one, holds it, or has
-- ended.
pub data WorkerStage : Type 0 where
  idle wants inside exited : WorkerStage

pub record Pair : Type 0 where
  pub stopper : StopStage
  pub worker : WorkerStage

abbrev pub at : StopStage → WorkerStage → Pair
at s w = record { stopper = s; worker = w }

abbrev IsFree : WorkerStage → Type 0
IsFree inside = ⊥
IsFree _ = Unit

abbrev IsCancelled : StopStage → Type 0
IsCancelled before = ⊥
IsCancelled _ = Unit

pub data Move : Pair → Pair → Type 0 where
  stop_locks : (w : WorkerStage) → IsFree w → Move (at before w) (at locked w)
  stop_waits : (w : WorkerStage) → Move (at locked w) (at waiting w)
  stop_returns : Move (at waiting exited) (at returned exited)
  -- A frame that was read, or a tick, may still come after the context was cancelled.
  handles : (s : StopStage) → Move (at s idle) (at s wants)
  worker_locks : Move (at before wants) (at before inside)
  worker_unlocks : (s : StopStage) → Move (at s inside) (at s idle)
  ends : (s : StopStage) → IsCancelled s → Move (at s idle) (at s exited)

pub data Moves : Pair → Pair → Type 0 where
  stays : (p : Pair) → Moves p p
  goes : {p q r : Pair} → Move p q → Moves q r → Moves p r

-- Stop has the lock, and the goroutine is on its way to it.
abbrev BlockedAt : StopStage → WorkerStage → Type 0
BlockedAt locked wants = Unit
BlockedAt waiting wants = Unit
BlockedAt _ _ = ⊥

abbrev pub IsBlocked : Pair → Type 0
IsBlocked p = BlockedAt p.stopper p.worker

-- Stop can still return.
abbrev pub MayReturn : Pair → Type 0
MayReturn p = Moves p (at returned exited)

-- Stop returns only when the goroutine has ended.
abbrev ReturnedAt : StopStage → WorkerStage → Type 0
ReturnedAt returned exited = Unit
ReturnedAt returned _ = ⊥
ReturnedAt _ _ = Unit

IsBlocked-Move : {p q : Pair} → Move p q → IsBlocked p → IsBlocked q
IsBlocked-Move (stop_locks w free) b = absurd b
IsBlocked-Move (stop_waits idle) b = absurd b
IsBlocked-Move (stop_waits wants) b = tt
IsBlocked-Move (stop_waits inside) b = absurd b
IsBlocked-Move (stop_waits exited) b = absurd b
IsBlocked-Move stop_returns b = absurd b
IsBlocked-Move (handles before) b = absurd b
IsBlocked-Move (handles locked) b = absurd b
IsBlocked-Move (handles waiting) b = absurd b
IsBlocked-Move (handles returned) b = absurd b
IsBlocked-Move worker_locks b = absurd b
IsBlocked-Move (worker_unlocks before) b = absurd b
IsBlocked-Move (worker_unlocks locked) b = absurd b
IsBlocked-Move (worker_unlocks waiting) b = absurd b
IsBlocked-Move (worker_unlocks returned) b = absurd b
IsBlocked-Move (ends before c) b = absurd b
IsBlocked-Move (ends locked c) b = absurd b
IsBlocked-Move (ends waiting c) b = absurd b
IsBlocked-Move (ends returned c) b = absurd b

IsBlocked-Moves : {p q : Pair} → Moves p q → IsBlocked p → IsBlocked q
IsBlocked-Moves (stays p) b = b
IsBlocked-Moves (goes m ms) b = IsBlocked-Moves ms (IsBlocked-Move m b)

ReturnedAt-Move :
    {p q : Pair} → Move p q → ReturnedAt p.stopper p.worker → ReturnedAt q.stopper q.worker
ReturnedAt-Move (stop_locks w free) h = tt
ReturnedAt-Move (stop_waits w) h = tt
ReturnedAt-Move stop_returns h = tt
ReturnedAt-Move (handles before) h = tt
ReturnedAt-Move (handles locked) h = tt
ReturnedAt-Move (handles waiting) h = tt
ReturnedAt-Move (handles returned) h = absurd h
ReturnedAt-Move worker_locks h = tt
ReturnedAt-Move (worker_unlocks before) h = tt
ReturnedAt-Move (worker_unlocks locked) h = tt
ReturnedAt-Move (worker_unlocks waiting) h = tt
ReturnedAt-Move (worker_unlocks returned) h = absurd h
ReturnedAt-Move (ends before c) h = absurd c
ReturnedAt-Move (ends locked c) h = tt
ReturnedAt-Move (ends waiting c) h = tt
ReturnedAt-Move (ends returned c) h = tt

ReturnedAt-Moves :
    {p q : Pair} → Moves p q → ReturnedAt p.stopper p.worker → ReturnedAt q.stopper q.worker
ReturnedAt-Moves (stays p) h = h
ReturnedAt-Moves (goes m ms) h = ReturnedAt-Moves ms (ReturnedAt-Move m h)

from_waiting : MayReturn (at waiting exited)
from_waiting = goes stop_returns (stays (at returned exited))

from_idle : MayReturn (at waiting idle)
from_idle = goes (ends waiting tt) from_waiting

from_before : MayReturn (at before idle)
from_before = goes (stop_locks idle tt) (goes (stop_waits idle) from_idle)

blocked_or_returns :
    (s : StopStage) (w : WorkerStage) → ReturnedAt s w → BlockedAt s w ⊎ MayReturn (at s w)
blocked_or_returns before idle h = inr from_before
blocked_or_returns before wants h =
    inr (goes worker_locks (goes (worker_unlocks before) from_before))
blocked_or_returns before inside h = inr (goes (worker_unlocks before) from_before)
blocked_or_returns before exited h =
    inr (goes (stop_locks exited tt) (goes (stop_waits exited) from_waiting))
blocked_or_returns locked idle h = inr (goes (stop_waits idle) from_idle)
blocked_or_returns locked wants h = inl tt
blocked_or_returns locked inside h =
    inr (goes (stop_waits inside) (goes (worker_unlocks waiting) from_idle))
blocked_or_returns locked exited h = inr (goes (stop_waits exited) from_waiting)
blocked_or_returns waiting idle h = inr from_idle
blocked_or_returns waiting wants h = inl tt
blocked_or_returns waiting inside h = inr (goes (worker_unlocks waiting) from_idle)
blocked_or_returns waiting exited h = inr from_waiting
blocked_or_returns returned idle h = absurd h
blocked_or_returns returned wants h = absurd h
blocked_or_returns returned inside h = absurd h
blocked_or_returns returned exited h = inr (stays (at returned exited))

-- Wherever Stop and a goroutine have come to from the start: either the goroutine is handling a
-- frame, on its way to the lock that Stop holds, and then Stop never returns; or it is not so, and
-- Stop can still return.
pub stop_returns_lem :
    (p : Pair)
    → Moves (at before idle) p
    → (IsBlocked p × (¬ MayReturn p)) ⊎ (MayReturn p × (¬ IsBlocked p))
stop_returns_lem p ms = elim (blocked_or_returns p.stopper p.worker (ReturnedAt-Moves ms tt)) [
  | inl b ↦ inl (b, λ back. IsBlocked-Moves back b)
  | inr back ↦ inr (back, λ b. IsBlocked-Moves back b)
]
