-- ===== src/Auth/Replay.antt =====
-- The replay cache of server/orchestrator/nodeauth/replay.go: a ring of 32 slots for each node.
use lattice_hub.Base.{
  ℕ, ◌+◌, ◌%◌, Bool, true, false, not, ◌&&◌, ◌||◌, List, [], ◌∷◌, ◌==◌, if◌then◌else◌, or_else, set,
  replicate,
}
pub mod Window
pub mod Sent
use lattice_hub.Base.Maps.{Map, lookup, insert}

pub record RingEntry : Type 0 where
  pub epoch : ℕ  -- a uint32
  pub seq : ℕ  -- a uint32

pub record NodeBuf : Type 0 where
  pub buf : List RingEntry
  pub idx : ℕ

-- The map's keys are the six bytes themselves.
abbrev pub ReplayCache : Type 0
ReplayCache = Map NodeBuf

abbrev pub ring_size : ℕ
ring_size = 32

abbrev pub zero_entry : RingEntry
zero_entry = record { epoch = 0; seq = 0 }

abbrev new_buf : NodeBuf
new_buf = record { buf = replicate ring_size zero_entry; idx = 0 }

abbrev pub entry_matches : ℕ → ℕ → RingEntry → Bool
entry_matches epoch seq e =
    e.epoch == epoch && e.seq == seq && (not (e.epoch == 0) || not (e.seq == 0))

unfoldable pub any_match : ℕ → ℕ → List RingEntry → Bool
any_match epoch seq [] = false
any_match epoch seq (e ∷ es) = entry_matches epoch seq e || any_match epoch seq es

abbrev pub record_entry : NodeBuf → RingEntry → NodeBuf
record_entry nb e = record { buf = set nb.buf nb.idx e; idx = (nb.idx + 1) % 32 }

abbrev pub buf_of : ReplayCache → List ℕ → NodeBuf
buf_of rc mac = or_else (lookup mac rc) new_buf

-- The node's buffer is in the map, with or without a new entry, when the call returns.
unfoldable pub is_duplicate : ReplayCache → List ℕ → ℕ → ℕ → ReplayCache × Bool
is_duplicate rc mac epoch seq =
    let nb = buf_of rc mac in
    if any_match epoch seq nb.buf
    then (insert mac nb rc, true)
    else (insert mac (record_entry nb (record { epoch = epoch; seq = seq })) rc, false)

-- A list of messages, each with its node, epoch and sequence number.
pub record Message : Type 0 where
  pub sender : List ℕ
  pub epoch : ℕ
  pub seq : ℕ

unfoldable pub feed : ReplayCache → List Message → ReplayCache
feed rc [] = rc
feed rc (m ∷ ms) = feed (is_duplicate rc m.sender m.epoch m.seq).0 ms
