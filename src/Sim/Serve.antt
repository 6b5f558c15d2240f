-- ===== src/Sim/Serve.antt =====
-- The simulator's connections: ServeSerial, attachComm, readLoop and Run of
-- server/orchestrator/meshsim/sim.go. A connection is a number, a new one for each that the
-- listener accepts; each has its own reader, which goes on after a newer connection has come. The
-- end of the listener and of the context end the loops and change nothing else.
use lattice_hub.Base.{
  ℕ, ◌≡◌, refl, sym, ap, ◌∙◌, ◌≢◌, ◌⊎◌, inl, inr, Bool, true, false, Option, none, some, List, [],
  ◌∷◌, arith, ◌==◌, if◌then◌else◌, Bool-cases,
}
use lattice_hub.Sim.{Simulator, SimEnv}
use lattice_hub.Sim.Handle.{handle_frame}
use lattice_hub.Sim.Ticks.{tick}
use lattice_hub.Protocol.{MeshMessage}

-- The simulator, and the connection that it writes to; a failed write drops it.
pub record Serving : Type 0 where
  pub sim : Simulator
  pub comm : Option ℕ

pub data SerialEvent : Type 0 where
  connects : ℕ → SerialEvent
  -- The reader of a connection has a frame, or its read fails.
  reads : ℕ → SimEnv → MeshMessage → SerialEvent
  fails : ℕ → SerialEvent
  ticks : SimEnv → SerialEvent

unfoldable attach_comm : ℕ → Serving → Serving
attach_comm c v = record {
  sim = record v.sim { wire = record v.sim.wire { connected = true } };
  comm = some c;
}

abbrev is_comm : ℕ → Option ℕ → Bool
is_comm c none = false
is_comm c (some d) = d == c

unfoldable detach_comm : ℕ → Serving → Serving
detach_comm c v =
    if is_comm c v.comm
    then record {
      sim = record v.sim { wire = record v.sim.wire { connected = false } };
      comm = none;
    }
    else v

abbrev written : Serving → Simulator → Serving
written v s = record { sim = s; comm = if s.wire.connected then v.comm else none }

unfoldable serve_event : Serving → SerialEvent → Serving
unfolding attach_comm detach_comm handle_frame tick
serve_event v (connects c) = attach_comm c v
serve_event v (reads c env m) = written v (handle_frame env m v.sim)
serve_event v (fails c) = detach_comm c v
serve_event v (ticks env) = written v (tick env v.sim)

-- The events come newest first.
unfoldable pub serve_serial : Serving → List SerialEvent → Serving
unfolding serve_event
serve_serial v [] = v
serve_serial v (e ∷ es) = serve_event (serve_serial v es) e

-- The connection that was accepted last.
abbrev pub latest : List SerialEvent → Option ℕ
latest [] = none
latest (connects c ∷ es) = some c
latest (reads c env m ∷ es) = latest es
latest (fails c ∷ es) = latest es
latest (ticks env ∷ es) = latest es

serve_serial-comm :
    (v : Serving) (es : List SerialEvent)
    → v.comm ≡ none
    → ((serve_serial v es).comm ≡ none) ⊎ ((serve_serial v es).comm ≡ latest es)
unfolding serve_serial
serve_serial-comm v [] h = inl h
serve_serial-comm v (connects c ∷ es) h = inr refl
serve_serial-comm v (reads c env m ∷ es) h = ground (arith, serve_serial-comm v es h)
serve_serial-comm v (fails c ∷ es) h = ground (arith, serve_serial-comm v es h)
serve_serial-comm v (ticks env ∷ es) h = ground (arith, serve_serial-comm v es h)

other_end : (c : ℕ) (v : Serving) → v.comm ≢ some c → detach_comm c v ≡ v
unfolding detach_comm
other_end c v h = rw (not_comm v.comm h) refl
  where
    not_comm : (o : Option ℕ) → o ≢ some c → is_comm c o ≡ false
    not_comm none h = refl
    not_comm (some d) h = elim (Bool-cases (d == c)) [
      | inl e ↦ absurd (h (ap some (ground arith)))
      | inr e ↦ e
    ]

-- The simulator writes to no connection but the one accepted last, and an older connection that
-- ends afterwards changes nothing: it does not disconnect the newer one.
pub serve_serial-latest :
    (v : Serving) (es : List SerialEvent) (c : ℕ)
    → v.comm ≡ none
    → (((serve_serial v es).comm ≡ none) ⊎ ((serve_serial v es).comm ≡ latest es))
      × (latest es ≢ some c → serve_serial v (fails c ∷ es) ≡ serve_serial v es)
unfolding serve_serial detach_comm
serve_serial-latest v es c h = (serve_serial-comm v es h, old (serve_serial-comm v es h))
  where
    old :
        ((serve_serial v es).comm ≡ none) ⊎ ((serve_serial v es).comm ≡ latest es)
        → latest es ≢ some c
        → serve_serial v (fails c ∷ es) ≡ serve_serial v es
    old (inl n) other = other_end c (serve_serial v es) (λ e. ground (arith, sym n ∙ e))
    old (inr l) other = other_end c (serve_serial v es) (λ e. other (sym l ∙ e))
