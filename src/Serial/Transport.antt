-- ===== src/Serial/Transport.antt =====
-- Opening the port: openTransport, FlushBuffer and the ports of server/orchestrator/mesh/serial.go.
-- What the network and the serial driver answer is an argument: none for success, or an error. The
-- waits between the attempts are left out.
use lattice_hub.Base.{
  ℕ, zero, suc, ◌+◌, ◌≤◌, ◌<◌, ◌≡◌, refl, sym, ap, ◌∙◌, inl, inr, true, Option, none, some, [],
  ◌++◌, arith, if◌then◌else◌, Text, codes, Option-cases, is_some, Result, ok, err, drop, dec_lt,
}
use lattice_hub.Api.Access.{has_prefix}

pub data Port : Type 0 where
  tcp_port : Text → Port
  real_serial_port : Text → Port

pub data OpenError : Type 0 where
  dial_failed : Text → OpenError
  serial_failed : Text → OpenError

-- The attempts still to make, the number of those made, and the last error.
unfoldable pub dial_loop : (ℕ → Option Text) → ℕ → ℕ → Text → Result Text ℕ
dial_loop dial zero i last = err last
dial_loop dial (suc left) i last = elim (dial i) [
  | none ↦ ok (i + 1)
  | some e ↦ dial_loop dial left (i + 1) e
]

abbrev pub attempts : ℕ
attempts = 30

abbrev dialled : Text → Result Text ℕ → Result OpenError Port × ℕ
dialled addr (ok n) = (ok (tcp_port addr), n)
dialled addr (err e) = (err (dial_failed e), attempts)

abbrev opened : Text → Option Text → Result OpenError Port × ℕ
opened spec none = (ok (real_serial_port spec), 0)
opened spec (some e) = (err (serial_failed e), 0)

-- The port, and how often was dialled.
unfoldable pub open_transport : (ℕ → Option Text) → Option Text → Text → Result OpenError Port × ℕ
unfolding dial_loop has_prefix
open_transport dial device spec =
    if has_prefix (codes "tcp://") spec
    then dialled (drop 6 spec) (dial_loop dial attempts 0 [])
    else opened spec device

-- Flush of a port with what ResetInputBuffer answers: nothing waits in a TCP stream.
unfoldable pub flush : Port → Option Text → Option Text
flush (tcp_port a) reset = none
flush (real_serial_port a) reset = reset

-- FlushBuffer only logs an error.
unfoldable flush_buffer : Port → Option Text → Option Text
flush_buffer p reset = none

-- The attempts from one to before another fail.
abbrev pub Fail : (ℕ → Option Text) → ℕ → ℕ → Type 0
Fail dial i n = (j : ℕ) → i ≤ j → j < n → is_some (dial j) ≡ true

dial_loop-ok :
    (dial : ℕ → Option Text) (left i : ℕ) (last : Text)
    → dial i ≡ none
    → dial_loop dial (suc left) i last ≡ ok (i + 1)
unfolding dial_loop
dial_loop-ok dial left i last e = rw (e, dial_loop) refl

dial_loop-none : (dial : ℕ → Option Text) (i : ℕ) (last : Text) → dial_loop dial 0 i last ≡ err last
unfolding dial_loop
dial_loop-none dial i last = refl

dial_loop-next :
    (dial : ℕ → Option Text) (left i : ℕ) (last t : Text)
    → dial i ≡ some t
    → dial_loop dial (suc left) i last ≡ dial_loop dial left (i + 1) t
unfolding dial_loop
dial_loop-next dial left i last t e = rw (e, dial_loop) refl

failed_at :
    (dial : ℕ → Option Text) (i : ℕ) → is_some (dial i) ≡ true → (t : Text) × (dial i ≡ some t)
failed_at dial i h = elim (Option-cases (dial i)) [
  | inl e ↦ absurd (ground (arith, e))
  | inr (t, e) ↦ (t, e)
]

dial_loop-until :
    (dial : ℕ → Option Text) (k left i : ℕ) (last : Text)
    → i ≤ k
    → k < i + left
    → dial k ≡ none
    → Fail dial i k
    → dial_loop dial left i last ≡ ok (k + 1)
dial_loop-until dial k zero i last le lt up down = absurd (omega arith)
dial_loop-until dial k (suc left) i last le lt up down = elim (dec_lt i k) [
  | yes l ↦
      let (t, e) = failed_at dial i (down i (omega arith) l) in
      dial_loop-next dial left i last t e
      ∙ dial_loop-until dial k left (i + 1) t (omega arith) (omega (arith, lt)) up
          (λ j a b. down j (omega (arith, a)) b)
  | no l ↦
      let same : k ≡ i = omega arith in
      dial_loop-ok dial left i last (ap dial (sym same) ∙ up)
      ∙ ap (λ (j : ℕ). ok (j + 1)) (sym same)
]

dial_loop-fails :
    (dial : ℕ → Option Text) (left i m : ℕ) (last e : Text)
    → i + left ≡ m
    → Fail dial i m
    → dial m ≡ some e
    → dial_loop dial (suc left) i last ≡ err e
dial_loop-fails dial zero i m last e end down at =
    let same : i ≡ m = omega arith in
    dial_loop-next dial 0 i last e (ap dial same ∙ at) ∙ dial_loop-none dial (i + 1) e
dial_loop-fails dial (suc left) i m last e end down at =
    let (t, f) = failed_at dial i (down i (omega arith) (omega (arith, end))) in
    dial_loop-next dial (suc left) i last t f
    ∙ dial_loop-fails dial left (i + 1) m t e (omega (arith, end))
        (λ j a b. down j (omega (arith, a)) b) at

-- Opening a TCP transport ends after the first attempt that succeeds, or after thirty that fail,
-- with the error of the last one.
pub open_transport-tcp :
    (dial : ℕ → Option Text) (device : Option Text) (addr : Text)
    → ((k : ℕ)
        → k < 30
        → dial k ≡ none
        → Fail dial 0 k
        → open_transport dial device (codes "tcp://" ++ addr) ≡ (ok (tcp_port addr), k + 1))
      × ((e : Text)
          → Fail dial 0 29
          → dial 29 ≡ some e
          → open_transport dial device (codes "tcp://" ++ addr) ≡ (err (dial_failed e), 30))
unfolding open_transport has_prefix
open_transport-tcp dial device addr = (
  λ k lt up down.
      ap (dialled addr) (dial_loop-until dial k 30 0 [] (omega arith) (omega (arith, lt)) up down),
  λ e down at. ap (dialled addr) (dial_loop-fails dial 29 0 29 [] e (omega arith) down at),
)
