-- ===== src/Sim/Commands.antt =====
-- The way of a command: from the API's frame over the simulated nodes to the acknowledgement in the
-- hub.
use mathlib.Core.List.{append-nil}
use lattice_hub.Server.Send.{node_data_frame}
use lattice_hub.Api.Commands.{Uuid, with_token, payload_of}
use lattice_hub.Base.{
  ℕ, ◌≡◌, refl, inl, inr, true, List, [], ◌∷◌, map, Bool-cases, zero, suc, ◌-◌, ◌<◌, ap, ◌∙◌, ◌≢◌,
  ◌⊎◌, ◌++◌, arith, length, get_or, set, copy-replicate, length-set, length-copy, replicate, filter,
}
use lattice_hub.Base.Maps.{Map, values}
use lattice_hub.Protocol.{MeshMessage, zeros}
use lattice_hub.Protocol.AdapterType
use lattice_hub.Protocol.MessageType
use lattice_hub.Sim.{VirtualNode, SimEnv, Wire, write_locked, Simulator}
use lattice_hub.Sim.Frames.{ack_msg}
use lattice_hub.Sim.Ticks.{pass}
use lattice_hub.Sim.Handle.{acks, takes, handle_frame, handle_command}

-- The frames of a list go on top, the last one uppermost.
unfoldable pub onto : List MeshMessage → List MeshMessage → List MeshMessage
onto ms [] = ms
onto ms (x ∷ xs) = onto (x ∷ ms) xs

-- All writes succeed.
abbrev AlwaysWrites : SimEnv → Type 0
AlwaysWrites env = (m : MeshMessage) → env.write_ok m ≡ true

pass-acks :
    (env : SimEnv) (t a b : ℕ) (ns : Map VirtualNode) (w : Wire)
    → AlwaysWrites env
    → w.connected ≡ true
    → (pass (acks env t a b) ns w).1 ≡ record {
      connected = true;
      written = onto w.written (map (ack_msg a b) (filter (takes t) (values ns)));
    }
unfolding pass onto acks write_locked ack_msg
pass-acks env t a b [] w h c = rw (← c) refl
pass-acks env t a b ((k, n) ∷ ns) w h c = elim (Bool-cases (takes t n)) [
  | inl e ↦
      rw (e, c)
        (pass-acks env t a b ns
          (record { connected = env.write_ok (ack_msg a b n); written = ack_msg a b n ∷ w.written })
          h (h (ack_msg a b n)))
  | inr e ↦ rw e (pass-acks env t a b ns w h c)
]

get_or-set_self : (xs : List ℕ) (i v d : ℕ) → i < length xs → get_or (set xs i v) i d ≡ v
get_or-set_self [] i v d h = absurd (omega arith)
get_or-set_self (x ∷ xs) zero v d h = refl
get_or-set_self (x ∷ xs) (suc i) v d h = get_or-set_self xs i v d (omega arith)

get_or-set_ne : (xs : List ℕ) (i j v d : ℕ) → i ≢ j → get_or (set xs i v) j d ≡ get_or xs j d
get_or-set_ne [] i j v d h = refl
get_or-set_ne (x ∷ xs) zero zero v d h = absurd (h refl)
get_or-set_ne (x ∷ xs) zero (suc j) v d h = refl
get_or-set_ne (x ∷ xs) (suc i) zero v d h = refl
get_or-set_ne (x ∷ xs) (suc i) (suc j) v d h = get_or-set_ne xs i j v d (λ e. h (ap suc e))

length-payload : (bytes : List ℕ) (u : Uuid) → length (with_token (payload_of bytes) u) ≡ 64
length-payload bytes u =
    length-set (set (payload_of bytes) 62 (get_or u.id_bytes 14 0)) 63 (get_or u.id_bytes 15 0)
    ∙ length-set (payload_of bytes) 62 (get_or u.id_bytes 14 0)
    ∙ length-copy (zeros 64) bytes

-- A payload of 64 bytes goes out as it is.
sent_bytes :
    (t : ℕ) (bytes : List ℕ) (u : Uuid)
    → (node_data_frame t (with_token (payload_of bytes) u)).data_bytes
      ≡ with_token (payload_of bytes) u
sent_bytes t bytes u =
    let xs = with_token (payload_of bytes) u in
    copy-replicate 64 0 xs (omega (arith, length-payload bytes u))
    ∙ ap (λ (k : ℕ). xs ++ replicate (64 - k) 0) (length-payload bytes u)
    ∙ append-nil xs

token_low :
    (bytes : List ℕ) (u : Uuid)
    → get_or (with_token (payload_of bytes) u) 62 0 ≡ get_or u.id_bytes 14 0
token_low bytes u =
    get_or-set_ne (set (payload_of bytes) 62 (get_or u.id_bytes 14 0)) 63 62
      (get_or u.id_bytes 15 0) 0 (λ e. absurd (omega (arith, e)))
    ∙ get_or-set_self (payload_of bytes) 62 (get_or u.id_bytes 14 0) 0
        (omega (arith, length-copy (zeros 64) bytes))

token_high :
    (bytes : List ℕ) (u : Uuid)
    → get_or (with_token (payload_of bytes) u) 63 0 ≡ get_or u.id_bytes 15 0
token_high bytes u =
    get_or-set_self (set (payload_of bytes) 62 (get_or u.id_bytes 14 0)) 63 (get_or u.id_bytes 15 0)
      0
      (omega (
        arith,
        length-set (payload_of bytes) 62 (get_or u.id_bytes 14 0),
        length-copy (zeros 64) bytes,
      ))

handle_command_lem :
    (env : SimEnv) (m : MeshMessage) (bytes : List ℕ) (u : Uuid) (s : Simulator)
    → AlwaysWrites env
    → s.wire.connected ≡ true
    → m.data_bytes ≡ with_token (payload_of bytes) u
    → (handle_command env m s).wire.written
      ≡ onto s.wire.written (
          map
            (ack_msg (get_or u.id_bytes 14 0) (get_or u.id_bytes 15 0))
            (filter (takes m.data_type) (values s.nodes)))
unfolding handle_command
handle_command_lem env m bytes u s h c e =
    rw (e, length-payload bytes u, token_low bytes u, token_high bytes u)
      (ap (λ (w : Wire). w.written)
        (pass-acks env m.data_type (get_or u.id_bytes 14 0) (get_or u.id_bytes 15 0) s.nodes s.wire
          h c))

handle_frame-command :
    (env : SimEnv) (m : MeshMessage) (s : Simulator)
    → m.message_type ≡ MessageType.serial_cmd_broadcast
    → (m.data_type ≡ AdapterType.led) ⊎ (m.data_type ≡ AdapterType.relay)
    → length m.data_bytes ≡ 64
    → handle_frame env m s ≡ handle_command env m s
unfolding handle_frame
handle_frame-command env m s e k l = ground arith

-- The frame of a command names no node: every simulated node of the type that is enrolled and not
-- offline answers it, in turn and with the two bytes of the command's token, and no other node
-- does. The type is an LED's or a relay's, the hub is connected and its link takes every frame.
pub handle_frame-node_data_frame :
    (env : SimEnv) (t : ℕ) (bytes : List ℕ) (u : Uuid) (s : Simulator)
    → AlwaysWrites env
    → s.wire.connected ≡ true
    → (t ≡ AdapterType.led) ⊎ (t ≡ AdapterType.relay)
    → (handle_frame env (node_data_frame t (with_token (payload_of bytes) u)) s).wire.written
      ≡ onto s.wire.written (
          map
            (ack_msg (get_or u.id_bytes 14 0) (get_or u.id_bytes 15 0))
            (filter (takes t) (values s.nodes)))
handle_frame-node_data_frame env t bytes u s h c k =
    let m = node_data_frame t (with_token (payload_of bytes) u) in
    ap (λ (r : Simulator). r.wire.written)
      (handle_frame-command env m s refl k
        (ap (λ (xs : List ℕ). length xs) (sent_bytes t bytes u) ∙ length-payload bytes u))
    ∙ handle_command_lem env m bytes u s h c (sent_bytes t bytes u)
