-- ===== src/Sim/Capitals.antt =====
-- Nodes whose text is in capitals: Sim.Handle looks nodes up under texts in lower case.
use lattice_hub.Base.{
  ℕ, ◌≤◌, ◌≡◌, refl, sym, ap, ◌∙◌, inl, inr, Bool, false, Option, none, some, List, [], ◌∷◌, arith,
  ltb, Text, length, text_eq, text_eq_iff, Bool-cases, Option-cases, get_or, take, drop,
}
use lattice_hub.Base.Maps.{Map, lookup, lookup-insert, map_values}
use lattice_hub.Protocol.{MeshMessage, max_data_length}
use lattice_hub.Mac.{join_hex, hex_digit}
use lattice_hub.Sim.{VirtualNode, Simulator, SimEnv, Wire}
use lattice_hub.Sim.Frames.{mac_key}
use lattice_hub.Sim.Ticks.{Turn, pass}
use lattice_hub.Sim.Handle.{
  change, handle_frame, handle_serial_op, handle_command, joins, set_id, set_type, acks,
  due_at_once,
}

abbrev pub enrolled_of : Option VirtualNode → Bool
enrolled_of none = false
enrolled_of (some n) = n.enrolled

-- Whether the node of a text is enrolled.
abbrev pub enrolled_at : Text → Map VirtualNode → Bool
enrolled_at k ns = enrolled_of (lookup k ns)

-- The simulator after some frames.
unfoldable pub handle_frames : SimEnv → List MeshMessage → Simulator → Simulator
unfolding handle_frame
handle_frames env [] s = s
handle_frames env (m ∷ ms) s = handle_frames env ms (handle_frame env m s)

abbrev IsCapital : ℕ → Type 0
IsCapital c = (65 ≤ c) × (c ≤ 70)

mac_key-lower :
    (mac : List ℕ) (c : ℕ) (t : Text) → IsCapital c → text_eq (mac_key mac) (c ∷ t) ≡ false
unfolding mac_key join_hex hex_digit text_eq
mac_key-lower [] c t h = refl
mac_key-lower (b ∷ bs) c t h = ground arith

change-elsewhere :
    (f : VirtualNode → VirtualNode) (k j : Text) (s : Simulator)
    → text_eq k j ≡ false
    → enrolled_at j (change f k s).nodes ≡ enrolled_at j s.nodes
unfolding change
change-elsewhere f k j s h = elim (Option-cases (lookup k s.nodes)) [
  | inl e ↦ rw (change, e) refl
  | inr (n, e) ↦ rw (change, e, lookup-insert k j (f n) s.nodes, h) refl
]

-- A change that leaves the flag alone.
change-keeps :
    (f : VirtualNode → VirtualNode)
    → ((n : VirtualNode) → (f n).enrolled ≡ n.enrolled)
    → (k j : Text) (s : Simulator) → enrolled_at j (change f k s).nodes ≡ enrolled_at j s.nodes
unfolding change
change-keeps f g k j s = elim (Option-cases (lookup k s.nodes)) [
  | inl e ↦ rw (change, e) refl
  | inr (n, e) ↦ elim (Bool-cases (text_eq k j)) [
    | inr q ↦ rw (change, e, lookup-insert k j (f n) s.nodes, q) refl
    | inl q ↦
        rw (change, e, lookup-insert k j (f n) s.nodes, q)
          (g n
            ∙ sym (
                ap enrolled_of
                  (ap (λ (x : Text). lookup x s.nodes) (sym ((text_eq_iff k j).0 q)) ∙ e)))
  ]
]

pass-keeps :
    (f : Turn)
    → ((n : VirtualNode) (w : Wire) → (f n w).0.enrolled ≡ n.enrolled)
    → (j : Text) (ns : Map VirtualNode) (w : Wire)
    → enrolled_at j (pass f ns w).0 ≡ enrolled_at j ns
unfolding pass lookup
pass-keeps f g j [] w = refl
pass-keeps f g j ((k, n) ∷ ns) w = elim (Bool-cases (text_eq k j)) [
  | inl e ↦ rw (enrolled_at, lookup, e) (g n w)
  | inr e ↦ rw (enrolled_at, lookup, e) (pass-keeps f g j ns (f n w).1)
]

map_values-keeps :
    (f : VirtualNode → VirtualNode)
    → ((n : VirtualNode) → (f n).enrolled ≡ n.enrolled)
    → (j : Text) (ns : Map VirtualNode) → enrolled_at j (map_values f ns) ≡ enrolled_at j ns
unfolding map_values lookup
map_values-keeps f g j [] = refl
map_values-keeps f g j ((k, n) ∷ ns) = elim (Bool-cases (text_eq k j)) [
  | inl e ↦ rw (enrolled_at, lookup, e) (g n)
  | inr e ↦ rw (enrolled_at, lookup, e) (map_values-keeps f g j ns)
]

acks-keeps :
    (env : SimEnv) (t a b : ℕ) (n : VirtualNode) (w : Wire)
    → (acks env t a b n w).0.enrolled ≡ n.enrolled
unfolding acks
acks-keeps env t a b n w = ground arith

handle_command-keeps :
    (env : SimEnv) (m : MeshMessage) (j : Text) (s : Simulator)
    → enrolled_at j (handle_command env m s).nodes ≡ enrolled_at j s.nodes
unfolding handle_command
handle_command-keeps env m j s = elim (Bool-cases (ltb (length m.data_bytes) max_data_length)) [
  | inl e ↦ rw e refl
  | inr e ↦ rw e (
      pass-keeps (acks env m.data_type (get_or m.data_bytes 62 0) (get_or m.data_bytes 63 0))
        (acks-keeps env m.data_type (get_or m.data_bytes 62 0) (get_or m.data_bytes 63 0)) j s.nodes
        s.wire)
]

handle_serial_op-keeps :
    (m : MeshMessage) (j : Text) (s : Simulator)
    → enrolled_at j (handle_serial_op m s).nodes ≡ enrolled_at j s.nodes
unfolding handle_serial_op
handle_serial_op-keeps m j s = ground (
  arith,
  map_values-keeps due_at_once (λ n. refl) j s.nodes,
  change-keeps (set_id (get_or m.data_bytes 7 0)) (λ n. refl)
      (mac_key (take 6 (drop 1 m.data_bytes))) j s,
  change-keeps (set_type (get_or m.data_bytes 7 0)) (λ n. refl)
      (mac_key (take 6 (drop 1 m.data_bytes))) j s,
)

handle_frame-capital :
    (env : SimEnv) (m : MeshMessage) (c : ℕ) (t : Text) (s : Simulator)
    → IsCapital c
    → enrolled_at (c ∷ t) (handle_frame env m s).nodes ≡ enrolled_at (c ∷ t) s.nodes
unfolding handle_frame
handle_frame-capital env m c t s h = ground (
  arith,
  change-elsewhere (joins m) (mac_key m.target) (c ∷ t) s (mac_key-lower m.target c t h),
  handle_serial_op-keeps m (c ∷ t) s,
  handle_command-keeps env m (c ∷ t) s,
)

-- A simulated node whose text begins with a capital digit is never enrolled by any frames that the
-- hub may send, if it was not before: its requests go unheard.
pub handle_frames-capital :
    (env : SimEnv) (ms : List MeshMessage) (c : ℕ) (t : Text) (s : Simulator)
    → IsCapital c
    → enrolled_at (c ∷ t) s.nodes ≡ false
    → enrolled_at (c ∷ t) (handle_frames env ms s).nodes ≡ false
unfolding handle_frames
handle_frames-capital env [] c t s h e = e
handle_frames-capital env (m ∷ ms) c t s h e =
    handle_frames-capital env ms c t (handle_frame env m s) h
      (handle_frame-capital env m c t s h ∙ e)
