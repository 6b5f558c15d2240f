-- ===== src/Sim/Joining.antt =====
-- What the hub's frames do to a simulated node: Server.Enrollment and Builder against Sim.Handle.
use lattice_hub.Base.{
  ℕ, ◌≡◌, refl, ap, ◌∙◌, inl, inr, Bool, true, false, Option, none, some, List, [], ◌∷◌, arith,
  ◌==◌, if◌then◌else◌, Text, length, text_eq, text_eq_iff, Option-cases, six-elements, take_all,
}
use mathlib.Core.Option
use lattice_hub.Base.Maps.{lookup, lookup-insert}
use lattice_hub.Mac.{join_hex}
use lattice_hub.Sim.{VirtualNode, Simulator, SimEnv}
use lattice_hub.Sim.Frames.{mac_key}
use lattice_hub.Sim.Handle.{change, handle_frame, handle_serial_op, joins, set_id}
use lattice_hub.Server.{Server}
use lattice_hub.Server.Enrollment.{join_ack, node_id_set, reject_frame}

-- Only the node under the key is changed.
change_lem :
    (f : VirtualNode → VirtualNode) (k j : Text) (s : Simulator)
    → lookup j (change f k s).nodes
      ≡ (if text_eq k j then Option.map f (lookup j s.nodes) else lookup j s.nodes)
unfolding change
change_lem f k j s = elim (Option-cases (lookup k s.nodes)) [
  | inl e ↦ rw (change, e) (ground (arith, text_eq_iff k j))
  | inr (n, e) ↦ rw (change, e, lookup-insert k j (f n) s.nodes) (ground (arith, text_eq_iff k j))
]

mac_key-six : (mac : List ℕ) → length mac ≡ 6 → mac_key mac ≡ join_hex mac
unfolding mac_key
mac_key-six mac h = rw (h, take_all 6 mac (omega (arith, h))) refl

abbrev pub enrolled_node : VirtualNode → VirtualNode
enrolled_node n = record n {
  enrolled = true;
  rejected = false;
  last_heartbeat = 0;
  last_route_report = 0;
}

abbrev rejected_node : VirtualNode → VirtualNode
rejected_node n = record n { rejected = true }

accepted :
    (hub : Server) (mac key : List ℕ) (o : Option VirtualNode)
    → length hub.master_public_key ≡ 32
    → Option.map (joins (join_ack hub mac key)) o ≡ Option.map enrolled_node o
accepted hub mac key none k = refl
accepted hub mac key (some n) k =
    ap (λ (l : ℕ). some (if l == 32 then enrolled_node n else rejected_node n)) k

-- The hub's JOIN_ACK enrolls the node that stands under the address, in lower case, and leaves
-- every other node alone, where the hub's key has 32 bytes.
handle_frame-join_ack :
    (env : SimEnv) (hub : Server) (mac key : List ℕ) (s : Simulator) (j : Text)
    → length mac ≡ 6
    → length hub.master_public_key ≡ 32
    → lookup j (handle_frame env (join_ack hub mac key) s).nodes ≡ (
        if text_eq (join_hex mac) j
        then Option.map enrolled_node (lookup j s.nodes)
        else lookup j s.nodes)
unfolding handle_frame
handle_frame-join_ack env hub mac key s j h k =
    change_lem (joins (join_ack hub mac key)) (mac_key mac) j s
    ∙ rw (mac_key-six mac h) (
        ap (λ (o : Option VirtualNode). if text_eq (join_hex mac) j then o else lookup j s.nodes)
          (accepted hub mac key (lookup j s.nodes) k))

-- The hub's rejection marks that node as rejected, and does nothing else.
handle_frame-reject_frame :
    (env : SimEnv) (hub : Server) (mac : List ℕ) (s : Simulator) (j : Text)
    → length mac ≡ 6
    → lookup j (handle_frame env (reject_frame hub mac) s).nodes ≡ (
        if text_eq (join_hex mac) j
        then Option.map rejected_node (lookup j s.nodes)
        else lookup j s.nodes)
unfolding handle_frame
handle_frame-reject_frame env hub mac s j h =
    change_lem (joins (reject_frame hub mac)) (mac_key mac) j s ∙ rw (mac_key-six mac h) refl

handle_frame-node_id_set :
    (env : SimEnv) (hub : Server) (mac : List ℕ) (id : ℕ) (s : Simulator) (j : Text)
    → length mac ≡ 6
    → lookup j (handle_frame env (node_id_set hub mac id) s).nodes ≡ (
        if text_eq (join_hex mac) j
        then Option.map (set_id id) (lookup j s.nodes)
        else lookup j s.nodes)
unfolding handle_frame handle_serial_op
handle_frame-node_id_set env hub mac id s j h =
    let (a0, a1, a2, a3, a4, a5, e) = six-elements mac h in
    rw e (
      change_lem (set_id id) (mac_key (a0 ∷ a1 ∷ a2 ∷ a3 ∷ a4 ∷ a5 ∷ [])) j s
      ∙ rw (mac_key-six (a0 ∷ a1 ∷ a2 ∷ a3 ∷ a4 ∷ a5 ∷ []) refl) refl)

-- What the hub sends after an approval brings a simulated node into the mesh: after the JOIN_ACK
-- and the ID, in that order, the node is enrolled, not rejected, and has the ID; no other node is
-- changed. The hub's key has 32 bytes.
pub joining_lem :
    (env : SimEnv) (hub : Server) (mac key : List ℕ) (id : ℕ) (s : Simulator) (j : Text)
    → length mac ≡ 6
    → length hub.master_public_key ≡ 32
    → lookup j
        (handle_frame env
          (node_id_set hub mac id)
          (handle_frame env (join_ack hub mac key) s)).nodes
      ≡ (if text_eq (join_hex mac) j
          then Option.map (λ n. record (enrolled_node n) { node_id = id }) (lookup j s.nodes)
          else lookup j s.nodes)
joining_lem env hub mac key id s j h k =
    handle_frame-node_id_set env hub mac id (handle_frame env (join_ack hub mac key) s) j h
    ∙ rw (handle_frame-join_ack env hub mac key s j h k)
        (both (text_eq (join_hex mac) j) (lookup j s.nodes))
  where
    both :
        (b : Bool) (o : Option VirtualNode)
        → (if b
            then Option.map (set_id id) (if b then Option.map enrolled_node o else o)
            else (if b then Option.map enrolled_node o else o))
          ≡ (if b then Option.map (λ n. record (enrolled_node n) { node_id = id }) o else o)
    both true none = refl
    both true (some n) = refl
    both false o = refl
