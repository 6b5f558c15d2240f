-- ===== src/Sim/Control.antt =====
-- The simulator's controls: SpawnNode, FireMotion, SetOffline and snapshot of
-- server/orchestrator/meshsim/sim.go, and the handlers of control.go, each with the status of its
-- answer.
use lattice_hub.Base.{
  ℕ, Bool, true, false, not, ◌&&◌, ◌||◌, Option, none, some, List, [], ◌∷◌, map, ltb, ◌==◌,
  if◌then◌else◌, Text, is_some, Result, ok, err,
}
use lattice_hub.Base.Maps.{lookup, insert, values}
use lattice_hub.Sim.{
  VirtualNode, Simulator, SimEnv, SimError, duplicate, unknown_node, node_not_ready, write_locked,
}
use lattice_hub.Sim.Nodes.{new_node, reset}
use lattice_hub.Sim.Frames.{motion_msg}
use lattice_hub.Sim.Handle.{change}
use lattice_hub.Server.Enrollment.{adapter_type_to_string}

abbrev pub Outcome : Type 0
Outcome = Simulator × Option SimError

abbrev spawned : Simulator → Result SimError VirtualNode → Outcome
spawned s (err e) = (s, some e)
spawned s (ok n) =
    if is_some (lookup n.mac_string s.nodes)
    then (s, some duplicate)
    else (record s { nodes = insert n.mac_string n s.nodes }, none)

unfoldable spawn_node : Simulator → Text → Text → Outcome
unfolding new_node
spawn_node s mac typ = spawned s (new_node mac typ)

unfoldable fire_motion : SimEnv → Simulator → Text → Outcome
unfolding motion_msg write_locked
fire_motion env s mac = elim (lookup mac s.nodes) [
  | none ↦ (s, some unknown_node)
  | some n ↦
      if not n.enrolled || n.offline
      then (s, some node_not_ready)
      else if not s.wire.connected
      then (s, some node_not_ready)
      else (record s { wire = write_locked env (motion_msg n) s.wire }, none)
]

unfoldable set_offline : Simulator → Text → Bool → Outcome
unfolding change
set_offline s mac b =
    if is_some (lookup mac s.nodes)
    then (change (λ n. record n { offline = b }) mac s, none)
    else (s, some unknown_node)

unfoldable text_lt : Text → Text → Bool
text_lt [] [] = false
text_lt [] (d ∷ u) = true
text_lt (c ∷ t) [] = false
text_lt (c ∷ t) (d ∷ u) = ltb c d || (c == d && text_lt t u)

unfoldable put_in_order : VirtualNode → List VirtualNode → List VirtualNode
unfolding text_lt
put_in_order n [] = n ∷ []
put_in_order n (m ∷ ms) =
    let rest = put_in_order n ms in
    if text_lt m.mac_string n.mac_string then m ∷ rest else n ∷ m ∷ ms

abbrev sort_nodes : List VirtualNode → List VirtualNode
sort_nodes [] = []
sort_nodes (n ∷ ns) = put_in_order n (sort_nodes ns)

unfoldable snapshot : Simulator → List VirtualNode
snapshot s = sort_nodes (values s.nodes)

pub record ControlNode : Type 0 where
  pub mac : Text
  pub name : Text
  pub type_name : Text
  pub enrolled : Bool
  pub rejected : Bool
  pub offline : Bool
  pub silent : Bool
  pub node_id : ℕ
  pub ack_count : ℕ

-- adapterTypeName names the types as the hub's adapterTypeToString does.
abbrev control_node : VirtualNode → ControlNode
control_node n = record {
  mac = n.mac_string;
  name = n.name;
  type_name = adapter_type_to_string n.adapter_type;
  enrolled = n.enrolled;
  rejected = n.rejected;
  offline = n.offline;
  silent = n.silent;
  node_id = n.node_id;
  ack_count = n.ack_count;
}

unfoldable handle_state : Simulator → List ControlNode
unfolding snapshot
handle_state s = map control_node (snapshot s)

unfoldable handle_reset : Simulator → Simulator × ℕ
unfolding reset
handle_reset s = (reset s, 204)

abbrev spawn_status : Outcome → Simulator × ℕ
spawn_status (s, none) = (s, 201)
spawn_status (s, some duplicate) = (s, 409)
spawn_status (s, some e) = (s, 400)

unfoldable handle_spawn : Simulator → Option (Text × Text) → Simulator × ℕ
unfolding spawn_node
handle_spawn s none = (s, 400)
handle_spawn s (some (mac, typ)) = spawn_status (spawn_node s mac typ)

abbrev node_status : Outcome → Simulator × ℕ
node_status (s, none) = (s, 204)
node_status (s, some unknown_node) = (s, 404)
node_status (s, some e) = (s, 409)

unfoldable handle_motion : SimEnv → Simulator → Text → Simulator × ℕ
unfolding fire_motion
handle_motion env s mac = node_status (fire_motion env s mac)

unfoldable handle_set_offline : Simulator → Text → Bool → Simulator × ℕ
unfolding set_offline
handle_set_offline s mac b = node_status (set_offline s mac b)
