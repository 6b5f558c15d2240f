-- ===== src/Sim/Handle.antt =====
-- A frame from the hub: HandleFrame and handleSerialOpLocked of server/orchestrator/meshsim/sim.go.
use lattice_hub.Base.{
  ℕ, ◌+◌, Bool, true, false, not, ◌&&◌, ◌||◌, none, some, ltb, ◌==◌, if◌then◌else◌, Text, length,
  get_or, take, drop,
}
use lattice_hub.Base.Maps.{lookup, insert, map_values}
use lattice_hub.Sim.{VirtualNode, Simulator, SimEnv, write_locked}
use lattice_hub.Sim.Frames.{ack_msg, mac_key}
use lattice_hub.Sim.Ticks.{Turn, pass}
use lattice_hub.Protocol.{MeshMessage, max_data_length}
use lattice_hub.Protocol.MessageType
use lattice_hub.Protocol.AdapterType
use lattice_hub.Protocol.Op
use lattice_hub.Builder.{first_byte}

-- The node of an address, where there is one, is changed.
unfoldable pub change : (VirtualNode → VirtualNode) → Text → Simulator → Simulator
change f k s = elim (lookup k s.nodes) [
  | none ↦ s
  | some n ↦ record s { nodes = insert k (f n) s.nodes }
]

abbrev pub joins : MeshMessage → VirtualNode → VirtualNode
joins m n =
    if length m.public_key == 32
    then record n { enrolled = true; rejected = false; last_heartbeat = 0; last_route_report = 0 }
    else record n { rejected = true }

abbrev pub set_id : ℕ → VirtualNode → VirtualNode
set_id i n = record n { node_id = i }

abbrev pub set_type : ℕ → VirtualNode → VirtualNode
set_type a n = record n { adapter_type = a }

abbrev pub due_at_once : VirtualNode → VirtualNode
due_at_once n = record n { last_heartbeat = 0 }

unfoldable pub handle_serial_op : MeshMessage → Simulator → Simulator
unfolding change mac_key
handle_serial_op m s =
    if first_byte m == Op.health_req
    then record s { nodes = map_values due_at_once s.nodes }
    else if ltb (length m.data_bytes) 8
    then s
    else if first_byte m == Op.node_id_set
    then change (set_id (get_or m.data_bytes 7 0)) (mac_key (take 6 (drop 1 m.data_bytes))) s
    else if first_byte m == Op.config_set
    then change (set_type (get_or m.data_bytes 7 0)) (mac_key (take 6 (drop 1 m.data_bytes))) s
    else s

-- Whether a node takes a command of the type.
abbrev pub takes : ℕ → VirtualNode → Bool
takes t n = n.enrolled && not n.offline && n.adapter_type == t

unfoldable pub acks : SimEnv → ℕ → ℕ → ℕ → Turn
unfolding ack_msg write_locked
acks env t a b n w =
    if takes t n
    then (let n1 = record n { ack_count = n.ack_count + 1 } in
        (n1, write_locked env (ack_msg a b n1) w))
    else (n, w)

unfoldable pub handle_command : SimEnv → MeshMessage → Simulator → Simulator
unfolding pass acks
handle_command env m s =
    if ltb (length m.data_bytes) max_data_length
    then s
    else let (nodes, w) =
        pass (acks env m.data_type (get_or m.data_bytes 62 0) (get_or m.data_bytes 63 0)) s.nodes
          s.wire in
      record s { nodes = nodes; wire = w }

abbrev handle_data : SimEnv → MeshMessage → Simulator → Simulator
handle_data env m s =
    if length m.data_bytes == 0
    then s
    else if m.data_type == AdapterType.serial
    then handle_serial_op m s
    else if m.data_type == AdapterType.led || m.data_type == AdapterType.relay
    then handle_command env m s
    else s

unfoldable pub handle_frame : SimEnv → MeshMessage → Simulator → Simulator
unfolding change mac_key handle_serial_op handle_command
handle_frame env m s =
    if m.message_type == MessageType.join_ack
    then change (joins m) (mac_key m.target) s
    else if m.message_type == MessageType.adapter_data
        || m.message_type == MessageType.serial_cmd_broadcast
    then handle_data env m s
    else s
