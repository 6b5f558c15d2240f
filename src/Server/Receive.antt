-- ===== src/Server/Receive.antt =====
-- What arrives from the mesh: messageProcessor, handleMessage and the handlers behind it, and
-- logMessageToKafka, of server/orchestrator/mesh/server.go. The waits between failed reads and the
-- log lines are left out.
use lattice_hub.Mac.{mac_to_string}
use lattice_hub.Builder.{parse_health_report, first_byte, ParseError, HealthReport}
use lattice_hub.Events.{motion, route_update, command_ack, route_of, ack_of, motion_of}
use lattice_hub.Serial.{ReadError}
use lattice_hub.Protocol.{
  zeros, mac_address_length, MeshMessage, get_route_len, proto_version, get_route_path,
}
use lattice_hub.Server.{
  Env, Link, Server, Direction, publish_event, emit, write_kafka, Answer, sets_connected, flushes,
  pir_motion, mesh_message, primary, secondary, incoming, bad_health_report, empty_serial_data,
}
use lattice_hub.Base.{
  ℕ, zero, suc, ◌+◌, ◌*◌, false, not, ◌||◌, Option, none, some, List, [], ◌∷◌, ltb, ◌==◌,
  if◌then◌else◌, Text, length, Result, ok, err, copy, take, get_or, drop,
}
pub mod Dispatch
pub mod Registry
use lattice_hub.Nodes
use lattice_hub.Commands
use lattice_hub.Nodes.{NodeInfo}
use lattice_hub.Protocol.MessageType
use lattice_hub.Protocol.AdapterType
use lattice_hub.Protocol.Op
use lattice_hub.Server.Liveness.{publish_health_event, record_frame}
use lattice_hub.Server.Enrollment.{handle_enrollment_request}

-- The error that WriteMessage returns is only reported to the log.
unfoldable pub log_message : Env → Server → Direction → MeshMessage → Server
log_message env s d m =
    if not s.has_event_store then s else write_kafka env s (mesh_message d env.now m)

abbrev pub health_of_node : Env → Server → Option NodeInfo → Server
health_of_node env s none = s
health_of_node env s (some n) = publish_health_event env s n

abbrev pub health_answer : Env → Server → Result ParseError HealthReport → Answer
health_answer env s (err e) = (s, some bad_health_report)
health_answer env s (ok h) =
    let s1 = record s {
      nodes = Nodes.update_node env.now s.nodes h.mac h.adapter_type h.uptime h.hop_count;
    } in
    (health_of_node env s1 (Nodes.get_node s1.nodes h.mac), none)

unfoldable pub handle_health_report : Env → Server → MeshMessage → Answer
handle_health_report env s m = health_answer env s (parse_health_report m)

abbrev pub command_node : Option Commands.PendingCommand → ℕ
command_node none = 0
command_node (some cmd) = cmd.node_id

abbrev acknowledge : Env → Server → Commands.CommandStore × Option Text → Server
acknowledge env s (cs, none) = s
acknowledge env s (cs, some id) =
    publish_event env (record s { commands = cs }) command_ack
      (ack_of id (command_node (Commands.get cs id)))

abbrev motion_event : Env → Server → Option NodeInfo → Server
motion_event env s none = s
motion_event env s (some n) =
    publish_event env s motion (motion_of n.node_id n.name n.zone n.hop_count env.now)

-- Without an event store the handler returns before it tells the subscribers.
unfoldable pub handle_pir_data : Env → Server → MeshMessage → Answer
handle_pir_data env s m =
    if not s.has_event_store
    then (s, none)
    else let s1 =
        write_kafka env s (pir_motion (mac_to_string m.origin) env.now m.hop_count m.data_bytes) in
      (motion_event env s1 (Nodes.get_node s1.nodes m.origin), none)

-- The first `n` addresses of a path, each copied into six fresh bytes.
unfoldable pub relay_macs : ℕ → List ℕ → List (List ℕ)
relay_macs zero path = []
relay_macs (suc n) path = copy (zeros mac_address_length) (take 6 path) ∷ relay_macs n (drop 6 path)

abbrev pub route_event : Env → Server → Option NodeInfo → Server
route_event env s none = s
route_event env s (some n) =
    if ltb 0 n.node_id then publish_event env s route_update (route_of n.node_id n.parent_id) else s

unfoldable pub handle_route_report : Env → Server → MeshMessage → Server
unfolding relay_macs
handle_route_report env s m =
    if ltb 10 (get_route_len m)
    then s
    else if ltb (length (get_route_path m)) (get_route_len m * mac_address_length)
    then s
    else let macs = relay_macs (get_route_len m) (get_route_path m) in
      let s1 = record s { nodes = Nodes.update_node_route s.nodes m.origin macs } in
      route_event env s1 (Nodes.get_node s1.nodes m.origin)

-- The gauge follows the primary link only.
abbrev disconnect : Link → Server → Server
disconnect primary s = emit s (sets_connected false)
disconnect secondary s = s

-- The sixth error in a row reports the link as lost, and the tenth flushes its buffer.
abbrev pub after_error : Link → ℕ → Server → Server
after_error link n s =
    if n == 6 then disconnect link s else if n == 10 then emit s (flushes link) else s

module _ (uuid_parse : Text → Option (List ℕ)) where
  unfoldable pub handle_command_ack : Env → Server → MeshMessage → Server
  handle_command_ack env s m =
      if ltb (length m.data_bytes) 3
      then s
      else acknowledge env s (
          Commands.ack_by_token uuid_parse env.now (get_or m.data_bytes 1 0)
            (get_or m.data_bytes 2 0) s.commands)

  unfoldable pub handle_serial_data : Env → Server → MeshMessage → Answer
  unfolding handle_health_report handle_command_ack
  handle_serial_data env s m =
      let op = first_byte m in
      if length m.data_bytes == 0
      then (s, some empty_serial_data)
      else if op == Op.health_report || op == Op.node_health
      then handle_health_report env s m
      else if op == Op.command_ack
      then (handle_command_ack env s m, none)
      else (s, none)

  unfoldable pub handle_adapter_data : Env → Server → MeshMessage → Answer
  unfolding handle_serial_data handle_pir_data
  handle_adapter_data env s m =
      if m.data_type == AdapterType.serial
      then handle_serial_data env s m
      else if m.data_type == AdapterType.pir
      then handle_pir_data env s m
      else (s, none)

  -- The handlers of a message that has been logged. A MASTER_BEACON, a JOIN_ACK and an unknown type
  -- have no effect.
  unfoldable pub dispatch : Env → Server → MeshMessage → Answer
  unfolding handle_adapter_data handle_route_report
  dispatch env s m =
      if m.message_type == MessageType.adapter_data
      then handle_adapter_data env s m
      else if m.message_type == MessageType.enrollment
      then handle_enrollment_request env s m
      else if m.message_type == MessageType.route_report
      then (handle_route_report env s m, none)
      else (s, none)

  unfoldable pub handle_message : Env → Server → MeshMessage → Answer
  unfolding dispatch log_message
  handle_message env s m =
      if not (m.version == proto_version)
      then (s, none)
      else dispatch env (log_message env s incoming m) m

  -- One round of messageProcessor on a link: what ReadFrame gave, and the errors in a row before
  -- it.
  unfoldable pub process : Env → Link → ℕ → Server → Result ReadError MeshMessage → Server × ℕ
  unfolding handle_message
  process env link errors s (ok m) = ((handle_message env (record_frame env s link) m).0, 0)
  process env link errors s (err e) = (after_error link (errors + 1) s, errors + 1)
