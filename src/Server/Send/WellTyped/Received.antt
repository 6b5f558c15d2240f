-- ===== src/Server/Send/WellTyped/Received.antt =====
-- The frames of what the hub does with the messages that arrive, and of its timer.
use lattice_hub.Base.{
  ℕ, ◌+◌, ◌≡◌, refl, ◌∙◌, Bool, true, false, not, Option, none, some, List, [], ◌∷◌, arith,
  if◌then◌else◌, Text, length, Result, ok, err, ◌==◌, ◌||◌,
}
use lattice_hub.Protocol.{MeshMessage, proto_version}
use lattice_hub.Protocol.MessageType
use lattice_hub.Protocol.AdapterType
use lattice_hub.Protocol.Op
use lattice_hub.Builder.{parse_health_report, HealthReport, ParseError, first_byte}
use lattice_hub.Nodes
use lattice_hub.Nodes.{NodeInfo}
use lattice_hub.Server.{Env, Server, Link, primary, secondary, Answer, incoming, Direction}
use lattice_hub.Server.Enrollment.Frames.{frames}
use lattice_hub.Server.Receive.{
  handle_health_report, handle_command_ack, handle_pir_data, handle_route_report,
  handle_serial_data, handle_adapter_data, dispatch, handle_message, log_message, process,
  after_error, health_answer, health_of_node, route_event,
}
use lattice_hub.Server.Liveness.{
  publish_health_event, record_frame, check_offline_nodes, check_nodes, check_node,
}
use lattice_hub.Server.Send.WellTyped.{Framed, same-Framed, handle_enrollment_request-Framed}
use lattice_hub.Serial.{ReadError}

health_of_node-frames :
    (env : Env) (s : Server) (o : Option NodeInfo)
    → frames (health_of_node env s o).effects ≡ frames s.effects
unfolding publish_health_event
health_of_node-frames env s none = refl
health_of_node-frames env s (some n) = ground arith

health_answer-frames :
    (env : Env) (s : Server) (r : Result ParseError HealthReport)
    → frames (health_answer env s r).0.effects ≡ frames s.effects
health_answer-frames env s (err e) = refl
health_answer-frames env s (ok h) =
    let nodes = Nodes.update_node env.now s.nodes h.mac h.adapter_type h.uptime h.hop_count in
    health_of_node-frames env (record s { nodes = nodes }) (Nodes.get_node nodes h.mac)

handle_pir_data-frames :
    (env : Env) (s : Server) (m : MeshMessage)
    → frames (handle_pir_data env s m).0.effects ≡ frames s.effects
unfolding handle_pir_data
handle_pir_data-frames env s m = ground arith

route_event-frames :
    (env : Env) (s : Server) (o : Option NodeInfo)
    → frames (route_event env s o).effects ≡ frames s.effects
route_event-frames env s none = refl
route_event-frames env s (some n) = ground arith

handle_route_report-frames :
    (env : Env) (s : Server) (m : MeshMessage)
    → frames (handle_route_report env s m).effects ≡ frames s.effects
unfolding handle_route_report
handle_route_report-frames env s m =
    ground (arith, λ (r : Nodes.Registry). route_event-frames env (record s { nodes = r }))

pub log_message-frames :
    (env : Env) (s : Server) (d : Direction) (m : MeshMessage)
    → frames (log_message env s d m).effects ≡ frames s.effects
unfolding log_message
log_message-frames env s d m = ground arith

after_error-frames :
    (link : Link) (n : ℕ) (s : Server) → frames (after_error link n s).effects ≡ frames s.effects
after_error-frames primary n s = ground arith
after_error-frames secondary n s = ground arith

record_frame-frames :
    (env : Env) (s : Server) (link : Link)
    → frames (record_frame env s link).effects ≡ frames s.effects
unfolding record_frame
record_frame-frames env s primary = refl
record_frame-frames env s secondary = refl

check_node-frames :
    (env : Env) (s : Server) (n : NodeInfo) → frames (check_node env s n).effects ≡ frames s.effects
unfolding check_node
check_node-frames env s n = ground arith

check_nodes-frames :
    (env : Env) (s : Server) (ns : List NodeInfo)
    → frames (check_nodes env s ns).effects ≡ frames s.effects
unfolding check_nodes
check_nodes-frames env s [] = refl
check_nodes-frames env s (n ∷ ns) =
    check_nodes-frames env (check_node env s n) ns ∙ check_node-frames env s n

pub check_offline_nodes-frames :
    (env : Env) (s : Server) → frames (check_offline_nodes env s).effects ≡ frames s.effects
unfolding check_offline_nodes
check_offline_nodes-frames env s = check_nodes-frames env s (Nodes.get_all_nodes s.nodes)

-- The answer's server.
pub either-answer :
    (b : Bool) (x y : Answer) → Framed x.0 → Framed y.0 → Framed (if b then x else y).0
either-answer true x y h k = h
either-answer false x y h k = k

module _ (uuid_parse : Text → Option (List ℕ)) where
  handle_command_ack-frames :
      (env : Env) (s : Server) (m : MeshMessage)
      → frames (handle_command_ack uuid_parse env s m).effects ≡ frames s.effects
  unfolding handle_command_ack
  handle_command_ack-frames env s m = ground arith

  handle_serial_data-Framed :
      (env : Env) (s : Server) (m : MeshMessage)
      → Framed s
      → Framed (handle_serial_data uuid_parse env s m).0
  unfolding handle_serial_data handle_health_report
  handle_serial_data-Framed env s m v = either-answer (length m.data_bytes == 0) _ _ v (
      either-answer (first_byte m == Op.health_report || first_byte m == Op.node_health) _ _
        (same-Framed s _ (health_answer-frames env s (parse_health_report m)) v)
        (either-answer (first_byte m == Op.command_ack) _ _
          (same-Framed s _ (handle_command_ack-frames env s m) v) v))

  handle_adapter_data-Framed :
      (env : Env) (s : Server) (m : MeshMessage)
      → Framed s
      → Framed (handle_adapter_data uuid_parse env s m).0
  unfolding handle_adapter_data
  handle_adapter_data-Framed env s m v =
      either-answer (m.data_type == AdapterType.serial) _ _ (handle_serial_data-Framed env s m v) (
        either-answer (m.data_type == AdapterType.pir) _ _
          (same-Framed s _ (handle_pir_data-frames env s m) v) v)

  dispatch-Framed :
      (env : Env) (s : Server) (m : MeshMessage) → Framed s → Framed (dispatch uuid_parse env s m).0
  unfolding dispatch
  dispatch-Framed env s m v =
      either-answer (m.message_type == MessageType.adapter_data) _ _
        (handle_adapter_data-Framed env s m v)
        (either-answer (m.message_type == MessageType.enrollment) _ _
          (handle_enrollment_request-Framed env s m v)
          (either-answer (m.message_type == MessageType.route_report) _ _
            (same-Framed s _ (handle_route_report-frames env s m) v) v))

  handle_message-Framed :
      (env : Env) (s : Server) (m : MeshMessage)
      → Framed s
      → Framed (handle_message uuid_parse env s m).0
  unfolding handle_message
  handle_message-Framed env s m v = either-answer (not (m.version == proto_version)) _ _ v (
      dispatch-Framed env (log_message env s incoming m) m
        (same-Framed s _ (log_message-frames env s incoming m) v))

  pub process-Framed :
      (env : Env) (link : Link) (errors : ℕ) (s : Server) (r : Result ReadError MeshMessage)
      → Framed s
      → Framed (process uuid_parse env link errors s r).0
  unfolding process
  process-Framed env link errors s (err e) v =
      same-Framed s _ (after_error-frames link (errors + 1) s) v
  process-Framed env link errors s (ok m) v =
      handle_message-Framed env (record_frame env s link) m
        (same-Framed s _ (record_frame-frames env s link) v)
