-- ===== src/Server/Receive/Registry.antt =====
-- What a message does to the node registry.
use lattice_hub.Protocol.MessageType
use lattice_hub.Protocol.AdapterType
use lattice_hub.Builder.{HealthReport, ParseError, parse_health_report, first_byte}
use lattice_hub.Protocol.{MeshMessage, get_route_len, get_route_path, proto_version}
use lattice_hub.Server.{Env, Server, Direction, incoming, Answer, ServerError}
use lattice_hub.Server.Liveness.{publish_health_event}
use lattice_hub.Server.Receive.{
  handle_route_report, dispatch, handle_command_ack, handle_pir_data, handle_health_report,
  log_message, handle_adapter_data, handle_serial_data, handle_message, relay_macs, health_answer,
  health_of_node, route_event,
}
use lattice_hub.Base.{
  ℕ, ◌*◌, ◌≡◌, refl, sym, inl, inr, Bool, true, false, not, ◌||◌, Option, none, some, List, arith,
  ltb, ◌==◌, if◌then◌else◌, Text, length, Bool-cases, Result, ok, err, subst,
}
use lattice_hub.Nodes
use lattice_hub.Protocol.Op
use lattice_hub.Nodes.{NodeInfo}
use lattice_hub.Nodes.Calls.{
  update_node-Inv, update_node_route-Inv, update_node_route-UniqueIds, update_node-UniqueIds,
}
use lattice_hub.Server.Enrollment.Registry.{Sound, handle_enrollment_request-Sound}

log_message-nodes :
    (env : Env) (s : Server) (d : Direction) (m : MeshMessage)
    → (log_message env s d m).nodes ≡ s.nodes
unfolding log_message
log_message-nodes env s d m = ground arith

health_of_node-nodes :
    (env : Env) (s : Server) (o : Option NodeInfo) → (health_of_node env s o).nodes ≡ s.nodes
unfolding publish_health_event
health_of_node-nodes env s none = refl
health_of_node-nodes env s (some n) = ground arith

handle_health_report-Sound :
    (env : Env) (s : Server) (m : MeshMessage)
    → Sound s.nodes
    → Sound (handle_health_report env s m).0.nodes
unfolding handle_health_report
handle_health_report-Sound env s m v = reported (parse_health_report m)
  where
    updated : HealthReport → Nodes.Registry
    updated h = Nodes.update_node env.now s.nodes h.mac h.adapter_type h.uptime h.hop_count

    reported : (r : Result ParseError HealthReport) → Sound (health_answer env s r).0.nodes
    reported (err e) = v
    reported (ok h) =
        subst Sound
          (sym (
            health_of_node-nodes env (record s { nodes = updated h })
              (Nodes.get_node (updated h) h.mac)))
          (record {
            inv = update_node-Inv env.now s.nodes h.mac h.adapter_type h.uptime h.hop_count v.inv;
            unique =
                update_node-UniqueIds env.now s.nodes h.mac h.adapter_type h.uptime h.hop_count
                  v.unique;
          })

route_event-nodes :
    (env : Env) (s : Server) (o : Option NodeInfo) → (route_event env s o).nodes ≡ s.nodes
route_event-nodes env s none = refl
route_event-nodes env s (some n) = ground arith

handle_route_report-Sound :
    (env : Env) (s : Server) (m : MeshMessage)
    → Sound s.nodes
    → Sound (handle_route_report env s m).nodes
unfolding handle_route_report
handle_route_report-Sound env s m v = elim (Bool-cases (ltb 10 (get_route_len m))) [
  | inl a ↦ rw a v
  | inr a ↦ elim (Bool-cases (ltb (length (get_route_path m)) (get_route_len m * 6))) [
    | inl b ↦ rw (a, b) v
    | inr b ↦
        let relays = relay_macs (get_route_len m) (get_route_path m) in
        let nodes = Nodes.update_node_route s.nodes m.origin relays in
        rw (a, b)
          (subst Sound
            (sym
              (route_event-nodes env (record s { nodes = nodes }) (Nodes.get_node nodes m.origin)))
            (record {
              inv = update_node_route-Inv s.nodes m.origin relays v.inv;
              unique = update_node_route-UniqueIds s.nodes m.origin relays v.unique;
            }))
  ]
]

handle_pir_data-nodes :
    (env : Env) (s : Server) (m : MeshMessage) → (handle_pir_data env s m).0.nodes ≡ s.nodes
unfolding handle_pir_data
handle_pir_data-nodes env s m = ground arith

record SoundAnswer (a : Answer) : Type 0 where
  sound : Sound a.0.nodes

either-Sound :
    (b : Bool) (x y : Answer) → SoundAnswer x → SoundAnswer y → SoundAnswer (if b then x else y)
either-Sound true x y h k = h
either-Sound false x y h k = k

same-Sound :
    (s t : Server) {e : Option ServerError} → t.nodes ≡ s.nodes → Sound s.nodes → SoundAnswer (t, e)
same-Sound s t e v = record { sound = subst Sound (sym e) v }

module _ (uuid_parse : Text → Option (List ℕ)) where
  handle_command_ack-nodes :
      (env : Env) (s : Server) (m : MeshMessage)
      → (handle_command_ack uuid_parse env s m).nodes ≡ s.nodes
  unfolding handle_command_ack
  handle_command_ack-nodes env s m = ground arith

  handle_serial_data-Sound :
      (env : Env) (s : Server) (m : MeshMessage)
      → Sound s.nodes
      → SoundAnswer (handle_serial_data uuid_parse env s m)
  unfolding handle_serial_data
  handle_serial_data-Sound env s m v =
      either-Sound (length m.data_bytes == 0) _ _ (same-Sound s s refl v) (
        either-Sound (first_byte m == Op.health_report || first_byte m == Op.node_health) _ _
          (record { sound = handle_health_report-Sound env s m v })
          (either-Sound (first_byte m == Op.command_ack) _ _
            (same-Sound s (handle_command_ack uuid_parse env s m) (handle_command_ack-nodes env s m)
              v)
            (same-Sound s s refl v)))

  handle_adapter_data-Sound :
      (env : Env) (s : Server) (m : MeshMessage)
      → Sound s.nodes
      → SoundAnswer (handle_adapter_data uuid_parse env s m)
  unfolding handle_adapter_data
  handle_adapter_data-Sound env s m v =
      either-Sound (m.data_type == AdapterType.serial) _ _ (handle_serial_data-Sound env s m v) (
        either-Sound (m.data_type == AdapterType.pir) _ _
          (record { sound = subst Sound (sym (handle_pir_data-nodes env s m)) v })
          (same-Sound s s refl v))

  dispatch-Sound :
      (env : Env) (s : Server) (m : MeshMessage)
      → Sound s.nodes
      → SoundAnswer (dispatch uuid_parse env s m)
  unfolding dispatch
  dispatch-Sound env s m v =
      either-Sound (m.message_type == MessageType.adapter_data) _ _
        (handle_adapter_data-Sound env s m v)
        (either-Sound (m.message_type == MessageType.enrollment) _ _
          (record { sound = handle_enrollment_request-Sound env s m v })
          (either-Sound (m.message_type == MessageType.route_report) _ _
            (record { sound = handle_route_report-Sound env s m v }) (same-Sound s s refl v)))

  versioned-Sound :
      (env : Env) (s : Server) (m : MeshMessage)
      → Sound s.nodes
      → SoundAnswer (handle_message uuid_parse env s m)
  unfolding handle_message
  versioned-Sound env s m v =
      either-Sound (not (m.version == proto_version)) _ _ (same-Sound s s refl v) (
        dispatch-Sound env (log_message env s incoming m) m
          (subst Sound (sym (log_message-nodes env s incoming m)) v))

  -- Whatever message arrives, in whatever state: the node registry stays in order.
  pub handle_message-Sound :
      (env : Env) (s : Server) (m : MeshMessage)
      → Sound s.nodes
      → Sound (handle_message uuid_parse env s m).0.nodes
  handle_message-Sound env s m v = (versioned-Sound env s m v).sound
