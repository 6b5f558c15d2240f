-- ===== src/Server/Send/WellTyped/Steps.antt =====
-- The frames of every call of the hub.
use lattice_hub.Base.{ℕ, ◌≡◌, ap, List, Text, Option, Result}
use lattice_hub.Protocol.{MeshMessage}
use lattice_hub.Serial.{ReadError}
use lattice_hub.Server.{Env, Server, Link}
use lattice_hub.Server.Enrollment.{ApprovalParams, approve_enrollment, reject_enrollment}
use lattice_hub.Server.Enrollment.Frames.{frames}
use lattice_hub.Server.Liveness.{check_offline_nodes}
use lattice_hub.Server.Receive.{process}
use lattice_hub.Server.Send.{
  configure_node, configure_all_nodes, request_health_reports, broadcast_data, send_node_data,
  set_tx_power_preset,
}
use lattice_hub.Server.Send.WellTyped.{
  Framed, same-Framed, approve_enrollment-Framed, reject_enrollment-Framed,
}
use lattice_hub.Server.Lifecycle.{start, stop}
use lattice_hub.Server.Send.WellTyped.Switched.{start-Framed, stop-Framed}
use lattice_hub.Server.Send.WellTyped.Received.{check_offline_nodes-frames, process-Framed}
use lattice_hub.Server.Send.WellTyped.Sent.{
  configure_node-Framed, configure_all_nodes-Framed, request_health_reports-Framed,
  broadcast_data-Framed, send_node_data-Framed, set_tx_power_preset-Framed,
}

module _ (uuid_parse : Text → Option (List ℕ)) where
  -- Every call that makes the hub send. SendMessage is called by ConfigureNode, ConfigureAllNodes,
  -- RequestHealthReports and BroadcastData, and by nothing else in the program.
  pub data Call : Server → Server → Type 0 where
    receives :
        (env : Env) (s : Server) (link : Link) (errors : ℕ) (r : Result ReadError MeshMessage)
        → Call s (process uuid_parse env link errors s r).0
    checks : (env : Env) (s : Server) → Call s (check_offline_nodes env s)
    approves :
        (env : Env) (s : Server) (mac_str : Text) (p : ApprovalParams)
        → Call s (approve_enrollment env s mac_str p).0
    rejects : (env : Env) (s : Server) (mac_str : Text) → Call s (reject_enrollment env s mac_str).0
    configures :
        (env : Env) (s : Server) (target : List ℕ) (t : ℕ)
        → Call s (configure_node env s target t).0
    configures_all : (env : Env) (s : Server) (t : ℕ) → Call s (configure_all_nodes env s t).0
    asks_health : (env : Env) (s : Server) → Call s (request_health_reports env s).0
    broadcasts :
        (env : Env) (s : Server) (t : ℕ) (bytes : List ℕ) → Call s (broadcast_data env s t bytes).0
    sends_data :
        (env : Env) (s : Server) (t : ℕ) (bytes : List ℕ) → Call s (send_node_data env s t bytes).0
    sets_preset :
        (env : Env) (s : Server) (preset : ℕ) → Call s (set_tx_power_preset env s preset).0
    starts : (env : Env) (s : Server) → Call s (start env s).0
    stops : (env : Env) (s : Server) → Call s (stop env s).0
    -- Changes of the registries, which leave the effects alone.
    changes : (s t : Server) → t.effects ≡ s.effects → Call s t

  pub data Calls : Server → Server → Type 0 where
    idles : (s : Server) → Calls s s
    then_calls : {s t u : Server} → Calls s t → Call t u → Calls s u

  Call-Framed : {s t : Server} → Call s t → Framed s → Framed t
  Call-Framed (receives env s link errors r) v = process-Framed uuid_parse env link errors s r v
  Call-Framed (checks env s) v =
      same-Framed s (check_offline_nodes env s) (check_offline_nodes-frames env s) v
  Call-Framed (approves env s t p) v = approve_enrollment-Framed env s t p v
  Call-Framed (rejects env s t) v = reject_enrollment-Framed env s t v
  Call-Framed (configures env s target t) v = configure_node-Framed env s target t v
  Call-Framed (configures_all env s t) v = configure_all_nodes-Framed env s t v
  Call-Framed (asks_health env s) v = request_health_reports-Framed env s v
  Call-Framed (broadcasts env s t bytes) v = broadcast_data-Framed env s t bytes v
  Call-Framed (sends_data env s t bytes) v = send_node_data-Framed env s t bytes v
  Call-Framed (sets_preset env s preset) v = set_tx_power_preset-Framed env s preset v
  Call-Framed (starts env s) v = start-Framed env s v
  Call-Framed (stops env s) v = stop-Framed env s v
  Call-Framed (changes s t same) v = same-Framed s t (ap frames same) v

  -- However the hub is driven, by whatever arrives and whatever it is asked to send: if every frame
  -- sent before carries protocol version 5 and a payload of exactly 64 bytes, or none as in a
  -- rejection, so does every frame sent since.
  pub Calls-Framed : {s t : Server} → Calls s t → Framed s → Framed t
  Calls-Framed (idles s) v = v
  Calls-Framed (then_calls before last) v = Call-Framed last (Calls-Framed before v)
