-- ===== src/Server/Send/WellTyped/Sent.antt =====
-- The frames of what the hub sends on its own account.
use lattice_hub.Base.{
  ℕ, ◌≡◌, refl, sym, ap, inl, Bool, true, false, not, none, some, List, length, Result, ok, err,
  ltb, ◌==◌, length-copy, subst, ◌%◌, inr, Bool-cases,
}
use lattice_hub.Protocol.{MeshMessage, zeros}
use lattice_hub.Protocol.Op
use lattice_hub.Builder.{
  build_config_set, BuildError, build_config_set_broadcast, build_health_request, build_broadcast,
}
use lattice_hub.Server.{Env, Server, Link, Answer, write_frame, active_link, outgoing}
use lattice_hub.Server.Enrollment.Frames.{frames}
use lattice_hub.Server.Receive.{log_message}
use lattice_hub.Server.Send.{
  sent, adopt, node_data_frame, tx_power_frame, send_node_data, set_tx_power_preset, send_message,
  configure_node, configure_all_nodes, request_health_reports, broadcast_data, send_built,
  from_master,
}
use lattice_hub.Server.Send.WellTyped.{
  IsFrame, Framed, write_frame-Framed, same-Framed, mac_payload-length,
}
use lattice_hub.Server.Send.WellTyped.Received.{log_message-frames, either-answer}

sent-same : (p : Server × Bool) → (sent p).0 ≡ p.0
sent-same (s, true) = refl
sent-same (s, false) = refl

adopt-same : (preset : ℕ) (a : Answer) → (adopt preset a).0.effects ≡ a.0.effects
adopt-same preset (s, none) = refl
adopt-same preset (s, some e) = refl

written-Framed :
    (env : Env) (s : Server) (link : Link) (m : MeshMessage)
    → IsFrame m
    → Framed s
    → Framed (sent (write_frame env s link m)).0
written-Framed env s link m h v =
    subst Framed (sym (sent-same (write_frame env s link m))) (write_frame-Framed env s link m h v)

send_message-Framed :
    (env : Env) (s : Server) (m : MeshMessage)
    → IsFrame m
    → Framed s
    → Framed (send_message env s m).0
unfolding send_message
send_message-Framed env s m h v = either-answer (not s.running) _ _ v (
    let s1 = log_message env s outgoing m in
    written-Framed env s1 (active_link env s1) m h
      (same-Framed s s1 (log_message-frames env s outgoing m) v))

pub send_node_data-Framed :
    (env : Env) (s : Server) (t : ℕ) (bytes : List ℕ)
    → Framed s
    → Framed (send_node_data env s t bytes).0
unfolding send_node_data
send_node_data-Framed env s t bytes v = either-answer (not s.primary_open) _ _ v (
    written-Framed env s (active_link env s) (node_data_frame t bytes)
      (refl, inl (length-copy (zeros 64) bytes)) v)

pub set_tx_power_preset-Framed :
    (env : Env) (s : Server) (preset : ℕ) → Framed s → Framed (set_tx_power_preset env s preset).0
unfolding set_tx_power_preset
set_tx_power_preset-Framed env s preset v = either-answer (ltb 2 preset) _ _ v (
    either-answer (not s.primary_open) _ _ v (
      let a = sent (write_frame env s (active_link env s) (tx_power_frame preset)) in
      same-Framed a.0 (adopt preset a).0 (ap frames (adopt-same preset a))
        (written-Framed env s (active_link env s) (tx_power_frame preset) (refl, inl refl) v)))

-- A frame, if one was built.
abbrev IsBuilt : Result BuildError MeshMessage → Type 0
IsBuilt (err e) = Unit
IsBuilt (ok m) = IsFrame m

build_config_set-IsBuilt : (target : List ℕ) (t : ℕ) → IsBuilt (build_config_set target t)
unfolding build_config_set lattice_hub.Protocol.low_byte
build_config_set-IsBuilt target t = elim (Bool-cases (length target == 6)) [
  | inl e ↦ rw e (refl, inl (mac_payload-length Op.config_set target (t % 256)))
  | inr e ↦ rw e tt
]

build_broadcast-IsBuilt : (t : ℕ) (bytes : List ℕ) → IsBuilt (build_broadcast t bytes)
unfolding build_broadcast
build_broadcast-IsBuilt t bytes = elim (Bool-cases (ltb 64 (length bytes))) [
  | inl e ↦ rw e tt
  | inr e ↦ rw e (refl, inl (length-copy (zeros 64) bytes))
]

from_master-IsBuilt :
    (s : Server) (r : Result BuildError MeshMessage) → IsBuilt r → IsBuilt (from_master s r)
from_master-IsBuilt s (err e) h = tt
from_master-IsBuilt s (ok m) h = h

send_built-Framed :
    (env : Env) (s : Server) (r : Result BuildError MeshMessage)
    → IsBuilt r
    → Framed s
    → Framed (send_built env s r).0
send_built-Framed env s (err e) h v = v
send_built-Framed env s (ok m) h v = send_message-Framed env s m h v

pub configure_node-Framed :
    (env : Env) (s : Server) (target : List ℕ) (t : ℕ)
    → Framed s
    → Framed (configure_node env s target t).0
unfolding configure_node
configure_node-Framed env s target t v =
    send_built-Framed env s (from_master s (build_config_set target t))
      (from_master-IsBuilt s (build_config_set target t) (build_config_set-IsBuilt target t)) v

pub configure_all_nodes-Framed :
    (env : Env) (s : Server) (t : ℕ) → Framed s → Framed (configure_all_nodes env s t).0
unfolding configure_all_nodes build_config_set_broadcast
configure_all_nodes-Framed env s t v =
    send_built-Framed env s (build_config_set_broadcast t)
      (build_config_set-IsBuilt lattice_hub.Protocol.broadcast_mac t) v

pub request_health_reports-Framed :
    (env : Env) (s : Server) → Framed s → Framed (request_health_reports env s).0
unfolding request_health_reports build_health_request
request_health_reports-Framed env s v =
    send_message-Framed env s build_health_request (refl, inl refl) v

pub broadcast_data-Framed :
    (env : Env) (s : Server) (t : ℕ) (bytes : List ℕ)
    → Framed s
    → Framed (broadcast_data env s t bytes).0
unfolding broadcast_data
broadcast_data-Framed env s t bytes v =
    send_built-Framed env s (build_broadcast t bytes) (build_broadcast-IsBuilt t bytes) v
