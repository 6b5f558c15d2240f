-- ===== src/Api/Unchanged.antt =====
-- What requests other than those of nodes and enrollments do to the node registry.
use lattice_hub.Base.{
  ℕ, ◌≡◌, refl, ap, ◌∙◌, inl, inr, Bool, true, false, Option, none, some, List, arith, Text,
  Option-cases, Result, ok, err,
}
use lattice_hub.Api.{
  all_configured, broadcasted, node_configured, reports_requested, server_started, Content, message,
}
use lattice_hub.Api.Nodes.{get_node, replied, configure_with, configure_node_route}
use lattice_hub.Api.Control.{
  configure_all_route, request_health, broadcast_route, start_server, stop_server, stop_reply,
  set_tx_power, power_set,
}
use lattice_hub.Api.Zones.{
  has_name, created, renamed, deleted, v1_create_zone, v1_update_zone, v1_delete_zone,
}
use lattice_hub.Zones
use lattice_hub.Zones.{Zone, ZoneError, ZoneRegistry}
use lattice_hub.Server.{Env, Server, Answer, panics}
use lattice_hub.Server.Liveness.{record_frame}
use lattice_hub.Server.Send.{
  configure_node, configure_all_nodes, request_health_reports, broadcast_data, send_built,
  set_tx_power_preset, from_master,
}
use lattice_hub.Server.Steps.{send_message-nodes, set_tx_power_preset-nodes}
use lattice_hub.Server.Lifecycle.{start, stop}
use lattice_hub.Mac.{string_to_mac}
use lattice_hub.Builder.{
  BuildError, build_config_set, build_config_set_broadcast, build_health_request, build_broadcast,
}
use lattice_hub.Protocol.{MeshMessage}
use lattice_hub.Nodes

send_built-nodes :
    (env : Env) (s : Server) (r : Result BuildError MeshMessage)
    → (send_built env s r).0.nodes ≡ s.nodes
send_built-nodes env s (err e) = refl
send_built-nodes env s (ok m) = send_message-nodes env s m

pub configure_node-nodes :
    (env : Env) (s : Server) (mac : List ℕ) (a : ℕ) → (configure_node env s mac a).0.nodes ≡ s.nodes
unfolding configure_node
configure_node-nodes env s mac a = send_built-nodes env s (from_master s (build_config_set mac a))

replied-same : (status : ℕ) (c : Content) (a : Answer) → (replied status c a).0 ≡ a.0
replied-same status c (s, none) = refl
replied-same status c (s, some e) = refl

-- A reply after an answer that keeps the nodes keeps them.
replied-nodes :
    (status : ℕ) (c : Content) (a : Answer) {r : Nodes.Registry}
    → a.0.nodes ≡ r
    → (replied status c a).0.nodes ≡ r
replied-nodes status c a e = ap (λ (t : Server). t.nodes) (replied-same status c a) ∙ e

configure_with-nodes :
    (env : Env) (s : Server) (mac : List ℕ) (body : Option ℕ)
    → (configure_with env s mac body).0.nodes ≡ s.nodes
configure_with-nodes env s mac none = refl
configure_with-nodes env s mac (some a) = ground (
  arith,
  replied-nodes 500 (message node_configured) (configure_node env s mac a)
      (configure_node-nodes env s mac a),
)

pub configure_node_route-nodes :
    (env : Env) (s : Server) (t : Text) (body : Option ℕ)
    → (configure_node_route env s t body).0.nodes ≡ s.nodes
unfolding configure_node_route
configure_node_route-nodes env s t body = elim (Option-cases (string_to_mac t)) [
  | inl e ↦ rw (configure_node_route, e) refl
  | inr (mac, e) ↦ rw (configure_node_route, e) (configure_with-nodes env s mac body)
]

pub configure_all_route-nodes :
    (env : Env) (s : Server) (body : Option ℕ) → (configure_all_route env s body).0.nodes ≡ s.nodes
unfolding configure_all_route configure_all_nodes
configure_all_route-nodes env s none = refl
configure_all_route-nodes env s (some a) = ground (
  arith,
  replied-nodes 500 (message all_configured) (configure_all_nodes env s a)
      (send_built-nodes env s (build_config_set_broadcast a)),
)

pub request_health-nodes : (env : Env) (s : Server) → (request_health env s).0.nodes ≡ s.nodes
unfolding request_health request_health_reports
request_health-nodes env s =
    replied-nodes 500 (message reports_requested) (request_health_reports env s)
      (send_message-nodes env s build_health_request)

pub broadcast_route-nodes :
    (env : Env) (s : Server) (body : Option (ℕ × List ℕ))
    → (broadcast_route env s body).0.nodes ≡ s.nodes
unfolding broadcast_route broadcast_data
broadcast_route-nodes env s none = refl
broadcast_route-nodes env s (some (t, bytes)) =
    replied-nodes 500 (message broadcasted) (broadcast_data env s t bytes)
      (send_built-nodes env s (build_broadcast t bytes))

pub start-nodes : (env : Env) (s : Server) → (start env s).0.nodes ≡ s.nodes
unfolding start record_frame
start-nodes env s = ground arith

pub stop-nodes : (env : Env) (s : Server) → (stop env s).0.nodes ≡ s.nodes
unfolding stop
stop-nodes env s = ground arith

pub start_server-nodes : (env : Env) (s : Server) → (start_server env s).0.nodes ≡ s.nodes
unfolding start_server
start_server-nodes env s =
    ground (arith, replied-nodes 500 (message server_started) (start env s) (start-nodes env s))

stop_reply-same : (a : Answer) → (stop_reply a).0 ≡ a.0
stop_reply-same (s, some panics) = refl
stop_reply-same (s, none) = refl
stop_reply-same (s, some e) = refl

stop_server-nodes : (env : Env) (s : Server) → (stop_server env s).0.nodes ≡ s.nodes
unfolding stop_server
stop_server-nodes env s =
    ground (arith, ap (λ (t : Server). t.nodes) (stop_reply-same (stop env s)) ∙ stop-nodes env s)

pub set_tx_power-nodes :
    (env : Env) (s : Server) (body : Option ℕ) → (set_tx_power env s body).0.nodes ≡ s.nodes
unfolding set_tx_power
set_tx_power-nodes env s none = refl
set_tx_power-nodes env s (some p) =
    same (set_tx_power_preset env s p) ∙ set_tx_power_preset-nodes env s p
  where
    same : (a : Answer) → (power_set p a).0.nodes ≡ a.0.nodes
    same (t, none) = refl
    same (t, some e) = refl

pub v1_create_zone-nodes :
    (s : Server) (body : Option Text) → (v1_create_zone s body).0.nodes ≡ s.nodes
unfolding v1_create_zone
v1_create_zone-nodes s body = elim (Option-cases (has_name body)) [
  | inl e ↦ rw (v1_create_zone, e) refl
  | inr (t, e) ↦ rw (v1_create_zone, e) (same (Zones.add s.zones t))
]
  where
    same : (p : ZoneRegistry × Result ZoneError Zone) → (created s p).0.nodes ≡ s.nodes
    same (z, err e) = refl
    same (z, ok n) = refl

pub v1_update_zone-nodes :
    (s : Server) (id : Text) (body : Option Text) → (v1_update_zone s id body).0.nodes ≡ s.nodes
unfolding v1_update_zone
v1_update_zone-nodes s id body = elim (Option-cases (has_name body)) [
  | inl e ↦ rw (v1_update_zone, e) refl
  | inr (t, e) ↦ rw (v1_update_zone, e) (same (Zones.update s.zones id t))
]
  where
    same : (p : ZoneRegistry × Option Zone) → (renamed s p).0.nodes ≡ s.nodes
    same (z, none) = refl
    same (z, some n) = refl

pub v1_delete_zone-nodes : (s : Server) (id : Text) → (v1_delete_zone s id).0.nodes ≡ s.nodes
unfolding v1_delete_zone
v1_delete_zone-nodes s id = same (Zones.delete s.zones id)
  where
    same : (p : ZoneRegistry × Bool) → (deleted s p).0.nodes ≡ s.nodes
    same (z, false) = refl
    same (z, true) = refl

pub get_node-same : (s : Server) (t : Text) → (get_node s t).0 ≡ s
unfolding get_node
get_node-same s t = elim (Option-cases (string_to_mac t)) [
  | inl e ↦ rw (get_node, e) refl
  | inr (mac, e) ↦ elim (Option-cases (Nodes.get_node s.nodes mac)) [
    | inl f ↦ rw (get_node, e, f) refl
    | inr (n, f) ↦ rw (get_node, e, f) refl
  ]
]
