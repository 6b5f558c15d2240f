-- ===== src/Api/Registry.antt =====
-- What the API leaves in the node registry, and whether it answers.
use lattice_hub.Server.{panics, Answer, Server, Env}
use lattice_hub.Server.Lifecycle.{stop, is_running}
use lattice_hub.Api.{Served, Reply, Notice, enrollment_approved, enrollment_rejected, Response}
use lattice_hub.Api.Control.{stop_reply, stop_server}
use lattice_hub.Api.Routes.{
  answered_if, v1_command_status, v1_command_node, v1_command_zone, v1_change_node, handle, Request,
  serve, old_approve, v1_node, v1_approve, tier, node_at, configure, configure_all, broadcast,
  old_reject, write_power, v1_new_zone, v1_rename_zone, v1_reject, v1_remove_node, v1_remove_zone,
  health, v1_nodes, v1_status_of, every_node, status_of_hub, health_reports, server_start,
  server_stop, pending, all_enrollments, v1_pending, v1_all_enrollments, read_power, v1_zones,
}
use lattice_hub.Api.Unchanged.{
  stop-nodes, configure_node-nodes, request_health-nodes, start_server-nodes, get_node-same,
  configure_node_route-nodes, configure_all_route-nodes, broadcast_route-nodes, set_tx_power-nodes,
  v1_create_zone-nodes, v1_update_zone-nodes, v1_delete_zone-nodes,
}
use lattice_hub.Api.Nodes.{v1_update_node, delete_found, find_node, v1_delete_node}
use lattice_hub.Base.{
  ◌&&◌, ℕ, ◌<◌, ◌≡◌, refl, sym, ap, ◌∙◌, inl, inr, Option, some, Text, ok, Bool, none, List,
  Bool-cases, Result, err, subst, true, false, arith,
}
use lattice_hub.Api.Safety.{v1_get_node-same}
use lattice_hub.Api.Commands.Unchanged.{
  v1_zone_command-nodes, v1_node_command-nodes, v1_get_command_status-nodes,
}
use lattice_hub.Api.Commands.{Uuid}
use lattice_hub.Api.Access.{Keys, authorised}
use lattice_hub.Server.Enrollment.{reject_enrollment, ApprovalParams, approve_enrollment}
use lattice_hub.Server.Enrollment.Registry.{
  Sound, reject_enrollment-nodes, approve_enrollment-Sound,
}
use lattice_hub.Nodes.{NodeInfo}
use lattice_hub.Nodes.Calls.{remove_node-Inv, remove_node-UniqueIds}
use lattice_hub.Api.Ids.{adapter_type_from_string}
use lattice_hub.Api.Enrollments.{
  params_of, approved_reply, approve_route, reject_route, configure_approved, configure_address,
  approved_and_configured, v1_approve_enrollment,
}
use lattice_hub.Api.Updates.{Keeps, v1_update_node-Keeps}

v1_delete_node-Sound :
    (s : Server) (id : Text) → Sound s.nodes → Sound (v1_delete_node s id).0.nodes
unfolding v1_delete_node
v1_delete_node-Sound s id v = on_found (find_node s id)
  where
    on_found : (r : Result Response NodeInfo) → Sound (delete_found s r).0.nodes
    on_found (err r) = v
    on_found (ok n) = record {
      inv = remove_node-Inv s.nodes n.mac v.inv;
      unique = remove_node-UniqueIds s.nodes n.mac v.unique;
    }

approved_reply-same : (notice : Notice) (a : Answer) → (approved_reply notice a).0 ≡ a.0
approved_reply-same notice (s, none) = refl
approved_reply-same notice (s, some e) = refl

approve_route-Sound :
    (env : Env) (s : Server) (mac : Text) (body : Option ApprovalParams)
    → (params_of body).node_id < 256
    → Sound s.nodes
    → Sound (approve_route env s mac body).0.nodes
unfolding approve_route
approve_route-Sound env s mac body h v =
    subst (λ (t : Server). Sound t.nodes)
      (sym
        (approved_reply-same enrollment_approved (approve_enrollment env s mac (params_of body))))
      (approve_enrollment-Sound env s mac (params_of body) h v)

reject_route-nodes :
    (env : Env) (s : Server) (mac : Text) → (reject_route env s mac).0.nodes ≡ s.nodes
unfolding reject_route
reject_route-nodes env s mac =
    ap (λ (t : Server). t.nodes)
      (approved_reply-same enrollment_rejected (reject_enrollment env s mac))
    ∙ reject_enrollment-nodes env s mac

module _ (net_parse_mac : Text → Option (List ℕ)) where
  configure_approved-nodes :
      (env : Env) (s : Server) (mac : Text) (t : Option ℕ)
      → (configure_approved net_parse_mac env s mac t).nodes ≡ s.nodes
  configure_approved-nodes env s mac none = refl
  configure_approved-nodes env s mac (some a) = at_address (net_parse_mac mac)
    where
      at_address :
          (o : Option (List ℕ)) → (configure_address net_parse_mac env s a o).nodes ≡ s.nodes
      at_address none = refl
      at_address (some m) = configure_node-nodes env s m a

  v1_approve_enrollment-Sound :
      (env : Env) (s : Server) (mac : Text) (body : Option ApprovalParams)
      → (params_of body).node_id < 256
      → Sound s.nodes
      → Sound (v1_approve_enrollment net_parse_mac env s mac body).0.nodes
  unfolding v1_approve_enrollment
  v1_approve_enrollment-Sound env s mac body h v =
      after (approve_enrollment env s mac (params_of body))
        (approve_enrollment-Sound env s mac (params_of body) h v)
    where
      after :
          (a : Answer)
          → Sound a.0.nodes
          → Sound
              (approved_and_configured net_parse_mac env mac
                (params_of body).adapter_type_str
                a).0.nodes
      after (t, some e) w = w
      after (t, none) w =
          subst Sound
            (sym (
              configure_approved-nodes env t mac
                (adapter_type_from_string (params_of body).adapter_type_str)))
            w

-- The body of an approval has an ID of one byte.
abbrev pub IsWellTyped : Request → Type 0
IsWellTyped (old_approve mac body) = (params_of body).node_id < 256
IsWellTyped (v1_approve mac body) = (params_of body).node_id < 256
IsWellTyped _ = Unit

-- The request stops a hub that runs, but was stopped before.
abbrev pub stops_again : Server → Request → Bool
stops_again s server_stop = s.running && s.persist_closed
stops_again s _ = false

-- No nil dereference and a registry in order; and a response, but where none may be missing.
abbrev pub Answers : Bool → Option Served → Type 0
Answers may_drop none = ⊥
Answers may_drop (some (t, none)) = (may_drop ≡ true) × Sound t.nodes
Answers may_drop (some (t, some resp)) = Sound t.nodes

pub Answers-Sound : (b : Bool) (p : Served) → Answers b (some p) → Sound p.0.nodes
Answers-Sound b (t, none) h = h.1
Answers-Sound b (t, some resp) h = h

answered_if-Answers : (b : Bool) (o : Option Reply) → Keeps o → Answers b (answered_if o)
answered_if-Answers b none h = h
answered_if-Answers b (some p) h = h

stop_reply-Answers :
    (b : Bool) (a : Answer)
    → (a.1 ≡ some panics → b ≡ true)
    → Sound a.0.nodes
    → Answers b (some (stop_reply a))
stop_reply-Answers b (t, some panics) h v = (h refl, v)
stop_reply-Answers b (t, none) h v = v
stop_reply-Answers b (t, some e) h v = v

stop-panics :
    (env : Env) (s : Server) → (stop env s).1 ≡ some panics → (s.running && s.persist_closed) ≡ true
unfolding stop
stop-panics env s h = ground (arith, h)

stop_server-Answers :
    (env : Env) (s : Server)
    → Sound s.nodes
    → Answers (s.running && s.persist_closed) (some (stop_server env s))
unfolding stop_server
stop_server-Answers env s v = elim (Bool-cases (is_running s)) [
  | inr r ↦ rw r v
  | inl r ↦ rw r (
      stop_reply-Answers (s.running && s.persist_closed) (stop env s) (stop-panics env s)
        (subst Sound (sym (stop-nodes env s)) v))
]

module _ (is_output : ℕ → Bool) (net_parse_mac : Text → Option (List ℕ)) where
  handle-Answers :
      (env : Env) (u : Uuid) (s : Server) (r : Request)
      → IsWellTyped r
      → Sound s.nodes
      → Answers (stops_again s r) (handle is_output net_parse_mac env u s r)
  unfolding handle lattice_hub.Api.Control.get_health lattice_hub.Api.Nodes.v1_get_nodes
      lattice_hub.Api.Control.v1_status lattice_hub.Api.Nodes.get_nodes
      lattice_hub.Api.Control.get_status lattice_hub.Api.Enrollments.get_pending_enrollments
      lattice_hub.Api.Enrollments.get_all_enrollments lattice_hub.Api.Control.get_tx_power
      lattice_hub.Api.Zones.v1_get_zones
  handle-Answers env u s health h v = v
  handle-Answers env u s v1_nodes h v = v
  handle-Answers env u s v1_status_of h v = v
  handle-Answers env u s (v1_node id) h v =
      subst Sound (sym (ap (λ (t : Server). t.nodes) (v1_get_node-same env s id))) v
  handle-Answers env u s every_node h v = v
  handle-Answers env u s status_of_hub h v = v
  handle-Answers env u s health_reports h v = subst Sound (sym (request_health-nodes env s)) v
  handle-Answers env u s server_start h v = subst Sound (sym (start_server-nodes env s)) v
  handle-Answers env u s server_stop h v = stop_server-Answers env s v
  handle-Answers env u s (node_at mac) h v =
      subst Sound (sym (ap (λ (t : Server). t.nodes) (get_node-same s mac))) v
  handle-Answers env u s (configure mac body) h v =
      subst Sound (sym (configure_node_route-nodes env s mac body)) v
  handle-Answers env u s (configure_all body) h v =
      subst Sound (sym (configure_all_route-nodes env s body)) v
  handle-Answers env u s (broadcast body) h v =
      subst Sound (sym (broadcast_route-nodes env s body)) v
  handle-Answers env u s pending h v = v
  handle-Answers env u s all_enrollments h v = v
  handle-Answers env u s v1_pending h v = v
  handle-Answers env u s v1_all_enrollments h v = v
  handle-Answers env u s (old_approve mac body) h v = approve_route-Sound env s mac body h v
  handle-Answers env u s (old_reject mac) h v = subst Sound (sym (reject_route-nodes env s mac)) v
  handle-Answers env u s read_power h v = v
  handle-Answers env u s (write_power body) h v =
      subst Sound (sym (set_tx_power-nodes env s body)) v
  handle-Answers env u s v1_zones h v = v
  handle-Answers env u s (v1_new_zone body) h v = subst Sound (sym (v1_create_zone-nodes s body)) v
  handle-Answers env u s (v1_rename_zone id body) h v =
      subst Sound (sym (v1_update_zone-nodes s id body)) v
  handle-Answers env u s (v1_command_zone id body) h v =
      subst Sound (sym (v1_zone_command-nodes is_output env s id body)) v
  handle-Answers env u s (v1_change_node id body) h v =
      answered_if-Answers false (v1_update_node env s id body)
        (v1_update_node-Keeps env s id body v)
  handle-Answers env u s (v1_command_node id body) h v =
      subst Sound (sym (v1_node_command-nodes is_output env s u id body)) v
  handle-Answers env u s (v1_command_status id command_id) h v =
      subst Sound (sym (v1_get_command_status-nodes s command_id)) v
  handle-Answers env u s (v1_approve mac body) h v =
      v1_approve_enrollment-Sound net_parse_mac env s mac body h v
  handle-Answers env u s (v1_reject mac) h v = subst Sound (sym (reject_route-nodes env s mac)) v
  handle-Answers env u s (v1_remove_node id) h v = v1_delete_node-Sound s id v
  handle-Answers env u s (v1_remove_zone id) h v = subst Sound (sym (v1_delete_zone-nodes s id)) v

  pub serve-Keeps :
      (k : Keys) (auth : Text) (env : Env) (u : Uuid) (s : Server) (r : Request)
      → IsWellTyped r
      → Sound s.nodes
      → Answers (stops_again s r) (serve is_output net_parse_mac k auth env u s r)
  unfolding serve
  serve-Keeps k auth env u s r h v = elim (Bool-cases (authorised k (tier r) auth)) [
    | inl a ↦ rw a (handle-Answers env u s r h v)
    | inr a ↦ rw a v
  ]
