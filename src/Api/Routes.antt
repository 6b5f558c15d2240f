-- ===== src/Api/Routes.antt =====
-- The routes of the API: setupRoutes of server/orchestrator/mesh/api.go. A request is one of the
-- routes with what its path and its body hold; the router's matching is gorilla/mux's part. The
-- event stream, which answers for as long as its client listens, is in Api.Events; the preflight
-- route and the handler that shows the metrics are left out.
use lattice_hub.Base.{ℕ, Bool, Option, none, some, List, [], if◌then◌else◌, Text, text_eq, none}
use lattice_hub.Server.{Env, Server}
use lattice_hub.Server.Enrollment.{ApprovalParams}
use lattice_hub.Api.{
  Served, answered, Reply, Response, refuse, unauthorized, admin_key_required, Served, answered,
}
use lattice_hub.Api.Access.{Tier, open_tier, key_tier, admin_tier, Keys, authorised}
use lattice_hub.Api.Nodes.{
  NodeUpdate, v1_get_nodes, v1_get_node, v1_update_node, v1_delete_node, get_nodes, get_node,
  configure_node_route,
}
use lattice_hub.Api.Commands.{
  CommandBody, Uuid, v1_node_command, v1_zone_command, v1_get_command_status,
}
use lattice_hub.Api.Zones.{v1_get_zones, v1_create_zone, v1_update_zone, v1_delete_zone}
use lattice_hub.Api.Enrollments.{
  get_pending_enrollments, get_all_enrollments, approve_route, reject_route, v1_approve_enrollment,
}
use lattice_hub.Api.Control.{
  configure_all_route, request_health, get_status, get_health, broadcast_route, start_server,
  stop_server, get_tx_power, set_tx_power, v1_status,
}

pub data Request : Type 0 where
  health v1_nodes v1_status_of : Request
  v1_node : Text → Request
  every_node status_of_hub health_reports server_start server_stop : Request
  node_at : Text → Request
  configure : Text → Option ℕ → Request
  configure_all : Option ℕ → Request
  broadcast : Option (ℕ × List ℕ) → Request
  pending all_enrollments v1_pending v1_all_enrollments : Request
  old_approve : Text → Option ApprovalParams → Request
  old_reject : Text → Request
  read_power : Request
  write_power : Option ℕ → Request
  v1_zones : Request
  v1_new_zone : Option Text → Request
  v1_rename_zone : Text → Option Text → Request
  v1_command_zone : Text → Option CommandBody → Request
  v1_change_node : Text → Option NodeUpdate → Request
  v1_command_node : Text → Option CommandBody → Request
  v1_command_status : Text → Text → Request
  v1_approve : Text → Option ApprovalParams → Request
  v1_reject v1_remove_node v1_remove_zone : Text → Request

-- The subrouter that a route hangs off.
unfoldable pub tier : Request → Tier
tier health = open_tier
tier v1_nodes = open_tier
tier v1_status_of = open_tier
tier (v1_node id) = open_tier
tier (v1_approve mac body) = admin_tier
tier (v1_reject mac) = admin_tier
tier (v1_remove_node id) = admin_tier
tier (v1_remove_zone id) = admin_tier
tier _ = key_tier

-- What a tier's middleware answers in place of the handler.
abbrev pub refusal : Tier → Keys → Response
refusal admin_tier k =
    if text_eq k.admin_key [] then refuse 401 unauthorized else refuse 401 admin_key_required
refusal _ k = refuse 401 unauthorized

abbrev pub answered_if : Option Reply → Option Served
answered_if none = none
answered_if (some p) = some (answered p)

module _ (is_output : ℕ → Bool) (net_parse_mac : Text → Option (List ℕ)) where
  -- The handler of a route; none is a nil dereference, which only the change of a node has in it.
  unfoldable pub handle : Env → Uuid → Server → Request → Option Served
  handle env u s health = some (answered (get_health s))
  handle env u s v1_nodes = some (answered (v1_get_nodes env s))
  handle env u s v1_status_of = some (answered (v1_status env s))
  handle env u s (v1_node id) = some (answered (v1_get_node env s id))
  handle env u s every_node = some (answered (get_nodes s))
  handle env u s status_of_hub = some (answered (get_status env s))
  handle env u s health_reports = some (answered (request_health env s))
  handle env u s server_start = some (answered (start_server env s))
  handle env u s server_stop = some (stop_server env s)
  handle env u s (node_at mac) = some (answered (get_node s mac))
  handle env u s (configure mac body) = some (answered (configure_node_route env s mac body))
  handle env u s (configure_all body) = some (answered (configure_all_route env s body))
  handle env u s (broadcast body) = some (answered (broadcast_route env s body))
  handle env u s pending = some (answered (get_pending_enrollments s))
  handle env u s all_enrollments = some (answered (get_all_enrollments s))
  handle env u s v1_pending = some (answered (get_pending_enrollments s))
  handle env u s v1_all_enrollments = some (answered (get_all_enrollments s))
  handle env u s (old_approve mac body) = some (answered (approve_route env s mac body))
  handle env u s (old_reject mac) = some (answered (reject_route env s mac))
  handle env u s read_power = some (answered (get_tx_power s))
  handle env u s (write_power body) = some (answered (set_tx_power env s body))
  handle env u s v1_zones = some (answered (v1_get_zones s))
  handle env u s (v1_new_zone body) = some (answered (v1_create_zone s body))
  handle env u s (v1_rename_zone id body) = some (answered (v1_update_zone s id body))
  handle env u s (v1_command_zone id body) =
      some (answered (v1_zone_command is_output env s id body))
  handle env u s (v1_change_node id body) = answered_if (v1_update_node env s id body)
  handle env u s (v1_command_node id body) =
      some (answered (v1_node_command is_output env s u id body))
  handle env u s (v1_command_status id command_id) =
      some (answered (v1_get_command_status s command_id))
  handle env u s (v1_approve mac body) =
      some (answered (v1_approve_enrollment net_parse_mac env s mac body))
  handle env u s (v1_reject mac) = some (answered (reject_route env s mac))
  handle env u s (v1_remove_node id) = some (answered (v1_delete_node s id))
  handle env u s (v1_remove_zone id) = some (answered (v1_delete_zone s id))

  -- A request with an Authorization header, through the middleware of its tier.
  unfoldable pub serve : Keys → Text → Env → Uuid → Server → Request → Option Served
  unfolding handle tier
  serve k auth env u s r =
      if authorised k (tier r) auth
      then handle env u s r
      else some (answered (s, refusal (tier r) k))
