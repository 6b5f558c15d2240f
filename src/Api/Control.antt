-- ===== src/Api/Control.antt =====
-- Control and status by the API: configureAllNodes, requestHealth, getStatus, getHealth,
-- broadcastData, startServer, stopServer, handleGetTxPower and handleSetTxPower of
-- server/orchestrator/mesh/api.go, and v1Status of api_v1_status.go, but for the counts of the
-- event store.
use lattice_hub.Base.{
  ℕ, ◌-◌, ◌*◌, Bool, not, Option, none, some, List, ltb, leb, ◌==◌, if◌then◌else◌, Text, codes,
  length, filter, [],
}
use lattice_hub.Server.{Env, Server, Answer, panics}
use lattice_hub.Server.Send.{
  configure_all_nodes, request_health_reports, broadcast_data, set_tx_power_preset,
}
use lattice_hub.Server.Liveness.{
  serial_status, is_master_online, is_primary_online, is_secondary_online,
}
use lattice_hub.Server.Lifecycle.{start, stop, is_running}
use lattice_hub.Nodes
use lattice_hub.Nodes.{NodeInfo}
use lattice_hub.Api.{
  all_configured, broadcasted, reports_requested, server_started, server_stopped, Reply, Served,
  answered, respond, refuse, invalid_body, invalid_adapter_type, is_running_already, is_not_running,
  message, alive, counts, tx_power, mesh_status, MeshStatus, server_failed,
}
use lattice_hub.Api.Ids.{is_valid_adapter_type}
use lattice_hub.Api.Nodes.{replied}

unfoldable pub configure_all_route : Env → Server → Option ℕ → Reply
configure_all_route env s none = (s, refuse 400 invalid_body)
configure_all_route env s (some a) =
    if not (is_valid_adapter_type a)
    then (s, refuse 400 (invalid_adapter_type a))
    else replied 500 (message all_configured) (configure_all_nodes env s a)

unfoldable pub request_health : Env → Server → Reply
request_health env s = replied 500 (message reports_requested) (request_health_reports env s)

-- Seventy-five seconds.
abbrev pub health_window : ℕ
health_window = 75 * 1000000000

unfoldable pub get_status : Env → Server → Reply
get_status env s = (
  s,
  respond 200 (
      counts (is_running s) (length (Nodes.get_all_nodes s.nodes))
        (length (Nodes.get_online_nodes env.now s.nodes health_window))),
)

-- The probe does not look at the server.
unfoldable pub get_health : Server → Reply
get_health s = (s, respond 200 alive)

unfoldable pub broadcast_route : Env → Server → Option (ℕ × List ℕ) → Reply
broadcast_route env s none = (s, refuse 400 invalid_body)
broadcast_route env s (some (t, bytes)) =
    replied 500 (message broadcasted) (broadcast_data env s t bytes)

unfoldable pub start_server : Env → Server → Reply
start_server env s =
    if is_running s
    then (s, refuse 409 is_running_already)
    else replied 500 (message server_started) (start env s)

-- A Stop that panics does so in the handler: nothing is written.
abbrev pub stop_reply : Answer → Served
stop_reply (s, some panics) = (s, none)
stop_reply a = answered (replied 500 (message server_stopped) a)

unfoldable pub stop_server : Env → Server → Served
stop_server env s =
    if not (is_running s) then answered (s, refuse 409 is_not_running) else stop_reply (stop env s)

-- GetTxPowerPreset: the preset and its name.
unfoldable pub preset_name : ℕ → Text
preset_name p =
    if p == 0
    then codes "short_range"
    else if p == 1
    then codes "indoor"
    else if p == 2
    then codes "outdoor"
    else []

unfoldable pub get_tx_power : Server → Reply
get_tx_power s = (s, respond 200 (tx_power s.tx_preset (preset_name s.tx_preset)))

abbrev pub power_set : ℕ → Answer → Reply
power_set p (s, none) = (s, respond 200 (tx_power p (preset_name s.tx_preset)))
power_set p (s, some e) = (s, refuse 400 (server_failed e))

unfoldable pub set_tx_power : Env → Server → Option ℕ → Reply
set_tx_power env s none = (s, refuse 400 invalid_body)
set_tx_power env s (some p) = power_set p (set_tx_power_preset env s p)

abbrev is_numbered : NodeInfo → Bool
is_numbered n = ltb 0 n.node_id

-- isOnline.
abbrev is_online : Env → ℕ → NodeInfo → Bool
is_online env timeout n = leb (env.now - n.last_seen) timeout

abbrev primary_text : Bool → Text
primary_text connected = if connected then codes "connected" else codes "disconnected"

abbrev secondary_text : Bool → Bool → Text
secondary_text configured connected =
    if not configured
    then codes "not_configured"
    else if connected
    then codes "connected"
    else codes "disconnected"

unfoldable pub status_of : Env → Server → MeshStatus
status_of env s =
    let nodes = filter is_numbered (Nodes.get_all_nodes s.nodes) in
    let live = filter (is_online env s.health_timeout) nodes in
    let (p, q, configured) = serial_status s in
    record {
      total = length nodes;
      online = length live;
      offline = length nodes - length live;
      next_free_id = Nodes.next_free_node_id s.nodes;
      primary = primary_text p;
      secondary = secondary_text configured q;
      master_online = is_master_online env s;
      primary_online = is_primary_online env s;
      secondary_online = is_secondary_online env s;
    }

unfoldable pub v1_status : Env → Server → Reply
unfolding status_of
v1_status env s = (s, respond 200 (mesh_status (status_of env s)))
