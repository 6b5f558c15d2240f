-- ===== src/Server/Liveness.antt =====
-- Which nodes and masters count as online: publishHealthEvent, checkOfflineNodes, recordFrame,
-- frameIsFresh, IsPrimaryOnline, IsSecondaryOnline, IsMasterOnline and SerialStatus of
-- server/orchestrator/mesh/server.go. Times are nanoseconds since Go's zero time, so 0 is IsZero.
use lattice_hub.Events.{health, node_offline, offline_of, health_of, node_online, online_of}
use lattice_hub.Base.Maps.{insert, lookup}
use lattice_hub.Server.{Server, Env, Link, publish_event, primary, secondary}
use lattice_hub.Base.{
  ℕ, ◌-◌, Bool, true, false, not, ◌&&◌, ◌||◌, List, [], ◌∷◌, ltb, leb, ◌==◌, if◌then◌else◌, Text,
  or_else,
}
pub mod Offline
pub mod Masters
use lattice_hub.Nodes
use lattice_hub.Nodes.{NodeInfo}

-- nodeOnlineState[key]: false where the key is missing.
abbrev pub was_online : Server → Text → Bool
was_online s key = or_else (lookup key s.online_state) false

abbrev pub set_online : Server → Text → Bool → Server
set_online s key b = record s { online_state = insert key b s.online_state }

unfoldable pub publish_health_event : Env → Server → NodeInfo → Server
publish_health_event env s n =
    let online = leb (env.now - n.last_seen) s.health_timeout in
    let s1 = publish_event env s health (health_of n.node_id n.name online n.uptime n.hop_count) in
    if was_online s1 n.mac_string
    then s1
    else publish_event env (set_online s1 n.mac_string true) node_online
        (online_of n.node_id n.name)

-- time.Since(node.LastSeen) > ms.healthTimeout.
abbrev pub is_silent : Env → ℕ → NodeInfo → Bool
is_silent env timeout n = ltb timeout (env.now - n.last_seen)

unfoldable pub check_node : Env → Server → NodeInfo → Server
check_node env s n =
    if is_silent env s.health_timeout n && was_online s n.mac_string
    then publish_event env (set_online s n.mac_string false) node_offline
        (offline_of n.node_id n.name n.last_seen)
    else s

unfoldable pub check_nodes : Env → Server → List NodeInfo → Server
unfolding check_node
check_nodes env s [] = s
check_nodes env s (n ∷ ns) = check_nodes env (check_node env s n) ns

unfoldable pub check_offline_nodes : Env → Server → Server
unfolding check_nodes
check_offline_nodes env s = check_nodes env s (Nodes.get_all_nodes s.nodes)

unfoldable pub record_frame : Env → Server → Link → Server
record_frame env s primary = record s { primary_last_frame = env.now }
record_frame env s secondary = record s { secondary_last_frame = env.now }

unfoldable pub frame_is_fresh : Env → Server → ℕ → Bool
frame_is_fresh env s t = if t == 0 then false else ltb (env.now - t) s.health_timeout

unfoldable pub is_primary_online : Env → Server → Bool
unfolding frame_is_fresh
is_primary_online env s = frame_is_fresh env s s.primary_last_frame

-- The primary's state, the secondary's, and whether a secondary is configured.
unfoldable pub serial_status : Server → Bool × Bool × Bool
serial_status s = (s.primary_open, s.secondary_connected, s.secondary_port || s.secondary_open)

unfoldable pub is_secondary_online : Env → Server → Bool
unfolding frame_is_fresh serial_status
is_secondary_online env s =
    let (p, q, configured) = serial_status s in
    if not configured then false else frame_is_fresh env s s.secondary_last_frame

unfoldable pub is_master_online : Env → Server → Bool
unfolding is_primary_online is_secondary_online
is_master_online env s = is_primary_online env s || is_secondary_online env s
