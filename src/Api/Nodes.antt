-- ===== src/Api/Nodes.antt =====
-- The nodes of the API: v1GetNodes, v1GetNode, v1UpdateNode and v1DeleteNode of
-- server/orchestrator/mesh/api_v1_nodes.go, and getNodes, getNode and configureNode of api.go.
use lattice_hub.Server.Send.{configure_node}
use lattice_hub.Api.{
  node_configured, node_removed, Response, Content, Reply, refuse, invalid_mac, unknown_type,
  invalid_body, configure_failed, respond, invalid_node_id, one_node_v1, all_nodes, all_nodes_v1,
  invalid_adapter_type, message, server_failed, node_not_found, one_node, node_to_v1,
}
use lattice_hub.Server.{Server, Env, Answer}
use lattice_hub.Base.{
  ℕ, Bool, not, ◌&&◌, Option, none, some, List, map, ltb, if◌then◌else◌, Text, or_else, Result, ok,
  err, filter,
}
use lattice_hub.Nodes
use lattice_hub.Nodes.{NodeInfo, is_replaced}
use lattice_hub.Api.Ids.{parse_node_id, adapter_type_from_string, is_valid_adapter_type}
use lattice_hub.Mac.{string_to_mac}

-- Only nodes with an ID that are not replaced are listed.
abbrev is_listed : NodeInfo → Bool
is_listed n = ltb 0 n.node_id && not (is_replaced n)

unfoldable pub v1_get_nodes : Env → Server → Reply
v1_get_nodes env s =
    let nodes = filter is_listed (Nodes.get_all_nodes s.nodes) in
    (s, respond 200 (all_nodes_v1 (map (λ n. node_to_v1 env n s.health_timeout) nodes)))

-- The node of a path's ID, or the refusal.
abbrev pub find_node : Server → Text → Result Response NodeInfo
find_node s id = elim (parse_node_id id) [
  | none ↦ err (refuse 400 invalid_node_id)
  | some i ↦ elim (Nodes.get_node_by_id s.nodes i) [
    | none ↦ err (refuse 404 node_not_found)
    | some n ↦ ok n
  ]
]

abbrev pub show_node : Env → Server → Result Response NodeInfo → Reply
show_node env s (err r) = (s, r)
show_node env s (ok n) = (s, respond 200 (one_node_v1 (node_to_v1 env n s.health_timeout)))

unfoldable pub v1_get_node : Env → Server → Text → Reply
v1_get_node env s id = show_node env s (find_node s id)

pub record NodeUpdate : Type 0 where
  pub name : Option Text
  pub zone : Option Text
  pub adapter_type : Option Text

-- The type asked for, if any, before anything is changed.
abbrev pub wanted_type : Option Text → Result Response (Option ℕ)
wanted_type none = ok none
wanted_type (some t) = elim (adapter_type_from_string t) [
  | none ↦ err (refuse 400 (unknown_type t))
  | some a ↦ ok (some a)
]

-- `nodeToV1(updated)`: a node that is not found would be a nil dereference, none here.
abbrev pub updated_node : Env → Server → ℕ → Option Reply
updated_node env s id = elim (Nodes.get_node_by_id s.nodes id) [
  | none ↦ none
  | some n ↦ some (s, respond 200 (one_node_v1 (node_to_v1 env n s.health_timeout)))
]

abbrev pub after_configure : Env → ℕ → Answer → Option Reply
after_configure env id (s, none) = updated_node env s id
after_configure env id (s, some e) = some (s, refuse 500 configure_failed)

abbrev configure_wanted : Env → Server → NodeInfo → Option ℕ → Option Reply
configure_wanted env s n none = updated_node env s n.node_id
configure_wanted env s n (some a) = after_configure env n.node_id (configure_node env s n.mac a)

abbrev pub rename : Server → NodeInfo → NodeUpdate → Server
rename s n u = record s {
  nodes = Nodes.assign_node s.nodes n.mac n.node_id (or_else u.name n.name) (or_else u.zone n.zone);
}

abbrev pub apply_update :
    Env → Server → NodeInfo → NodeUpdate → Result Response (Option ℕ) → Option Reply
apply_update env s n u (err r) = some (s, r)
apply_update env s n u (ok a) = configure_wanted env (rename s n u) n a

abbrev pub update_found : Env → Server → Option NodeUpdate → Result Response NodeInfo → Option Reply
update_found env s body (err r) = some (s, r)
update_found env s none (ok n) = some (s, refuse 400 invalid_body)
update_found env s (some u) (ok n) = apply_update env s n u (wanted_type u.adapter_type)

unfoldable pub v1_update_node : Env → Server → Text → Option NodeUpdate → Option Reply
v1_update_node env s id body = update_found env s body (find_node s id)

abbrev pub delete_found : Server → Result Response NodeInfo → Reply
delete_found s (err r) = (s, r)
delete_found s (ok n) =
    (record s { nodes = (Nodes.remove_node s.nodes n.mac).0 }, respond 200 (message node_removed))

unfoldable pub v1_delete_node : Server → Text → Reply
v1_delete_node s id = delete_found s (find_node s id)

-- The routes without a version.
unfoldable pub get_nodes : Server → Reply
get_nodes s = (s, respond 200 (all_nodes (Nodes.get_all_nodes s.nodes)))

unfoldable pub get_node : Server → Text → Reply
get_node s mac_str = elim (string_to_mac mac_str) [
  | none ↦ (s, refuse 400 invalid_mac)
  | some mac ↦ elim (Nodes.get_node s.nodes mac) [
    | none ↦ (s, refuse 404 node_not_found)
    | some n ↦ (s, respond 200 (one_node n))
  ]
]

-- A server's answer as a reply: its error under the status given.
abbrev pub replied : ℕ → Content → Answer → Reply
replied status c (s, none) = (s, respond 200 c)
replied status c (s, some e) = (s, refuse status (server_failed e))

abbrev pub configure_with : Env → Server → List ℕ → Option ℕ → Reply
configure_with env s mac none = (s, refuse 400 invalid_body)
configure_with env s mac (some a) =
    if not (is_valid_adapter_type a)
    then (s, refuse 400 (invalid_adapter_type a))
    else replied 500 (message node_configured) (configure_node env s mac a)

unfoldable pub configure_node_route : Env → Server → Text → Option ℕ → Reply
configure_node_route env s mac_str body = elim (string_to_mac mac_str) [
  | none ↦ (s, refuse 400 invalid_mac)
  | some mac ↦ configure_with env s mac body
]
