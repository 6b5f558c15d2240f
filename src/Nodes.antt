-- ===== src/Nodes.antt =====
-- The registry of mesh nodes: server/orchestrator/mesh/node_registry.go.
-- The map from MAC texts to nodes is a Base.Maps map. Each method holds the registry's lock for all
-- of its body, so it is one function on the map; a getter's copies are values here. A time is a
-- number of nanoseconds since Go's zero time, and time.Now() is an argument.
use lattice_hub.Protocol.AdapterType
use lattice_hub.Mac.{mac_to_string}
pub mod Ids
pub mod Invariant
pub mod Calls
pub mod ById
pub mod Order
pub mod Routes
pub mod Storage
pub mod Tests
use lattice_hub.Base.{
  ℕ, Option, Bool, length, Text, List, codes, ltb, false, none, or_else, ◌==◌, if◌then◌else◌,
  text_eq, filter, is_some, ◌&&◌, ◌+◌, map, not, true, zero, suc, ◌||◌, some, [], ◌∷◌,
}
use lattice_hub.Base.Maps.{Map, insert, find, values, lookup, erase}

pub record NodeInfo : Type 0 where
  pub mac : List ℕ
  pub mac_string : Text
  pub adapter_type : ℕ  -- an int32
  pub uptime : ℕ
  pub last_seen : ℕ
  pub hop_count : ℕ
  pub node_id : ℕ  -- a uint8
  pub name : Text
  pub zone : Text
  pub status : Text
  pub replaced_by : Text
  pub route_path : List Text
  pub parent_id : Option ℕ

abbrev pub Registry : Type 0
Registry = Map NodeInfo

abbrev pub replaced : Text
replaced = codes "replaced"

abbrev pub is_replaced : NodeInfo → Bool
is_replaced n = text_eq n.status replaced

-- `&NodeInfo{MAC: …, MACString: macStr}`.
abbrev pub new_node : List ℕ → NodeInfo
new_node mac = record {
  mac = mac;
  mac_string = mac_to_string mac;
  adapter_type = AdapterType.unknown;
  uptime = 0;
  last_seen = 0;
  hop_count = 0;
  node_id = 0;
  name = [];
  zone = [];
  status = [];
  replaced_by = [];
  route_path = [];
  parent_id = none;
}

-- The entry of an address, made if there is none.
abbrev pub entry : Registry → List ℕ → NodeInfo
entry r mac = or_else (lookup (mac_to_string mac) r) (new_node mac)

unfoldable pub update_node : ℕ → Registry → List ℕ → ℕ → ℕ → ℕ → Registry
update_node now r mac adapter_type uptime hop_count =
    insert (mac_to_string mac)
      (record (entry r mac) {
        adapter_type = adapter_type;
        uptime = uptime;
        last_seen = now;
        hop_count = hop_count;
      })
      r

abbrev pub name_or : Text → Text → Text
name_or [] d = d
name_or (c ∷ name) d = c ∷ name

unfoldable pub assign_node : Registry → List ℕ → ℕ → Text → Text → Registry
assign_node r mac node_id name zone =
    insert (mac_to_string mac)
      (record (entry r mac) {
        node_id = node_id;
        name = name_or name (mac_to_string mac);
        zone = zone;
      })
      r

-- `used[id]`: some node has this ID, whatever its status.
unfoldable pub is_used : Registry → ℕ → Bool
is_used [] id = false
is_used ((k, n) ∷ r) id = (ltb 0 n.node_id && n.node_id == id) || is_used r id

-- The loop from `id`, for the rounds that are left.
unfoldable pub free_from : Registry → ℕ → ℕ → ℕ
free_from r zero id = 0
free_from r (suc rounds) id =
    let rest = free_from r rounds (id + 1) in if not (is_used r id) then id else rest

unfoldable pub next_free_node_id : Registry → ℕ
unfolding free_from is_used
next_free_node_id r = free_from r 255 1

unfoldable pub get_node : Registry → List ℕ → Option NodeInfo
get_node r mac = lookup (mac_to_string mac) r

unfoldable pub get_all_nodes : Registry → List NodeInfo
get_all_nodes r = values r

abbrev pub has_id : ℕ → NodeInfo → Bool
has_id id n = n.node_id == id && not (is_replaced n)

abbrev pub value_of : Option (Text × NodeInfo) → Option NodeInfo
value_of none = none
value_of (some (k, n)) = some n

-- The first match in the order of the iteration.
unfoldable pub get_node_by_id : Registry → ℕ → Option NodeInfo
get_node_by_id r id = value_of (find (has_id id) r)

unfoldable pub get_nodes_by_zone : Registry → Text → List NodeInfo
get_nodes_by_zone r zone = filter (λ n. text_eq n.zone zone && not (is_replaced n)) (values r)

-- `LastSeen.After(time.Now().Add(-timeout))`.
abbrev seen_within : ℕ → ℕ → NodeInfo → Bool
seen_within now timeout n = ltb now (n.last_seen + timeout)

unfoldable pub get_online_nodes : ℕ → Registry → ℕ → List NodeInfo
get_online_nodes now r timeout =
    filter (λ n. seen_within now timeout n && not (is_replaced n)) (values r)

unfoldable pub remove_node : Registry → List ℕ → Registry × Bool
remove_node r mac =
    if is_some (lookup (mac_to_string mac) r)
    then (erase (mac_to_string mac) r, true)
    else (r, false)

abbrev id_of : Option NodeInfo → Option ℕ
id_of none = none
id_of (some p) = if ltb 0 p.node_id then some p.node_id else none

-- The direct parent is the first relay, if that is registered and has an ID.
abbrev pub parent_of : Registry → List (List ℕ) → Option ℕ
parent_of r [] = none
parent_of r (relay ∷ relays) = id_of (lookup (mac_to_string relay) r)

-- The origin's entry is in the map before the parent is looked up: a node may be its own relay.
unfoldable pub update_node_route : Registry → List ℕ → List (List ℕ) → Registry
update_node_route r origin relays =
    let r' = insert (mac_to_string origin) (entry r origin) r in
    insert (mac_to_string origin)
      (record (entry r origin) {
        route_path = map mac_to_string relays;
        parent_id = parent_of r' relays;
      })
      r'

unfoldable pub mark_replaced : Registry → List ℕ → Text → Registry
mark_replaced r mac replaced_by = elim (lookup (mac_to_string mac) r) [
  | none ↦ r
  | some n ↦
      insert (mac_to_string mac)
        (record n { status = replaced; replaced_by = replaced_by; node_id = 0 }) r
]

unfoldable node_count : Registry → ℕ
node_count r = length r
