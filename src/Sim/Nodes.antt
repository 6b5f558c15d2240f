-- ===== src/Sim/Nodes.antt =====
-- The simulated nodes: server/orchestrator/meshsim/node.go, and New and resetLocked of sim.go. A
-- seed that does not parse is left out.
use lattice_hub.Base.{
  ℕ, zero, suc, ◌+◌, ◌-◌, ◌*◌, ◌/◌, ◌%◌, true, false, List, [], ◌∷◌, ltb, if◌then◌else◌, Text,
  Result, ok, err, and_then, get_or,
}
use lattice_hub.Base.Maps.{Map, insert}
use lattice_hub.Sim.{VirtualNode, NodeConfig, SimConfig, Simulator, SimError}
use lattice_hub.Sim.Config.{parse_sim_mac, type_from_string}

-- `a ^ b` on the low n bits.
unfoldable xor_bits : ℕ → ℕ → ℕ → ℕ
xor_bits zero a b = 0
xor_bits (suc n) a b = (a + b) % 2 + 2 * xor_bits n (a / 2) (b / 2)

-- `a | 1`.
abbrev or_one : ℕ → ℕ
or_one a = a - a % 2 + 1

-- The bytes from the i-th on, n of them.
unfoldable pub key_bytes : List ℕ → ℕ → ℕ → List ℕ
unfolding xor_bits
key_bytes mac zero i = []
key_bytes mac (suc n) i = or_one (xor_bits 8 (get_or mac (i % 6) 0) i) ∷ key_bytes mac n (i + 1)

unfoldable pub_key_for_mac : List ℕ → List ℕ
unfolding key_bytes
pub_key_for_mac mac = key_bytes mac 32 0

abbrev fresh_node : Text → List ℕ → ℕ → VirtualNode
fresh_node t mac a = record {
  mac = mac;
  mac_string = t;
  name = [];
  adapter_type = a;
  node_id = 0;
  route_path = [];
  heartbeat_interval = 3 * 1000000000;
  enrolled = false;
  rejected = false;
  offline = false;
  silent = false;
  public_key = pub_key_for_mac mac;
  uptime = 0;
  ack_count = 0;
  last_heartbeat = 0;
  last_route_report = 0;
  last_enroll_attempt = 0;
}

-- newNode and NewEnrollingNode.
unfoldable pub new_node : Text → Text → Result SimError VirtualNode
unfolding parse_sim_mac type_from_string pub_key_for_mac
new_node t typ =
    and_then (parse_sim_mac t)
      (λ mac. and_then (type_from_string typ) (λ a. ok (fresh_node t mac a)))

unfoldable parse_route : List Text → Result SimError (List (List ℕ))
unfolding parse_sim_mac
parse_route [] = ok []
parse_route (t ∷ ts) =
    and_then (parse_sim_mac t) (λ mac. and_then (parse_route ts) (λ macs. ok (mac ∷ macs)))

abbrev seeded : NodeConfig → VirtualNode → List (List ℕ) → VirtualNode
seeded nc n route = record n {
  name = nc.name;
  enrolled = true;
  silent = nc.silent;
  heartbeat_interval =
      if ltb 0 nc.heartbeat_ms then nc.heartbeat_ms * 1000000 else n.heartbeat_interval;
  route_path = route;
}

unfoldable new_seeded_node : NodeConfig → Result SimError VirtualNode
unfolding new_node parse_route
new_seeded_node nc =
    and_then (new_node nc.mac nc.node_type)
      (λ n. and_then (parse_route nc.route_path) (λ r. ok (seeded nc n r)))

abbrev add_seed : Map VirtualNode → Result SimError VirtualNode → Map VirtualNode
add_seed nodes (err e) = nodes
add_seed nodes (ok n) = insert n.mac_string n nodes

unfoldable seed_nodes : Map VirtualNode → List NodeConfig → Map VirtualNode
unfolding new_seeded_node
seed_nodes nodes [] = nodes
seed_nodes nodes (nc ∷ ncs) = seed_nodes (add_seed nodes (new_seeded_node nc)) ncs

unfoldable new_simulator : ℕ → SimConfig → Simulator
unfolding seed_nodes
new_simulator now cfg = record {
  cfg = cfg;
  nodes = seed_nodes [] cfg.nodes;
  wire = record { connected = false; written = [] };
  route_report_interval =
      if ltb 0 cfg.route_report_ms then cfg.route_report_ms * 1000000 else 6 * 1000000000;
  started_at = now;
}

unfoldable pub reset : Simulator → Simulator
unfolding seed_nodes
reset s = record s { nodes = seed_nodes [] s.cfg.nodes }
