-- ===== src/Server/Liveness/Offline.antt =====
-- Node events of the offline detector.
use lattice_hub.Base.Maps.{values, lookup, lookup-insert}
use lattice_hub.Server.Liveness.{
  check_nodes, check_node, set_online, is_silent, was_online, check_offline_nodes,
}
use lattice_hub.Server.{Server, Env, publish_event}
use lattice_hub.Base.{
  ◌≡◌, refl, ap, ◌∙◌, inl, inr, Bool, false, ◌&&◌, none, List, [], ◌∷◌, arith, if◌then◌else◌, Text,
  text_eq, text_eq_iff, Bool-cases,
}
use lattice_hub.Nodes
use lattice_hub.Nodes.{NodeInfo}
use lattice_hub.Nodes.Invariant.{Inv}
use lattice_hub.Events.{Event, EventBroker, node_offline, offline_of}
use lattice_hub.Events.Delivery.{publish_all}

-- The event of a node that has fallen silent.
abbrev offline_event : Env → NodeInfo → Event
offline_event env n = record {
  event_type = node_offline;
  payload = offline_of n.node_id n.name n.last_seen;
  timestamp = env.now;
}

-- The events of a list of nodes: one for each node that is silent and was online.
abbrev pub offline_events : Env → Server → List NodeInfo → List Event
offline_events env s [] = []
offline_events env s (n ∷ ns) =
    if is_silent env s.health_timeout n && was_online s n.mac_string
    then offline_event env n ∷ offline_events env s ns
    else offline_events env s ns

-- No node's text stands among those of the list.
abbrev Absent : Text → List NodeInfo → Type 0
Absent k [] = Unit
Absent k (n ∷ ns) = (text_eq k n.mac_string ≡ false) × Absent k ns

abbrev Distinct : List NodeInfo → Type 0
Distinct [] = Unit
Distinct (n ∷ ns) = Absent n.mac_string ns × Distinct ns

was_online_set :
    (s : Server) (k j : Text) (b : Bool)
    → was_online (set_online s k b) j ≡ (if text_eq k j then b else was_online s j)
was_online_set s k j b = ground (arith, lookup-insert k j b s.online_state)

-- Switching another key leaves the events of a list as they are.
offline_events-set :
    (env : Env) (s : Server) (k : Text) (b : Bool) (e : EventBroker) (ns : List NodeInfo)
    → Absent k ns
    → offline_events env (record (set_online s k b) { broker = e }) ns ≡ offline_events env s ns
offline_events-set env s k b e [] h = refl
offline_events-set env s k b e (n ∷ ns) h =
    ground (arith, was_online_set s k n.mac_string b, offline_events-set env s k b e ns h.1)

abbrev switched : Env → Server → NodeInfo → Server
switched env s n =
    publish_event env (set_online s n.mac_string false) node_offline
      (offline_of n.node_id n.name n.last_seen)

-- Silent, and on record as online.
abbrev is_due : Env → Server → NodeInfo → Bool
is_due env s n = is_silent env s.health_timeout n && was_online s n.mac_string

check_node_lem :
    (env : Env) (s : Server) (n : NodeInfo)
    → check_node env s n ≡ (if is_due env s n then switched env s n else s)
unfolding check_node
check_node_lem env s n = refl

check_nodes-cons :
    (env : Env) (s : Server) (n : NodeInfo) (ns : List NodeInfo)
    → check_nodes env s (n ∷ ns)
      ≡ check_nodes env (if is_due env s n then switched env s n else s) ns
unfolding check_nodes
check_nodes-cons env s n ns = ap (λ (x : Server). check_nodes env x ns) (check_node_lem env s n)

check_nodes-broker :
    (env : Env) (s : Server) (ns : List NodeInfo)
    → Distinct ns
    → (check_nodes env s ns).broker ≡ publish_all s.broker (offline_events env s ns)
unfolding check_nodes publish_all
check_nodes-broker env s [] d = refl
check_nodes-broker env s (n ∷ ns) d =
    ap (λ (x : Server). x.broker) (check_nodes-cons env s n ns)
    ∙ elim (Bool-cases (is_due env s n)) [
      | inr q ↦ rw q (check_nodes-broker env s ns d.1)
      | inl q ↦
          let events =
            offline_events-set env s n.mac_string false (switched env s n).broker ns d.0 in
          rw q (
            check_nodes-broker env (switched env s n) ns d.1
            ∙ ap (publish_all (switched env s n).broker) events)
    ]

absent : (k : Text) (r : Nodes.Registry) → lookup k r ≡ none → Inv r → Absent k (values r)
unfolding lookup
absent k [] e v = tt
absent k ((i, n) ∷ r) e v =
    let tail : Inv r = record { is_map = v.is_map.1; keyed = v.keyed.1 } in
    let same : n.mac_string ≡ i = v.keyed.0.0 in
    ground (arith, text_eq_iff i k, text_eq_iff k n.mac_string, absent k r)

Distinct-values : (r : Nodes.Registry) → Inv r → Distinct (values r)
Distinct-values [] v = tt
Distinct-values ((i, n) ∷ r) v =
    let (here, rest) = v.keyed in
    let (fresh, map_rest) = v.is_map in
    let tail : Inv r = record { is_map = map_rest; keyed = rest } in
    (
      absent n.mac_string r (ap (λ (k : Text). lookup k r) here.0 ∙ fresh) tail,
      Distinct-values r tail,
    )

-- With a node registry in order, one pass of the detector publishes exactly one event for each node
-- that is silent and was online, in the order of the pass, and nothing else.
pub check_offline_nodes_lem :
    (env : Env) (s : Server)
    → Inv s.nodes
    → (check_offline_nodes env s).broker
      ≡ publish_all s.broker (offline_events env s (Nodes.get_all_nodes s.nodes))
unfolding check_offline_nodes Nodes.get_all_nodes
check_offline_nodes_lem env s v =
    check_nodes-broker env s (Nodes.get_all_nodes s.nodes) (Distinct-values s.nodes v)
