-- ===== src/Nodes/Routes.antt =====
-- What a health report and a route report change, and what they leave alone.
use lattice_hub.Mac.{mac_to_string}
use lattice_hub.Base.{
  ℕ, ◌<◌, ◌≡◌, refl, ◌≢◌, inl, inr, some, List, ◌∷◌, map, arith, if◌then◌else◌, Text, text_eq,
  text_eq_iff, Option-cases,
}
use lattice_hub.Base.Maps.{lookup, insert, lookup-insert, lookup-insert_self}
use lattice_hub.Nodes.{NodeInfo, Registry, entry, update_node, update_node_route, parent_of}

lookup-insert_other :
    (k j : Text) (n : NodeInfo) (r : Registry) → k ≢ j → lookup j (insert k n r) ≡ lookup j r
lookup-insert_other k j n r h = ground (arith, lookup-insert k j n r, text_eq_iff k j)

-- A health report stores its four values under the node's address, keeps the node's ID, name, zone,
-- status and route, and touches no other entry.
update_node_sticky :
    (now : ℕ) (r : Registry) (mac : List ℕ) (adapter_type uptime hops : ℕ) (j : Text)
    → mac_to_string mac ≢ j
    → let before = entry r mac in
      let after = entry (update_node now r mac adapter_type uptime hops) mac in
      (after.node_id ≡ before.node_id)
      × (after.name ≡ before.name)
      × (after.zone ≡ before.zone)
      × (after.status ≡ before.status)
      × (after.route_path ≡ before.route_path)
      × (after.parent_id ≡ before.parent_id)
      × (after.last_seen ≡ now)
      × (after.adapter_type ≡ adapter_type)
      × (after.uptime ≡ uptime)
      × (after.hop_count ≡ hops)
      × (lookup j (update_node now r mac adapter_type uptime hops) ≡ lookup j r)
unfolding update_node
update_node_sticky now r mac a u h j other =
    rw
      (lookup-insert_self (mac_to_string mac)
        (record (entry r mac) { adapter_type = a; uptime = u; last_seen = now; hop_count = h }) r)
      (
        refl,
        refl,
        refl,
        refl,
        refl,
        refl,
        refl,
        refl,
        refl,
        refl,
        lookup-insert_other (mac_to_string mac) j _ r other,
      )

abbrev routed : Registry → List ℕ → List (List ℕ) → NodeInfo
routed r origin relays = record (entry r origin) {
  route_path = map mac_to_string relays;
  parent_id = parent_of (insert (mac_to_string origin) (entry r origin) r) relays;
}

-- A route report replaces the origin's path and parent and nothing else, in its entry or elsewhere.
update_node_route_lem :
    (r : Registry) (origin : List ℕ) (relays : List (List ℕ)) (j : Text)
    → lookup j (update_node_route r origin relays)
      ≡ (if text_eq (mac_to_string origin) j then some (routed r origin relays) else lookup j r)
unfolding update_node_route
update_node_route_lem r origin relays j = ground (
  arith,
  lookup-insert (mac_to_string origin) j (routed r origin relays)
      (insert (mac_to_string origin) (entry r origin) r),
  lookup-insert (mac_to_string origin) j (entry r origin) r,
)

-- The parent recorded is the ID of the first relay's entry, where that has one, and otherwise none:
-- a parent is never 0.
parent_of_lem :
    (r : Registry) (relay : List ℕ) (relays : List (List ℕ)) {p : ℕ}
    → parent_of r (relay ∷ relays) ≡ some p
    → (n : NodeInfo) × (lookup (mac_to_string relay) r ≡ some n) × (n.node_id ≡ p) × (0 < p)
parent_of_lem r relay relays e = elim (Option-cases (lookup (mac_to_string relay) r)) [
  | inl q ↦ absurd (ground arith)
  | inr (n, q) ↦ (n, q, ground arith, ground arith)
]
