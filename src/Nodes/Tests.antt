-- ===== src/Nodes/Tests.antt =====
-- Small registries, and the theorems at work on them.
use lattice_hub.Nodes.{
  update_node, get_node, NodeInfo, Registry, new_node, get_node_by_id, is_used, next_free_node_id,
}
use lattice_hub.Nodes.Calls.{update_node-Inv, update_node-UniqueIds}
use lattice_hub.Nodes.Order.{go_map-answers, update_node_comm}
use lattice_hub.Nodes.Ids.{next_free_node_id-lowest}
use lattice_hub.Mac.RoundTrip.{IsMac}
use lattice_hub.Base.Maps.{lookup}
use lattice_hub.Base.{
  ℕ, ◌≤◌, ◌<◌, ◌≡◌, refl, ◌≢◌, false, some, List, [], ◌∷◌, arith, codes, text_eq, text_eq_iff,
}
use lattice_hub.Mac.{mac_to_string}
use lattice_hub.Nodes.Invariant.{Inv, UniqueIds}

abbrev pub mac_a : List ℕ
mac_a = 0xA0 ∷ 2 ∷ 3 ∷ 4 ∷ 5 ∷ 6 ∷ []

abbrev pub mac_b : List ℕ
mac_b = 0xB0 ∷ 2 ∷ 3 ∷ 4 ∷ 5 ∷ 6 ∷ []

pub mac_a-IsMac : IsMac mac_a
mac_a-IsMac = record {
  six = refl;
  bytes =
      (omega arith, (omega arith, (omega arith, (omega arith, (omega arith, (omega arith, tt))))));
}

mac_b-IsMac : IsMac mac_b
mac_b-IsMac = record {
  six = refl;
  bytes =
      (omega arith, (omega arith, (omega arith, (omega arith, (omega arith, (omega arith, tt))))));
}

abbrev pub node_a : NodeInfo
node_a = record (new_node mac_a) { node_id = 1; name = codes "door"; zone = codes "hall" }

-- A registry with one node, of ID 1.
abbrev pub one_node : Registry
one_node = (mac_to_string mac_a, node_a) ∷ []

pub one_node-Inv : Inv one_node
unfolding lookup
one_node-Inv = record { is_map = (refl, tt); keyed = ((refl, refl, omega arith), tt) }

pub one_node-lookup : lookup (mac_to_string mac_a) one_node ≡ some node_a
unfolding lookup text_eq mac_to_string lattice_hub.Mac.hex_digit
one_node-lookup = refl

pub one_node-UniqueIds : UniqueIds one_node
unfolding lookup
one_node-UniqueIds = record {
  distinct = λ j k m n e f am an same.
      ground (arith, text_eq_iff (mac_to_string mac_a) j, text_eq_iff (mac_to_string mac_a) k);
}

next_free_node_id-lowest_example :
    (0 < next_free_node_id one_node)
    × (next_free_node_id one_node ≤ 2)
    × (is_used one_node (next_free_node_id one_node) ≡ false)
unfolding is_used
next_free_node_id-lowest_example =
    next_free_node_id-lowest one_node 2 (omega arith) (omega arith) refl

-- It hands out 2.
next_id : next_free_node_id one_node ≡ 2
unfolding next_free_node_id is_used
next_id = refl

-- The two addresses have texts of their own.
pub apart : mac_to_string mac_a ≢ mac_to_string mac_b
unfolding text_eq mac_to_string lattice_hub.Mac.hex_digit
apart e = absurd (ground (arith, (text_eq_iff (mac_to_string mac_a) (mac_to_string mac_b)).1 e))

-- Two nodes report, in the one order and in the other.
abbrev a_first : Registry
a_first = update_node 8 (update_node 7 [] mac_a 1 5 0) mac_b 1 6 0

abbrev b_first : Registry
b_first = update_node 7 (update_node 8 [] mac_b 1 6 0) mac_a 1 5 0

pub nothing-Inv : Inv []
nothing-Inv = record { is_map = tt; keyed = tt }

pub nothing-UniqueIds : UniqueIds []
unfolding lookup
nothing-UniqueIds = record { distinct = λ j k m n e f am an same. absurd (ground (arith, e)) }

go_map-answers_example :
    (next_free_node_id a_first ≡ next_free_node_id b_first)
    × ((mac : List ℕ) → get_node a_first mac ≡ get_node b_first mac)
    × ((id : ℕ) → 0 < id → get_node_by_id a_first id ≡ get_node_by_id b_first id)
go_map-answers_example =
    go_map-answers a_first b_first
      (update_node-Inv 8 (update_node 7 [] mac_a 1 5 0) mac_b 1 6 0
        (update_node-Inv 7 [] mac_a 1 5 0 nothing-Inv))
      (update_node-Inv 7 (update_node 8 [] mac_b 1 6 0) mac_a 1 5 0
        (update_node-Inv 8 [] mac_b 1 6 0 nothing-Inv))
      (update_node-UniqueIds 7 (update_node 8 [] mac_b 1 6 0) mac_a 1 5 0
        (update_node-UniqueIds 8 [] mac_b 1 6 0 nothing-UniqueIds))
      (update_node_comm [] 7 8 mac_a mac_b 1 1 5 6 0 0 2 (codes "lamp") [] apart).0
