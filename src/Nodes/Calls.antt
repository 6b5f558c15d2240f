-- ===== src/Nodes/Calls.antt =====
-- The registry's mutators as calls, and the invariant over any sequence of them.
use lattice_hub.Mac.{mac_to_string}
use lattice_hub.Nodes.Invariant.{
  UniqueIds, Inv, entry-IsKeyed, insert-Inv, refresh-UniqueIds, erase-Inv, erase-UniqueIds,
  insert-UniqueIds, IsKeyed,
}
use lattice_hub.Base.{
  ℕ, ◌<◌, refl, inl, inr, List, [], ◌∷◌, arith, Text, Bool-cases, Option-cases, is_some,
}
use lattice_hub.Base.Maps.{lookup, Entries-lookup, lookup-insert_self}
use lattice_hub.Nodes.{
  Registry, entry, update_node, update_node_route, mark_replaced, remove_node, assign_node,
}

-- What reaches the registry from the mesh and from deletions; AssignNode is the hub's own decision.
pub data Call : Type 0 where
  reports : ℕ → List ℕ → ℕ → ℕ → ℕ → Call
  routes : List ℕ → List (List ℕ) → Call
  replaces : List ℕ → Text → Call
  removes : List ℕ → Call

unfoldable pub call : Registry → Call → Registry
unfolding update_node update_node_route mark_replaced remove_node
call r (reports now mac adapter_type uptime hops) = update_node now r mac adapter_type uptime hops
call r (routes origin relays) = update_node_route r origin relays
call r (replaces mac by) = mark_replaced r mac by
call r (removes mac) = (remove_node r mac).0

pub update_node-Inv :
    (now : ℕ) (r : Registry) (mac : List ℕ) (adapter_type uptime hops : ℕ)
    → Inv r
    → Inv (update_node now r mac adapter_type uptime hops)
unfolding update_node
update_node-Inv now r mac a u h v = insert-Inv (mac_to_string mac) _ r (entry-IsKeyed r mac v) v

pub assign_node-Inv :
    (r : Registry) (mac : List ℕ) (id : ℕ) (name zone : Text)
    → id < 256
    → Inv r
    → Inv (assign_node r mac id name zone)
unfolding assign_node
assign_node-Inv r mac id name zone h v =
    let (s, m, _) = entry-IsKeyed r mac v in insert-Inv (mac_to_string mac) _ r (s, m, h) v

pub update_node_route-Inv :
    (r : Registry) (origin : List ℕ) (relays : List (List ℕ))
    → Inv r
    → Inv (update_node_route r origin relays)
unfolding update_node_route
update_node_route-Inv r origin relays v =
    insert-Inv (mac_to_string origin) _ _ (entry-IsKeyed r origin v)
      (insert-Inv (mac_to_string origin) _ r (entry-IsKeyed r origin v) v)

pub mark_replaced-Inv :
    (r : Registry) (mac : List ℕ) (by : Text) → Inv r → Inv (mark_replaced r mac by)
unfolding mark_replaced
mark_replaced-Inv r mac by v = elim (Option-cases (lookup (mac_to_string mac) r)) [
  | inl e ↦ rw (e, mark_replaced) v
  | inr (n, e) ↦
      let (s, m, _) = Entries-lookup IsKeyed (mac_to_string mac) r v.keyed e in
      rw (e, mark_replaced) (insert-Inv (mac_to_string mac) _ r (s, m, omega arith) v)
]

pub remove_node-Inv : (r : Registry) (mac : List ℕ) → Inv r → Inv (remove_node r mac).0
unfolding remove_node
remove_node-Inv r mac v = elim (Bool-cases (is_some (lookup (mac_to_string mac) r))) [
  | inl e ↦ rw e (erase-Inv (mac_to_string mac) r v)
  | inr e ↦ rw e v
]

pub update_node-UniqueIds :
    (now : ℕ) (r : Registry) (mac : List ℕ) (adapter_type uptime hops : ℕ)
    → UniqueIds r
    → UniqueIds (update_node now r mac adapter_type uptime hops)
unfolding update_node
update_node-UniqueIds now r mac a u h v =
    refresh-UniqueIds (mac_to_string mac) _ mac r v refl refl refl

pub update_node_route-UniqueIds :
    (r : Registry) (origin : List ℕ) (relays : List (List ℕ))
    → UniqueIds r
    → UniqueIds (update_node_route r origin relays)
unfolding update_node_route
update_node_route-UniqueIds r origin relays v =
    refresh-UniqueIds (mac_to_string origin) _ origin _
      (refresh-UniqueIds (mac_to_string origin) _ origin r v refl refl refl) refl
      (rw (lookup-insert_self (mac_to_string origin) (entry r origin) r) refl)
      (rw (lookup-insert_self (mac_to_string origin) (entry r origin) r) refl)

mark_replaced-UniqueIds :
    (r : Registry) (mac : List ℕ) (by : Text) → UniqueIds r → UniqueIds (mark_replaced r mac by)
unfolding mark_replaced
mark_replaced-UniqueIds r mac by v = elim (Option-cases (lookup (mac_to_string mac) r)) [
  | inl e ↦ rw (e, mark_replaced) v
  | inr (n, e) ↦
      rw (e, mark_replaced)
        (insert-UniqueIds (mac_to_string mac) _ r v (λ j p ep av ap same. absurd (ground arith)))
]

pub remove_node-UniqueIds :
    (r : Registry) (mac : List ℕ) → UniqueIds r → UniqueIds (remove_node r mac).0
unfolding remove_node
remove_node-UniqueIds r mac v = elim (Bool-cases (is_some (lookup (mac_to_string mac) r))) [
  | inl e ↦ rw e (erase-UniqueIds (mac_to_string mac) r v)
  | inr e ↦ rw e v
]

call-Inv : (r : Registry) (c : Call) → Inv r → Inv (call r c)
unfolding call
call-Inv r (reports now mac a u h) v = update_node-Inv now r mac a u h v
call-Inv r (routes origin relays) v = update_node_route-Inv r origin relays v
call-Inv r (replaces mac by) v = mark_replaced-Inv r mac by v
call-Inv r (removes mac) v = remove_node-Inv r mac v

call-UniqueIds : (r : Registry) (c : Call) → UniqueIds r → UniqueIds (call r c)
unfolding call
call-UniqueIds r (reports now mac a u h) v = update_node-UniqueIds now r mac a u h v
call-UniqueIds r (routes origin relays) v = update_node_route-UniqueIds r origin relays v
call-UniqueIds r (replaces mac by) v = mark_replaced-UniqueIds r mac by v
call-UniqueIds r (removes mac) v = remove_node-UniqueIds r mac v

unfoldable pub calls : Registry → List Call → Registry
unfolding call
calls r [] = r
calls r (c ∷ cs) = calls (call r c) cs

-- From a registry in order with distinct live IDs, whatever the mesh reports and whatever is
-- replaced or removed, in any order and number: entries stay under the texts of their addresses,
-- IDs stay bytes, and no two live nodes share an ID.
calls-Inv :
    (r : Registry) (cs : List Call)
    → Inv r
    → UniqueIds r
    → Inv (calls r cs) × UniqueIds (calls r cs)
unfolding calls
calls-Inv r [] v u = (v, u)
calls-Inv r (c ∷ cs) v u = calls-Inv (call r c) cs (call-Inv r c v) (call-UniqueIds r c u)
