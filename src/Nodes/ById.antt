-- ===== src/Nodes/ById.antt =====
-- What a look-up by node ID finds. GetNodeByID returns the first match of an iteration whose order
-- Go leaves open.
use lattice_hub.Nodes.Calls.{assign_node-Inv}
use lattice_hub.Mac.{mac_to_string}
use lattice_hub.Nodes.Invariant.{Inv, UniqueIds, is_active, IsKeyed}
use lattice_hub.Base.{
  ℕ, ◌≡◌, sym, ap, ◌∙◌, inl, inr, true, false, Option, none, some, arith, Text, Option-cases, subst,
  ◌<◌, ◌≢◌, List, some-injective,
}
use lattice_hub.Base.Maps.{
  lookup, find, find_complete, find_sound, Entries-lookup, lookup-insert_self,
}
use lattice_hub.Nodes.{
  NodeInfo, Registry, get_node_by_id, value_of, is_replaced, has_id, assign_node, entry, name_or,
}

value_of-some :
    (o : Option (Text × NodeInfo)) {n : NodeInfo}
    → value_of o ≡ some n
    → (k : Text) × (o ≡ some (k, n))
value_of-some none e = absurd (ground arith)
value_of-some (some (k, m)) e = (k, ground arith)

-- What is found has the ID, is not replaced, and stands under the text of its own address.
pub get_node_by_id_sound :
    (r : Registry) (id : ℕ) {n : NodeInfo}
    → Inv r
    → get_node_by_id r id ≡ some n
    → (lookup n.mac_string r ≡ some n) × (n.node_id ≡ id) × (is_replaced n ≡ false)
unfolding get_node_by_id
get_node_by_id_sound r id {n} v e =
    let (k, f) = value_of-some (find (has_id id) r) e in
    let (l, t) = find_sound (has_id id) r {k = k} {v = n} v.is_map f in
    let (s, _, _) = Entries-lookup IsKeyed k r v.keyed l in
    (subst (λ (x : Text). lookup x r ≡ some n) (sym s) l, ground arith, ground arith)

-- Where nothing is found, no entry with that ID is live.
pub get_node_by_id-none :
    (r : Registry) (id : ℕ) (k : Text) (n : NodeInfo)
    → get_node_by_id r id ≡ none
    → lookup k r ≡ some n
    → has_id id n ≡ false
unfolding get_node_by_id
get_node_by_id-none r id k n q e = elim (Option-cases (find (has_id id) r)) [
  | inl f ↦ find_complete (has_id id) r k n f e
  | inr ((i, p), f) ↦ absurd (ground (arith, f))
]

-- In a registry in order whose live IDs are distinct, GetNodeByID finds a live node by its ID,
-- whatever the iteration visits first.
pub get_node_by_id_complete :
    (r : Registry) (k : Text) (n : NodeInfo)
    → Inv r
    → UniqueIds r
    → lookup k r ≡ some n
    → is_active n ≡ true
    → get_node_by_id r n.node_id ≡ some n
get_node_by_id_complete r k n v u e a = elim (Option-cases (get_node_by_id r n.node_id)) [
  | inl none_found ↦ absurd (missing none_found)
  | inr (m, found) ↦ found ∙ ap some (agree m found)
]
  where
    missing : get_node_by_id r n.node_id ≡ none → ⊥
    missing q = ground (arith, get_node_by_id-none r n.node_id k n q e)

    agree : (m : NodeInfo) → get_node_by_id r n.node_id ≡ some m → m ≡ n
    agree m found =
        let (l, same, live) = get_node_by_id_sound r n.node_id v found in
        ground (arith, u.distinct m.mac_string k m n)

-- The entry that a change of the ID leaves under an address.
assign_node-entry :
    (r : Registry) (mac : List ℕ) (id : ℕ) (name zone : Text) {n : NodeInfo}
    → lookup (mac_to_string mac) (assign_node r mac id name zone) ≡ some n
    → n.status ≡ (entry r mac).status
unfolding assign_node
assign_node-entry r mac id name zone {n} e =
    ap (λ (m : NodeInfo). m.status)
      (some-injective n _ (
        sym e
        ∙ lookup-insert_self (mac_to_string mac)
            (record (entry r mac) {
              node_id = id;
              name = name_or name (mac_to_string mac);
              zone = zone;
            })
            r))

-- A node that has been replaced stays so when it is assigned an ID again: no look-up by ID finds
-- it.
assign_node-replaced :
    (r : Registry) (mac : List ℕ) (id id' : ℕ) (name zone : Text) (n : NodeInfo)
    → Inv r
    → id < 256
    → is_replaced (entry r mac) ≡ true
    → get_node_by_id (assign_node r mac id name zone) id' ≡ some n
    → n.mac_string ≢ mac_to_string mac
assign_node-replaced r mac id id' name zone n v small gone found same =
    let (l, i, live) =
      get_node_by_id_sound (assign_node r mac id name zone) id' {n = n}
        (assign_node-Inv r mac id name zone small v) found in
    let here = ap (λ (k : Text). lookup k (assign_node r mac id name zone)) (sym same) ∙ l in
    let kept : n.status ≡ (entry r mac).status =
      assign_node-entry r mac id name zone {n = n} here in
    ground arith
