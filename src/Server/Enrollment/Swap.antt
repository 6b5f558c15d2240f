-- ===== src/Server/Enrollment/Swap.antt =====
-- What an approval does to the node registry.
use lattice_hub.Nodes.Calls.{assign_node-Inv, mark_replaced-Inv}
use lattice_hub.Nodes.Ids.{next_free_node_id-byte, next_free_node_id-unused, is_used-lookup}
use lattice_hub.Nodes.ById.{get_node_by_id_sound, get_node_by_id-none}
use lattice_hub.Server.Enrollment.{
  ApprovalParams, approve_nodes, swapped, inherit, retire, chosen_id,
}
use lattice_hub.Mac.{mac_to_string}
use lattice_hub.Nodes.Invariant.{UniqueIds, is_active, insert-UniqueIds, Inv, IsKeyed}
use lattice_hub.Base.{
  ℕ, ◌≡◌, true, some, List, Text, ◌<◌, refl, sym, ap, ◌∙◌, ◌≢◌, inl, inr, Option, none, arith, ◌==◌,
  text_eq, text_eq_iff, Bool-cases, Option-cases,
}
use lattice_hub.Base.Maps.{lookup, lookup-insert, Entries-lookup}
use lattice_hub.Nodes
use lattice_hub.Nodes.{NodeInfo, mark_replaced, assign_node, entry, name_or}

abbrev assigned : Nodes.Registry → List ℕ → ℕ → Text → Text → NodeInfo
assigned r mac id name zone = record (entry r mac) {
  node_id = id;
  name = name_or name (mac_to_string mac);
  zone = zone;
}

-- No live node but the one approved has the ID that is given out.
abbrev Vacant : Nodes.Registry → List ℕ → ℕ → Type 0
Vacant r mac id =
    (j : Text) (n : NodeInfo)
    → lookup j r ≡ some n
    → is_active n ≡ true
    → n.node_id ≡ id
    → j ≡ mac_to_string mac

assign_node-UniqueIds :
    (r : Nodes.Registry) (mac : List ℕ) (id : ℕ) (name zone : Text)
    → UniqueIds r
    → Vacant r mac id
    → UniqueIds (assign_node r mac id name zone)
unfolding assign_node
assign_node-UniqueIds r mac id name zone u vacant =
    insert-UniqueIds (mac_to_string mac) (assigned r mac id name zone) r u
      (λ j n e av an same. vacant j n e an same)

next_free-Vacant : (r : Nodes.Registry) (mac : List ℕ) → Vacant r mac (Nodes.next_free_node_id r)
next_free-Vacant r mac j n e a same =
    absurd (ground (arith, next_free_node_id-unused r, is_used-lookup j r n))

-- Nobody live has an ID that a look-up does not find.
absent-Vacant :
    (r : Nodes.Registry) (mac : List ℕ) (id : ℕ)
    → Nodes.get_node_by_id r id ≡ none
    → Vacant r mac id
absent-Vacant r mac id q j n e a same = absurd (ground (arith, get_node_by_id-none r id j n))

-- Nobody else has the ID of a live node.
own-Vacant :
    (r : Nodes.Registry) (mac : List ℕ) (id : ℕ) (old : NodeInfo)
    → UniqueIds r
    → lookup (mac_to_string old.mac) r ≡ some old
    → is_active old ≡ true
    → old.node_id ≡ id
    → old.mac ≡ mac
    → Vacant r mac id
own-Vacant r mac id old u l act same_id same_mac j n e a same =
    u.distinct j (mac_to_string old.mac) n old e l a act (same ∙ sym same_id)
    ∙ ap mac_to_string same_mac

lookup-mark_replaced :
    (r : Nodes.Registry) (mac : List ℕ) (by j : Text) {n : NodeInfo}
    → lookup j (mark_replaced r mac by) ≡ some n
    → is_active n ≡ true
    → (lookup j r ≡ some n) × (mac_to_string mac ≢ j)
unfolding mark_replaced
lookup-mark_replaced r mac by j {n} e a = elim (Option-cases (lookup (mac_to_string mac) r)) [
  | inl q ↦ ground arith
  | inr (m, q) ↦ ground (
    arith,
    text_eq_iff (mac_to_string mac) j,
    lookup-insert (mac_to_string mac) j
        (record m { status = Nodes.replaced; replaced_by = by; node_id = 0 }) r,
  )
]

-- The ID of a live node goes to another one, and that node is retired.
swap-UniqueIds :
    (r : Nodes.Registry) (mac : List ℕ) (id : ℕ) (name zone by : Text) (old : NodeInfo)
    → UniqueIds r
    → lookup (mac_to_string old.mac) r ≡ some old
    → is_active old ≡ true
    → old.node_id ≡ id
    → UniqueIds (mark_replaced (assign_node r mac id name zone) old.mac by)
unfolding assign_node
swap-UniqueIds r mac id name zone by old u l act same = record {
  distinct = λ i j m n em en am an e.
      let (fm, om) =
        lookup-mark_replaced (assign_node r mac id name zone) old.mac by i {n = m} em am in
      let (fn, on) =
        lookup-mark_replaced (assign_node r mac id name zone) old.mac by j {n = n} en an in
      ground (
        arith,
        lookup-insert (mac_to_string mac) i (assigned r mac id name zone) r,
        lookup-insert (mac_to_string mac) j (assigned r mac id name zone) r,
        text_eq_iff (mac_to_string mac) i,
        text_eq_iff (mac_to_string mac) j,
        u.distinct i j m n,
        u.distinct (mac_to_string old.mac) j old n,
        u.distinct (mac_to_string old.mac) i old m,
      );
}

-- Which node, if any, an approval retires.
data Choice (r : Nodes.Registry) (p : ApprovalParams) (mac : List ℕ) : Type 0 where
  keeps : swapped r p mac ≡ none → Vacant r mac (chosen_id r p) → Choice r p mac
  takes_over :
      (old : NodeInfo)
      → swapped r p mac ≡ some old
      → lookup (mac_to_string old.mac) r ≡ some old
      → is_active old ≡ true
      → old.node_id ≡ chosen_id r p
      → Choice r p mac

choice :
    (r : Nodes.Registry) (p : ApprovalParams) (mac : List ℕ) → Inv r → UniqueIds r → Choice r p mac
choice r p mac v u = elim (Bool-cases (p.node_id == 0)) [
  | inl z ↦ keeps (rw z refl) (rw z (next_free-Vacant r mac))
  | inr z ↦ elim (Option-cases (Nodes.get_node_by_id r p.node_id)) [
    | inl q ↦ keeps (rw (z, q) refl) (rw z (absent-Vacant r mac p.node_id q))
    | inr (old, q) ↦
        let (l, i, live) = get_node_by_id_sound r p.node_id v q in
        let (s, m, small) = Entries-lookup IsKeyed old.mac_string r v.keyed l in
        let at : lookup (mac_to_string old.mac) r ≡ some old =
          ap (λ (k : Text). lookup k r) m ∙ l in
        let act : is_active old ≡ true = ground arith in
        elim (Bool-cases (text_eq old.mac mac)) [
          | inl e ↦
              keeps (rw (z, q, e) refl)
                (rw z (own-Vacant r mac p.node_id old u at act i ((text_eq_iff old.mac mac).0 e)))
          | inr e ↦ takes_over old (rw (z, q, e) refl) at act (rw z i)
        ]
  ]
]

-- In a registry in order, an approval keeps live IDs distinct, whether the ID is the lowest free
-- one, one asked for that is free, the node's own, or one taken over from another node, which is
-- retired in the same step.
pub approve_nodes-UniqueIds :
    (r : Nodes.Registry) (p : ApprovalParams) (mac : List ℕ)
    → Inv r
    → UniqueIds r
    → UniqueIds (approve_nodes r p mac)
unfolding approve_nodes
approve_nodes-UniqueIds r p mac v u = elim (choice r p mac v u) [
  | keeps e vac ↦ rw e (assign_node-UniqueIds r mac (chosen_id r p) p.name p.zone u vac)
  | takes_over old e l act same ↦
      rw e (swap-UniqueIds r mac (chosen_id r p) _ _ (mac_to_string mac) old u l act same)
]

pub chosen_id-byte :
    (r : Nodes.Registry) (p : ApprovalParams) → p.node_id < 256 → chosen_id r p < 256
chosen_id-byte r p h = ground (arith, next_free_node_id-byte r)

pub retire-Inv :
    (r : Nodes.Registry) (o : Option NodeInfo) (mac : List ℕ) → Inv r → Inv (retire r o mac)
retire-Inv r none mac v = v
retire-Inv r (some old) mac v = mark_replaced-Inv r old.mac (mac_to_string mac) v

-- An approval keeps entries under the texts of their addresses and IDs within a byte.
pub approve_nodes-Inv :
    (r : Nodes.Registry) (p : ApprovalParams) (mac : List ℕ)
    → p.node_id < 256
    → Inv r
    → Inv (approve_nodes r p mac)
unfolding approve_nodes
approve_nodes-Inv r p mac h v = retire-Inv _ (swapped r p mac) mac (
    assign_node-Inv r mac (chosen_id r p) (inherit p (swapped r p mac)).name
      (inherit p (swapped r p mac)).zone (chosen_id-byte r p h) v)
