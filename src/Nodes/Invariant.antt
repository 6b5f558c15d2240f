-- ===== src/Nodes/Invariant.antt =====
-- What holds of the registry between two calls: each entry stands under the text of its address,
-- IDs are bytes, and no two live nodes share an ID.
use lattice_hub.Mac.{mac_to_string}
use lattice_hub.Base.{
  ℕ, ◌<◌, ◌≡◌, refl, inl, inr, Bool, true, not, ◌&&◌, some, List, arith, ltb, Text, text_eq_iff,
  Option-cases,
}
use lattice_hub.Base.Maps.{
  lookup, insert, erase, IsMap, Entries, insert-IsMap, lookup-erase, lookup-insert, erase-IsMap,
  Entries-lookup, Entries-insert, Entries-erase,
}
use lattice_hub.Nodes.{NodeInfo, Registry, entry, is_replaced}

abbrev pub IsKeyed : Text → NodeInfo → Type 0
IsKeyed k n = (n.mac_string ≡ k) × (mac_to_string n.mac ≡ k) × (n.node_id < 256)

pub record Inv (r : Registry) : Type 0 where
  pub is_map : IsMap r
  pub keyed : Entries IsKeyed r

abbrev pub is_active : NodeInfo → Bool
is_active n = ltb 0 n.node_id && not (is_replaced n)

pub record UniqueIds (r : Registry) : Type 0 where
  pub distinct :
      (j k : Text) (m n : NodeInfo)
      → lookup j r ≡ some m
      → lookup k r ≡ some n
      → is_active m ≡ true
      → is_active n ≡ true
      → m.node_id ≡ n.node_id
      → j ≡ k

pub insert-Inv : (k : Text) (n : NodeInfo) (r : Registry) → IsKeyed k n → Inv r → Inv (insert k n r)
insert-Inv k n r h v = record {
  is_map = insert-IsMap k n r v.is_map;
  keyed = Entries-insert IsKeyed k n r h v.keyed;
}

pub erase-Inv : (k : Text) (r : Registry) → Inv r → Inv (erase k r)
erase-Inv k r v = record {
  is_map = erase-IsMap k r v.is_map;
  keyed = Entries-erase IsKeyed k r v.keyed;
}

pub entry-IsKeyed :
    (r : Registry) (mac : List ℕ) → Inv r → IsKeyed (mac_to_string mac) (entry r mac)
entry-IsKeyed r mac v = elim (Option-cases (lookup (mac_to_string mac) r)) [
  | inl e ↦ rw e (refl, refl, omega arith)
  | inr (n, e) ↦ rw e (Entries-lookup IsKeyed (mac_to_string mac) r v.keyed e)
]

-- A new or changed entry keeps the IDs distinct if every live entry with its ID has its key.
pub insert-UniqueIds :
    (k : Text) (v : NodeInfo) (r : Registry)
    → UniqueIds r
    → ((j : Text) (n : NodeInfo)
        → lookup j r ≡ some n
        → is_active v ≡ true
        → is_active n ≡ true
        → n.node_id ≡ v.node_id
        → j ≡ k)
    → UniqueIds (insert k v r)
insert-UniqueIds k v r u others = record {
  distinct = λ i j m n em en am an same. ground (
    arith,
    lookup-insert k i v r,
    lookup-insert k j v r,
    text_eq_iff k i,
    text_eq_iff k j,
    u.distinct i j m n,
    others i m,
    others j n,
  );
}

pub erase-UniqueIds : (k : Text) (r : Registry) → UniqueIds r → UniqueIds (erase k r)
erase-UniqueIds k r u = record {
  distinct = λ i j m n em en am an same.
      ground (arith, lookup-erase k i r, lookup-erase k j r, u.distinct i j m n);
}

-- An entry whose ID and status are those that the map has already keeps the IDs distinct.
pub refresh-UniqueIds :
    (k : Text) (v : NodeInfo) (mac : List ℕ) (r : Registry)
    → UniqueIds r
    → k ≡ mac_to_string mac
    → v.node_id ≡ (entry r mac).node_id
    → v.status ≡ (entry r mac).status
    → UniqueIds (insert k v r)
refresh-UniqueIds k v mac r u ek ei es = elim (Option-cases (lookup (mac_to_string mac) r)) [
  | inl e ↦ insert-UniqueIds k v r u (λ j n en av an same. absurd (ground arith))
  | inr (m, e) ↦ insert-UniqueIds k v r u (λ j n en av an same. ground (arith, u.distinct j k n m))
]
