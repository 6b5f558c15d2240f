-- ===== src/Nodes/Order.antt =====
-- The registry as the Go map that it is: the order in which an iteration visits the entries is
-- forgotten.
use lattice_hub.Base.{
  ℕ, zero, suc, ◌+◌, ◌<◌, ◌≡◌, refl, sym, ap, ◌∙◌, ◌≢◌, inl, inr, true, false, ◌&&◌, Option, none,
  some, List, [], ◌∷◌, arith, ltb, ◌==◌, if◌then◌else◌, Text, text_eq, text_eq_iff, Bool-cases,
  Option-cases, or_else, text_eq_refl,
}
use mathlib.Core.Quot
use native.Mathlib.Nat.{ℕ_set}
use mathlib.Core.Quot.Quotient
use mathlib.Core.Quot.{Quotient, Setoid}
use lattice_hub.Nodes.{
  NodeInfo, Registry, is_used, free_from, next_free_node_id, get_node, get_node_by_id, update_node,
  assign_node, entry, name_or, new_node,
}
use lattice_hub.Nodes.Invariant.{Inv, UniqueIds}
use lattice_hub.Nodes.Ids.{is_used-lookup}
use lattice_hub.Nodes.ById.{get_node_by_id_sound, get_node_by_id-none, get_node_by_id_complete}
use lattice_hub.Mac.{mac_to_string}
use lattice_hub.Base.Maps.{lookup, insert, lookup-insert, IsMap}

-- Two lists are the same map.
abbrev Same : Registry → Registry → Type 0
Same r s = (k : Text) → lookup k r ≡ lookup k s

NodeInfo-set : IsSet NodeInfo
NodeInfo-set = hlevel (ℕ_set)

Same-prop : (r s : Registry) → IsProp (Same r s)
Same-prop r s = hlevel (NodeInfo-set)

abbrev same_map : Setoid {0, 0} Registry
same_map = record {
  r = Same;
  iseqv = record {
    refl = λ r k. refl;
    symm = λ r s h k. sym (h k);
    trans = λ r s t g h k. g k ∙ h k;
  };
}

-- The map that a list of entries stands for.
abbrev go_map : Registry → Quotient same_map
go_map r = Quot.mk r

used_entry :
    (r : Registry) (id : ℕ)
    → IsMap r
    → is_used r id ≡ true
    → (k : Text) × (n : NodeInfo) × (lookup k r ≡ some n) × (n.node_id ≡ id) × (0 < id)
unfolding is_used lookup
used_entry [] id v h = absurd (ground arith)
used_entry ((i, m) ∷ r) id v h = elim (Bool-cases (ltb 0 m.node_id && m.node_id == id)) [
  | inl e ↦ (i, m, rw (text_eq_refl i) refl, ground arith, ground arith)
  | inr e ↦
      let (k, n, at, same, pos) = used_entry r id v.1 (rw e at h) in (k, n, later k n at, same, pos)
]
  where
    later :
        (k : Text) (n : NodeInfo)
        → lookup k r ≡ some n
        → (if text_eq i k then some m else lookup k r) ≡ some n
    later k n at = ground (arith, text_eq_iff i k, v.0)

used_le : (r s : Registry) (id : ℕ) → IsMap r → Same r s → is_used r id ≡ true → is_used s id ≡ true
used_le r s id v h u =
    let (k, n, at, same, pos) = used_entry r id v u in
    ap (is_used s) (sym same) ∙ is_used-lookup k s n (sym (h k) ∙ at) (omega (arith, same, pos))

is_used-Same :
    (r s : Registry) (id : ℕ) → IsMap r → IsMap s → Same r s → is_used r id ≡ is_used s id
is_used-Same r s id v w h = elim (Bool-cases (is_used r id)) [
  | inl u ↦ u ∙ sym (used_le r s id v h u)
  | inr u ↦ elim (Bool-cases (is_used s id)) [
    | inl t ↦ absurd (ground (arith, u, used_le s r id w (λ k. sym (h k)) t))
    | inr t ↦ u ∙ sym t
  ]
]

free_from-Same :
    (r s : Registry) (rounds id : ℕ)
    → IsMap r
    → IsMap s
    → Same r s
    → free_from r rounds id ≡ free_from s rounds id
unfolding free_from
free_from-Same r s zero id v w h = refl
free_from-Same r s (suc rounds) id v w h =
    rw (is_used-Same r s id v w h, free_from-Same r s rounds (id + 1) v w h) refl

get_node_by_id-Same :
    (r s : Registry) (id : ℕ)
    → Inv r
    → Inv s
    → UniqueIds s
    → Same r s
    → 0 < id
    → get_node_by_id r id ≡ get_node_by_id s id
get_node_by_id-Same r s id v w u h pos = elim (Option-cases (get_node_by_id r id)) [
  | inl e ↦ e ∙ sym (missing e)
  | inr (n, e) ↦
      let (at, same, live) = get_node_by_id_sound r id v e in
      e
      ∙ sym (
          ap (get_node_by_id s) (sym same)
          ∙ get_node_by_id_complete s n.mac_string n w u (sym (h n.mac_string) ∙ at)
              (ground (arith, live, same, pos)))
]
  where
    missing : get_node_by_id r id ≡ none → get_node_by_id s id ≡ none
    missing e = elim (Option-cases (get_node_by_id s id)) [
      | inl f ↦ f
      | inr (n, f) ↦
          let (at, same, live) = get_node_by_id_sound s id w f in
          absurd (
            ground
              (arith, live, same, get_node_by_id-none r id n.mac_string n e (h n.mac_string ∙ at)))
    ]

-- Of two registries in order that are the same Go map, whatever the order of their entries,
-- NextFreeNodeID gives the same ID, GetNode the same node for each address, and GetNodeByID the
-- same node for each ID that is not 0.
pub go_map-answers :
    (r s : Registry)
    → Inv r
    → Inv s
    → UniqueIds s
    → go_map r ≡ go_map s
    → (next_free_node_id r ≡ next_free_node_id s)
      × ((mac : List ℕ) → get_node r mac ≡ get_node s mac)
      × ((id : ℕ) → 0 < id → get_node_by_id r id ≡ get_node_by_id s id)
unfolding next_free_node_id get_node
go_map-answers r s v w u e =
    let h : Same r s = Quotient.exact same_map Same-prop e in
    (
      free_from-Same r s 255 1 v.is_map w.is_map h,
      λ mac. h (mac_to_string mac),
      λ id pos. get_node_by_id-Same r s id v w u h pos,
    )

insert_comm :
    (j k : Text) (m n : NodeInfo) (r : Registry)
    → j ≢ k
    → Same (insert j m (insert k n r)) (insert k n (insert j m r))
insert_comm j k m n r ne i = ground (
  arith,
  ne,
  text_eq_iff j i,
  text_eq_iff k i,
  lookup-insert j i m (insert k n r),
  lookup-insert k i n r,
  lookup-insert k i n (insert j m r),
  lookup-insert j i m r,
)

-- A change of the entry of an address.
abbrev change : List ℕ → (NodeInfo → NodeInfo) → Registry → Registry
change mac f r = insert (mac_to_string mac) (f (entry r mac)) r

entry-other :
    (r : Registry) (a b : List ℕ) (n : NodeInfo)
    → mac_to_string a ≢ mac_to_string b
    → entry (insert (mac_to_string a) n r) b ≡ entry r b
entry-other r a b n ne = ap (λ (o : Option NodeInfo). or_else o (new_node b)) found
  where
    other : text_eq (mac_to_string a) (mac_to_string b) ≡ false
    other = ground (arith, text_eq_iff (mac_to_string a) (mac_to_string b))

    found : lookup (mac_to_string b) (insert (mac_to_string a) n r) ≡ lookup (mac_to_string b) r
    found = lookup-insert (mac_to_string a) (mac_to_string b) n r ∙ rw other refl

change_comm :
    (r : Registry) (a b : List ℕ) (f g : NodeInfo → NodeInfo)
    → mac_to_string a ≢ mac_to_string b
    → go_map (change b g (change a f r)) ≡ go_map (change a f (change b g r))
change_comm r a b f g ne =
    let ka = mac_to_string a in
    let kb = mac_to_string b in
    ap (λ (n : NodeInfo). go_map (insert kb (g n) (change a f r)))
      (entry-other r a b (f (entry r a)) ne)
    ∙ Quot.sound (insert_comm kb ka (g (entry r b)) (f (entry r a)) r (λ e. ne (sym e)))
    ∙ ap (λ (n : NodeInfo). go_map (insert ka (f n) (change b g r)))
        (sym (entry-other r b a (g (entry r b)) (λ e. ne (sym e))))

-- Changes of entries under different texts commute as Go maps.
pub update_node_comm :
    (r : Registry) (now later : ℕ) (a b : List ℕ) (t u up vp hops jumps id : ℕ) (name zone : Text)
    → mac_to_string a ≢ mac_to_string b
    → (go_map (update_node later (update_node now r a t up hops) b u vp jumps)
        ≡ go_map (update_node now (update_node later r b u vp jumps) a t up hops))
      × (go_map (assign_node (update_node now r a t up hops) b id name zone)
          ≡ go_map (update_node now (assign_node r b id name zone) a t up hops))
unfolding update_node assign_node
update_node_comm r now later a b t u up vp hops jumps id name zone ne =
    let report : ℕ → ℕ → ℕ → ℕ → NodeInfo → NodeInfo = (λ at type time far n. record n {
      adapter_type = type;
      uptime = time;
      last_seen = at;
      hop_count = far;
    }) in
    let naming : NodeInfo → NodeInfo =
      (λ n. record n { node_id = id; name = name_or name (mac_to_string b); zone = zone }) in
    (
      change_comm r a b (report now t up hops) (report later u vp jumps) ne,
      change_comm r a b (report now t up hops) naming ne,
    )
