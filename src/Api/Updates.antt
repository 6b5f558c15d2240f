-- ===== src/Api/Updates.antt =====
-- Changing a node by the API.
use lattice_hub.Server.Send.{configure_node}
use lattice_hub.Api.Unchanged.{configure_node-nodes}
use lattice_hub.Api.{Reply, Response}
use lattice_hub.Base.{
  ℕ, ◌<◌, ◌≡◌, refl, sym, ap, ◌∙◌, inl, inr, true, false, Option, some, arith, Text, Option-cases,
  is_some, or_else, ok, none, Result, err, subst,
}
use lattice_hub.Base.Maps.{Entries-lookup, lookup, lookup-insert_self}
use lattice_hub.Server.{Server, Env, Answer}
use lattice_hub.Server.Enrollment.Registry.{Sound}
use lattice_hub.Mac.{mac_to_string}
use lattice_hub.Nodes
use lattice_hub.Nodes.{NodeInfo, assign_node, is_replaced, new_node, entry, name_or, is_replaced}
use lattice_hub.Nodes.Invariant.{IsKeyed, refresh-UniqueIds}
use lattice_hub.Nodes.Calls.{assign_node-Inv}
use lattice_hub.Nodes.ById.{get_node_by_id_sound, get_node_by_id-none}
use lattice_hub.Api.Ids.{parse_node_id, parse_node_id_bounds}
use lattice_hub.Api.Nodes.{
  wanted_type, updated_node, after_configure, apply_update, update_found, NodeUpdate, find_node,
  rename, v1_update_node,
}

-- The node that a path names, as the registry has it.
pub record Found (s : Server) (n : NodeInfo) : Type 0 where
  pub stands : lookup (mac_to_string n.mac) s.nodes ≡ some n
  pub numbered : 0 < n.node_id
  pub small : n.node_id < 256
  pub live : is_replaced n ≡ false

find_node-Found :
    (s : Server) (id : Text) (n : NodeInfo) → Sound s.nodes → find_node s id ≡ ok n → Found s n
find_node-Found s id n v e = elim (Option-cases (parse_node_id id)) [
  | inl p ↦ absurd (ground (arith, p))
  | inr (i, p) ↦ elim (Option-cases (Nodes.get_node_by_id s.nodes i)) [
    | inl q ↦ absurd (ground (arith, p, q))
    | inr (m, q) ↦ subst (λ (x : NodeInfo). Found s x) (ground (arith, p, q)) (by_id s id i m v p q)
  ]
]
  where
    by_id :
        (s : Server) (id : Text) (i : ℕ) (m : NodeInfo)
        → Sound s.nodes
        → parse_node_id id ≡ some i
        → Nodes.get_node_by_id s.nodes i ≡ some m
        → Found s m
    by_id s id i m v p q =
        let (l, same, live) = get_node_by_id_sound s.nodes i v.inv q in
        let (a, b, c) = Entries-lookup IsKeyed m.mac_string s.nodes v.inv.keyed l in
        let (low, high) = parse_node_id_bounds id i p in
        record {
          stands = ap (λ (k : Text). lookup k s.nodes) b ∙ l;
          numbered = omega (arith, same, low);
          small = c;
          live = live;
        }

rename-Sound :
    (s : Server) (n : NodeInfo) (u : NodeUpdate)
    → Sound s.nodes
    → Found s n
    → Sound (rename s n u).nodes
unfolding assign_node
rename-Sound s n u v f =
    let same : entry s.nodes n.mac ≡ n =
      ap (λ (o : Option NodeInfo). or_else o (new_node n.mac)) f.stands in
    record {
      inv =
          assign_node-Inv s.nodes n.mac n.node_id (or_else u.name n.name) (or_else u.zone n.zone)
            f.small v.inv;
      unique =
          refresh-UniqueIds (mac_to_string n.mac)
            (record (entry s.nodes n.mac) {
              node_id = n.node_id;
              name = name_or (or_else u.name n.name) (mac_to_string n.mac);
              zone = or_else u.zone n.zone;
            })
            n.mac s.nodes v.unique refl (sym (ap (λ (x : NodeInfo). x.node_id) same)) refl;
    }

-- A node that was renamed is still found by its ID.
rename-Found :
    (s : Server) (n : NodeInfo) (u : NodeUpdate)
    → Found s n
    → is_some (Nodes.get_node_by_id (rename s n u).nodes n.node_id) ≡ true
unfolding assign_node
rename-Found s n u f = elim (Option-cases (Nodes.get_node_by_id (rename s n u).nodes n.node_id)) [
  | inr (m, e) ↦ rw e refl
  | inl e ↦
      let w = record (entry s.nodes n.mac) {
        node_id = n.node_id;
        name = name_or (or_else u.name n.name) (mac_to_string n.mac);
        zone = or_else u.zone n.zone;
      } in
      let same : entry s.nodes n.mac ≡ n =
        ap (λ (o : Option NodeInfo). or_else o (new_node n.mac)) f.stands in
      let no =
        get_node_by_id-none (rename s n u).nodes n.node_id (mac_to_string n.mac) w e
          (lookup-insert_self (mac_to_string n.mac) w s.nodes) in
      let status : w.status ≡ n.status = ap (λ (x : NodeInfo). x.status) same in
      absurd (ground (arith, f.live))
]

-- Neither a panic nor a node registry out of order.
abbrev pub Keeps : Option Reply → Type 0
Keeps none = ⊥
Keeps (some p) = Sound p.0.nodes

updated_node-Keeps :
    (env : Env) (s : Server) (id : ℕ)
    → Sound s.nodes
    → is_some (Nodes.get_node_by_id s.nodes id) ≡ true
    → Keeps (updated_node env s id)
updated_node-Keeps env s id v h = elim (Option-cases (Nodes.get_node_by_id s.nodes id)) [
  | inl e ↦ absurd (ground (arith, e))
  | inr (n, e) ↦ rw (updated_node, e) v
]

apply_update-Keeps :
    (env : Env) (s : Server) (n : NodeInfo) (u : NodeUpdate) (r : Result Response (Option ℕ))
    → Sound s.nodes
    → Found s n
    → Keeps (apply_update env s n u r)
apply_update-Keeps env s n u (err r) v f = v
apply_update-Keeps env s n u (ok none) v f =
    updated_node-Keeps env (rename s n u) n.node_id (rename-Sound s n u v f) (rename-Found s n u f)
apply_update-Keeps env s n u (ok (some a)) v f =
    after (configure_node env (rename s n u) n.mac a)
      (configure_node-nodes env (rename s n u) n.mac a)
  where
    after :
        (a : Answer) → a.0.nodes ≡ (rename s n u).nodes → Keeps (after_configure env n.node_id a)
    after (t, none) e =
        updated_node-Keeps env t n.node_id (subst Sound (sym e) (rename-Sound s n u v f)) (
          ap (λ (r : Nodes.Registry). is_some (Nodes.get_node_by_id r n.node_id)) e
          ∙ rename-Found s n u f)
    after (t, some x) e = subst Sound (sym e) (rename-Sound s n u v f)

-- Changing a node never dereferences nil: the node is found again afterwards.
pub v1_update_node-Keeps :
    (env : Env) (s : Server) (id : Text) (body : Option NodeUpdate)
    → Sound s.nodes
    → Keeps (v1_update_node env s id body)
unfolding v1_update_node
v1_update_node-Keeps env s id body v =
    on_found (find_node s id) (λ n e. find_node-Found s id n v e) body
  where
    on_found :
        (r : Result Response NodeInfo)
        → ((n : NodeInfo) → r ≡ ok n → Found s n)
        → (body : Option NodeUpdate) → Keeps (update_found env s body r)
    on_found (err r) f body = v
    on_found (ok n) f none = v
    on_found (ok n) f (some u) =
        apply_update-Keeps env s n u (wanted_type u.adapter_type) v (f n refl)
