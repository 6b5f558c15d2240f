-- ===== src/Server/Enrollment/Registry.antt =====
-- What approvals, rejections and requests leave in the node registry.
use lattice_hub.Server.Enrollment.Swap.{approve_nodes-Inv, approve_nodes-UniqueIds}
use lattice_hub.Base.Maps.{lookup, Entries-lookup}
use lattice_hub.Builder.{BuildError, build_config_set}
use lattice_hub.Mac.{parse_mac, mac_to_string, hex_encode}
use lattice_hub.Protocol.{MeshMessage}
use lattice_hub.Server.{Env, Server, active_link}
use lattice_hub.Server.Enrollment.{
  send_join_frames, handle_enrollment_request, admit, resend_join_ack, approve_enrollment,
  reject_enrollment, save_auth, ApprovalParams, announce, approve_nodes, send_quietly, known_params,
  approved_by, swapped, send_config, chosen_id, inherited_type, join_ack, node_id_set,
  queue_request, after_request,
}
use lattice_hub.Base.{
  ℕ, ◌<◌, ◌≡◌, refl, sym, ◌∙◌, inl, inr, Option, none, some, List, arith, ltb, ◌==◌, if◌then◌else◌,
  Text, length, Bool-cases, Option-cases, Result, ok, err, take, subst,
}
use lattice_hub.Nodes
use lattice_hub.Auth
use lattice_hub.Nodes.Invariant.{Inv, UniqueIds, IsKeyed}

-- The node registry is in order: entries under their texts, IDs within a byte, live IDs distinct.
pub record Sound (r : Nodes.Registry) : Type 0 where
  pub inv : Inv r
  pub unique : UniqueIds r

send_config-nodes :
    (env : Env) (s : Server) (r : Result BuildError MeshMessage)
    → (send_config env s r).nodes ≡ s.nodes
send_config-nodes env s (err e) = refl
send_config-nodes env s (ok m) = refl

send_join_frames-nodes :
    (env : Env) (s : Server) (mac key : List ℕ) (id t : ℕ)
    → (send_join_frames env s mac key id t).nodes ≡ s.nodes
unfolding send_join_frames
send_join_frames-nodes env s mac key id t =
    let s1 = send_quietly env s (active_link env s) (join_ack s mac key) in
    let s2 =
      if ltb 0 id then send_quietly env s1 (active_link env s1) (node_id_set s1 mac id) else s1 in
    ground (arith, send_config-nodes env s2 (build_config_set mac t))

save_auth-nodes : (env : Env) (s : Server) → (save_auth env s).0.nodes ≡ s.nodes
save_auth-nodes env s = ground arith

announce-nodes :
    (env : Env) (s : Server) (mac : List ℕ) (t : Text) → (announce env s mac t).nodes ≡ s.nodes
announce-nodes env s mac t = ground arith

pub admit-nodes :
    (env : Env) (s : Server) (n : Auth.NodeAuth) (p : ApprovalParams)
    → (admit env s n p).0.nodes ≡ approve_nodes s.nodes p n.mac
unfolding admit
admit-nodes env s n p =
    let old = swapped s.nodes p n.mac in
    let s1 = record s { nodes = approve_nodes s.nodes p n.mac } in
    let s2 = announce env s1 n.mac p.adapter_type_str in
    let id = chosen_id s.nodes p in
    save_auth-nodes env (send_join_frames env s2 n.mac n.public_key id (inherited_type p old))
    ∙ send_join_frames-nodes env s2 n.mac n.public_key id (inherited_type p old)
    ∙ announce-nodes env s1 n.mac p.adapter_type_str

known_params-byte :
    (r : Nodes.Registry) (mac : List ℕ)
    → Inv r
    → (known_params (Nodes.get_node r mac)).node_id < 256
unfolding Nodes.get_node
known_params-byte r mac v = elim (Option-cases (lookup (mac_to_string mac) r)) [
  | inl e ↦ rw e (omega arith)
  | inr (n, e) ↦
      let (k, m, small) = Entries-lookup IsKeyed (mac_to_string mac) r v.keyed e in rw e small
]

pub approve_enrollment-Sound :
    (env : Env) (s : Server) (mac_str : Text) (p : ApprovalParams)
    → p.node_id < 256
    → Sound s.nodes
    → Sound (approve_enrollment env s mac_str p).0.nodes
unfolding approve_enrollment
approve_enrollment-Sound env s mac_str p h v = approve_cases (Auth.approve env.now s.auth mac_str)
  where
    approve_cases :
        (r : Auth.Registry × Result Auth.AuthError Auth.NodeAuth)
        → Sound (approved_by env s p r).0.nodes
    approve_cases (auth, err e) = v
    approve_cases (auth, ok n) =
        subst Sound (sym (admit-nodes env (record s { auth = auth }) n p)) (record {
          inv = approve_nodes-Inv s.nodes p n.mac h v.inv;
          unique = approve_nodes-UniqueIds s.nodes p n.mac v.inv v.unique;
        })

resend_join_ack-Sound :
    (env : Env) (s : Server) (mac_str : Text)
    → Sound s.nodes
    → Sound (resend_join_ack env s mac_str).0.nodes
unfolding resend_join_ack
resend_join_ack-Sound env s mac_str v = elim (Option-cases (parse_mac mac_str)) [
  | inl e ↦ rw (e, resend_join_ack) v
  | inr (mac, e) ↦
      rw (e, resend_join_ack)
        (approve_enrollment-Sound env s mac_str (known_params (Nodes.get_node s.nodes mac))
          (known_params-byte s.nodes mac v.inv) v)
]

pub reject_enrollment-nodes :
    (env : Env) (s : Server) (mac_str : Text) → (reject_enrollment env s mac_str).0.nodes ≡ s.nodes
unfolding reject_enrollment
reject_enrollment-nodes env s mac_str = ground arith

queue_request-nodes :
    (env : Env) (s : Server) (mac key : List ℕ) → (queue_request env s mac key).nodes ≡ s.nodes
queue_request-nodes env s mac key = ground arith

after_request-Sound :
    (env : Env) (s : Server) (mac key : List ℕ) (e : Option Auth.AuthError)
    → Sound s.nodes
    → Sound (after_request env s mac key e).0.nodes
after_request-Sound env s mac key none v = subst Sound (sym (queue_request-nodes env s mac key)) v
after_request-Sound env s mac key (some Auth.already_approved_same_key) v =
    resend_join_ack-Sound env s (hex_encode mac) v
after_request-Sound env s mac key (some (Auth.not_found t)) v = v

pub handle_enrollment_request-Sound :
    (env : Env) (s : Server) (m : MeshMessage)
    → Sound s.nodes
    → Sound (handle_enrollment_request env s m).0.nodes
unfolding handle_enrollment_request
handle_enrollment_request-Sound env s m v = elim (Bool-cases (ltb (length m.origin) 6)) [
  | inl a ↦ rw a v
  | inr a ↦ elim (Bool-cases (length m.public_key == 32)) [
    | inr b ↦ rw (a, b) v
    | inl b ↦
        rw (a, b)
          (after_request-Sound env
            (record s { auth = (Auth.add_pending env.now s.auth (take 6 m.origin) m.public_key).0 })
            (take 6 m.origin) m.public_key
            (Auth.add_pending env.now s.auth (take 6 m.origin) m.public_key).1 v)
  ]
]
