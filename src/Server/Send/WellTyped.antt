-- ===== src/Server/Send/WellTyped.antt =====
-- Which frames leave the hub.
pub mod Received
pub mod Sent
pub mod Switched
pub mod Steps
use lattice_hub.Base.{
  ℕ, zero, suc, ◌≡◌, refl, sym, ap, ◌∙◌, ◌⊎◌, inl, inr, Bool, true, false, not, Option, none, some,
  List, [], ◌∷◌, arith, if◌then◌else◌, Text, length, Result, ok, err, All, ltb, ◌==◌, Bool-cases,
  Option-cases, length-copy, length-set, subst, copy, copy_at, set, take, ◌-◌, ◌%◌,
}
use lattice_hub.Protocol.{MeshMessage, zeros}
use lattice_hub.Protocol.MessageType
use lattice_hub.Protocol.AdapterType
use lattice_hub.Protocol.Op
use lattice_hub.Builder.{build_config_set}
use lattice_hub.Mac.{hex_encode, parse_mac}
use lattice_hub.Nodes
use lattice_hub.Auth
use lattice_hub.Commands
use lattice_hub.Server.{Env, Server, Link, write_frame, active_link}
use lattice_hub.Server.Enrollment.Frames.{frames}
use lattice_hub.Server.Enrollment.{
  send_join_frames, join_ack_data, admit, approve_enrollment, approved_by, resend_join_ack,
  reject_enrollment, handle_enrollment_request, announce, save_auth, queue_request, after_request,
  reject_frame, reject_known, inherited_type, chosen_id, swapped, ApprovalParams, join_ack,
  node_id_set, send_config, send_quietly, known_params, approve_nodes,
}

-- A frame of the hub's protocol version with a whole payload of 64 bytes or, as in a rejection,
-- none.
abbrev pub IsFrame : MeshMessage → Type 0
IsFrame m = (m.version ≡ 5) × ((length m.data_bytes ≡ 64) ⊎ (length m.data_bytes ≡ 0))

-- Every frame among the effects.
pub record Framed (s : Server) : Type 0 where
  pub all_frames : All IsFrame (frames s.effects)

length-copy_at : (i : ℕ) (dst src : List ℕ) → length (copy_at i dst src) ≡ length dst
length-copy_at zero dst src = length-copy dst src
length-copy_at (suc i) [] src = refl
length-copy_at (suc i) (x ∷ dst) src = ap suc (length-copy_at i dst src)

join_ack_data-length : (s : Server) (key : List ℕ) → length (join_ack_data s key) ≡ 64
unfolding join_ack_data
join_ack_data-length s key = ground (
  arith,
  length-copy (zeros 64) (take 4 key),
  length-copy_at 4 (copy (zeros 64) (take 4 key)) s.secondary_mac,
  length-copy_at 10 (copy_at 4 (copy (zeros 64) (take 4 key)) s.secondary_mac)
      s.secondary_public_key,
)

pub mac_payload-length :
    (op : ℕ) (mac : List ℕ) (b : ℕ) → length (lattice_hub.Builder.mac_payload op mac b) ≡ 64
mac_payload-length op mac b =
    length-set (copy_at 1 (set (zeros 64) 0 op) (take 6 mac)) 7 b
    ∙ length-copy_at 1 (set (zeros 64) 0 op) (take 6 mac)
    ∙ length-set (zeros 64) 0 op

pub write_frame-Framed :
    (env : Env) (s : Server) (link : Link) (m : MeshMessage)
    → IsFrame m
    → Framed s
    → Framed (write_frame env s link m).0
write_frame-Framed env s link m h v = record { all_frames = (h, v.all_frames) }

pub same-Framed : (s t : Server) → frames t.effects ≡ frames s.effects → Framed s → Framed t
same-Framed s t e v = record { all_frames = subst (All IsFrame) (sym e) v.all_frames }

pub either-Framed : (b : Bool) (x y : Server) → Framed x → Framed y → Framed (if b then x else y)
either-Framed true x y h k = h
either-Framed false x y h k = k

send_config-Framed :
    (env : Env) (s : Server) (mac : List ℕ) (t : ℕ)
    → Framed s
    → Framed (send_config env s (build_config_set mac t))
unfolding build_config_set lattice_hub.Protocol.low_byte
send_config-Framed env s mac t v = elim (Bool-cases (length mac == 6)) [
  | inl e ↦ rw e (record {
    all_frames = ((refl, inl (mac_payload-length Op.config_set mac (t % 256))), v.all_frames);
  })
  | inr e ↦ rw e v
]

send_join_frames-Framed :
    (env : Env) (s : Server) (mac key : List ℕ) (id t : ℕ)
    → Framed s
    → Framed (send_join_frames env s mac key id t)
unfolding send_join_frames
send_join_frames-Framed env s mac key id t v =
    either-Framed (not s.primary_open) _ _ v
      (either-Framed (t == AdapterType.unknown) _ _ s2 (send_config-Framed env _ mac t s2))
  where
    s1 : Framed (send_quietly env s (active_link env s) (join_ack s mac key))
    s1 = record { all_frames = ((refl, inl (join_ack_data-length s key)), v.all_frames) }

    s2 :
        let s1 = send_quietly env s (active_link env s) (join_ack s mac key) in
        Framed (
          if ltb 0 id then send_quietly env s1 (active_link env s1) (node_id_set s1 mac id) else s1)
    s2 =
        either-Framed (ltb 0 id) _ _
          (record {
            all_frames = ((refl, inl (mac_payload-length Op.node_id_set mac id)), s1.all_frames);
          })
          s1

announce-frames :
    (env : Env) (s : Server) (mac : List ℕ) (t : Text)
    → frames (announce env s mac t).effects ≡ frames s.effects
announce-frames env s mac t = ground arith

save_auth-frames : (env : Env) (s : Server) → frames (save_auth env s).0.effects ≡ frames s.effects
save_auth-frames env s = ground arith

admit-Framed :
    (env : Env) (s : Server) (node : Auth.NodeAuth) (p : ApprovalParams)
    → Framed s
    → Framed (admit env s node p).0
unfolding admit
admit-Framed env s node p v =
    let s1 = record s { nodes = approve_nodes s.nodes p node.mac } in
    let s2 = announce env s1 node.mac p.adapter_type_str in
    let t = inherited_type p (swapped s.nodes p node.mac) in
    let s3 = send_join_frames env s2 node.mac node.public_key (chosen_id s.nodes p) t in
    same-Framed s3 (save_auth env s3).0 (save_auth-frames env s3) (
      send_join_frames-Framed env s2 node.mac node.public_key (chosen_id s.nodes p) t
        (same-Framed s s2 (announce-frames env s1 node.mac p.adapter_type_str) v))

approved_by-Framed :
    (env : Env) (s : Server) (p : ApprovalParams)
    (a : Auth.Registry × Result Auth.AuthError Auth.NodeAuth)
    → Framed s
    → Framed (approved_by env s p a).0
approved_by-Framed env s p (auth, err e) v = v
approved_by-Framed env s p (auth, ok node) v =
    admit-Framed env (record s { auth = auth }) node p (record { all_frames = v.all_frames })

pub approve_enrollment-Framed :
    (env : Env) (s : Server) (mac_str : Text) (p : ApprovalParams)
    → Framed s
    → Framed (approve_enrollment env s mac_str p).0
unfolding approve_enrollment
approve_enrollment-Framed env s mac_str p v =
    approved_by-Framed env s p (Auth.approve env.now s.auth mac_str) v

resend_join_ack-Framed :
    (env : Env) (s : Server) (mac_str : Text) → Framed s → Framed (resend_join_ack env s mac_str).0
unfolding resend_join_ack
resend_join_ack-Framed env s mac_str v = elim (Option-cases (parse_mac mac_str)) [
  | inl e ↦ rw (resend_join_ack, e) v
  | inr (mac, e) ↦
      rw (resend_join_ack, e)
        (approve_enrollment-Framed env s mac_str (known_params (Nodes.get_node s.nodes mac)) v)
]

rejected-Framed :
    (env : Env) (s : Server) (mac : List ℕ)
    → Framed s
    → Framed
        (if s.primary_open then send_quietly env s (active_link env s) (reject_frame s mac) else s)
rejected-Framed env s mac v =
    either-Framed s.primary_open _ _ (record { all_frames = ((refl, inr refl), v.all_frames) }) v

reject_known-Framed :
    (env : Env) (s : Server) (mac : List ℕ) (a : Auth.Registry × Option Auth.AuthError)
    → Framed s
    → Framed (reject_known env s mac a).0
reject_known-Framed env s mac (auth, some e) v = v
reject_known-Framed env s mac (auth, none) v =
    let s1 = record s { auth = auth } in
    let s2 =
      if s1.primary_open
      then send_quietly env s1 (active_link env s1) (reject_frame s1 mac)
      else s1 in
    same-Framed s2 (save_auth env s2).0 (save_auth-frames env s2)
      (rejected-Framed env s1 mac (record { all_frames = v.all_frames }))

pub reject_enrollment-Framed :
    (env : Env) (s : Server) (mac_str : Text)
    → Framed s
    → Framed (reject_enrollment env s mac_str).0
unfolding reject_enrollment
reject_enrollment-Framed env s mac_str v = elim (Option-cases (parse_mac mac_str)) [
  | inl e ↦ rw (reject_enrollment, e) v
  | inr (mac, e) ↦
      rw (reject_enrollment, e) (reject_known-Framed env s mac (Auth.reject s.auth mac_str) v)
]

queue_request-frames :
    (env : Env) (s : Server) (mac key : List ℕ)
    → frames (queue_request env s mac key).effects ≡ frames s.effects
queue_request-frames env s mac key = ground arith

after_request-Framed :
    (env : Env) (s : Server) (mac key : List ℕ) (o : Option Auth.AuthError)
    → Framed s
    → Framed (after_request env s mac key o).0
after_request-Framed env s mac key none v =
    same-Framed s (queue_request env s mac key) (queue_request-frames env s mac key) v
after_request-Framed env s mac key (some Auth.already_approved_same_key) v =
    resend_join_ack-Framed env s (hex_encode mac) v
after_request-Framed env s mac key (some e) v = v

pub handle_enrollment_request-Framed :
    (env : Env) (s : Server) (m : MeshMessage)
    → Framed s
    → Framed (handle_enrollment_request env s m).0
unfolding handle_enrollment_request
handle_enrollment_request-Framed env s m v = elim (Bool-cases (ltb (length m.origin) 6)) [
  | inl a ↦ rw a v
  | inr a ↦ elim (Bool-cases (length m.public_key == 32)) [
    | inr b ↦ rw (a, b) v
    | inl b ↦
        let (auth, e) = Auth.add_pending env.now s.auth (take 6 m.origin) m.public_key in
        rw (a, b)
          (after_request-Framed env (record s { auth = auth }) (take 6 m.origin) m.public_key e
            (record { all_frames = v.all_frames }))
  ]
]
