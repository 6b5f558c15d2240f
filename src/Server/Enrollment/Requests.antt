-- ===== src/Server/Enrollment/Requests.antt =====
-- Requests of nodes: which of them are answered, and with what.
use lattice_hub.Server.Enrollment.Registry.{Sound}
use lattice_hub.Server.Enrollment.Readmit.{admit-known, answer_frames}
use lattice_hub.Server.Enrollment.Frames.{frames}
use lattice_hub.Mac.{mac_to_string, hex_encode}
use lattice_hub.Protocol.{MeshMessage}
use lattice_hub.Base.Maps.{lookup, insert, lookup-insert_self}
use lattice_hub.Server.Enrollment.{
  handle_enrollment_request, queue_request, known_params, after_request, admit, resend_join_ack,
  approve_enrollment, join_ack_data, approved_by,
}
use lattice_hub.Server.{Env, Server, Answer}
use lattice_hub.Base.{
  ℕ, ◌≡◌, refl, sym, ap, ◌∙◌, ◌≢◌, inl, inr, true, false, Option, none, some, List, [], arith, ltb,
  ◌==◌, Text, length, Bool-cases, ok, take, some-injective, take_all,
}
use lattice_hub.Nodes
use lattice_hub.Auth
use lattice_hub.Auth.Trust.{
  add_pending_total, same_key, new_key, rekeyed, first_request, normalize-hex_encode,
}
use lattice_hub.Nodes.{NodeInfo}
use lattice_hub.Mac.RoundTrip.{parse_mac-hex_encode, IsMac}
use lattice_hub.Nodes.Invariant.{is_active}

queue_request-frames :
    (env : Env) (s : Server) (mac key : List ℕ)
    → frames (queue_request env s mac key).effects ≡ frames s.effects
queue_request-frames env s mac key = ground arith

new_request-frames :
    (env : Env) (s : Server) (mac key : List ℕ)
    → Auth.trusted_key (lookup (Auth.mac_key mac) s.auth) ≢ some key
    → let (auth, e) = Auth.add_pending env.now s.auth mac key in
      frames (after_request env (record s { auth = auth }) mac key e).0.effects ≡ frames s.effects
new_request-frames env s mac key h = elim (add_pending_total env.now s.auth mac key) [
  | same_key old e a k q ↦ absurd (h (rw (e, a, k) refl))
  | new_key old e a k q ↦
      let auth = insert (Auth.mac_key mac) (rekeyed old env.now key) s.auth in
      rw q (queue_request-frames env (record s { auth = auth }) mac key)
  | first_request e q ↦
      let auth = insert (Auth.mac_key mac) (Auth.new_request env.now mac key) s.auth in
      rw q (queue_request-frames env (record s { auth = auth }) mac key)
]

-- A node whose key is not the one it is trusted with is sent nothing in answer to its request.
pub handle_enrollment_request-untrusted :
    (env : Env) (s : Server) (m : MeshMessage)
    → Auth.trusted_key (lookup (Auth.mac_key (take 6 m.origin)) s.auth) ≢ some m.public_key
    → frames (handle_enrollment_request env s m).0.effects ≡ frames s.effects
unfolding handle_enrollment_request
handle_enrollment_request-untrusted env s m h = elim (Bool-cases (ltb (length m.origin) 6)) [
  | inl a ↦ rw a refl
  | inr a ↦ elim (Bool-cases (length m.public_key == 32)) [
    | inr b ↦ rw (a, b) refl
    | inl b ↦ rw (a, b) (new_request-frames env s (take 6 m.origin) m.public_key h)
  ]
]

-- The state that a repeated request of a trusted node meets: its key is approved, and it is a live
-- entry of the node registry with a name.
pub record Returning (s : Server) (m : MeshMessage) (a : Auth.NodeAuth) (n : NodeInfo)
    : Type 0 where
  pub valid : IsMac m.origin
  pub key_length : length m.public_key ≡ 32
  pub entry_of : lookup (Auth.mac_key m.origin) s.auth ≡ some a
  pub trusted : a.status ≡ Auth.approved
  pub own_key : a.public_key ≡ m.public_key
  pub own_mac : a.mac ≡ m.origin
  pub sound : Sound s.nodes
  pub node_of : lookup (mac_to_string n.mac) s.nodes ≡ some n
  pub node_mac : n.mac ≡ m.origin
  pub live : is_active n ≡ true
  pub named : n.name ≢ []

approve-found :
    (now : ℕ) (r : Auth.Registry) (t : Text) (a : Auth.NodeAuth)
    → lookup (Auth.normalize t) r ≡ some a
    → let a2 : Auth.NodeAuth = record a { status = Auth.approved; approved_at = now } in
      Auth.approve now r t ≡ (insert (Auth.normalize t) a2 r, ok a2)
unfolding Auth.approve
approve-found now r t a e = rw (e, Auth.approve) refl

approve-granted :
    (now : ℕ) (r : Auth.Registry) (mac : List ℕ) (a : Auth.NodeAuth)
    → IsMac mac
    → lookup (Auth.mac_key mac) r ≡ some a
    → let a2 : Auth.NodeAuth = record a { status = Auth.approved; approved_at = now } in
      Auth.approve now r (hex_encode mac) ≡ (insert (Auth.mac_key mac) a2 r, ok a2)
approve-granted now r mac a w e =
    let key = normalize-hex_encode mac w in
    let a2 : Auth.NodeAuth = record a { status = Auth.approved; approved_at = now } in
    approve-found now r (hex_encode mac) a (ap (λ (k : Text). lookup k r) key ∙ e)
    ∙ ap (λ (k : Text). (insert k a2 r, ok a2)) key

resend_lem :
    (env : Env) (s : Server) (mac : List ℕ) (a : Auth.NodeAuth) (n : NodeInfo)
    → IsMac mac
    → lookup (Auth.mac_key mac) s.auth ≡ some a
    → lookup (mac_to_string mac) s.nodes ≡ some n
    → let a2 : Auth.NodeAuth = record a { status = Auth.approved; approved_at = env.now } in
      resend_join_ack env s (hex_encode mac)
      ≡ admit env
          (record s { auth = insert (Auth.mac_key mac) a2 s.auth })
          a2
          (known_params (some n))
unfolding resend_join_ack approve_enrollment Nodes.get_node
resend_lem env s mac a n w e f =
    let p = known_params (Nodes.get_node s.nodes mac) in
    opened
    ∙ ap (approved_by env s p) (approve-granted env.now s.auth mac a w e)
    ∙ ap
        (λ (o : Option NodeInfo).
          admit env
            (record s {
              auth =
                  insert (Auth.mac_key mac)
                    (record a { status = Auth.approved; approved_at = env.now }) s.auth;
            })
            (record a { status = Auth.approved; approved_at = env.now }) (known_params o))
        f
  where
    opened :
        resend_join_ack env s (hex_encode mac)
        ≡ approved_by env s
            (known_params (Nodes.get_node s.nodes mac))
            (Auth.approve env.now s.auth (hex_encode mac))
    opened = rw (parse_mac-hex_encode mac w, resend_join_ack) refl

asked_again :
    (now : ℕ) (r : Auth.Registry) (mac key : List ℕ) (a : Auth.NodeAuth)
    → lookup (Auth.mac_key mac) r ≡ some a
    → a.status ≡ Auth.approved
    → a.public_key ≡ key
    → Auth.add_pending now r mac key ≡ (
      insert (Auth.mac_key mac) (record a { received_at = now }) r,
      some Auth.already_approved_same_key,
    )
asked_again now r mac key a e st k = elim (add_pending_total now r mac key) [
  | same_key old f t l q ↦
      q
      ∙ ap
          (λ (o : Auth.NodeAuth). (
            insert (Auth.mac_key mac) (record o { received_at = now }) r,
            some Auth.already_approved_same_key,
          ))
          (some-injective old a (sym f ∙ e))
  | new_key old f t l q ↦
      absurd (l (ap (λ (o : Auth.NodeAuth). o.public_key) (some-injective old a (sym f ∙ e)) ∙ k))
  | first_request f q ↦ absurd (none_not_some (sym f ∙ rw (e, st) refl))
]
  where
    none_not_some : none ≡ some a.public_key → ⊥
    none_not_some h = ground arith

requested :
    (env : Env) (s : Server) (m : MeshMessage) (a : Auth.NodeAuth) (n : NodeInfo)
    → Returning s m a n
    → handle_enrollment_request env s m
      ≡ resend_join_ack env
          (record s {
            auth = insert (Auth.mac_key m.origin) (record a { received_at = env.now }) s.auth;
          })
          (hex_encode m.origin)
unfolding handle_enrollment_request
requested env s m a n h =
    let six : ltb (length m.origin) 6 ≡ false = ground (arith, h.valid.six) in
    let long : (length m.public_key == 32) ≡ true = ground (arith, h.key_length) in
    let whole : take 6 m.origin ≡ m.origin = take_all 6 m.origin (omega (arith, h.valid.six)) in
    rw
      (
        six,
        long,
        whole,
        asked_again env.now s.auth m.origin m.public_key a h.entry_of h.trusted h.own_key,
      )
      refl

-- A trusted node that has a name and an ID in the node registry and asks again with its own key is
-- answered at once: over an open link it is sent the JOIN_ACK and the ID that it has, nothing else
-- is sent, and the node registry does not change.
pub handle_enrollment_request-Returning :
    (env : Env) (s : Server) (m : MeshMessage) (a : Auth.NodeAuth) (n : NodeInfo)
    → Returning s m a n
    → ((handle_enrollment_request env s m).0.nodes ≡ s.nodes)
      × (frames (handle_enrollment_request env s m).0.effects
          ≡ answer_frames s m.origin m.public_key n.node_id)
unfolding join_ack_data
handle_enrollment_request-Returning env s m a n h =
    let s1 = record s {
      auth = insert (Auth.mac_key m.origin) (record a { received_at = env.now }) s.auth;
    } in
    let a1 : Auth.NodeAuth = record a { received_at = env.now } in
    let a2 : Auth.NodeAuth = record a1 { status = Auth.approved; approved_at = env.now } in
    let s2 = record s1 { auth = insert (Auth.mac_key m.origin) a2 s1.auth } in
    let at : lookup (mac_to_string m.origin) s.nodes ≡ some n =
      ap (λ (k : List ℕ). lookup (mac_to_string k) s.nodes) (sym h.node_mac) ∙ h.node_of in
    let whole =
      requested env s m a n h
      ∙ resend_lem env s1 m.origin a1 n h.valid
          (lookup-insert_self (Auth.mac_key m.origin) a1 s.auth) at in
    let (nodes, sent) =
      admit-known env s2 a2 n h.sound.inv h.sound.unique h.node_of h.live h.named
        (h.own_mac ∙ sym h.node_mac) in
    (
      ap (λ (x : Answer). x.0.nodes) whole ∙ nodes,
      ap (λ (x : Answer). frames x.0.effects) whole
          ∙ sent
          ∙ ap (λ (k : List ℕ). answer_frames s k a.public_key n.node_id) h.node_mac
          ∙ ap (λ (k : List ℕ). answer_frames s m.origin k n.node_id) h.own_key,
    )
