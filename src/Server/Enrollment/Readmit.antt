-- ===== src/Server/Enrollment/Readmit.antt =====
-- A node that is approved again with the identity that it has already: ApproveEnrollment of
-- server/orchestrator/mesh/server.go, behind resendJoinAck.
use lattice_hub.Server.Enrollment.Registry.{admit-nodes}
use lattice_hub.Server.Enrollment.Frames.{frames, send_join_frames_lem}
use lattice_hub.Protocol.AdapterType
use lattice_hub.Events.{EventBroker}
use lattice_hub.Nodes.ById.{get_node_by_id_complete}
use lattice_hub.Mac.{mac_to_string}
use lattice_hub.Protocol.{MeshMessage}
use lattice_hub.Base.Maps.{lookup, insert-lookup}
use lattice_hub.Server.Enrollment.{
  approve_nodes, known_params, swapped, node_id_set, chosen_id, admit, send_join_frames, save_auth,
  join_ack, announce, inherited_type, ApprovalParams, join_ack_data,
}
use lattice_hub.Server.{Env, Server}
use lattice_hub.Base.{
  ℕ, ◌<◌, ◌≡◌, refl, ap, ◌∙◌, ◌≢◌, inl, inr, true, false, none, some, List, [], ◌∷◌, arith, ◌==◌,
  if◌then◌else◌, Text, Option-cases, text_eq_refl,
}
use lattice_hub.Nodes
use lattice_hub.Auth
use lattice_hub.Nodes.{NodeInfo}
use lattice_hub.Nodes.Invariant.{Inv, UniqueIds, is_active}

known-swapped :
    (r : Nodes.Registry) (n : NodeInfo)
    → Inv r
    → UniqueIds r
    → lookup (mac_to_string n.mac) r ≡ some n
    → is_active n ≡ true
    → swapped r (known_params (some n)) n.mac ≡ none
known-swapped r n v u e a =
    let found = get_node_by_id_complete r (mac_to_string n.mac) n v u e a in
    let z : (n.node_id == 0) ≡ false = ground arith in rw (z, found, text_eq_refl n.mac) refl

assign_node-known :
    (r : Nodes.Registry) (n : NodeInfo)
    → lookup (mac_to_string n.mac) r ≡ some n
    → n.name ≢ []
    → Nodes.assign_node r n.mac n.node_id n.name n.zone ≡ r
unfolding Nodes.assign_node
assign_node-known r n e named =
    rw (e, Nodes.assign_node, name_or-named n.name (mac_to_string n.mac) named)
      (insert-lookup (mac_to_string n.mac) n r e)
  where
    name_or-named : (t d : Text) → t ≢ [] → Nodes.name_or t d ≡ t
    name_or-named [] d h = absurd (h refl)
    name_or-named (c ∷ t) d h = refl

known-chosen :
    (r : Nodes.Registry) (n : NodeInfo)
    → is_active n ≡ true
    → chosen_id r (known_params (some n)) ≡ n.node_id
known-chosen r n a = ground arith

-- A live node that is approved again with the identity it has already leaves the registry as it is.
approve_nodes-known :
    (r : Nodes.Registry) (n : NodeInfo)
    → Inv r
    → UniqueIds r
    → lookup (mac_to_string n.mac) r ≡ some n
    → is_active n ≡ true
    → n.name ≢ []
    → approve_nodes r (known_params (some n)) n.mac ≡ r
unfolding approve_nodes
approve_nodes-known r n v u e a named =
    rw (known-swapped r n v u e a, known-chosen r n a) (assign_node-known r n e named)

announce_lem :
    (env : Env) (s : Server) (mac : List ℕ) (t : Text)
    → (b : EventBroker) × (announce env s mac t ≡ record s { broker = b })
announce_lem env s mac t = elim (Option-cases (Nodes.get_node s.nodes mac)) [
  | inl e ↦ (s.broker, rw (e, announce) refl)
  | inr (n, e) ↦ ((announce env s mac t).broker, rw (e, announce) refl)
]

save_auth-frames : (env : Env) (s : Server) → frames (save_auth env s).0.effects ≡ frames s.effects
save_auth-frames env s = ground arith

-- What a node with an ID is told on its approval, newest first.
abbrev pub answer_frames : Server → List ℕ → List ℕ → ℕ → List MeshMessage
answer_frames s mac key id =
    if s.primary_open
    then node_id_set s mac id ∷ join_ack s mac key ∷ frames s.effects
    else frames s.effects

send_join_frames-frames :
    (env : Env) (s : Server) (mac key : List ℕ) (id : ℕ)
    → 0 < id
    → frames (send_join_frames env s mac key id AdapterType.unknown).effects
      ≡ answer_frames s mac key id
send_join_frames-frames env s mac key id pos =
    ap (λ (x : Server). frames x.effects) (send_join_frames_lem env s mac key id) ∙ ground arith

admit-frames :
    (env : Env) (s : Server) (a : Auth.NodeAuth) (p : ApprovalParams)
    → inherited_type p (swapped s.nodes p a.mac) ≡ AdapterType.unknown
    → 0 < chosen_id s.nodes p
    → frames (admit env s a p).0.effects ≡ answer_frames s a.mac a.public_key (chosen_id s.nodes p)
unfolding admit join_ack_data
admit-frames env s a p t pos =
    let id = chosen_id s.nodes p in
    let s1 = record s { nodes = approve_nodes s.nodes p a.mac } in
    let (b, same) = announce_lem env s1 a.mac p.adapter_type_str in
    let send : Server → ℕ → Server = (λ x k. send_join_frames env x a.mac a.public_key id k) in
    let s2 = announce env s1 a.mac p.adapter_type_str in
    save_auth-frames env (send s2 (inherited_type p (swapped s.nodes p a.mac)))
    ∙ ap (λ (k : ℕ). frames (send s2 k).effects) t
    ∙ ap (λ (x : Server). frames (send x AdapterType.unknown).effects) same
    ∙ send_join_frames-frames env (record s1 { broker = b }) a.mac a.public_key id pos

-- The inherited type of a repeated approval is unknown: no OP_CONFIG_SET is sent.
known-inherited :
    (r : Nodes.Registry) (n : NodeInfo) (mac : List ℕ)
    → Inv r
    → UniqueIds r
    → lookup (mac_to_string n.mac) r ≡ some n
    → is_active n ≡ true
    → mac ≡ n.mac
    → inherited_type (known_params (some n)) (swapped r (known_params (some n)) mac)
      ≡ AdapterType.unknown
known-inherited r n mac v u e act same =
    ap
      (λ (m : List ℕ). inherited_type (known_params (some n)) (swapped r (known_params (some n)) m))
      same
    ∙ ap (inherited_type (known_params (some n))) (known-swapped r n v u e act)

-- A repeated admission tells the node what it was told before, and changes nothing in the registry.
pub admit-known :
    (env : Env) (s : Server) (a : Auth.NodeAuth) (n : NodeInfo)
    → Inv s.nodes
    → UniqueIds s.nodes
    → lookup (mac_to_string n.mac) s.nodes ≡ some n
    → is_active n ≡ true
    → n.name ≢ []
    → a.mac ≡ n.mac
    → ((admit env s a (known_params (some n))).0.nodes ≡ s.nodes)
      × (frames (admit env s a (known_params (some n))).0.effects
          ≡ answer_frames s n.mac a.public_key n.node_id)
admit-known env s a n v u e act named same =
    let p = known_params (some n) in
    let id : chosen_id s.nodes p ≡ n.node_id = known-chosen s.nodes n act in
    (
      admit-nodes env s a p
          ∙ ap (approve_nodes s.nodes p) same
          ∙ approve_nodes-known s.nodes n v u e act named,
      admit-frames env s a p (known-inherited s.nodes n a.mac v u e act same) (ground arith)
          ∙ ap (λ (k : ℕ). answer_frames s a.mac a.public_key k) id
          ∙ ap (λ (m : List ℕ). answer_frames s m a.public_key n.node_id) same,
    )
