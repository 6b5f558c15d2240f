-- ===== src/Api/Commands/Unchanged.antt =====
-- What the routes of commands do to the node registry.
use lattice_hub.Base.{
  ℕ, ◌≡◌, refl, ◌∙◌, inl, inr, Bool, Option, none, some, List, [], ◌∷◌, Text, Bool-cases,
  Option-cases, is_some, Result, ok, err,
}
use lattice_hub.Api.{ApiError, Response}
use lattice_hub.Api.Nodes.{find_node}
use lattice_hub.Api.Commands.{
  CommandBody, Uuid, has_action, command_payload, with_token, new_command, issue, issue_payload,
  after_send, v1_get_command_status, command_found, v1_node_command, send_all, send_zone,
  v1_zone_command,
}
use lattice_hub.Zones
use lattice_hub.Commands
use lattice_hub.Server.{Env, Server, Answer}
use lattice_hub.Server.Send.{send_node_data}
use lattice_hub.Server.Steps.{send_node_data-nodes}
use lattice_hub.Nodes
use lattice_hub.Nodes.{NodeInfo}

pub v1_get_command_status-nodes :
    (s : Server) (id : Text) → (v1_get_command_status s id).0.nodes ≡ s.nodes
v1_get_command_status-nodes s id = elim (Option-cases (Commands.get s.commands id)) [
  | inl e ↦ rw (e, v1_get_command_status) refl
  | inr (c, e) ↦ rw (e, v1_get_command_status) refl
]

issue-nodes :
    (env : Env) (s : Server) (n : NodeInfo) (u : Uuid) (action : Text) (payload : List ℕ)
    → (issue env s n u action payload).0.nodes ≡ s.nodes
issue-nodes env s n u action payload =
    let s1 = record s { commands = Commands.add s.commands (new_command env u n.node_id action) } in
    same (send_node_data env s1 n.adapter_type (with_token payload u))
    ∙ send_node_data-nodes env s1 n.adapter_type (with_token payload u)
  where
    same : (a : Answer) → (after_send u a).0.nodes ≡ a.0.nodes
    same (t, none) = refl
    same (t, some e) = refl

issue_payload-nodes :
    (env : Env) (s : Server) (n : NodeInfo) (u : Uuid) (action : Text)
    (r : Result ApiError (List ℕ))
    → (issue_payload env s n u action r).0.nodes ≡ s.nodes
issue_payload-nodes env s n u action (err e) = refl
issue_payload-nodes env s n u action (ok payload) = issue-nodes env s n u action payload

module _ (is_output : ℕ → Bool) where
  pub v1_node_command-nodes :
      (env : Env) (s : Server) (u : Uuid) (id : Text) (body : Option CommandBody)
      → (v1_node_command is_output env s u id body).0.nodes ≡ s.nodes
  unfolding v1_node_command
  v1_node_command-nodes env s u id body = on_node (find_node s id)
    where
      on_node :
          (r : Result Response NodeInfo)
          → (command_found is_output env s u body r).0.nodes ≡ s.nodes
      on_node (err r) = refl
      on_node (ok n) = elim (Option-cases (has_action body)) [
        | inl e ↦ rw (command_found, e) refl
        | inr (b, e) ↦ elim (Bool-cases (is_output n.adapter_type)) [
          | inr f ↦ rw (command_found, e, f) refl
          | inl f ↦
              rw (command_found, e, f) (issue_payload-nodes env s n u b.action (command_payload b))
        ]
      ]

  send_all-nodes :
      (env : Env) (s : Server) (payload : List ℕ) (ns : List NodeInfo)
      → (send_all is_output env s payload ns).0.nodes ≡ s.nodes
  unfolding send_all
  send_all-nodes env s payload [] = refl
  send_all-nodes env s payload (n ∷ ns) = elim (Bool-cases (is_output n.adapter_type)) [
    | inr e ↦ rw e (send_all-nodes env s payload ns)
    | inl e ↦ rw e (
        send_all-nodes env (send_node_data env s n.adapter_type payload).0 payload ns
        ∙ send_node_data-nodes env s n.adapter_type payload)
  ]

  pub v1_zone_command-nodes :
      (env : Env) (s : Server) (id : Text) (body : Option CommandBody)
      → (v1_zone_command is_output env s id body).0.nodes ≡ s.nodes
  unfolding v1_zone_command
  v1_zone_command-nodes env s id body = elim (Bool-cases (is_some (Zones.get s.zones id))) [
    | inr z ↦ rw z refl
    | inl z ↦ elim (Option-cases (has_action body)) [
      | inl e ↦ rw (z, e) refl
      | inr (b, e) ↦ rw (z, e) (on_payload (command_payload b))
    ]
  ]
    where
      on_payload :
          (r : Result ApiError (List ℕ)) → (send_zone is_output env s id r).0.nodes ≡ s.nodes
      on_payload (err e) = refl
      on_payload (ok payload) = send_all-nodes env s payload (Nodes.get_nodes_by_zone s.nodes id)
