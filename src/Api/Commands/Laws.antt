-- ===== src/Api/Commands/Laws.antt =====
-- A command from its request to its acknowledgement.
use lattice_hub.Server.Receive.Dispatch.{handle_message-command_ack}
use lattice_hub.Sim.Frames.{ack_msg}
use lattice_hub.Server.Receive.{handle_message}
use lattice_hub.Sim.{VirtualNode}
use lattice_hub.Base.{
  ℕ, ◌≡◌, refl, inl, inr, Bool, true, false, Option, none, some, List, [], ◌∷◌, arith,
  if◌then◌else◌, Text, text_eq, Bool-cases, ok, ap, ◌∙◌, get_or,
}
use lattice_hub.Base.Maps.{Entries, lookup, insert, lookup-insert_self}
use lattice_hub.Server.{Env, Server, active_link, sends, Answer}
use lattice_hub.Server.Send.{send_node_data, node_data_frame}
use lattice_hub.Commands
use lattice_hub.Nodes.{NodeInfo}
use lattice_hub.Api.{respond, refuse, command_id, send_failed, command}
use lattice_hub.Api.Nodes.{find_node}
use lattice_hub.Api.Commands.{
  CommandBody, Uuid, has_action, command_payload, with_token, new_command, v1_node_command,
  command_found, v1_get_command_status,
}

-- A request that passes every check: a node with an output type, and an action that has a payload.
pub record IsAccepted (is_output : ℕ → Bool) (s : Server) (id : Text) (body : Option CommandBody)
    (n : NodeInfo) (b : CommandBody) (payload : List ℕ) : Type 0 where
  pub node_of : find_node s id ≡ ok n
  pub body_of : has_action body ≡ some b
  pub output : is_output n.adapter_type ≡ true
  pub payload_is : command_payload b ≡ ok payload
  pub link_open : s.primary_open ≡ true

module _ (is_output : ℕ → Bool) where
  -- An accepted command is stored as pending under its ID, and one frame goes out over the link in
  -- use, with the payload and the token; the answer is 202 with the ID where the frame is written,
  -- and 500 where it is not, and the command stays stored then too.
  v1_node_command-IsAccepted :
      (env : Env) (s : Server) (u : Uuid) (id : Text) (body : Option CommandBody) (n : NodeInfo)
      (b : CommandBody) (payload : List ℕ)
      → IsAccepted is_output s id body n b payload
      → let m = node_data_frame n.adapter_type (with_token payload u) in
        let (t, resp) = v1_node_command is_output env s u id body in
        (t.commands ≡ Commands.add s.commands (new_command env u n.node_id b.action))
        × (t.effects ≡ sends (active_link env s) m ∷ s.effects)
        × (resp ≡ (
            if env.write_ok (active_link env s) m
            then respond 202 (command_id u.text)
            else refuse 500 send_failed))
  unfolding v1_node_command send_node_data active_link
  v1_node_command-IsAccepted env s u id body n b payload a =
      rw (a.node_of, command_found, a.body_of, a.output, a.payload_is, a.link_open) (ground arith)

add_lem :
    (cs : Commands.CommandStore) (cmd : Commands.PendingCommand)
    → Commands.add cs cmd ≡ insert cmd.id cmd cs
unfolding Commands.add
add_lem cs cmd = refl

status_lem :
    (k : Text) (s : Server) (cmd : Commands.PendingCommand) (cs : Commands.CommandStore)
    → s.commands ≡ insert k cmd cs
    → (v1_get_command_status s k).1 ≡ respond 200 (command cmd)
unfolding Commands.get
status_lem k s cmd cs e = rw (v1_get_command_status, e, lookup-insert_self k cmd cs) refl

-- No command of the store awaits the token.
abbrev IsFreeToken : (Text → Option (List ℕ)) → ℕ → ℕ → Commands.CommandStore → Type 0
IsFreeToken uuid_parse t0 t1 cs =
    Entries (λ id cmd. Commands.awaits uuid_parse t0 t1 id cmd ≡ false) cs

module _ (uuid_parse : Text → Option (List ℕ)) where
  ack_by_token-add :
      (now t0 t1 : ℕ) (cs : Commands.CommandStore) (cmd : Commands.PendingCommand)
      → IsFreeToken uuid_parse t0 t1 cs
      → lookup cmd.id cs ≡ none
      → Commands.awaits uuid_parse t0 t1 cmd.id cmd ≡ true
      → Commands.ack_by_token uuid_parse now t0 t1 (insert cmd.id cmd cs)
        ≡ (insert cmd.id (Commands.acknowledged now cmd) cs, some cmd.id)
  unfolding Commands.ack_by_token insert lookup
  ack_by_token-add now t0 t1 [] cmd f l a = rw a refl
  ack_by_token-add now t0 t1 ((j, c) ∷ cs) cmd f l a = elim (Bool-cases (text_eq j cmd.id)) [
    | inl e ↦ absurd (ground (arith, e))
    | inr e ↦ rw (e, f.0, ack_by_token-add now t0 t1 cs cmd f.1 (rw e at l) a) refl
  ]

  awaits_own :
      (env : Env) (u : Uuid) (id : ℕ) (action : Text)
      → uuid_parse u.text ≡ some u.id_bytes
      → Commands.awaits uuid_parse
          (get_or u.id_bytes 14 0)
          (get_or u.id_bytes 15 0)
          u.text
          (new_command env u id action)
        ≡ true
  awaits_own env u id action p = rw p (ground arith)

  -- A command that was accepted is reported as acknowledged, with the time, once any node of the
  -- mesh answers with its token, whichever node that is. The token awaits no older command, the ID
  -- is new, and uuid.Parse reads the ID's text as its bytes.
  pub v1_node_command-acknowledged :
      (is_output : ℕ → Bool) (env later : Env) (s : Server) (u : Uuid) (id : Text)
      (body : Option CommandBody) (n : NodeInfo) (b : CommandBody) (payload : List ℕ)
      (node : VirtualNode)
      → IsAccepted is_output s id body n b payload
      → IsFreeToken uuid_parse (get_or u.id_bytes 14 0) (get_or u.id_bytes 15 0) s.commands
      → lookup u.text s.commands ≡ none
      → uuid_parse u.text ≡ some u.id_bytes
      → let s1 = (v1_node_command is_output env s u id body).0 in
        let s2 =
          (handle_message uuid_parse later s1
            (ack_msg (get_or u.id_bytes 14 0) (get_or u.id_bytes 15 0) node)).0 in
        (v1_get_command_status s2 u.text).1
        ≡ respond 200
            (command (Commands.acknowledged later.now (new_command env u n.node_id b.action)))
  unfolding ack_msg
  v1_node_command-acknowledged is_output env later s u id body n b payload node a f l p =
      let t0 = get_or u.id_bytes 14 0 in
      let t1 = get_or u.id_bytes 15 0 in
      let s1 = (v1_node_command is_output env s u id body).0 in
      let cmd = new_command env u n.node_id b.action in
      let (stored, _, _) = v1_node_command-IsAccepted is_output env s u id body n b payload a in
      let done =
        ack_by_token-add later.now t0 t1 s.commands cmd f l
          (awaits_own env u n.node_id b.action p) in
      let found : Commands.ack_by_token uuid_parse later.now t0 t1 s1.commands
          ≡ (insert u.text (Commands.acknowledged later.now cmd) s.commands, some u.text) =
        ap (λ (cs : Commands.CommandStore). Commands.ack_by_token uuid_parse later.now t0 t1 cs)
          (stored ∙ add_lem s.commands cmd)
        ∙ done in
      let heard =
        handle_message-command_ack uuid_parse later s1 (ack_msg t0 t1 node) t0 t1 [] u.text refl
          refl refl refl (ap (λ (q : Commands.CommandStore × Option Text). q.1) found) in
      status_lem u.text (handle_message uuid_parse later s1 (ack_msg t0 t1 node)).0
        (Commands.acknowledged later.now cmd) s.commands
        (ap (λ (q : Answer). q.0.commands) heard
          ∙ ap (λ (q : Commands.CommandStore × Option Text). q.0) found)
