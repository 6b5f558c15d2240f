-- ===== src/Server/Receive/Dispatch.antt =====
-- Which messages are acted on, and what an acknowledgement does.
use lattice_hub.Builder.{first_byte}
use lattice_hub.Events.{command_ack, ack_of}
use lattice_hub.Protocol.Op
use lattice_hub.Commands
use lattice_hub.Protocol.AdapterType
use lattice_hub.Protocol.MessageType
use lattice_hub.Protocol.{MeshMessage, proto_version}
use lattice_hub.Server.{Env, Server, emit, logs, mesh_message, incoming, publish_event, Direction}
use lattice_hub.Server.Receive.{
  handle_message, dispatch, log_message, handle_adapter_data, handle_serial_data,
  handle_command_ack, command_node,
}
use lattice_hub.Base.{
  ℕ, ◌+◌, ◌≡◌, refl, ap, ◌∙◌, ◌≢◌, Bool, false, not, ◌&&◌, Option, none, some, List, ◌∷◌, arith,
  ◌==◌, if◌then◌else◌, Text, length, get_or,
}

-- The server after a command has been found: the store is replaced and the subscribers are told.
abbrev acknowledged_by : Env → Server → Commands.CommandStore → Text → Server
acknowledged_by env s cs id =
    publish_event env (record s { commands = cs }) command_ack
      (ack_of id (command_node (Commands.get cs id)))

module _ (uuid_parse : Text → Option (List ℕ)) where
  -- A message of another protocol version changes nothing, whatever it carries. Of a message of
  -- this version and of a type that the hub does not act on, only the log record remains.
  handle_message-ignored :
      (env : Env) (s : Server) (m : MeshMessage)
      → (m.version ≡ proto_version
          → (m.message_type ≢ MessageType.adapter_data)
            × (m.message_type ≢ MessageType.enrollment)
            × (m.message_type ≢ MessageType.route_report))
      → handle_message uuid_parse env s m ≡ (
        if (m.version == proto_version) && s.has_event_store
            then emit s (logs (mesh_message incoming env.now m) env.kafka_ok)
            else s,
        none,
      )
  unfolding handle_message dispatch log_message
  handle_message-ignored env s m h = ground (arith, h)

  log_message-commands :
      (env : Env) (s : Server) (d : Direction) (m : MeshMessage)
      → (log_message env s d m).commands ≡ s.commands
  unfolding log_message
  log_message-commands env s d m = ground arith

  dispatch-command_ack :
      (env : Env) (s : Server) (m : MeshMessage) {t0 t1 : ℕ} {rest : List ℕ}
      → m.message_type ≡ MessageType.adapter_data
      → m.data_type ≡ AdapterType.serial
      → m.data_bytes ≡ Op.command_ack ∷ t0 ∷ t1 ∷ rest
      → dispatch uuid_parse env s m ≡ (handle_command_ack uuid_parse env s m, none)
  unfolding dispatch handle_adapter_data handle_serial_data
  dispatch-command_ack env s m {t0} {t1} {rest} ty dt d =
      let op : first_byte m ≡ Op.command_ack = ap (λ (l : List ℕ). get_or l 0 0) d in
      let long : length m.data_bytes ≡ 3 + length rest = ap length d ∙ omega arith in ground arith

  acknowledge_lem :
      (env : Env) (s : Server) (m : MeshMessage) {t0 t1 : ℕ} {rest : List ℕ} {id : Text}
      → m.data_bytes ≡ Op.command_ack ∷ t0 ∷ t1 ∷ rest
      → (Commands.ack_by_token uuid_parse env.now t0 t1 s.commands).1 ≡ some id
      → handle_command_ack uuid_parse env s m
        ≡ acknowledged_by env s (Commands.ack_by_token uuid_parse env.now t0 t1 s.commands).0 id
  unfolding handle_command_ack
  acknowledge_lem env s m {t0} {t1} {rest} {id} d f = rw d (ground arith)

  handle_message_lem :
      (env : Env) (s : Server) (m : MeshMessage)
      → handle_message uuid_parse env s m ≡ (
          if not (m.version == proto_version)
          then (s, none)
          else dispatch uuid_parse env (log_message env s incoming m) m)
  unfolding handle_message
  handle_message_lem env s m = refl

  -- A command is acknowledged by a serial message that carries the opcode and a two-byte token: the
  -- command that the token finds is acknowledged in the store, and its ID and node are published.
  pub handle_message-command_ack :
      (env : Env) (s : Server) (m : MeshMessage) (t0 t1 : ℕ) (rest : List ℕ) (id : Text)
      → m.version ≡ proto_version
      → m.message_type ≡ MessageType.adapter_data
      → m.data_type ≡ AdapterType.serial
      → m.data_bytes ≡ Op.command_ack ∷ t0 ∷ t1 ∷ rest
      → (Commands.ack_by_token uuid_parse env.now t0 t1 s.commands).1 ≡ some id
      → handle_message uuid_parse env s m ≡ (
        acknowledged_by env
            (log_message env s incoming m)
            (Commands.ack_by_token uuid_parse env.now t0 t1 s.commands).0
            id,
        none,
      )
  handle_message-command_ack env s m t0 t1 rest id v ty dt d f =
      let s1 = log_message env s incoming m in
      let same : s1.commands ≡ s.commands = log_message-commands env s incoming m in
      let this : not (m.version == proto_version) ≡ false = ground arith in
      handle_message_lem env s m
      ∙ ap (λ (b : Bool). if b then (s, none) else dispatch uuid_parse env s1 m) this
      ∙ dispatch-command_ack env s1 m ty dt d
      ∙ ap (λ (x : Server). (x, none))
          (acknowledge_lem env s1 m d (
              ap
                (λ (cs : Commands.CommandStore).
                  (Commands.ack_by_token uuid_parse env.now t0 t1 cs).1)
                same
              ∙ f)
            ∙ ap
                (λ (cs : Commands.CommandStore).
                  acknowledged_by env s1 (Commands.ack_by_token uuid_parse env.now t0 t1 cs).0 id)
                same)
