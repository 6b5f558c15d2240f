-- ===== src/Api/Commands.antt =====
-- Commands to nodes and zones: v1NodeCommand and v1GetCommandStatus of
-- server/orchestrator/mesh/api_v1_nodes.go and v1ZoneCommand of api_v1_zones.go.
use lattice_hub.Protocol.{zeros, max_data_length}
use lattice_hub.Server.Send.{send_node_data}
use lattice_hub.Api.{
  ApiError, Reply, colour_required, Response, unknown_action, respond, refuse, zone_not_found,
  command_not_found, action_required, sent, command_id, command, not_an_output, send_failed,
}
use lattice_hub.Server.{Server, Answer, Env}
use lattice_hub.Base.{
  ℕ, ◌+◌, Bool, not, Option, none, some, List, [], ◌∷◌, ◌==◌, if◌then◌else◌, Text, codes, length,
  text_eq, is_some, Result, ok, err, copy, set, get_or,
}
pub mod Laws
pub mod Unchanged
use lattice_hub.Nodes
use lattice_hub.Commands
use lattice_hub.Zones
use lattice_hub.Protocol.Op
use lattice_hub.Nodes.{NodeInfo}
use lattice_hub.Api.Nodes.{find_node}

pub record CommandBody : Type 0 where
  pub action : Text
  pub colour : List ℕ

-- The action named in a body; one without an action is refused like one that does not decode.
abbrev pub has_action : Option CommandBody → Option CommandBody
has_action none = none
has_action (some b) = if text_eq b.action [] then none else some b

abbrev pub payload_of : List ℕ → List ℕ
payload_of bytes = copy (zeros max_data_length) bytes

-- The switch over body.Action.
unfoldable pub command_payload : CommandBody → Result ApiError (List ℕ)
command_payload b =
    if text_eq b.action (codes "led_solid")
    then (if not (length b.colour == 3)
        then err colour_required
        else ok (payload_of (Op.led_solid ∷ b.colour)))
    else if text_eq b.action (codes "led_off")
    then ok (payload_of (Op.led_off ∷ []))
    else if text_eq b.action (codes "relay_on")
    then ok (payload_of (Op.relay_set ∷ 1 ∷ []))
    else if text_eq b.action (codes "relay_off")
    then ok (payload_of (Op.relay_set ∷ 0 ∷ []))
    else err (unknown_action b.action)

-- uuid.New: the text and the sixteen bytes.
pub record Uuid : Type 0 where
  pub text : Text
  pub id_bytes : List ℕ

-- The correlation token stands in the last two bytes.
abbrev pub with_token : List ℕ → Uuid → List ℕ
with_token payload u = set (set payload 62 (get_or u.id_bytes 14 0)) 63 (get_or u.id_bytes 15 0)

abbrev pub new_command : Env → Uuid → ℕ → Text → Commands.PendingCommand
new_command env u id action = record {
  id = u.text;
  node_id = id;
  action = action;
  sent_at = env.now;
  status = Commands.pending;
  acked_at = none;
}

abbrev pub after_send : Uuid → Answer → Reply
after_send u (s, none) = (s, respond 202 (command_id u.text))
after_send u (s, some e) = (s, refuse 500 send_failed)

-- The command is stored before it is sent, and stays stored where the sending fails.
abbrev pub issue : Env → Server → NodeInfo → Uuid → Text → List ℕ → Reply
issue env s n u action payload = after_send u (
    send_node_data env
      (record s { commands = Commands.add s.commands (new_command env u n.node_id action) })
      n.adapter_type (with_token payload u))

abbrev pub issue_payload : Env → Server → NodeInfo → Uuid → Text → Result ApiError (List ℕ) → Reply
issue_payload env s n u action (err e) = (s, refuse 400 e)
issue_payload env s n u action (ok payload) = issue env s n u action payload

abbrev pub v1_get_command_status : Server → Text → Reply
v1_get_command_status s id = elim (Commands.get s.commands id) [
  | none ↦ (s, refuse 404 command_not_found)
  | some cmd ↦ (s, respond 200 (command cmd))
]

module _ (is_output : ℕ → Bool) where
  abbrev pub command_found :
      Env → Server → Uuid → Option CommandBody → Result Response NodeInfo → Reply
  command_found env s u body (err r) = (s, r)
  command_found env s u body (ok n) = elim (has_action body) [
    | none ↦ (s, refuse 400 action_required)
    | some b ↦
        if not (is_output n.adapter_type)
        then (s, refuse 400 not_an_output)
        else issue_payload env s n u b.action (command_payload b)
  ]

  unfoldable pub v1_node_command : Env → Server → Uuid → Text → Option CommandBody → Reply
  v1_node_command env s u id body = command_found env s u body (find_node s id)

  -- One frame for each output of the zone, and how many went out.
  unfoldable pub send_all : Env → Server → List ℕ → List NodeInfo → Server × ℕ
  send_all env s payload [] = (s, 0)
  send_all env s payload (n ∷ ns) =
      let (s1, e) = send_node_data env s n.adapter_type payload in
      let (s2, k) = send_all env s1 payload ns in
      let rest = send_all env s payload ns in
      if is_output n.adapter_type then (s2, if is_some e then k else k + 1) else rest

  abbrev pub send_zone : Env → Server → Text → Result ApiError (List ℕ) → Reply
  send_zone env s id (err e) = (s, refuse 400 e)
  send_zone env s id (ok payload) =
      let (s1, k) = send_all env s payload (Nodes.get_nodes_by_zone s.nodes id) in
      (s1, respond 202 (sent k))

  unfoldable pub v1_zone_command : Env → Server → Text → Option CommandBody → Reply
  unfolding send_all
  v1_zone_command env s id body =
      if not (is_some (Zones.get s.zones id))
      then (s, refuse 404 zone_not_found)
      else elim (has_action body) [
        | none ↦ (s, refuse 400 action_required)
        | some b ↦ send_zone env s id (command_payload b)
      ]
