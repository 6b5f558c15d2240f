-- ===== src/Api/Tests.antt =====
-- The API at work on the hub of Server.Tests.
use mathlib.Core.Option
use lattice_hub.Base.{
  split, ℕ, ◌+◌, ◌-◌, ◌≡◌, refl, ◌⊎◌, Bool, true, false, ◌||◌, Option, none, some, List, [], ◌∷◌,
  ◌++◌, map, arith, ◌==◌, Text, codes, text_eq, replicate, get_or,
}
use lattice_hub.Events.{Event, EventBroker, node_online, online_of, queue_of}
use lattice_hub.Api.Events.{Object, publishes, reads, v1_events, stream_text}
use lattice_hub.Api.Events.Stream.{v1_events-lines}
use lattice_hub.Server.Tests.{env, hub}
use lattice_hub.Nodes.Tests.{mac_a, node_a}
use lattice_hub.Commands.Tests.{parse_sixteen}
use lattice_hub.Commands
use lattice_hub.Mac.{mac_to_string}
use lattice_hub.Server.{Server}
use lattice_hub.Server.Receive.{handle_message}
use lattice_hub.Server.Enrollment.{ApprovalParams}
use lattice_hub.Nodes.{NodeInfo}
use lattice_hub.Nodes
use lattice_hub.Sim.{VirtualNode}
use lattice_hub.Sim.Frames.{ack_msg}
use lattice_hub.Protocol.AdapterType
use lattice_hub.Base.Maps.{lookup}
use lattice_hub.Api.{admin_key_required, respond, refuse, command, Served}
use lattice_hub.Api.Access.{Keys, bearer}
use lattice_hub.Api.Ids.{parse_node_id}
use lattice_hub.Api.Nodes.{NodeUpdate}
use lattice_hub.Api.Commands.{
  Uuid, CommandBody, v1_node_command, v1_get_command_status, new_command, command_payload,
}
use lattice_hub.Api.Commands.Laws.{IsAccepted, v1_node_command-acknowledged}
use lattice_hub.Api.Routes.{serve, v1_remove_node, v1_approve, old_approve, tier, server_stop}
use lattice_hub.Api.Safety.{serve-authorised, serve-approve, key_of}

abbrev pub is_output : ℕ → Bool
is_output t = t == AdapterType.led || t == AdapterType.relay

-- A stand-in for net.ParseMAC that takes nothing.
abbrev pub no_mac : Text → Option (List ℕ)
no_mac t = none

abbrev pub keys : Keys
keys = record { api_key = codes "k"; admin_key = codes "a" }

abbrev pub uuid : Uuid
uuid = record { text = codes "ABCDEFGHIJKLMNOP"; id_bytes = codes "ABCDEFGHIJKLMNOP" }

abbrev new_name : NodeUpdate
new_name = record { name = some (codes "gate"); zone = none; adapter_type = some (codes "led") }

-- The hub after a stop and a start: no response is sent to the next stop.
second_stop :
    Option.map
      (λ (p : Served). p.1)
      (serve is_output no_mac keys
        (codes "Bearer k")
        env
        uuid
        (record hub { persist_closed = true; cancelled = true })
        server_stop)
    ≡ some none
unfolding serve text_eq lattice_hub.Api.Access.authorised lattice_hub.Api.Access.carries_key
    lattice_hub.Api.Control.stop_server lattice_hub.Server.Lifecycle.is_running
    lattice_hub.Server.Lifecycle.stop
second_stop = refl

serve-authorised_example :
    (hub ≡ hub) ⊎ (codes "Bearer x" ≡ bearer ++ key_of keys (tier (v1_remove_node (codes "1"))))
unfolding serve tier lattice_hub.Api.Access.authorised text_eq
serve-authorised_example =
    serve-authorised is_output no_mac keys (codes "Bearer x") env uuid hub
      (v1_remove_node (codes "1")) hub (some (refuse 401 admin_key_required)) (λ e. ground arith)
      refl

abbrev plain : ApprovalParams
plain = record { node_id = 2; name = []; zone = []; adapter_type_str = [] }

serve-approve_example :
    serve is_output no_mac keys
      (bearer ++ codes "k")
      env
      uuid
      hub
      (old_approve (mac_to_string mac_a) (some plain))
    ≡ serve is_output no_mac keys
        (bearer ++ codes "a")
        env
        uuid
        hub
        (v1_approve (mac_to_string mac_a) (some plain))
unfolding lattice_hub.Api.Ids.adapter_type_from_string text_eq
serve-approve_example =
    serve-approve is_output no_mac keys env uuid hub (mac_to_string mac_a) (some plain)
      (λ e. ground arith) (λ e. ground arith) refl

-- The hub with an LED node.
abbrev led_a : NodeInfo
led_a = record node_a { adapter_type = AdapterType.led }

abbrev led_hub : Server
led_hub = record hub { nodes = (mac_to_string mac_a, led_a) ∷ [] }

abbrev off : CommandBody
off = record { action = codes "led_off"; colour = [] }

abbrev off_payload : List ℕ
off_payload = 0xD1 ∷ replicate 63 0

off-IsAccepted : IsAccepted is_output led_hub (codes "1") (some off) led_a off off_payload
unfolding lattice_hub.Api.Ids.parse_node_id lattice_hub.Nodes.get_node_by_id
    lattice_hub.Api.Commands.command_payload text_eq lattice_hub.Base.Maps.find
off-IsAccepted = record {
  node_of = refl;
  body_of = refl;
  output = refl;
  payload_is = refl;
  link_open = refl;
}

abbrev any_node : VirtualNode
any_node = record {
  mac = mac_a;
  mac_string = mac_to_string mac_a;
  name = [];
  adapter_type = AdapterType.led;
  node_id = 1;
  route_path = [];
  heartbeat_interval = 3000000000;
  enrolled = true;
  rejected = false;
  offline = false;
  silent = false;
  public_key = replicate 32 1;
  uptime = 0;
  ack_count = 0;
  last_heartbeat = 0;
  last_route_report = 0;
  last_enroll_attempt = 0;
}

v1_node_command-acknowledged_example :
    let s1 = (v1_node_command is_output env led_hub uuid (codes "1") (some off)).0 in
    let s2 =
      (handle_message parse_sixteen env s1
        (ack_msg (get_or uuid.id_bytes 14 0) (get_or uuid.id_bytes 15 0) any_node)).0 in
    (v1_get_command_status s2 uuid.text).1
    ≡ respond 200
        (command (Commands.acknowledged env.now (new_command env uuid 1 (codes "led_off"))))
unfolding lookup text_eq
v1_node_command-acknowledged_example =
    v1_node_command-acknowledged parse_sixteen is_output env env led_hub uuid (codes "1") (some off)
      led_a off off_payload any_node off-IsAccepted (refl, tt) refl refl

-- An event of the stream, and a stand-in for encoding/json.
abbrev joined : Event
joined = record { event_type = node_online; payload = online_of 1 (codes "door"); timestamp = 7 }

abbrev empty_json : Object → List ℕ
empty_json o = codes "{}"

abbrev busy : EventBroker
busy = record { clients = record { channel = 0; queue = joined ∷ [] } ∷ []; next_channel = 1 }

v1_events-lines_example :
    let (b', written) = v1_events true (publishes joined ∷ reads ∷ reads ∷ []) busy in
    (Option.map (λ (es : List Event). split 10 (stream_text empty_json es)) written
      ≡ some (codes "event: node_online" ∷ codes "data: {}" ∷ [] ∷ [] ∷ []))
    × (queue_of 1 b'.clients ≡ none)
v1_events-lines_example =
    v1_events-lines empty_json (publishes joined ∷ reads ∷ reads ∷ []) busy (λ o. refl)
      (omega arith, refl)
