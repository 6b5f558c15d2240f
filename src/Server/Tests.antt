-- ===== src/Server/Tests.antt =====
-- A hub with one node, and the theorems at work on it.
use lattice_hub.Server.Lifecycle.Waiting.{
  before, waiting, idle, wants, at, Moves, stays, goes, handles, stop_locks, stop_waits, IsBlocked,
  MayReturn, stop_returns_lem,
}
use lattice_hub.Base.{
  ◌⊎◌, ℕ, ◌≡◌, refl, sym, ap, ◌∙◌, ◌≢◌, true, false, Option, none, some, List, [], ◌∷◌, arith,
  text_eq, or_else, replicate, ok, get_or,
}
use lattice_hub.Server.Lifecycle.{start, stop, is_read}
use lattice_hub.Server.Lifecycle.Restart.{IsSpent, restart_lem}
use lattice_hub.Server.{panics, Env, Server, primary}
use lattice_hub.Base.Maps.{lookup}
use lattice_hub.Server.Liveness.Offline.{offline_events, check_offline_nodes_lem}
use lattice_hub.Events.Delivery.{publish_all}
use lattice_hub.Server.Enrollment.Registry.{Sound}
use lattice_hub.Protocol.{MeshMessage, empty_message}
use lattice_hub.Server.Enrollment.{ApprovalParams, handle_enrollment_request}
use lattice_hub.Server.Enrollment.Requests.{
  Returning, handle_enrollment_request-Returning, handle_enrollment_request-untrusted,
}
use lattice_hub.Server.Enrollment.Frames.{frames}
use lattice_hub.Server.Enrollment.Readmit.{answer_frames}
use lattice_hub.Server.Liveness.{check_offline_nodes}
use lattice_hub.Nodes
use lattice_hub.Server.Send.{broadcast_data}
use lattice_hub.Server.Receive.{process}
use lattice_hub.Server.Send.WellTyped.{Framed}
use lattice_hub.Server.Send.WellTyped.Steps.{
  Calls, idles, then_calls, receives, broadcasts, Calls-Framed,
}
use lattice_hub.Nodes.Invariant.{UniqueIds}
use lattice_hub.Server.Enrollment.Interleaved.{
  Approvals, new_approval, run_turns, in_sequence, in_turns, run_turns-UniqueIds,
}
use lattice_hub.Auth
use lattice_hub.Protocol.Op
use lattice_hub.Nodes.Tests.{
  mac_a, mac_b, mac_a-IsMac, node_a, one_node, one_node-Inv, one_node-UniqueIds, one_node-lookup,
  apart, nothing-Inv, nothing-UniqueIds,
}
use lattice_hub.Auth.Tests.{key_a, approved_a, auth_a}
use lattice_hub.Commands.Tests.{store}
use lattice_hub.Events.{new_broker}
use lattice_hub.Protocol.MessageType
use lattice_hub.Protocol.AdapterType

abbrev pub env : Env
env = record {
  now = 90000000000;
  write_ok = λ link m. true;
  kafka_ok = true;
  save_ok = true;
  open_ok = λ link. true;
  stop_turns = true ∷ false ∷ [];
  save_turns = [];
}

abbrev pub hub : Server
hub = record {
  auth = approved_a;
  nodes = one_node;
  zones = [];
  commands = store;
  broker = new_broker;
  online_state = [];
  primary_open = true;
  secondary_open = true;
  secondary_connected = true;
  secondary_port = true;
  primary_last_frame = 1;
  secondary_last_frame = 1;
  running = true;
  cancelled = false;
  persist_closed = false;
  has_node_path = true;
  has_zone_path = true;
  tx_preset = 2;
  health_timeout = 90000000000;
  has_auth_path = true;
  has_event_store = true;
  master_mac = mac_b;
  master_public_key = replicate 32 1;
  secondary_mac = 0xC0 ∷ 2 ∷ 3 ∷ 4 ∷ 5 ∷ 6 ∷ [];
  secondary_public_key = replicate 32 2;
  effects = [];
}

pub hub-Sound : Sound hub.nodes
hub-Sound = record { inv = one_node-Inv; unique = one_node-UniqueIds }

-- A request of the node, with a key.
abbrev pub request : List ℕ → MeshMessage
request key = record empty_message {
  version = 5;
  message_type = MessageType.enrollment;
  origin = mac_a;
  public_key = key;
}

abbrev ack_frame : MeshMessage
ack_frame = record empty_message {
  version = 5;
  message_type = MessageType.adapter_data;
  data_type = AdapterType.serial;
  data_bytes = Op.command_ack ∷ 101 ∷ 102 ∷ [];
}

handle_enrollment_request-untrusted_example :
    frames (handle_enrollment_request env hub (request (replicate 32 8))).0.effects
    ≡ frames hub.effects
unfolding lookup text_eq lattice_hub.Mac.join_hex lattice_hub.Mac.hex_digit
handle_enrollment_request-untrusted_example =
    handle_enrollment_request-untrusted env hub (request (replicate 32 8)) other_key
  where
    other_key : Auth.trusted_key (lookup (Auth.mac_key mac_a) approved_a) ≢ some (replicate 32 8)
    other_key e =
        let first : 7 ≡ 8 =
          ap (λ (o : Option (List ℕ)). get_or (or_else o []) 0 0) (sym known ∙ e) in
        absurd (omega (arith, first))
      where
        known : Auth.trusted_key (lookup (Auth.mac_key mac_a) approved_a) ≡ some key_a
        known = refl

returning : Returning hub (request key_a) auth_a node_a
unfolding lookup text_eq lattice_hub.Mac.join_hex lattice_hub.Mac.hex_digit
returning = record {
  valid = mac_a-IsMac;
  key_length = refl;
  entry_of = refl;
  trusted = refl;
  own_key = refl;
  own_mac = refl;
  sound = hub-Sound;
  node_of = one_node-lookup;
  node_mac = refl;
  live = refl;
  named = λ e. ground arith;
}

handle_enrollment_request-Returning_example :
    ((handle_enrollment_request env hub (request key_a)).0.nodes ≡ hub.nodes)
    × (frames (handle_enrollment_request env hub (request key_a)).0.effects
        ≡ answer_frames hub mac_a key_a 1)
handle_enrollment_request-Returning_example =
    handle_enrollment_request-Returning env hub (request key_a) auth_a node_a returning

check_offline_nodes_lem_example :
    (check_offline_nodes env hub).broker
    ≡ publish_all hub.broker (offline_events env hub (Nodes.get_all_nodes hub.nodes))
check_offline_nodes_lem_example = check_offline_nodes_lem env hub one_node-Inv

-- The hub after a stop.
abbrev stopped : Server
stopped = record hub {
  cancelled = true;
  persist_closed = true;
  running = false;
  primary_last_frame = 0;
  secondary_last_frame = 0;
}

stopped-IsSpent : IsSpent stopped
stopped-IsSpent = record { is_cancelled = refl; is_closed = refl }

restart_lem_example :
    let (t, e) = start env stopped in
    (e ≡ none) × (t.running ≡ true) × (is_read t primary ≡ false) × ((stop env t).1 ≡ some panics)
restart_lem_example = restart_lem env env stopped stopped-IsSpent refl refl

-- Nothing is asked for but the approval.
abbrev automatic : ApprovalParams
automatic = record { node_id = 0; name = []; zone = []; adapter_type_str = [] }

run_turns-UniqueIds_example :
    let both : Approvals = ([], new_approval mac_a automatic ∷ new_approval mac_b automatic ∷ []) in
    UniqueIds (run_turns in_sequence both).0 × (¬ UniqueIds (run_turns in_turns both).0)
unfolding lookup Nodes.next_free_node_id
run_turns-UniqueIds_example =
    run_turns-UniqueIds [] mac_a mac_b automatic automatic nothing-Inv nothing-UniqueIds refl refl
      refl refl apart (omega arith)

abbrev no_uuid : List ℕ → Option (List ℕ)
no_uuid t = none

-- A node asks, and data is broadcast.
abbrev two_calls :
    let s1 = (process no_uuid env primary 0 hub (ok (request key_a))).0 in
    Calls no_uuid hub (broadcast_data env s1 3 (0xD1 ∷ [])).0
two_calls =
    let s1 = (process no_uuid env primary 0 hub (ok (request key_a))).0 in
    then_calls (then_calls (idles hub) (receives env hub primary 0 (ok (request key_a))))
      (broadcasts env s1 3 (0xD1 ∷ []))

Calls-Framed_example :
    let s1 = (process no_uuid env primary 0 hub (ok (request key_a))).0 in
    Framed (broadcast_data env s1 3 (0xD1 ∷ [])).0
Calls-Framed_example = Calls-Framed no_uuid two_calls (record { all_frames = tt })

-- The goroutine begins to handle a frame, then Stop takes the lock and waits.
stuck : Moves (at before idle) (at waiting wants)
stuck =
    goes (handles before)
      (goes (stop_locks wants tt) (goes (stop_waits wants) (stays (at waiting wants))))

stop_returns_lem_example :
    (IsBlocked (at waiting wants) × (¬ MayReturn (at waiting wants)))
    ⊎ (MayReturn (at waiting wants) × (¬ IsBlocked (at waiting wants)))
stop_returns_lem_example = stop_returns_lem (at waiting wants) stuck
