-- ===== src/Server/Enrollment.antt =====
-- Approval, rejection and repeated requests: ApproveEnrollment, resendJoinAck, RejectEnrollment and
-- handleEnrollmentRequest of server/orchestrator/mesh/server.go.
use lattice_hub.Auth.{already_approved_same_key}
use lattice_hub.Events.{enrolled, enrolled_of}
use lattice_hub.Nodes.{name_or, NodeInfo}
use lattice_hub.Protocol.{MeshMessage, zeros, empty_message, max_data_length, proto_version}
use lattice_hub.Builder.{BuildError, build_config_set, mac_payload}
use lattice_hub.Mac.{hex_encode, parse_mac, mac_to_string}
use lattice_hub.Base.{
  ℕ, Bool, not, ◌&&◌, Option, none, some, List, [], ltb, ◌==◌, if◌then◌else◌, Text, codes, length,
  text_eq, Result, ok, err, copy, take, copy_at,
}
pub mod Frames
pub mod Swap
pub mod Registry
pub mod Readmit
pub mod Requests
pub mod Interleaved
use lattice_hub.Nodes
use lattice_hub.Auth
use lattice_hub.Server.{
  Env, Server, Answer, emit, Link, publish_event, write_kafka, active_link, auth_error, primary,
  enrollment_request, no_origin_mac, saves_auth, bad_mac, write_frame, bad_public_key, save_failed,
}
use lattice_hub.Protocol.MessageType
use lattice_hub.Protocol.AdapterType
use lattice_hub.Protocol.Op

pub record ApprovalParams : Type 0 where
  pub node_id : ℕ  -- a uint8
  pub name : Text
  pub zone : Text
  pub adapter_type_str : Text

-- The registered node that loses its ID to the new one: another address, an ID asked for.
abbrev pub swapped : Nodes.Registry → ApprovalParams → List ℕ → Option NodeInfo
swapped nodes p mac = if p.node_id == 0 then none else elim (Nodes.get_node_by_id nodes p.node_id) [
  | none ↦ none
  | some old ↦ if text_eq old.mac mac then none else some old
]

-- Fields that the request leaves open come from the node that is replaced.
abbrev pub inherit : ApprovalParams → Option NodeInfo → ApprovalParams
inherit p none = p
inherit p (some old) = record p { name = name_or p.name old.name; zone = name_or p.zone old.zone }

-- AdapterTypeUnknown where no type is inherited.
abbrev pub inherited_type : ApprovalParams → Option NodeInfo → ℕ
inherited_type p none = AdapterType.unknown
inherited_type p (some old) =
    if text_eq p.adapter_type_str [] && not (old.adapter_type == AdapterType.unknown)
    then old.adapter_type
    else AdapterType.unknown

abbrev pub chosen_id : Nodes.Registry → ApprovalParams → ℕ
chosen_id nodes p = if p.node_id == 0 then Nodes.next_free_node_id nodes else p.node_id

abbrev pub retire : Nodes.Registry → Option NodeInfo → List ℕ → Nodes.Registry
retire nodes none mac = nodes
retire nodes (some old) mac = Nodes.mark_replaced nodes old.mac (mac_to_string mac)

-- The node registry after an approval.
unfoldable pub approve_nodes : Nodes.Registry → ApprovalParams → List ℕ → Nodes.Registry
approve_nodes nodes p mac =
    let old = swapped nodes p mac in
    let q = inherit p old in
    retire (Nodes.assign_node nodes mac (chosen_id nodes p) q.name q.zone) old mac

abbrev type_or_unknown : Text → Text
type_or_unknown t = name_or t (codes "unknown")

-- publishEnrolledEvent, for the node as the registry has it now.
abbrev pub announce : Env → Server → List ℕ → Text → Server
announce env s mac type_str = elim (Nodes.get_node s.nodes mac) [
  | none ↦ s
  | some n ↦ publish_event env s enrolled (enrolled_of n.node_id n.name (type_or_unknown type_str))
]

abbrev pub is_set : List ℕ → Bool
is_set mac = not (text_eq mac (zeros 6))

-- data[0..4] the key's fingerprint, data[4..10] and data[10..42] the secondary master's identity,
-- where its address is set.
unfoldable pub join_ack_data : Server → List ℕ → List ℕ
join_ack_data s public_key =
    let fingerprint = copy (zeros max_data_length) (take 4 public_key) in
    if is_set s.secondary_mac
    then copy_at 10 (copy_at 4 fingerprint s.secondary_mac) s.secondary_public_key
    else fingerprint

abbrev pub join_ack : Server → List ℕ → List ℕ → MeshMessage
join_ack s mac public_key = record empty_message {
  version = proto_version;
  message_type = MessageType.join_ack;
  origin = s.master_mac;
  target = mac;
  public_key = s.master_public_key;
  data_bytes = join_ack_data s public_key;
}

abbrev pub node_id_set : Server → List ℕ → ℕ → MeshMessage
node_id_set s mac id = record empty_message {
  version = proto_version;
  message_type = MessageType.serial_cmd_broadcast;
  origin = s.master_mac;
  data_type = AdapterType.serial;
  data_bytes = mac_payload Op.node_id_set mac id;
}

-- Each frame is sent, and a failure is only reported to the log.
abbrev pub send_quietly : Env → Server → Link → MeshMessage → Server
send_quietly env s link m = (write_frame env s link m).0

abbrev pub send_config : Env → Server → Result BuildError MeshMessage → Server
send_config env s (err e) = s
send_config env s (ok m) = send_quietly env s primary (record m { origin = s.master_mac })

unfoldable pub send_join_frames : Env → Server → List ℕ → List ℕ → ℕ → ℕ → Server
send_join_frames env s mac public_key id inherited =
    if not s.primary_open
    then s
    else let s1 = send_quietly env s (active_link env s) (join_ack s mac public_key) in
      let s2 =
        if ltb 0 id then send_quietly env s1 (active_link env s1) (node_id_set s1 mac id) else s1 in
      if inherited == AdapterType.unknown
      then s2
      else send_config env s2 (build_config_set mac inherited)

-- authRegistry.Persist, where a path is set.
abbrev pub save_auth : Env → Server → Answer
save_auth env s =
    if not s.has_auth_path
    then (s, none)
    else (emit s saves_auth, if env.save_ok then none else some save_failed)

-- ApproveEnrollment behind authRegistry.Approve.
unfoldable pub admit : Env → Server → Auth.NodeAuth → ApprovalParams → Answer
unfolding approve_nodes send_join_frames
admit env s node p =
    let old = swapped s.nodes p node.mac in
    let id = chosen_id s.nodes p in
    let s1 = record s { nodes = approve_nodes s.nodes p node.mac } in
    let s2 = announce env s1 node.mac p.adapter_type_str in
    save_auth env (send_join_frames env s2 node.mac node.public_key id (inherited_type p old))

abbrev pub approved_by :
    Env → Server → ApprovalParams → Auth.Registry × Result Auth.AuthError Auth.NodeAuth → Answer
approved_by env s p (auth, err e) = (s, some (auth_error e))
approved_by env s p (auth, ok node) = admit env (record s { auth = auth }) node p

unfoldable pub approve_enrollment : Env → Server → Text → ApprovalParams → Answer
unfolding admit
approve_enrollment env s mac_str p = approved_by env s p (Auth.approve env.now s.auth mac_str)

-- adapterTypeToString (server/orchestrator/mesh/api_v1_types.go).
unfoldable pub adapter_type_to_string : ℕ → Text
adapter_type_to_string t =
    if t == AdapterType.pir
    then codes "pir"
    else if t == AdapterType.led
    then codes "led"
    else if t == AdapterType.relay
    then codes "relay"
    else if t == AdapterType.serial
    then codes "serial"
    else codes "unknown"

abbrev pub no_params : ApprovalParams
no_params = record { node_id = 0; name = []; zone = []; adapter_type_str = [] }

-- The identity that the node has already.
abbrev pub known_params : Option NodeInfo → ApprovalParams
known_params none = no_params
known_params (some n) = record {
  node_id = n.node_id;
  name = n.name;
  zone = n.zone;
  adapter_type_str = adapter_type_to_string n.adapter_type;
}

unfoldable pub resend_join_ack : Env → Server → Text → Answer
unfolding approve_enrollment
resend_join_ack env s mac_str = elim (parse_mac mac_str) [
  | none ↦ (s, some bad_mac)
  | some mac ↦ approve_enrollment env s mac_str (known_params (Nodes.get_node s.nodes mac))
]

abbrev pub reject_frame : Server → List ℕ → MeshMessage
reject_frame s mac = record empty_message {
  version = proto_version;
  message_type = MessageType.join_ack;
  origin = s.master_mac;
  target = mac;
}

abbrev pub reject_known : Env → Server → List ℕ → Auth.Registry × Option Auth.AuthError → Answer
reject_known env s mac (auth, some e) = (s, some (auth_error e))
reject_known env s mac (auth, none) =
    let s1 = record s { auth = auth } in
    let s2 =
      if s1.primary_open
      then send_quietly env s1 (active_link env s1) (reject_frame s1 mac)
      else s1 in
    save_auth env s2

unfoldable pub reject_enrollment : Env → Server → Text → Answer
reject_enrollment env s mac_str = elim (parse_mac mac_str) [
  | none ↦ (s, some bad_mac)
  | some mac ↦ reject_known env s mac (Auth.reject s.auth mac_str)
]

-- After a new pending entry: it is saved at once, and told to the dashboard by way of Kafka. A save
-- that fails is only reported to the log.
abbrev pub queue_request : Env → Server → List ℕ → List ℕ → Server
queue_request env s mac key =
    let s1 = (save_auth env s).0 in
    if s1.has_event_store
    then write_kafka env s1 (enrollment_request (hex_encode mac) key env.now)
    else s1

abbrev pub after_request : Env → Server → List ℕ → List ℕ → Option Auth.AuthError → Answer
after_request env s mac key none = (queue_request env s mac key, none)
after_request env s mac key (some already_approved_same_key) =
    resend_join_ack env s (hex_encode mac)
after_request env s mac key (some e) = (s, some (auth_error e))

unfoldable pub handle_enrollment_request : Env → Server → MeshMessage → Answer
unfolding resend_join_ack
handle_enrollment_request env s m =
    if ltb (length m.origin) 6
    then (s, some no_origin_mac)
    else if not (length m.public_key == 32)
    then (s, some (bad_public_key (length m.public_key)))
    else let mac = take 6 m.origin in
      let (auth, e) = Auth.add_pending env.now s.auth mac m.public_key in
      after_request env (record s { auth = auth }) mac m.public_key e
