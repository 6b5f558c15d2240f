-- ===== src/Builder.antt =====
-- server/orchestrator/mesh/message_builder.go: the frames that the hub builds, and the health
-- report that it reads.
pub mod Laws
use lattice_hub.Base.{
  ℕ, List, Bool, ◌&&◌, ◌||◌, not, Result, ok, err, length, set, get_or, take, drop, copy, copy_at,
  ltb, leb, ◌==◌, if◌then◌else◌,
}
use lattice_hub.Protocol.{
  MeshMessage, empty_message, proto_version, mac_address_length, max_data_length, broadcast_mac,
  zeros, sign_extend, low_byte, uint32,
}
use lattice_hub.Protocol.MessageType
use lattice_hub.Protocol.AdapterType
use lattice_hub.Protocol.Op

pub data BuildError : Type 0 where
  bad_mac_length : ℕ → BuildError
  data_too_long : ℕ → BuildError

pub data ParseError : Type 0 where
  not_serial : ParseError
  too_short : ℕ → ParseError
  not_health_report : ℕ → ParseError

pub record HealthReport : Type 0 where
  pub mac : List ℕ
  pub adapter_type : ℕ
  pub uptime : ℕ
  pub hop_count : ℕ
  pub origin_mac : List ℕ

-- `payload[0] = op; copy(payload[1:7], mac); payload[7] = b` on a fresh payload.
abbrev pub mac_payload : ℕ → List ℕ → ℕ → List ℕ
mac_payload op mac b =
    set (copy_at 1 (set (zeros max_data_length) 0 op) (take mac_address_length mac)) 7 b

abbrev pub config_set_frame : List ℕ → ℕ → MeshMessage
config_set_frame target adapter_type = record empty_message {
  version = proto_version;
  message_type = MessageType.adapter_data;
  data_type = AdapterType.serial;
  target = target;
  data_bytes = mac_payload Op.config_set target (low_byte adapter_type);
}

unfoldable pub build_config_set : List ℕ → ℕ → Result BuildError MeshMessage
build_config_set target adapter_type =
    if not (length target == mac_address_length)
    then err (bad_mac_length (length target))
    else ok (config_set_frame target adapter_type)

unfoldable pub build_config_set_broadcast : ℕ → Result BuildError MeshMessage
unfolding build_config_set
build_config_set_broadcast adapter_type = build_config_set broadcast_mac adapter_type

unfoldable pub build_health_request : MeshMessage
build_health_request = record empty_message {
  version = proto_version;
  message_type = MessageType.adapter_data;
  data_type = AdapterType.serial;
  data_bytes = set (zeros max_data_length) 0 Op.health_req;
}

abbrev pub broadcast_frame : ℕ → List ℕ → MeshMessage
broadcast_frame data_type bytes = record empty_message {
  version = proto_version;
  message_type = MessageType.serial_cmd_broadcast;
  data_type = data_type;
  data_bytes = copy (zeros max_data_length) bytes;
}

unfoldable pub build_broadcast : ℕ → List ℕ → Result BuildError MeshMessage
build_broadcast data_type bytes =
    if ltb max_data_length (length bytes)
    then err (data_too_long (length bytes))
    else ok (broadcast_frame data_type bytes)

unfoldable build_adapter_data : List ℕ → ℕ → List ℕ → Result BuildError MeshMessage
build_adapter_data target data_type bytes =
    if not (length target == mac_address_length)
    then err (bad_mac_length (length target))
    else if ltb max_data_length (length bytes)
    then err (data_too_long (length bytes))
    else ok (record empty_message {
      version = proto_version;
      message_type = MessageType.adapter_data;
      data_type = data_type;
      target = target;
      data_bytes = copy (zeros max_data_length) bytes;
    })

abbrev pub first_byte : MeshMessage → ℕ
first_byte m = get_or m.data_bytes 0 0

abbrev is_health_op : ℕ → Bool
is_health_op op = op == Op.health_report || op == Op.node_health

unfoldable pub parse_health_report : MeshMessage → Result ParseError HealthReport
parse_health_report m =
    if not (m.data_type == AdapterType.serial)
    then err not_serial
    else if ltb (length m.data_bytes) 12
    then err (too_short (length m.data_bytes))
    else if not (is_health_op (first_byte m))
    then err (not_health_report (first_byte m))
    else ok (record {
      mac = copy (zeros mac_address_length) (take 6 (drop 2 m.data_bytes));
      adapter_type = sign_extend (get_or m.data_bytes 1 0);
      uptime = uint32 (take 4 (drop 8 m.data_bytes));
      hop_count = m.hop_count;
      origin_mac = m.origin;
    })

unfoldable is_health_report : MeshMessage → Bool
is_health_report m =
    m.data_type == AdapterType.serial && leb 1 (length m.data_bytes) && is_health_op (first_byte m)

unfoldable is_master_beacon : MeshMessage → Bool
is_master_beacon m = m.message_type == MessageType.master_beacon
