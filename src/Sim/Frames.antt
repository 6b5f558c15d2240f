-- ===== src/Sim/Frames.antt =====
-- The frames that a simulated node sends: server/orchestrator/meshsim/frames.go.
use lattice_hub.Base.{
  ℕ, ◌+◌, Option, none, some, List, [], ◌∷◌, ◌++◌, ltb, if◌then◌else◌, Text, length, take,
}
use lattice_hub.Sim.{VirtualNode}
use lattice_hub.Protocol.{
  MeshMessage, empty_message, proto_version, broadcast_mac, low_byte, put_uint32,
}
use lattice_hub.Protocol.MessageType
use lattice_hub.Protocol.AdapterType
use lattice_hub.Protocol.Op
use lattice_hub.Mac.{join_hex}

-- macKey: always in lower case.
unfoldable pub mac_key : List ℕ → Text
unfolding join_hex
mac_key mac = if ltb (length mac) 6 then [] else join_hex (take 6 mac)

abbrev envelope : VirtualNode → MeshMessage
envelope n = record empty_message {
  version = proto_version;
  origin = n.mac;
  hop_count = length n.route_path + 1;
}

unfoldable pub health_msg : VirtualNode → MeshMessage
unfolding low_byte put_uint32
health_msg n = record (envelope n) {
  message_type = MessageType.adapter_data;
  data_type = AdapterType.serial;
  data_bytes = (Op.node_health ∷ low_byte n.adapter_type ∷ n.mac) ++ put_uint32 n.uptime;
}

abbrev pub concat : List (List ℕ) → List ℕ
concat [] = []
concat (xs ∷ xss) = xs ++ concat xss

abbrev pub path_of : List (List ℕ) → Option (List ℕ)
path_of [] = none
path_of (relay ∷ relays) = some (concat (relay ∷ relays))

unfoldable pub route_report_msg : VirtualNode → MeshMessage
route_report_msg n = record (envelope n) {
  message_type = MessageType.route_report;
  route_len = some (length n.route_path);
  route_path = path_of n.route_path;
}

unfoldable pub motion_msg : VirtualNode → MeshMessage
motion_msg n = record (envelope n) {
  message_type = MessageType.adapter_data;
  data_type = AdapterType.pir;
  data_bytes = 1 ∷ [];
}

unfoldable pub enrollment_msg : VirtualNode → MeshMessage
enrollment_msg n = record (envelope n) {
  message_type = MessageType.enrollment;
  target = broadcast_mac;
  public_key = n.public_key;
}

unfoldable pub ack_msg : ℕ → ℕ → VirtualNode → MeshMessage
ack_msg a b n = record (envelope n) {
  message_type = MessageType.adapter_data;
  data_type = AdapterType.serial;
  data_bytes = Op.command_ack ∷ a ∷ b ∷ [];
}
