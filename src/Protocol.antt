-- ===== src/Protocol.antt =====
-- The wire protocol as the hub sees it: server/orchestrator/mesh/constants.go and the message type
-- of server/orchestrator/mesh/mesh.pb.go. The values of the constants that constants.go takes from
-- the protocol package are those that it records beside each name.
-- An int32 is its two's complement bit pattern, a number below 2 ^ 32; a byte is one below 256.
pub mod MessageType
pub mod AdapterType
pub mod Op
pub mod Codec
use lattice_hub.Base.{
  ℕ, ◌+◌, ◌*◌, ◌/◌, ◌%◌, List, [], ◌∷◌, Option, none, ltb, if◌then◌else◌, replicate, or_else,
}

-- The version that this hub speaks.
abbrev pub proto_version : ℕ
proto_version = 5

abbrev pub mac_address_length : ℕ
mac_address_length = 6

abbrev pub max_data_length : ℕ
max_data_length = 64

-- BroadcastMACBytes.
abbrev pub broadcast_mac : List ℕ
broadcast_mac = 0xFF ∷ 0xFF ∷ 0xFF ∷ 0xFF ∷ 0xFF ∷ 0xFF ∷ []

-- `make([]byte, n)`.
abbrev pub zeros : ℕ → List ℕ
zeros n = replicate n 0

pub record MeshMessage : Type 0 where
  pub message_type : ℕ
  pub data_type : ℕ  -- an int32
  pub origin : List ℕ
  pub target : List ℕ
  pub last_hop : List ℕ
  pub data_bytes : List ℕ
  pub hop_count : ℕ
  pub epoch_num : ℕ
  pub seq_num : ℕ
  pub version : ℕ
  pub public_key : List ℕ
  pub route_len : Option ℕ
  pub route_path : Option (List ℕ)

-- A literal `&MeshMessage{…}` starts from the zero value of each field.
abbrev pub empty_message : MeshMessage
empty_message = record {
  message_type = 0;
  data_type = 0;
  origin = [];
  target = [];
  last_hop = [];
  data_bytes = [];
  hop_count = 0;
  epoch_num = 0;
  seq_num = 0;
  version = 0;
  public_key = [];
  route_len = none;
  route_path = none;
}

-- The generated getters: the zero value where an optional field is absent.
abbrev pub get_route_len : MeshMessage → ℕ
get_route_len m = or_else m.route_len 0

abbrev pub get_route_path : MeshMessage → List ℕ
get_route_path m = or_else m.route_path []

-- int32(int8(b)) of a byte.
unfoldable pub sign_extend : ℕ → ℕ
sign_extend b = if ltb b 128 then b else 4294967040 + b

-- byte(x) of an int32.
unfoldable pub low_byte : ℕ → ℕ
low_byte x = x % 256

-- binary.LittleEndian.PutUint32 and Uint32.
unfoldable pub put_uint32 : ℕ → List ℕ
put_uint32 n = n % 256 ∷ n / 256 % 256 ∷ n / 65536 % 256 ∷ n / 16777216 % 256 ∷ []

unfoldable pub uint32 : List ℕ → ℕ
uint32 (a ∷ b ∷ c ∷ d ∷ rest) = a + 256 * b + 65536 * c + 16777216 * d
uint32 _ = 0

-- binary.LittleEndian.PutUint16 and Uint16.
unfoldable pub put_uint16 : ℕ → List ℕ
put_uint16 n = n % 256 ∷ n / 256 % 256 ∷ []

unfoldable pub uint16 : ℕ → ℕ → ℕ
uint16 a b = a + 256 * b
