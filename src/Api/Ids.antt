-- ===== src/Api/Ids.antt =====
-- Path segments and words of the API: parseNodeID of server/orchestrator/mesh/api_v1_nodes.go, with
-- the decimal case of strconv.ParseUint, adapterTypeFromString of api_v1_types.go and
-- isValidAdapterType of api.go.
use lattice_hub.Base.{
  ℕ, ◌+◌, ◌-◌, ◌*◌, ◌/◌, ◌%◌, ◌≤◌, ◌<◌, ◌≡◌, inl, inr, Bool, true, ◌&&◌, ◌||◌, Option, none, some,
  [], ◌∷◌, arith, ltb, leb, ◌==◌, if◌then◌else◌, Text, codes, text_eq, text_eq_iff, Bool-cases,
  Option-cases,
}
use lattice_hub.Protocol.AdapterType
use lattice_hub.Server.Enrollment.{adapter_type_to_string}

abbrev is_digit : ℕ → Bool
is_digit c = leb b'0' c && leb c b'9'

-- strconv.ParseUint with base 10 and 8 bits, from the digits read so far: the value may not pass
-- 255.
unfoldable parse_uint8 : ℕ → Text → Option ℕ
parse_uint8 n [] = some n
parse_uint8 n (c ∷ t) =
    let rest = parse_uint8 (n * 10 + (c - 48)) t in
    if is_digit c && leb (n * 10 + (c - 48)) 255 then rest else none

abbrev above_zero : Option ℕ → Option ℕ
above_zero none = none
above_zero (some n) = if n == 0 then none else some n

unfoldable pub parse_node_id : Text → Option ℕ
unfolding parse_uint8
parse_node_id [] = none
parse_node_id (c ∷ t) = above_zero (parse_uint8 0 (c ∷ t))

unfoldable pub adapter_type_from_string : Text → Option ℕ
adapter_type_from_string t =
    if text_eq t (codes "pir")
    then some AdapterType.pir
    else if text_eq t (codes "led")
    then some AdapterType.led
    else if text_eq t (codes "relay")
    then some AdapterType.relay
    else none

unfoldable pub is_valid_adapter_type : ℕ → Bool
is_valid_adapter_type t =
    t == AdapterType.unknown
    || t == AdapterType.serial
    || t == AdapterType.pir
    || t == AdapterType.led
    || t == AdapterType.relay
    || t == AdapterType.wifi

parse_uint8_bounds : (n : ℕ) (t : Text) {m : ℕ} → n ≤ 255 → parse_uint8 n t ≡ some m → m ≤ 255
unfolding parse_uint8
parse_uint8_bounds n [] h e = ground arith
parse_uint8_bounds n (c ∷ t) {m} h e =
    ground (arith, parse_uint8_bounds (n * 10 + (c - 48)) t {m = m})

-- A node ID from a path is a byte and not 0, so that it is an ID that a node can have.
pub parse_node_id_bounds : (t : Text) (n : ℕ) → parse_node_id t ≡ some n → (0 < n) × (n ≤ 255)
unfolding parse_node_id
parse_node_id_bounds [] n e = absurd (ground arith)
parse_node_id_bounds (c ∷ t) n e = elim (Option-cases (parse_uint8 0 (c ∷ t))) [
  | inl q ↦ absurd (ground (arith, q))
  | inr (m, q) ↦ ground (arith, q, parse_uint8_bounds 0 (c ∷ t) {m = m})
]

-- The decimal text of a number below a thousand, with no leading zero.
abbrev pub decimal : ℕ → Text
decimal n =
    if ltb n 10
    then (48 + n) ∷ []
    else if ltb n 100
    then (48 + n / 10) ∷ (48 + n % 10) ∷ []
    else (48 + n / 100) ∷ (48 + n / 10 % 10) ∷ (48 + n % 10) ∷ []

-- The API takes the decimal text of a number as a node ID exactly when it is from 1 to 255, and
-- then reads that number.
parse_node_id-decimal :
    (n : ℕ) → n < 1000 → parse_node_id (decimal n) ≡ (if ltb 0 n && leb n 255 then some n else none)
unfolding parse_node_id parse_uint8
parse_node_id-decimal n h = elim (Bool-cases (ltb n 10)) [
  | inl a ↦ rw a (ground arith)
  | inr a ↦ elim (Bool-cases (ltb n 100)) [
    | inl b ↦ rw (a, b) (ground arith)
    | inr b ↦ rw (a, b) (ground arith)
  ]
]

-- The type names that may be written are those of the three sensor and output types, and each is
-- read back as the type that it is printed for.
adapter_type_from_string_lem :
    (t : Text) (a : ℕ)
    → adapter_type_from_string t ≡ some a
    → (adapter_type_to_string a ≡ t) × (is_valid_adapter_type a ≡ true)
unfolding adapter_type_from_string adapter_type_to_string is_valid_adapter_type
adapter_type_from_string_lem t a e =
    ground (
      arith,
      text_eq_iff t (codes "pir"),
      text_eq_iff t (codes "led"),
      text_eq_iff t (codes "relay"),
    )
