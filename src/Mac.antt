-- ===== src/Mac.antt =====
-- MAC addresses and their texts: `macToString` and `StringToMAC` of
-- server/orchestrator/mesh/node_registry.go, `macToString`, `ParseMAC` and `ParsePublicKey` of
-- server/orchestrator/nodeauth/registry.go, and `parseMAC` of
-- server/orchestrator/envconfig.go.
-- A text is a list of ASCII codes, and a `[]byte` or `[6]byte` a list of numbers below 256. Of Go's
-- library the model has hex.DecodeString, hex.EncodeToString and the part of fmt.Sscanf that the
-- format "%02x:%02x:…" uses: `%02x` skips blanks, then takes one or two hexadecimal digits, and a
-- rest after the last digit is no error.
pub mod Digits
pub mod RoundTrip
mod Tests
use lattice_hub.Base.{
  ℕ, zero, suc, ◌+◌, ◌*◌, ◌-◌, ◌/◌, ◌%◌, Bool, ◌||◌, ◌&&◌, List, [], ◌∷◌, Option, none, some, ltb,
  leb, ◌==◌, if◌then◌else◌, length, Text, filter, not, ◌>>=◌,
}

-- Go's `mac[:]` of MACAddressLength.
abbrev pub mac_address_length : ℕ
mac_address_length = 6

-- A hexadecimal digit in lower case.
unfoldable pub hex_digit : ℕ → ℕ
hex_digit n = if ltb n 10 then n + 48 else n + 87

-- The value of a hexadecimal digit of either case.
unfoldable pub hex_value : ℕ → Option ℕ
hex_value c =
    if leb 48 c && leb c 57
    then some (c - 48)
    else if leb 97 c && leb c 102
    then some (c - 87)
    else if leb 65 c && leb c 70
    then some (c - 55)
    else none

-- fmt's `%02x` of one byte.
abbrev hex_byte : ℕ → Text
hex_byte b = hex_digit (b / 16) ∷ hex_digit (b % 16) ∷ []

-- hex.EncodeToString, and fmt's `%x` of bytes.
abbrev pub hex_encode : List ℕ → Text
hex_encode [] = []
hex_encode (b ∷ bs) = hex_digit (b / 16) ∷ hex_digit (b % 16) ∷ hex_encode bs

-- hex.DecodeString: digits in pairs, and nothing else.
unfoldable pub hex_decode : Text → Option (List ℕ)
hex_decode [] = some []
hex_decode (c ∷ []) = none
hex_decode (c ∷ d ∷ rest) =
    hex_value c >>= λ h. hex_value d >>= λ l. hex_decode rest >>= λ bs. some ((h * 16 + l) ∷ bs)

-- fmt's blanks that are not line breaks; a line break in the input is an error.
abbrev is_blank : ℕ → Bool
is_blank c = c == 32 || c == 9 || c == 11 || c == 12 || c == 13

skip_blanks : Text → Option Text
skip_blanks [] = some []
skip_blanks (c ∷ rest) =
    let more = skip_blanks rest in
    if c == 10 then none else if is_blank c then more else some (c ∷ rest)

-- A second digit is taken if there is one.
more_digit : ℕ → Text → ℕ × Text
more_digit h [] = (h, [])
more_digit h (c ∷ rest) = elim (hex_value c) [ none ↦ (h, c ∷ rest) | some l ↦ (h * 16 + l, rest) ]

first_digit : Text → Option (ℕ × Text)
unfolding more_digit
first_digit [] = none
first_digit (c ∷ rest) = hex_value c >>= λ h. some (more_digit h rest)

-- `%02x` into a byte.
unfoldable pub scan_byte : Text → Option (ℕ × Text)
unfolding skip_blanks first_digit
scan_byte t = skip_blanks t >>= first_digit

pub expect : ℕ → Text → Option Text
expect c [] = none
expect c (d ∷ rest) = if d == c then some rest else none

-- `:%02x`, n times.
unfoldable pub scan_bytes : ℕ → Text → Option (List ℕ)
unfolding scan_byte expect
scan_bytes zero t = some []
scan_bytes (suc n) t =
    expect b':' t >>= λ u. scan_byte u >>= λ (b, v). scan_bytes n v >>= λ bs. some (b ∷ bs)

-- fmt.Sscanf with "%02x:%02x:%02x:%02x:%02x:%02x": six bytes, or an error.
unfoldable pub scan_mac : Text → Option (List ℕ)
unfolding scan_bytes
scan_mac t = scan_byte t >>= λ (b, u). scan_bytes 5 u >>= λ bs. some (b ∷ bs)

pub colons : List ℕ → Text
colons [] = []
colons (b ∷ bs) = b':' ∷ hex_digit (b / 16) ∷ hex_digit (b % 16) ∷ colons bs

-- "%02x:%02x:…" of the bytes given.
unfoldable pub join_hex : List ℕ → Text
unfolding colons
join_hex [] = []
join_hex (b ∷ bs) = hex_digit (b / 16) ∷ hex_digit (b % 16) ∷ colons bs

-- mesh's macToString: bytes of another length are written as bare hexadecimal digits.
unfoldable pub mac_to_string : List ℕ → Text
unfolding join_hex
mac_to_string mac = if length mac == mac_address_length then join_hex mac else hex_encode mac

abbrev of_length : ℕ → List ℕ → Option (List ℕ)
of_length n bs = if length bs == n then some bs else none

abbrev or_try {ℓ} : {A : Type ℓ} → Option A → Option A → Option A
or_try none other = other
or_try (some a) other = some a

-- mesh's StringToMAC: bare hexadecimal first, then colons.
unfoldable pub string_to_mac : Text → Option (List ℕ)
unfolding hex_decode scan_mac
string_to_mac t = or_try (hex_decode t >>= of_length mac_address_length) (scan_mac t)

-- nodeauth's ParseMAC: colons first, then bare hexadecimal.
unfoldable pub parse_mac : Text → Option (List ℕ)
unfolding hex_decode scan_mac
parse_mac t = or_try (scan_mac t) (hex_decode t >>= of_length mac_address_length)

unfoldable pub parse_public_key : Text → Option (List ℕ)
unfolding hex_decode
parse_public_key t = hex_decode t >>= of_length 32

-- envconfig's parseMAC: separators are dropped wherever they stand.
unfoldable pub parse_env_mac : Text → Option (List ℕ)
unfolding hex_decode
parse_env_mac t =
    let cleaned = filter (λ c. not (c == b'-')) (filter (λ c. not (c == b':')) t) in
    if length cleaned == 12 then hex_decode cleaned else none
