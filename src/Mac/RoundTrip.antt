-- ===== src/Mac/RoundTrip.antt =====
-- A MAC address and its texts, there and back.
use lattice_hub.Base.{
  ℕ, ◌≡◌, refl, ap, sym, ◌∙◌, some, List, [], ◌∷◌, length, All, arith, some-injective, none, ◌≢◌,
  ◌/◌, ◌%◌, six-elements,
}
use mathlib.Core.List.{append-nil}
use lattice_hub.Mac.Digits.{
  IsByte, scan_byte-print, scan_bytes-print, hex_decode-encode, expect-digit,
}
use lattice_hub.Mac.{
  scan_mac, mac_to_string, parse_mac, colons, scan_bytes, hex_encode, string_to_mac, hex_decode,
  hex_value, hex_digit, join_hex,
}

-- What a Go value of type [6]byte holds.
pub record IsMac (mac : List ℕ) : Type 0 where
  pub six : length mac ≡ 6
  pub bytes : All IsByte mac

scan_bytes-colons :
    (bs : List ℕ) → length bs ≡ 5 → All IsByte bs → scan_bytes 5 (colons bs) ≡ some bs
scan_bytes-colons bs e h =
    ap (scan_bytes 5) (sym (append-nil (colons bs))) ∙ scan_bytes-print 5 bs [] e h

scan_mac-mac_to_string : (mac : List ℕ) → IsMac mac → scan_mac (mac_to_string mac) ≡ some mac
unfolding scan_mac mac_to_string
scan_mac-mac_to_string [] v = absurd (omega arith)
scan_mac-mac_to_string (b ∷ bs) v =
    rw
      (v.six, scan_byte-print b (colons bs) v.bytes.0, scan_bytes-colons bs (omega arith) v.bytes.1)
      refl

-- nodeauth's ParseMAC reads back the canonical text of every address.
parse_mac-mac_to_string : (mac : List ℕ) → IsMac mac → parse_mac (mac_to_string mac) ≡ some mac
unfolding parse_mac
parse_mac-mac_to_string mac v = rw (scan_mac-mac_to_string mac v)

hex_decode-colons : (h l : ℕ) (bs : List ℕ) → bs ≢ [] → hex_decode (h ∷ l ∷ colons bs) ≡ none
unfolding hex_decode colons hex_value
hex_decode-colons h l [] ne = absurd (ne refl)
hex_decode-colons h l (b ∷ bs) ne = ground arith

-- mesh's StringToMAC reads back what mesh's macToString wrote.
pub string_to_mac-mac_to_string :
    (mac : List ℕ) → IsMac mac → string_to_mac (mac_to_string mac) ≡ some mac
unfolding string_to_mac mac_to_string
string_to_mac-mac_to_string mac v =
    rw (not_bare mac v.six, string_to_mac) (scan_mac-mac_to_string mac v)
  where
    not_bare : (m : List ℕ) → length m ≡ 6 → hex_decode (mac_to_string m) ≡ none
    not_bare [] e = absurd (omega arith)
    not_bare (b ∷ []) e = absurd (omega arith)
    not_bare (b ∷ c ∷ bs) e =
        rw (e) (hex_decode-colons (hex_digit (b / 16)) (hex_digit (b % 16)) (c ∷ bs) (λ q. cc))

scan_mac-hex_encode : (mac : List ℕ) → IsMac mac → scan_mac (hex_encode mac) ≡ none
unfolding scan_mac scan_bytes
scan_mac-hex_encode [] v = absurd (omega arith)
scan_mac-hex_encode (b ∷ []) v = absurd (omega arith)
scan_mac-hex_encode (b ∷ c ∷ bs) v =
    rw
      (
        scan_byte-print b (hex_encode (c ∷ bs)) v.bytes.0,
        expect-digit (c / 16) (hex_digit (c % 16) ∷ hex_encode bs) (omega (arith, v.bytes.1.0)),
      )
      refl

-- nodeauth's ParseMAC also reads twelve bare digits, the form that the enrollment handler uses.
pub parse_mac-hex_encode : (mac : List ℕ) → IsMac mac → parse_mac (hex_encode mac) ≡ some mac
unfolding parse_mac
parse_mac-hex_encode mac v =
    rw (scan_mac-hex_encode mac v, hex_decode-encode mac v.bytes, v.six) refl

-- Two six-byte addresses with one text are one address, so the text is a sound map key.
mac_to_string-injective :
    (a b : List ℕ) → IsMac a → IsMac b → mac_to_string a ≡ mac_to_string b → a ≡ b
mac_to_string-injective a b va vb e =
    some-injective a b
      (sym (parse_mac-mac_to_string a va) ∙ ap parse_mac e ∙ parse_mac-mac_to_string b vb)

-- nodeauth's form of a six-byte address is mesh's.
mac_to_string-join_hex : (mac : List ℕ) → IsMac mac → mac_to_string mac ≡ join_hex mac
unfolding mac_to_string
mac_to_string-join_hex mac v = rw v.six refl

pub parse_mac-join_hex : (mac : List ℕ) → IsMac mac → parse_mac (join_hex mac) ≡ some mac
parse_mac-join_hex mac v =
    ap parse_mac (sym (mac_to_string-join_hex mac v)) ∙ parse_mac-mac_to_string mac v

-- The canonical text has seventeen characters.
pub length-join_hex : (mac : List ℕ) → IsMac mac → length (join_hex mac) ≡ 17
unfolding join_hex colons
length-join_hex mac v =
    let (a, b, c, d, e, f, q) = six-elements mac v.six in ap (λ (m : List ℕ). length (join_hex m)) q
