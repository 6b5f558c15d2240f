-- ===== src/Mac/Digits.antt =====
-- Hexadecimal digits, bytes and strings of bytes.
use lattice_hub.Base.{
  ℕ, zero, suc, ◌*◌, ◌+◌, ◌/◌, ◌%◌, ◌<◌, ◌≡◌, refl, some, List, [], ◌∷◌, ◌++◌, length, All, arith,
  Text, none,
}
use lattice_hub.Mac.{
  hex_digit, hex_value, hex_encode, hex_decode, scan_byte, scan_bytes, colons, skip_blanks,
  more_digit, expect,
}

-- A byte.
abbrev pub IsByte : ℕ → Type 0
IsByte b = b < 256

hex_value-digit : (n : ℕ) → n < 16 → hex_value (hex_digit n) ≡ some n
unfolding hex_value hex_digit
hex_value-digit n h = ground arith

skip_blanks-digit :
    (n : ℕ) (t : Text) → n < 16 → skip_blanks (hex_digit n ∷ t) ≡ some (hex_digit n ∷ t)
unfolding skip_blanks hex_digit
skip_blanks-digit n t h = ground arith

pub hex_decode-encode : (bs : List ℕ) → All IsByte bs → hex_decode (hex_encode bs) ≡ some bs
unfolding hex_decode
hex_decode-encode [] h = refl
hex_decode-encode (b ∷ bs) h =
    rw
      (
        hex_value-digit (b / 16) (omega arith),
        hex_value-digit (b % 16) (omega arith),
        hex_decode-encode bs h.1,
      )
      (ground arith)

length-hex_encode : (bs : List ℕ) → length (hex_encode bs) ≡ 2 * length bs
length-hex_encode [] = refl
length-hex_encode (b ∷ bs) = omega (arith, length-hex_encode bs)

more_digit-digit : (h n : ℕ) (t : Text) → n < 16 → more_digit h (hex_digit n ∷ t) ≡ (h * 16 + n, t)
unfolding more_digit
more_digit-digit h n t lt = rw (hex_value-digit n lt, more_digit) refl

-- `%02x` reads back what `%02x` wrote, whatever follows.
pub scan_byte-print :
    (b : ℕ) (t : Text)
    → b < 256
    → scan_byte (hex_digit (b / 16) ∷ hex_digit (b % 16) ∷ t) ≡ some (b, t)
unfolding scan_byte
scan_byte-print b t h =
    rw
      (
        skip_blanks-digit (b / 16) (hex_digit (b % 16) ∷ t) (omega arith),
        hex_value-digit (b / 16) (omega arith),
        more_digit-digit (b / 16) (b % 16) t (omega arith),
      )
      (ground arith)

pub scan_bytes-print :
    (n : ℕ) (bs : List ℕ) (t : Text)
    → length bs ≡ n
    → All IsByte bs
    → scan_bytes n (colons bs ++ t) ≡ some bs
unfolding scan_bytes colons
scan_bytes-print zero [] t e h = refl
scan_bytes-print zero (b ∷ bs) t e h = absurd (omega arith)
scan_bytes-print (suc n) [] t e h = absurd (omega arith)
scan_bytes-print (suc n) (b ∷ bs) t e h =
    rw (scan_byte-print b (colons bs ++ t) h.0, scan_bytes-print n bs t (omega arith) h.1) refl

-- A digit is no separator.
pub expect-digit : (n : ℕ) (t : Text) → n < 16 → expect b':' (hex_digit n ∷ t) ≡ none
unfolding expect hex_digit
expect-digit n t h = ground arith
