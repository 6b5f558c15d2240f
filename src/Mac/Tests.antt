-- ===== src/Mac/Tests.antt =====
-- The round trips at one address.
use lattice_hub.Mac.RoundTrip.{IsMac}
use lattice_hub.Base.{ℕ, ◌≡◌, refl, List, [], ◌∷◌, arith, codes}
use lattice_hub.Mac.{mac_to_string}

abbrev mac : List ℕ
mac = 0x24 ∷ 0x6F ∷ 0x28 ∷ 0 ∷ 10 ∷ 255 ∷ []

mac-IsMac : IsMac mac
mac-IsMac = record {
  six = refl;
  bytes =
      (omega arith, (omega arith, (omega arith, (omega arith, (omega arith, (omega arith, tt))))));
}

text : mac_to_string mac ≡ codes "24:6f:28:00:0a:ff"
unfolding mac_to_string lattice_hub.Mac.hex_digit
text = refl
