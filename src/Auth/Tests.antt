-- ===== src/Auth/Tests.antt =====
-- One node's way through the trust registry.
use lattice_hub.Mac.{hex_encode}
use lattice_hub.Mac.Digits.{IsByte}
use lattice_hub.Auth.Replay.Window.{feed-is_duplicate}
use lattice_hub.Auth.Replay.Sent.{Sent, is_duplicate-Sent}
use lattice_hub.Base.Maps.{lookup}
use lattice_hub.Auth.Storage.{PersistedEntry, load_entries, to_persisted, load-bare_unreachable}
use lattice_hub.Base.{
  ℕ, zero, suc, ◌-◌, ◌<◌, ◌≡◌, refl, ◌⊎◌, true, false, some, List, [], ◌∷◌, arith, text_eq, err,
  All, replicate,
}
use lattice_hub.Auth.{
  Registry, NodeAuth, add_pending, approve, trusted_key, mac_key, is_approved, new_request,
  approved, not_found,
}
use lattice_hub.Auth.History.{
  Op, asks, approves, run, Granted, held_key, Requested, run-Granted, run-Requested,
}
use lattice_hub.Auth.Replay.{Message, feed, is_duplicate}
use lattice_hub.Nodes.Tests.{mac_a, mac_a-IsMac}

abbrev pub key_a : List ℕ
key_a = replicate 32 7

abbrev history : List Op
history = asks 5 mac_a key_a ∷ approves 9 (mac_key mac_a) ∷ asks 12 mac_a key_a ∷ []

run-Granted_example :
    (trusted_key (lookup (mac_key mac_a) []) ≡ some key_a)
    ⊎ Granted [] (mac_key mac_a) key_a history
unfolding lookup run lattice_hub.Auth.History.step add_pending approve lattice_hub.Base.Maps.insert
    text_eq lattice_hub.Mac.join_hex lattice_hub.Auth.normalize lattice_hub.Mac.parse_mac
    lattice_hub.Mac.hex_digit lattice_hub.Mac.hex_value
run-Granted_example = run-Granted [] history (mac_key mac_a) key_a refl

run-Requested_example :
    (held_key (lookup (mac_key mac_a) []) ≡ some key_a) ⊎ Requested (mac_key mac_a) key_a history
unfolding lookup run lattice_hub.Auth.History.step add_pending approve lattice_hub.Base.Maps.insert
    text_eq lattice_hub.Mac.join_hex lattice_hub.Auth.normalize lattice_hub.Mac.parse_mac
    lattice_hub.Mac.hex_digit lattice_hub.Mac.hex_value
run-Requested_example = run-Requested [] history (mac_key mac_a) key_a refl

abbrev pub auth_a : NodeAuth
auth_a = record (new_request 0 mac_a key_a) { status = approved; approved_at = 3000000001 }

abbrev pub approved_a : Registry
approved_a = (mac_key mac_a, auth_a) ∷ []

All-replicate : (n b : ℕ) → b < 256 → All IsByte (replicate n b)
All-replicate zero b h = tt
All-replicate (suc n) b h = (h, All-replicate n b h)

-- The same entry as an older file holds it.
abbrev bare_entry : PersistedEntry
bare_entry = record (to_persisted auth_a) { mac = hex_encode mac_a }

load-bare_unreachable_example :
    (is_approved (load_entries [] (bare_entry ∷ [])) mac_a ≡ false)
    × (approve 4 (load_entries [] (bare_entry ∷ [])) (hex_encode mac_a)
        ≡ (load_entries [] (bare_entry ∷ []), err (not_found (mac_key mac_a))))
load-bare_unreachable_example =
    load-bare_unreachable (bare_entry ∷ []) mac_a 4 mac_a-IsMac (refl, tt)

abbrev between : List Message
between = record { sender = mac_a; epoch = 1; seq = 8 } ∷ []

feed-is_duplicate_example :
    (is_duplicate (feed (is_duplicate [] mac_a 1 7).0 between) mac_a 1 7).1 ≡ true
unfolding lookup is_duplicate lattice_hub.Auth.Replay.any_match
feed-is_duplicate_example =
    feed-is_duplicate [] mac_a 1 7 between (record { full = refl; inside = omega arith })
      (omega arith) (omega arith) refl

is_duplicate-Sent_example : Sent mac_a 1 8 between
unfolding is_duplicate lattice_hub.Auth.Replay.any_match lookup feed lattice_hub.Base.Maps.insert
    text_eq
is_duplicate-Sent_example = is_duplicate-Sent mac_a 1 8 between refl
