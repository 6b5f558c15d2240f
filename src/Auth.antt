-- ===== src/Auth.antt =====
-- The trust registry: server/orchestrator/nodeauth/registry.go. A public key is the list of its
-- bytes. Each method holds the registry's lock for all of its body.
use lattice_hub.Mac.{join_hex, parse_mac}
use lattice_hub.Base.{
  ℕ, Bool, true, false, Option, none, some, List, if◌then◌else◌, Text, text_eq, Result, ok, err,
  filter,
}
pub mod Trust
pub mod History
pub mod Storage
pub mod Replay
pub mod Tests
use lattice_hub.Base.Maps.{Map, lookup, insert, values}

-- iota's three values; a file may hold any other number.
pub data TrustStatus : Type 0 where
  pending approved rejected : TrustStatus
  other : ℕ → TrustStatus

pub record NodeAuth : Type 0 where
  pub mac : List ℕ
  pub mac_string : Text
  pub public_key : List ℕ
  pub status : TrustStatus
  pub received_at : ℕ
  pub approved_at : ℕ

abbrev pub Registry : Type 0
Registry = Map NodeAuth

pub data AuthError : Type 0 where
  already_approved_same_key : AuthError
  not_found : Text → AuthError

abbrev pub is_approved_status : TrustStatus → Bool
is_approved_status approved = true
is_approved_status _ = false

abbrev is_pending_status : TrustStatus → Bool
is_pending_status pending = true
is_pending_status _ = false

-- nodeauth's macToString of a [6]byte.
abbrev pub mac_key : List ℕ → Text
mac_key mac = join_hex mac

abbrev pub new_request : ℕ → List ℕ → List ℕ → NodeAuth
new_request now mac public_key = record {
  mac = mac;
  mac_string = mac_key mac;
  public_key = public_key;
  status = pending;
  received_at = now;
  approved_at = 0;
}

-- What happens to an approved entry that asks again: the same key is answered, a new one is
-- pending.
abbrev ask_again : ℕ → Registry → NodeAuth → List ℕ → List ℕ → Registry × Option AuthError
ask_again now r existing mac public_key =
    if text_eq existing.public_key public_key
    then (
      insert (mac_key mac) (record existing { received_at = now }) r,
      some already_approved_same_key,
    )
    else (
      insert (mac_key mac)
          (record existing {
            public_key = public_key;
            status = pending;
            received_at = now;
            approved_at = 0;
          })
          r,
      none,
    )

unfoldable pub add_pending : ℕ → Registry → List ℕ → List ℕ → Registry × Option AuthError
add_pending now r mac public_key =
    let fresh : Registry × Option AuthError =
      (insert (mac_key mac) (new_request now mac public_key) r, none) in
    elim (lookup (mac_key mac) r) [
      | none ↦ fresh
      | some existing ↦
          if is_approved_status existing.status
          then ask_again now r existing mac public_key
          else fresh
    ]

-- A text that parses is brought into the form of the keys.
unfoldable pub normalize : Text → Text
normalize t = elim (parse_mac t) [ none ↦ t | some mac ↦ mac_key mac ]

unfoldable pub approve : ℕ → Registry → Text → Registry × Result AuthError NodeAuth
approve now r mac_str = elim (lookup (normalize mac_str) r) [
  | none ↦ (r, err (not_found (normalize mac_str)))
  | some node ↦
      let node' : NodeAuth = record node { status = approved; approved_at = now } in
      (insert (normalize mac_str) node' r, ok node')
]

unfoldable pub reject : Registry → Text → Registry × Option AuthError
reject r mac_str = elim (lookup (normalize mac_str) r) [
  | none ↦ (r, some (not_found (normalize mac_str)))
  | some node ↦ (insert (normalize mac_str) (record node { status = rejected }) r, none)
]

unfoldable pub get_all : Registry → List NodeAuth
get_all r = values r

unfoldable pub get_pending : Registry → List NodeAuth
get_pending r = filter (λ n. is_pending_status n.status) (values r)

-- The key that an entry is trusted with.
abbrev pub trusted_key : Option NodeAuth → Option (List ℕ)
trusted_key none = none
trusted_key (some n) = if is_approved_status n.status then some n.public_key else none

unfoldable pub is_approved : Registry → List ℕ → Bool
is_approved r mac = elim (lookup (mac_key mac) r) [
  | none ↦ false
  | some n ↦ is_approved_status n.status
]

unfoldable get_approved_public_key : Registry → List ℕ → Option (List ℕ)
get_approved_public_key r mac = trusted_key (lookup (mac_key mac) r)
