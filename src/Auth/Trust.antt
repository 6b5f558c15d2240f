-- ===== src/Auth/Trust.antt =====
-- Who is trusted, and with which key.
use lattice_hub.Mac.{hex_encode}
use lattice_hub.Mac.RoundTrip.{IsMac, parse_mac-join_hex, parse_mac-hex_encode}
use lattice_hub.Base.{
  ℕ, ◌≡◌, refl, ◌≢◌, ◌⊎◌, inl, inr, false, none, some, List, arith, text_eq, text_eq_iff,
  Bool-cases, Option-cases,
}
use lattice_hub.Base.Maps.{lookup, insert}
use lattice_hub.Auth.{
  Registry, NodeAuth, add_pending, trusted_key, mac_key, TrustStatus, approved, pending,
  already_approved_same_key, is_approved_status, other, new_request, rejected, normalize,
}

abbrev pub rekeyed : NodeAuth → ℕ → List ℕ → NodeAuth
rekeyed n now key = record n {
  public_key = key;
  status = pending;
  received_at = now;
  approved_at = 0;
}

-- What a request can come to.
pub data Outcome (now : ℕ) (r : Registry) (mac key : List ℕ) : Type 0 where
  same_key :
      (old : NodeAuth)
      → lookup (mac_key mac) r ≡ some old
      → old.status ≡ approved
      → old.public_key ≡ key
      → add_pending now r mac key ≡ (
        insert (mac_key mac) (record old { received_at = now }) r,
        some already_approved_same_key,
      )
      → Outcome now r mac key
  new_key :
      (old : NodeAuth)
      → lookup (mac_key mac) r ≡ some old
      → old.status ≡ approved
      → old.public_key ≢ key
      → add_pending now r mac key ≡ (insert (mac_key mac) (rekeyed old now key) r, none)
      → Outcome now r mac key
  first_request :
      trusted_key (lookup (mac_key mac) r) ≡ none
      → add_pending now r mac key ≡ (insert (mac_key mac) (new_request now mac key) r, none)
      → Outcome now r mac key

status-cases : (s : TrustStatus) → (s ≡ approved) ⊎ (is_approved_status s ≡ false)
status-cases approved = inl refl
status-cases pending = inr refl
status-cases rejected = inr refl
status-cases (other n) = inr refl

-- An approved node that asks with its own key stays approved and is reported as such; one that asks
-- with another key falls back to pending under the new key; any other request is stored as a new
-- pending one. There is no fourth case.
pub add_pending_total : (now : ℕ) (r : Registry) (mac key : List ℕ) → Outcome now r mac key
unfolding add_pending
add_pending_total now r mac key = elim (Option-cases (lookup (mac_key mac) r)) [
  | inl e ↦ first_request (ground arith) (rw (e, add_pending) refl)
  | inr (n, e) ↦ elim (status-cases n.status) [
    | inr q ↦ first_request (ground arith) (rw (e, add_pending) (ground arith))
    | inl q ↦ elim (Bool-cases (text_eq n.public_key key)) [
      | inl k ↦
          same_key n e q (ground (arith, text_eq_iff n.public_key key))
            (rw (e, add_pending) (ground arith))
      | inr k ↦
          new_key n e q (ground (arith, text_eq_iff n.public_key key))
            (rw (e, add_pending) (ground arith))
    ]
  ]
]

-- Both texts of an address lead to its key.
pub normalize-hex_encode : (mac : List ℕ) → IsMac mac → normalize (hex_encode mac) ≡ mac_key mac
unfolding normalize
normalize-hex_encode mac v = rw (parse_mac-hex_encode mac v, normalize) refl

normalize-mac_key : (mac : List ℕ) → IsMac mac → normalize (mac_key mac) ≡ mac_key mac
unfolding normalize
normalize-mac_key mac v = rw (parse_mac-join_hex mac v, normalize) refl
