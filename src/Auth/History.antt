-- ===== src/Auth/History.antt =====
-- The trust registry over any sequence of calls, from the empty registry on.
use lattice_hub.Auth.Trust.{add_pending_total, same_key, new_key, rekeyed, first_request}
use lattice_hub.Base.{
  ℕ, ◌≡◌, ◌⊎◌, inl, inr, Option, none, some, List, [], ◌∷◌, arith, Text, text_eq_iff, Option-cases,
}
use lattice_hub.Base.Maps.{lookup, lookup-insert}
use lattice_hub.Auth.{
  Registry, NodeAuth, add_pending, approve, reject, trusted_key, mac_key, normalize, new_request,
  approved, rejected,
}

pub data Op : Type 0 where
  asks : ℕ → List ℕ → List ℕ → Op
  approves : ℕ → Text → Op
  rejects : Text → Op

unfoldable pub step : Registry → Op → Registry
step r (asks now mac key) = (add_pending now r mac key).0
step r (approves now t) = (approve now r t).0
step r (rejects t) = (reject r t).0

unfoldable pub run : Registry → List Op → Registry
run r [] = r
run r (op ∷ ops) = run (step r op) ops

-- The key that an entry holds, trusted or not.
abbrev pub held_key : Option NodeAuth → Option (List ℕ)
held_key none = none
held_key (some n) = some n.public_key

-- The call approves the entry `k`.
abbrev IsApproval : Op → Text → Type 0
IsApproval (asks now mac key) k = ⊥
IsApproval (approves now t) k = normalize t ≡ k
IsApproval (rejects t) k = ⊥

-- The call is a request of the node under `k` for this key.
abbrev IsRequest : Op → Text → List ℕ → Type 0
IsRequest (asks now mac key') k key = (mac_key mac ≡ k) × (key' ≡ key)
IsRequest (approves now t) k key = ⊥
IsRequest (rejects t) k key = ⊥

-- Somewhere in the calls an admin approved `k` while its entry held this key.
abbrev pub Granted : Registry → Text → List ℕ → List Op → Type 0
Granted r k key [] = ⊥
Granted r k key (op ∷ ops) =
    (IsApproval op k × (held_key (lookup k r) ≡ some key)) ⊎ Granted (step r op) k key ops

abbrev pub Requested : Text → List ℕ → List Op → Type 0
Requested k key [] = ⊥
Requested k key (op ∷ ops) = IsRequest op k key ⊎ Requested k key ops

step-held :
    (r : Registry) (op : Op) (k : Text) (key : List ℕ)
    → held_key (lookup k (step r op)) ≡ some key
    → (held_key (lookup k r) ≡ some key) ⊎ IsRequest op k key
unfolding step approve reject
step-held r (asks now mac key') k key h = elim (add_pending_total now r mac key') [
  | same_key old e a s q ↦ inl (
      ground (
        arith,
        q,
        lookup-insert (mac_key mac) k (record old { received_at = now }) r,
        text_eq_iff (mac_key mac) k,
      ))
  | new_key old e a s q ↦ ground (
    arith,
    q,
    lookup-insert (mac_key mac) k (rekeyed old now key') r,
    text_eq_iff (mac_key mac) k,
  )
  | first_request e q ↦ ground (
    arith,
    q,
    lookup-insert (mac_key mac) k (new_request now mac key') r,
    text_eq_iff (mac_key mac) k,
  )
]
step-held r (approves now t) k key h = elim (Option-cases (lookup (normalize t) r)) [
  | inl e ↦ inl (ground arith)
  | inr (n, e) ↦ inl (
      ground (
        arith,
        lookup-insert (normalize t) k (record n { status = approved; approved_at = now }) r,
        text_eq_iff (normalize t) k,
      ))
]
step-held r (rejects t) k key h = elim (Option-cases (lookup (normalize t) r)) [
  | inl e ↦ inl (ground arith)
  | inr (n, e) ↦ inl (
      ground (
        arith,
        lookup-insert (normalize t) k (record n { status = rejected }) r,
        text_eq_iff (normalize t) k,
      ))
]

step-trusted :
    (r : Registry) (op : Op) (k : Text) (key : List ℕ)
    → trusted_key (lookup k (step r op)) ≡ some key
    → (trusted_key (lookup k r) ≡ some key) ⊎ (IsApproval op k × (held_key (lookup k r) ≡ some key))
unfolding step approve reject
step-trusted r (asks now mac key') k key h = elim (add_pending_total now r mac key') [
  | same_key old e a s q ↦ inl (
      ground (
        arith,
        q,
        lookup-insert (mac_key mac) k (record old { received_at = now }) r,
        text_eq_iff (mac_key mac) k,
      ))
  | new_key old e a s q ↦ inl (
      ground (
        arith,
        q,
        lookup-insert (mac_key mac) k (rekeyed old now key') r,
        text_eq_iff (mac_key mac) k,
      ))
  | first_request e q ↦ inl (
      ground (
        arith,
        q,
        lookup-insert (mac_key mac) k (new_request now mac key') r,
        text_eq_iff (mac_key mac) k,
      ))
]
step-trusted r (approves now t) k key h = elim (Option-cases (lookup (normalize t) r)) [
  | inl e ↦ inl (ground arith)
  | inr (n, e) ↦ ground (
    arith,
    lookup-insert (normalize t) k (record n { status = approved; approved_at = now }) r,
    text_eq_iff (normalize t) k,
  )
]
step-trusted r (rejects t) k key h = elim (Option-cases (lookup (normalize t) r)) [
  | inl e ↦ inl (ground arith)
  | inr (n, e) ↦ inl (
      ground (
        arith,
        lookup-insert (normalize t) k (record n { status = rejected }) r,
        text_eq_iff (normalize t) k,
      ))
]

-- Trust is granted by an approval only: after any calls, a key that is trusted was trusted before
-- them, or an admin approved its entry, during the calls, at a moment when the entry held that key.
pub run-Granted :
    (r : Registry) (ops : List Op) (k : Text) (key : List ℕ)
    → trusted_key (lookup k (run r ops)) ≡ some key
    → (trusted_key (lookup k r) ≡ some key) ⊎ Granted r k key ops
unfolding run
run-Granted r [] k key h = inl h
run-Granted r (op ∷ ops) k key h = elim (run-Granted (step r op) ops k key h) [
  | inr g ↦ inr (inr g)
  | inl t ↦ elim (step-trusted r op k key t) [ inl before ↦ inl before | inr now ↦ inr (inl now) ]
]

-- After any calls, no entry holds a key that its node did not ask for, or that it did not hold
-- before.
pub run-Requested :
    (r : Registry) (ops : List Op) (k : Text) (key : List ℕ)
    → held_key (lookup k (run r ops)) ≡ some key
    → (held_key (lookup k r) ≡ some key) ⊎ Requested k key ops
unfolding run
run-Requested r [] k key h = inl h
run-Requested r (op ∷ ops) k key h = elim (run-Requested (step r op) ops k key h) [
  | inr g ↦ inr (inr g)
  | inl t ↦ elim (step-held r op k key t) [ inl before ↦ inl before | inr now ↦ inr (inl now) ]
]
