-- ===== src/Sidecar.antt =====
-- The sidecar: server/sidecar/handlers, the dashboard's window on the containers and on Kafka. The
-- Docker and Kafka clients are outside the repository: what they answer is an argument, none for an
-- error. strconv.Atoi is a parameter.
use lattice_hub.Base.{
  ◌↔◌, text_eq_refl, ◌+◌, ◌-◌, ◌≡◌, refl, sym, ap, ◌∙◌, ◌⊎◌, inl, inr, Bool, true, false, ◌++◌,
  arith, Text, text_eq, text_eq_iff, ◌↔◌,
}
pub mod Containers
pub mod Recent
pub mod Health
pub mod Secrets
pub mod Probes
pub mod Routes
mod Tests
use lattice_hub.Api.Access.{bearer, has_prefix, trim_prefix}
use lattice_hub.Api.Safety.{trim_prefix_sound, trim_prefix-append, has_prefix-append}

-- AuthMiddleware of auth.go: the prefix may be missing.
unfoldable pub sidecar_authorised : Text → Text → Bool
unfolding trim_prefix
sidecar_authorised admin_key auth = text_eq (trim_prefix bearer auth) admin_key

trim_prefix-none : (p t : Text) → has_prefix p t ≡ false → trim_prefix p t ≡ t
unfolding trim_prefix
trim_prefix-none p t h = rw h refl

prefixed_or_bare :
    (key auth : Text) (b : Bool)
    → has_prefix bearer auth ≡ b
    → (text_eq (trim_prefix bearer auth) key ≡ true)
      ↔ ((auth ≡ bearer ++ key) ⊎ ((auth ≡ key) × (has_prefix bearer key ≡ false)))
prefixed_or_bare key auth true h = (
  λ e. inl (
      trim_prefix_sound bearer auth h
      ∙ ap (λ (t : Text). bearer ++ t) ((text_eq_iff (trim_prefix bearer auth) key).0 e)),
  back,
)
  where
    back :
        (auth ≡ bearer ++ key) ⊎ ((auth ≡ key) × (has_prefix bearer key ≡ false))
        → text_eq (trim_prefix bearer auth) key ≡ true
    back (inl e) = rw (e, trim_prefix-append bearer key) (text_eq_refl key)
    back (inr (e, n)) = absurd (ground (arith, sym h ∙ ap (has_prefix bearer) e ∙ n))
prefixed_or_bare key auth false h = (
  λ e.
      let q =
        sym (trim_prefix-none bearer auth h) ∙ (text_eq_iff (trim_prefix bearer auth) key).0 e in
      inr (q, ap (has_prefix bearer) (sym q) ∙ h),
  back,
)
  where
    back :
        (auth ≡ bearer ++ key) ⊎ ((auth ≡ key) × (has_prefix bearer key ≡ false))
        → text_eq (trim_prefix bearer auth) key ≡ true
    back (inl e) =
        absurd (ground (arith, sym h ∙ ap (has_prefix bearer) e ∙ has_prefix-append bearer key))
    back (inr (e, n)) = rw (trim_prefix-none bearer auth h) ((text_eq_iff auth key).1 e)

-- The sidecar takes the admin key after "Bearer ", and also bare, and nothing else; a key that
-- itself begins with "Bearer " is taken only after the prefix.
sidecar_authorised_iff :
    (key auth : Text)
    → (sidecar_authorised key auth ≡ true)
      ↔ ((auth ≡ bearer ++ key) ⊎ ((auth ≡ key) × (has_prefix bearer key ≡ false)))
unfolding sidecar_authorised
sidecar_authorised_iff key auth = prefixed_or_bare key auth (has_prefix bearer auth) refl
