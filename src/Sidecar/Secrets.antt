-- ===== src/Sidecar/Secrets.antt =====
-- Which variables of a container are shown: IsSecretEnvKey and the redaction in InspectContainer of
-- server/sidecar/handlers/containers.go.
use lattice_hub.Base.{
  ℕ, ◌-◌, ◌≡◌, refl, ap, ◌≢◌, Bool, false, ◌&&◌, ◌||◌, List, [], ◌∷◌, ◌++◌, map, arith, leb, ◌==◌,
  if◌then◌else◌, Text, codes,
}
use lattice_hub.Api.Access.{has_prefix}

-- strings.ToUpper of one ASCII character.
abbrev pub upper : ℕ → ℕ
upper c = if leb 97 c && leb c 122 then c - 32 else c

-- strings.Contains.
unfoldable contains : Text → Text → Bool
unfolding has_prefix
contains fragment [] = has_prefix fragment []
contains fragment (c ∷ t) = has_prefix fragment (c ∷ t) || contains fragment t

abbrev sensitive_fragments : List Text
sensitive_fragments =
    codes "KEY"
    ∷ codes "SECRET"
    ∷ codes "TOKEN"
    ∷ codes "PASSWORD"
    ∷ codes "PASS"
    ∷ codes "PWD"
    ∷ []

abbrev any_in : List Text → Text → Bool
any_in [] t = false
any_in (f ∷ fs) t = contains f t || any_in fs t

unfoldable pub is_secret_env_key : Text → Bool
unfolding contains
is_secret_env_key key = any_in sensitive_fragments (map upper key)

-- strings.SplitN at the first "=", into the key and the value.
unfoldable split_first : Text → Text × Text
split_first [] = ([], [])
split_first (c ∷ t) = let (k, v) = split_first t in if c == b'=' then ([], t) else (c ∷ k, v)

abbrev redacted : Text
redacted = codes "[redacted]"

unfoldable env_var : Text → Text × Text
unfolding split_first is_secret_env_key
env_var e = let (k, v) = split_first e in (k, if is_secret_env_key k then redacted else v)

unfoldable pub env_vars : List Text → List (Text × Text)
unfolding env_var
env_vars es = map env_var es

abbrev HasNoEquals : Text → Type 0
HasNoEquals [] = Unit
HasNoEquals (c ∷ t) = (c ≢ b'=') × HasNoEquals t

split_first_lem :
    (key value : Text) → HasNoEquals key → split_first (key ++ b'=' ∷ value) ≡ (key, value)
unfolding split_first
split_first_lem [] value h = refl
split_first_lem (c ∷ key) value h = rw (split_first_lem key value h.1) (ground (arith, h.0))

-- A variable is shown with its value, whatever that holds, unless its key looks like a secret; then
-- the value is left out.
env_var_lem :
    (key value : Text)
    → HasNoEquals key
    → env_var (key ++ b'=' ∷ value) ≡ (key, if is_secret_env_key key then redacted else value)
unfolding env_var
env_var_lem key value h = rw (split_first_lem key value h) refl

upper_again : (t : Text) → map upper (map upper t) ≡ map upper t
upper_again [] = refl
upper_again (c ∷ t) = rw (upper_again t) (ap (λ (d : ℕ). d ∷ map upper t) (twice c))
  where
    twice : (c : ℕ) → upper (upper c) ≡ upper c
    twice c = ground arith

-- Whether a key counts as a secret does not depend on its case.
is_secret_env_key-upper : (t : Text) → is_secret_env_key (map upper t) ≡ is_secret_env_key t
unfolding is_secret_env_key
is_secret_env_key-upper t = rw (upper_again t) refl
