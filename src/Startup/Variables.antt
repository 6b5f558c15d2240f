-- ===== src/Startup/Variables.antt =====
-- The variables of the environment: server/orchestrator/envconfig.go, and what main.go makes of
-- them. os.Getenv gives the empty text for a variable that is not set; strconv.Atoi is a parameter.
use lattice_hub.Base.{
  ℕ, zero, suc, ◌*◌, ◌%◌, ◌<◌, ◌≡◌, Bool, not, ◌&&◌, Option, List, [], arith, if◌then◌else◌, Text,
  codes, text_eq, or_else, replicate, filter, split,
}
use lattice_hub.Mac.{parse_env_mac}

-- Go's int.
pub data ℤ : Type 0 where
  pos : ℕ → ℤ
  negsuc : ℕ → ℤ

abbrev pub Variables : Type 0
Variables = Text → Text

unfoldable pub env_or_default : Variables → Text → Text → Text
env_or_default vars key d = if text_eq (vars key) [] then d else vars key

abbrev zero_mac : List ℕ
zero_mac = replicate 6 0

unfoldable env_mac : Variables → Text → List ℕ
env_mac vars key =
    if text_eq (vars key) [] then zero_mac else or_else (parse_env_mac (vars key)) zero_mac

unfoldable pub load_master_identity : Variables → Text × List ℕ
unfolding env_or_default env_mac
load_master_identity vars = (
  env_or_default vars (codes "MASTER_KEY_PATH") (codes "data/masterkey.json"),
  env_mac vars (codes "MASTER_MAC"),
)

-- Without an address there is no secondary master.
unfoldable load_secondary_master_identity : Variables → Text × List ℕ
unfolding env_or_default env_mac
load_secondary_master_identity vars =
    if text_eq (vars (codes "SECONDARY_MASTER_MAC")) [] then ([], zero_mac) else (
      env_or_default vars (codes "SECONDARY_MASTER_KEY_PATH")
          (codes "data/masterkey-secondary.json"),
      env_mac vars (codes "SECONDARY_MASTER_MAC"),
    )

abbrev is_dual : Variables → Bool
is_dual vars = text_eq (vars (codes "DUAL_MASTER_ENABLED")) (codes "true")

-- The secondary master of a hub, where two are enabled.
unfoldable pub secondary_identity : Variables → Text × List ℕ
unfolding load_secondary_master_identity
secondary_identity vars =
    if is_dual vars then load_secondary_master_identity vars else ([], zero_mac)

unfoldable pub secondary_serial_port : Variables → Text
unfolding env_or_default
secondary_serial_port vars =
    let port = env_or_default vars (codes "SERIAL_PORT_SECONDARY") [] in
    if is_dual vars && not (text_eq port []) then port else []

-- ALLOWED_ORIGINS, split at commas.
unfoldable pub allowed_origins : Variables → List Text
allowed_origins vars =
    filter (λ o. not (text_eq o [])) (split b',' (vars (codes "ALLOWED_ORIGINS")))

abbrev seconds_or : ℤ → ℕ → ℕ
seconds_or (pos zero) d = d
seconds_or (pos (suc n)) d = suc n * 1000000000
seconds_or (negsuc n) d = d

module _ (atoi : Text → Option ℤ) where
  unfoldable pub env_or_default_int : Variables → Text → ℤ → ℤ
  env_or_default_int vars key d = if text_eq (vars key) [] then d else or_else (atoi (vars key)) d

  unfoldable pub health_timeout_of : Variables → ℕ
  unfolding env_or_default_int
  health_timeout_of vars =
      seconds_or (env_or_default_int vars (codes "HEALTH_TIMEOUT_SECONDS") (pos 75))
        (75 * 1000000000)

  -- Whatever the variables say, the health timeout is positive, and a whole number of seconds.
  health_timeout_of_bounds :
      (vars : Variables) → (0 < health_timeout_of vars) × (health_timeout_of vars % 1000000000 ≡ 0)
  unfolding health_timeout_of
  health_timeout_of_bounds vars =
      bounds (env_or_default_int vars (codes "HEALTH_TIMEOUT_SECONDS") (pos 75))
    where
      bounds :
          (i : ℤ)
          → (0 < seconds_or i (75 * 1000000000)) × (seconds_or i (75 * 1000000000) % 1000000000 ≡ 0)
      bounds (pos zero) = (omega arith, omega arith)
      bounds (pos (suc n)) = (omega arith, omega arith)
      bounds (negsuc n) = (omega arith, omega arith)
