-- ===== src/Sim/Config.antt =====
-- Reading the simulator's configuration: ParseMAC, AdapterTypeFromString and LoadConfig of
-- server/orchestrator/meshsim/config.go.
use lattice_hub.Base.{
  split, ℕ, ◌+◌, not, ◌&&◌, Option, none, some, List, [], ◌∷◌, map, leb, ◌==◌, if◌then◌else◌, Text,
  codes, length, text_eq, Result, ok, err, ◌>>=◌, LoadError, read_failed, parse_failed, ◌>>=◌,
}
use lattice_hub.Sim.{SimConfig, SimError, bad_mac, bad_type}
use lattice_hub.Mac.{scan_byte}
use lattice_hub.Protocol.AdapterType

-- One part: two characters, of which `%02x` reads a byte.
unfoldable parse_part : Text → Option ℕ
parse_part t = if not (length t == 2) then none else scan_byte t >>= λ (b, rest). some b

unfoldable parse_parts : List Text → Option (List ℕ)
unfolding parse_part
parse_parts [] = some []
parse_parts (p ∷ ps) = parse_part p >>= λ b. parse_parts ps >>= λ bs. some (b ∷ bs)

unfoldable pub parse_sim_mac : Text → Result SimError (List ℕ)
unfolding split parse_parts
parse_sim_mac t =
    let parts = split b':' t in
    if not (length parts == 6)
    then err bad_mac
    else elim (parse_parts parts) [ none ↦ err bad_mac | some mac ↦ ok mac ]

-- strings.ToLower of one ASCII character.
abbrev lower : ℕ → ℕ
lower c = if leb 65 c && leb c 90 then c + 32 else c

unfoldable pub type_from_string : Text → Result SimError ℕ
type_from_string t =
    let l = map lower t in
    if text_eq l (codes "pir")
    then ok AdapterType.pir
    else if text_eq l (codes "led")
    then ok AdapterType.led
    else if text_eq l (codes "relay")
    then ok AdapterType.relay
    else err bad_type

abbrev config_in : (Text → Option SimConfig) → Option Text → Result LoadError SimConfig
config_in unmarshal none = err read_failed
config_in unmarshal (some raw) = elim (unmarshal raw) [
  | none ↦ err parse_failed
  | some cfg ↦ ok cfg
]

-- Without a path the configuration is empty. os.ReadFile and json.Unmarshal are parameters.
unfoldable load_config :
    (Text → Option Text) → (Text → Option SimConfig) → Text → Result LoadError SimConfig
load_config read_file unmarshal path =
    if text_eq path []
    then ok (record { nodes = []; route_report_ms = 0 })
    else config_in unmarshal (read_file path)
