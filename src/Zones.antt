-- ===== src/Zones.antt =====
-- Artist-defined zones: server/orchestrator/mesh/zone_registry.go. A zone name is a text of ASCII
-- codes; strings.ToLower of other letters is not modelled.
use lattice_hub.Base.{
  ℕ, ◌+◌, ◌-◌, Bool, ◌&&◌, Option, none, some, List, [], ◌∷◌, map, leb, ◌==◌, if◌then◌else◌, Text,
  is_some, Result, ok, err, File, missing, unreadable, corrupt, holds, LoadError, read_failed,
  parse_failed,
}
pub mod Slug
pub mod Laws
pub mod Refinement
mod Tests
use lattice_hub.Base.Maps.{Map, lookup, insert, erase, values}

pub record Zone : Type 0 where
  pub id : Text
  pub name : Text

abbrev pub ZoneRegistry : Type 0
ZoneRegistry = Map Zone

unfoldable pub lower : ℕ → ℕ
lower c = if leb b'A' c && leb c b'Z' then c + 32 else c

unfoldable pub dashed : ℕ → ℕ
dashed c = if c == b' ' then b'-' else c

-- strings.ReplaceAll(strings.ToLower(name), " ", "-").
unfoldable pub zone_slug : Text → Text
zone_slug name = map dashed (map lower name)

pub data ZoneError : Type 0 where
  already_exists : Text → ZoneError

unfoldable pub add : ZoneRegistry → Text → ZoneRegistry × Result ZoneError Zone
add zones name =
    let z : Zone = record { id = zone_slug name; name = name } in
    if is_some (lookup (zone_slug name) zones)
    then (zones, err (already_exists (zone_slug name)))
    else (insert (zone_slug name) z zones, ok z)

unfoldable pub get : ZoneRegistry → Text → Option Zone
get zones id = lookup id zones

unfoldable pub list : ZoneRegistry → List Zone
list zones = values zones

unfoldable pub update : ZoneRegistry → Text → Text → ZoneRegistry × Option Zone
update zones id new_name = elim (lookup id zones) [
  | none ↦ (zones, none)
  | some z ↦ (insert id (record z { name = new_name }) zones, some (record z { name = new_name }))
]

unfoldable pub delete : ZoneRegistry → Text → ZoneRegistry × Bool
delete zones id = (erase id zones, is_some (lookup id zones))

unfoldable pub persist : ZoneRegistry → File Zone
persist zones = holds (values zones)

unfoldable pub load_entries : ZoneRegistry → List Zone → ZoneRegistry
load_entries zones [] = zones
load_entries zones (z ∷ zs) = load_entries (insert z.id z zones) zs

unfoldable pub load : ZoneRegistry → File Zone → Result LoadError ZoneRegistry
load zones missing = ok zones
load zones unreadable = err read_failed
load zones corrupt = err parse_failed
load zones (holds zs) = ok (load_entries zones zs)
