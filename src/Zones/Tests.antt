-- ===== src/Zones/Tests.antt =====
-- One zone.
use lattice_hub.Zones.Refinement.{names_of, run, run_names, run_refines}
use lattice_hub.Base.Maps.{lookup}
use lattice_hub.Base.{◌≡◌, refl, [], ◌∷◌, Text, codes, List}
use lattice_hub.Zones.{ZoneRegistry, zone_slug}
use lattice_hub.Zones.Laws.{Inv, adds, Op, updates, deletes}

abbrev hall : Text
hall = codes "Main Hall"

abbrev zones : ZoneRegistry
zones = (codes "main-hall", record { id = codes "main-hall"; name = hall }) ∷ []

zones-Inv : Inv zones
unfolding lookup
zones-Inv = record { is_map = (refl, tt); keyed = (refl, tt) }

slug : zone_slug hall ≡ codes "main-hall"
unfolding zone_slug lattice_hub.Zones.dashed lattice_hub.Zones.lower
slug = refl

abbrev some_ops : List Op
some_ops =
    adds (codes "Foyer")
    ∷ adds hall
    ∷ updates (codes "main-hall") (codes "Hall")
    ∷ deletes (codes "attic")
    ∷ []

run_refines_example :
    ((id : Text) → names_of (run zones some_ops).0 id ≡ (run_names (names_of zones) some_ops).0 id)
    × ((run zones some_ops).1 ≡ (run_names (names_of zones) some_ops).1)
run_refines_example = run_refines zones some_ops
