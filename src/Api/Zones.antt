-- ===== src/Api/Zones.antt =====
-- The zones of the API: v1GetZones, v1CreateZone, v1UpdateZone and v1DeleteZone of
-- server/orchestrator/mesh/api_v1_zones.go.
use lattice_hub.Api.{
  zone_deleted, Reply, respond, refuse, zone_failed, name_required, all_zones, zone_not_found,
  message, one_zone,
}
use lattice_hub.Server.{Server}
use lattice_hub.Base.{
  Bool, true, false, Option, none, some, [], if◌then◌else◌, Text, text_eq, Result, ok, err,
}
use lattice_hub.Zones
use lattice_hub.Zones.{Zone, ZoneError, ZoneRegistry}

abbrev set_zones : Server → ZoneRegistry → Server
set_zones s zones = record s { zones = zones }

unfoldable pub v1_get_zones : Server → Reply
v1_get_zones s = (s, respond 200 (all_zones (Zones.list s.zones)))

-- A body without a name is refused like one that does not decode.
abbrev pub has_name : Option Text → Option Text
has_name none = none
has_name (some t) = if text_eq t [] then none else some t

abbrev pub created : Server → ZoneRegistry × Result ZoneError Zone → Reply
created s (zones, err e) = (set_zones s zones, refuse 409 (zone_failed e))
created s (zones, ok z) = (set_zones s zones, respond 201 (one_zone z))

unfoldable pub v1_create_zone : Server → Option Text → Reply
v1_create_zone s body = elim (has_name body) [
  | none ↦ (s, refuse 400 name_required)
  | some name ↦ created s (Zones.add s.zones name)
]

abbrev pub renamed : Server → ZoneRegistry × Option Zone → Reply
renamed s (zones, none) = (set_zones s zones, refuse 404 zone_not_found)
renamed s (zones, some z) = (set_zones s zones, respond 200 (one_zone z))

unfoldable pub v1_update_zone : Server → Text → Option Text → Reply
v1_update_zone s id body = elim (has_name body) [
  | none ↦ (s, refuse 400 name_required)
  | some name ↦ renamed s (Zones.update s.zones id name)
]

abbrev pub deleted : Server → ZoneRegistry × Bool → Reply
deleted s (zones, false) = (set_zones s zones, refuse 404 zone_not_found)
deleted s (zones, true) = (set_zones s zones, respond 200 (message zone_deleted))

unfoldable pub v1_delete_zone : Server → Text → Reply
v1_delete_zone s id = deleted s (Zones.delete s.zones id)
