-- ===== src/Sidecar/Containers.antt =====
-- Containers: ListContainers, GetLogs, GetStats and InspectContainer of
-- server/sidecar/handlers/containers.go. The processor's share is in Sidecar.Probes.
use lattice_hub.Base.{
  ℕ, ◌-◌, Bool, false, ◌&&◌, Option, none, some, List, [], ltb, leb, if◌then◌else◌, Text, codes,
  length, text_eq, or_else, take,
}
use lattice_hub.Startup.Variables.{ℤ, pos, negsuc}
use lattice_hub.Api.Access.{trim_prefix}
use lattice_hub.Sidecar.Secrets.{env_vars}

-- The first twelve characters of an ID.
unfoldable pub short_id : Text → Text
short_id id = if ltb 12 (length id) then take 12 id else id

abbrev in_range : ℤ → Bool
in_range (pos n) = leb 1 n && leb n 1000
in_range (negsuc n) = false

abbrev tail_or : Text → Option ℤ → Text
tail_or t none = codes "100"
tail_or t (some i) = if in_range i then t else codes "100"

module _ (atoi : Text → Option ℤ) where
  -- The number of lines asked for in GetLogs, as Docker is told it.
  unfoldable pub log_tail : Text → Text
  log_tail t =
      if text_eq t [] then tail_or (codes "100") (atoi (codes "100")) else tail_or t (atoi t)

-- memUsed: the cache is not counted, where there is less of it than of all memory.
unfoldable pub mem_used : ℕ → ℕ → ℕ
mem_used usage cache = if ltb cache usage then usage - cache else usage

pub record Inspected : Type 0 where
  pub id : Text
  pub name : Text
  pub image : Text
  pub docker_state : Text
  pub docker_health : Option Text
  pub restart_policy : Option Text
  pub env : List Text

pub record Inspection : Type 0 where
  pub id : Text
  pub name : Text
  pub image : Text
  pub docker_state : Text
  pub docker_health : Text
  pub restart_policy : Text
  pub env : List (Text × Text)

-- What InspectContainer shows of a container; ports, mounts and the time of creation are passed on
-- as they are.
unfoldable pub inspection : Inspected → Inspection
unfolding short_id env_vars trim_prefix
inspection i = record {
  id = short_id i.id;
  name = trim_prefix (codes "/") i.name;
  image = i.image;
  docker_state = i.docker_state;
  docker_health = or_else i.docker_health (codes "none");
  restart_policy = or_else i.restart_policy [];
  env = env_vars i.env;
}
