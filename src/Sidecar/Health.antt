-- ===== src/Sidecar/Health.antt =====
-- The state of the services: probeService and Services of server/sidecar/handlers/health.go.
use lattice_hub.Base.{
  ℕ, Bool, not, ◌&&◌, Option, none, some, List, [], ◌∷◌, map, if◌then◌else◌, Text, codes, text_eq,
  or_else,
}

pub record ServiceSpec : Type 0 where
  pub name : Text
  pub http_url : Text

-- What the probes of one service answer: Docker's state and health, and an HTTP status, 0 where the
-- request fails.
pub record Probe : Type 0 where
  pub docker : Option (Text × Option Text)
  pub http_status : ℕ

pub record ServiceHealth : Type 0 where
  pub name : Text
  pub docker_state : Text
  pub docker_health : Text
  pub http_status : Option ℕ

abbrev state_of : Option (Text × Option Text) → Text
state_of none = codes "unknown"
state_of (some (s, h)) = s

abbrev health_of : Option (Text × Option Text) → Text
health_of none = codes "unknown"
health_of (some (s, h)) = or_else h (codes "none")

-- Kafka is asked by its own protocol, and the sidecar does not ask itself.
abbrev has_http : ServiceSpec → Bool
has_http s =
    not (text_eq s.name (codes "kafka"))
    && not (text_eq s.name (codes "sidecar"))
    && not (text_eq s.http_url [])

unfoldable probe_service : ServiceSpec → Probe → ServiceHealth
probe_service s p = record {
  name = s.name;
  docker_state = state_of p.docker;
  docker_health = health_of p.docker;
  http_status = if has_http s then some p.http_status else none;
}

abbrev service_specs : List ServiceSpec
service_specs =
    record { name = codes "orchestrator"; http_url = codes "http://orchestrator:8080/health" }
    ∷ record { name = codes "kafka"; http_url = [] }
    ∷ record { name = codes "dashboard"; http_url = codes "http://dashboard:3000/" }
    ∷ record { name = codes "artist-portal"; http_url = codes "http://artist-portal:3001/" }
    ∷ record { name = codes "sidecar"; http_url = [] }
    ∷ []

-- The probes run side by side; the results stand in the order of the specifications.
unfoldable pub services : (Text → Probe) → List ServiceHealth
unfolding probe_service
services probe = map (λ s. probe_service s (probe s.name)) service_specs
