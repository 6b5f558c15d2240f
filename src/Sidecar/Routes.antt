-- ===== src/Sidecar/Routes.antt =====
-- The sidecar's routes: main and corsMiddleware of server/sidecar/main.go, and the handlers of
-- server/sidecar/handlers that pass on what Docker answers. The router's matching is gorilla/mux's
-- part. Docker and Kafka answer by functions of the container's name: none for an error.
use lattice_hub.Base.{
  ℕ, ◌≡◌, refl, sym, ap, ◌∙◌, inl, inr, Bool, true, false, Option, none, some, List, [], ◌∷◌, map,
  arith, ◌==◌, if◌then◌else◌, Text, codes, Bool-cases, Result, ok, err, get_or, drop,
}
use lattice_hub.Sidecar.{sidecar_authorised}
use lattice_hub.Sidecar.Containers.{short_id, log_tail, mem_used, Inspected, Inspection, inspection}
use lattice_hub.Sidecar.Probes.{Broker, KafkaStatus, kafka_status, CpuSample, Fraction, cpu_percent}
use lattice_hub.Sidecar.Health.{ServiceHealth, Probe, services}
use lattice_hub.Sidecar.Recent.{event_count, recent_events}
use lattice_hub.Startup.Variables.{ℤ}

pub record ContainerInfo : Type 0 where
  pub id : Text
  pub names : List Text
  pub image : Text
  pub status : Text
  pub state : Text

-- What ContainerStats answers.
pub record DockerStats : Type 0 where
  pub cpu : CpuSample
  pub pre_total : ℕ
  pub pre_system : ℕ
  pub mem_usage : ℕ
  pub mem_cache : ℕ
  pub mem_limit : ℕ

-- The outcome of ContainerInspect.
pub data InspectError : Type 0 where
  not_found unavailable : InspectError

pub record Surroundings : Type 0 where
  pub containers : Option (List ContainerInfo)
  pub restarts : Text → Bool
  pub logs : Text → Text → Option Text
  -- An answer that does not decode is none.
  pub stats : Text → Option (Option DockerStats)
  pub inspect : Text → Result InspectError Inspected
  pub broker : Broker
  -- The offset behind the last message, if the broker tells it; whether seeking succeeds; the
  -- messages.
  pub last_offset : Option ℕ
  pub seeks : Bool
  pub message : ℕ → Option Text
  pub probe : Text → Probe

pub data SidecarRequest : Type 0 where
  list_containers : SidecarRequest
  restart_container : Text → SidecarRequest
  get_logs : Text → Text → SidecarRequest
  get_stats : Text → SidecarRequest
  inspect_container : Text → SidecarRequest
  broker_status : SidecarRequest
  latest_events : Text → SidecarRequest
  services_health : SidecarRequest

pub data SidecarContent : Type 0 where
  failure : Text → SidecarContent
  all_containers : List ContainerInfo → SidecarContent
  restarting : Text → SidecarContent
  plain_text : Text → SidecarContent
  usage : Fraction → ℕ → ℕ → SidecarContent
  inspected : Inspection → SidecarContent
  kafka : KafkaStatus → SidecarContent
  events : List Text → SidecarContent
  health : List ServiceHealth → SidecarContent
  nothing : SidecarContent

-- A response, and the containers that Docker was told to restart.
pub record SidecarReply : Type 0 where
  pub status : ℕ
  pub content : SidecarContent
  pub restarted : List Text

abbrev answer_with : ℕ → SidecarContent → SidecarReply
answer_with status c = record { status = status; content = c; restarted = [] }

abbrev info_of : ContainerInfo → ContainerInfo
info_of c = record c { id = short_id c.id }

abbrev listed : Option (List ContainerInfo) → SidecarReply
listed none = answer_with 503 (failure (codes "docker unavailable"))
listed (some cs) = answer_with 200 (all_containers (map info_of cs))

abbrev restart : Text → Bool → SidecarReply
restart name true = record { status = 200; content = restarting name; restarted = name ∷ [] }
restart name false = record {
  status = 500;
  content = failure (codes "restart failed");
  restarted = name ∷ [];
}

abbrev logged : Option Text → SidecarReply
logged none = answer_with 503 (failure (codes "logs unavailable"))
logged (some t) = answer_with 200 (plain_text t)

abbrev measured : Option (Option DockerStats) → SidecarReply
measured none = answer_with 503 (failure (codes "stats unavailable"))
measured (some none) = answer_with 500 (failure (codes "failed to decode stats"))
measured (some (some s)) = answer_with 200 (
    usage (cpu_percent s.cpu s.pre_total s.pre_system) (mem_used s.mem_usage s.mem_cache)
      s.mem_limit)

abbrev shown : Result InspectError Inspected → SidecarReply
shown (err not_found) = answer_with 404 (failure (codes "container not found"))
shown (err unavailable) = answer_with 503 (failure (codes "docker unavailable"))
shown (ok i) = answer_with 200 (inspected (inspection i))

abbrev recent : Surroundings → ℕ → Option ℕ → SidecarReply
recent d n none = answer_with 200 (events [])
recent d n (some last) =
    if last == 0
    then answer_with 200 (events [])
    else if d.seeks
    then answer_with 200 (events (recent_events d.message last n))
    else answer_with 500 (failure (codes "failed to seek"))

listed-quiet : (o : Option (List ContainerInfo)) → (listed o).restarted ≡ []
listed-quiet none = refl
listed-quiet (some cs) = refl

restart_lem : (name : Text) (b : Bool) → (restart name b).restarted ≡ name ∷ []
restart_lem name true = refl
restart_lem name false = refl

logged-quiet : (o : Option Text) → (logged o).restarted ≡ []
logged-quiet none = refl
logged-quiet (some t) = refl

measured-quiet : (o : Option (Option DockerStats)) → (measured o).restarted ≡ []
measured-quiet none = refl
measured-quiet (some none) = refl
measured-quiet (some (some s)) = refl

shown-quiet : (r : Result InspectError Inspected) → (shown r).restarted ≡ []
shown-quiet (err not_found) = refl
shown-quiet (err unavailable) = refl
shown-quiet (ok i) = refl

recent-quiet : (d : Surroundings) (n : ℕ) (o : Option ℕ) → (recent d n o).restarted ≡ []
recent-quiet d n none = refl
recent-quiet d n (some last) = ground arith

module _ (atoi : Text → Option ℤ) where
  unfoldable sidecar_handle : Surroundings → SidecarRequest → SidecarReply
  sidecar_handle d list_containers = listed d.containers
  sidecar_handle d (restart_container name) = restart name (d.restarts name)
  sidecar_handle d (get_logs name tail) = logged (d.logs name (log_tail atoi tail))
  sidecar_handle d (get_stats name) = measured (d.stats name)
  sidecar_handle d (inspect_container name) = shown (d.inspect name)
  sidecar_handle d broker_status = answer_with 200 (kafka (kafka_status d.broker))
  sidecar_handle d (latest_events n) = recent d (event_count atoi n) d.last_offset
  sidecar_handle d services_health = answer_with 200 (health (services d.probe))

  no_name : {name : Text} {names : List Text} → [] ≡ name ∷ names → ⊥
  no_name h = ground arith

  sidecar_handle-restarted :
      (d : Surroundings) (r : SidecarRequest) (name : Text) (names : List Text)
      → (sidecar_handle d r).restarted ≡ name ∷ names
      → (r ≡ restart_container name) × (names ≡ [])
  unfolding sidecar_handle
  sidecar_handle-restarted d list_containers name names h =
      absurd (no_name (sym (listed-quiet d.containers) ∙ h))
  sidecar_handle-restarted d (restart_container n) name names h =
      let same : n ∷ [] ≡ name ∷ names = sym (restart_lem n (d.restarts n)) ∙ h in
      (ap (λ (ns : List Text). restart_container (get_or ns 0 name)) same, ap (drop 1) (sym same))
  sidecar_handle-restarted d (get_logs n tail) name names h =
      absurd (no_name (sym (logged-quiet (d.logs n (log_tail atoi tail))) ∙ h))
  sidecar_handle-restarted d (get_stats n) name names h =
      absurd (no_name (sym (measured-quiet (d.stats n)) ∙ h))
  sidecar_handle-restarted d (inspect_container n) name names h =
      absurd (no_name (sym (shown-quiet (d.inspect n)) ∙ h))
  sidecar_handle-restarted d broker_status name names h = absurd (no_name h)
  sidecar_handle-restarted d (latest_events n) name names h =
      absurd (no_name (sym (recent-quiet d (event_count atoi n) d.last_offset) ∙ h))
  sidecar_handle-restarted d services_health name names h = absurd (no_name h)

  -- A preflight is answered before the key is asked for.
  unfoldable pub sidecar_serve : Text → Bool → Text → Surroundings → SidecarRequest → SidecarReply
  unfolding sidecar_handle sidecar_authorised
  sidecar_serve admin_key preflight auth d r =
      if preflight
      then answer_with 204 nothing
      else if sidecar_authorised admin_key auth
      then sidecar_handle d r
      else answer_with 401 (failure (codes "unauthorized"))

  -- Docker restarts a container only where the request says so by its name, and only for a caller
  -- with the admin key, after the prefix or bare; a preflight restarts nothing.
  pub sidecar_serve-restarted :
      (key : Text) (preflight : Bool) (auth : Text) (d : Surroundings) (r : SidecarRequest)
      (name : Text) (names : List Text)
      → (sidecar_serve key preflight auth d r).restarted ≡ name ∷ names
      → (preflight ≡ false)
        × (r ≡ restart_container name)
        × (names ≡ [])
        × (sidecar_authorised key auth ≡ true)
  unfolding sidecar_serve
  sidecar_serve-restarted key preflight auth d r name names h = elim (Bool-cases preflight) [
    | inl p ↦ absurd (no_name (sym (rw p refl) ∙ h))
    | inr p ↦ elim (Bool-cases (sidecar_authorised key auth)) [
      | inr a ↦ absurd (no_name (sym (rw (p, a) refl) ∙ h))
      | inl a ↦
          let (same, one) = sidecar_handle-restarted d r name names (sym (rw (p, a) refl) ∙ h) in
          (p, same, one, a)
    ]
  ]
