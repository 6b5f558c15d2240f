-- ===== src/Sidecar/Tests.antt =====
-- The sidecar at work.
use lattice_hub.Base.{
  Option, none, some, err, ℕ, ◌≡◌, refl, true, false, List, [], ◌∷◌, codes, text_eq, get_elem?,
}
use lattice_hub.Startup.Variables.{ℤ}
use lattice_hub.Sidecar.Routes.{
  Surroundings, not_found, restart_container, sidecar_serve, sidecar_serve-restarted,
}
use lattice_hub.Sidecar.{sidecar_authorised}
use lattice_hub.Sidecar.Secrets.{is_secret_env_key}
use lattice_hub.Sidecar.Recent.{recent_events, recent_events_lem}

-- That key is a secret.
secret : is_secret_env_key (codes "ADMIN_KEY") ≡ true
unfolding is_secret_env_key
secret = refl

abbrev some_log : List ℕ
some_log = 7 ∷ 8 ∷ 9 ∷ []

recent_events_lem_example : recent_events (get_elem? some_log) 3 2 ≡ 8 ∷ 9 ∷ []
recent_events_lem_example = recent_events_lem some_log 2

abbrev no_atoi : List ℕ → Option ℤ
no_atoi t = none

abbrev docker : Surroundings
docker = record {
  containers = some [];
  restarts = λ name. true;
  logs = λ name tail. none;
  stats = λ name. none;
  inspect = λ name. err not_found;
  broker = err (codes "refused");
  last_offset = none;
  seeks = true;
  message = λ n. none;
  probe = λ name. record { docker = none; http_status = 0 };
}

sidecar_serve-restarted_example :
    (false ≡ false)
    × (restart_container (codes "kafka") ≡ restart_container (codes "kafka"))
    × (◌≡◌ {A = List (List ℕ)} [] [])
    × (sidecar_authorised (codes "k") (codes "Bearer k") ≡ true)
unfolding sidecar_serve text_eq
sidecar_serve-restarted_example =
    sidecar_serve-restarted no_atoi (codes "k") false (codes "Bearer k") docker
      (restart_container (codes "kafka")) (codes "kafka") [] refl
