-- ===== src/Startup/Main.antt =====
-- The program: main of server/orchestrator/main.go from the flags to the shutdown. What package
-- flag makes of the command line is an argument, with none for a flag that is not given; the
-- connection to Kafka is Startup.Kafka's. Log lines, and the wait before the first request for
-- health, are left out.
use lattice_hub.Base.{
  ℕ, ◌%◌, not, Option, none, some, List, [], if◌then◌else◌, Text, codes, text_eq, is_some, or_else,
  File,
}
use lattice_hub.Startup.Variables.{
  Variables, ℤ, pos, env_or_default, load_master_identity, secondary_identity,
  secondary_serial_port, allowed_origins, env_or_default_int, health_timeout_of,
}
use lattice_hub.Startup.{HubConfig, new_mesh_server}
use lattice_hub.Server.{Server, Env, ServerError, panics}
use lattice_hub.Server.Lifecycle.{start, stop, is_running}
use lattice_hub.Server.Send.{set_tx_power_preset}
use lattice_hub.EventStore.{Store, close}
use lattice_hub.Nodes.Storage.{PersistedNode}
use lattice_hub.Auth.Storage.{PersistedEntry}
use lattice_hub.Zones.{Zone}
use lattice_hub.Api.Access.{Keys}

pub record Flags : Type 0 where
  pub serial : Option Text
  pub baud : Option ℤ
  pub api_port : Option ℤ
  pub auth_registry : Option Text
  pub node_registry : Option Text
  pub tx_power : Option ℕ

-- What the paths lead to: the files, and the outcomes of LoadOrGenerateMasterKey.
pub record Disk : Type 0 where
  pub auth : Text → File PersistedEntry
  pub nodes : Text → File PersistedNode
  pub zones : Text → File Zone
  pub key : Text → Option (List ℕ)

pub data LogLevel : Type 0 where
  debug info warn error : LogLevel

unfoldable log_level : Variables → LogLevel
unfolding env_or_default
log_level vars =
    let t = env_or_default vars (codes "LOG_LEVEL") (codes "INFO") in
    if text_eq t (codes "DEBUG")
    then debug
    else if text_eq t (codes "WARN")
    then warn
    else if text_eq t (codes "ERROR")
    then error
    else info

-- A path that is empty is not used.
abbrev at_path {ℓ} : {A : Type ℓ} → (Text → A) → Text → Option A
at_path f t = if text_eq t [] then none else some (f t)

abbrev key_at : Disk → Text → Option (List ℕ)
key_at disk t = if text_eq t [] then none else disk.key t

abbrev path_of : Variables → Option Text → Text → Text → Text
path_of vars given key d = or_else given (env_or_default vars key d)

module _ (atoi : Text → Option ℤ) where
  -- meshConfig, as NewMeshServer makes use of it. The event store is there, connected or not.
  unfoldable mesh_config : Variables → Flags → Disk → Option Store → HubConfig
  unfolding env_or_default load_master_identity secondary_identity secondary_serial_port
      health_timeout_of
  mesh_config vars flags disk store =
      let (key_path, mac) = load_master_identity vars in
      let (second_key_path, second_mac) = secondary_identity vars in
      record {
        secondary_port = not (text_eq (secondary_serial_port vars) []);
        health_timeout = health_timeout_of atoi vars;
        has_event_store = is_some store;
        auth_file = at_path disk.auth (
            path_of vars flags.auth_registry (codes "AUTH_REGISTRY_PATH")
              (codes "data/nodeauth.json"));
        node_file = at_path disk.nodes (
            path_of vars flags.node_registry (codes "NODE_REGISTRY_PATH")
              (codes "data/nodes.json"));
        zone_file =
            at_path disk.zones
              (env_or_default vars (codes "ZONE_REGISTRY_PATH") (codes "data/zones.json"));
        master_key = key_at disk key_path;
        master_mac = mac;
        secondary_key = key_at disk second_key_path;
        secondary_mac = second_mac;
      }

  unfoldable api_port : Variables → Flags → ℤ
  unfolding env_or_default_int
  api_port vars flags =
      or_else flags.api_port (env_or_default_int atoi vars (codes "API_PORT") (pos 8080))

-- `uint8(*txPowerPreset)`.
abbrev pub preset_of : Option ℕ → ℕ
preset_of given = or_else given 2 % 256

-- A hub that does not start goes on without its mesh.
abbrev pub powered : Env → ℕ → Server × Option ServerError → Server
powered env preset (s, some e) = s
powered env preset (s, none) = (set_tx_power_preset env s preset).0

unfoldable pub start_hub : Env → HubConfig → Option ℕ → Server
start_hub env c given = powered env (preset_of given) (start env (new_mesh_server c))

abbrev keys_of : Variables → Keys
keys_of vars = record { api_key = vars (codes "API_KEY"); admin_key = vars (codes "ADMIN_KEY") }

-- The hub, its event store, and whether the program still runs.
pub record Program : Type 0 where
  pub hub : Server
  pub store : Option Store
  pub exit_code : Option ℕ

pub record ApiServer : Type 0 where
  pub keys : Keys
  pub origins : List Text

-- StartAPIServer reports what ListenAndServe reports within a tenth of a second: then the program
-- exits at once, with the hub running and the store open.
unfoldable start_api : Variables → Option Text → Server → Option Store → Program × Option ApiServer
unfolding allowed_origins
start_api vars (some e) s store = (record { hub = s; store = store; exit_code = some 1 }, none)
start_api vars none s store = (
  record { hub = s; store = store; exit_code = none },
  some (record { keys = keys_of vars; origins = allowed_origins vars }),
)

-- What Close of the writer reports is only logged.
abbrev close_store : Option Text → Option Store → Option Store
close_store answer none = none
close_store answer (some s) = some (close answer s).0

abbrev pub ended : Option Text → Option Store → Server × Option ServerError → Program
ended answer store (s, some panics) = record { hub = s; store = store; exit_code = some 2 }
ended answer store (s, e) = record { hub = s; store = close_store answer store; exit_code = some 0 }

-- From the signal on: the API has been shut down, then the mesh server is stopped, and the store
-- closed. A panic ends the program with status 2.
unfoldable pub shut_down : Env → Option Text → Server → Option Store → Program
unfolding is_running
shut_down env answer s store =
    if is_running s
    then ended answer store (stop env s)
    else record { hub = s; store = close_store answer store; exit_code = some 0 }
