-- ===== src/Startup.antt =====
-- Starting the hub: NewMeshServer of server/orchestrator/mesh/server.go, on what the saved files
-- hold. A path that is not set is none. Where a file cannot be loaded the registry stays empty, and
-- where a key cannot be had the key stays zero.
use lattice_hub.Base.{
  ℕ, Bool, false, Option, none, some, List, [], is_some, or_else, Result, ok, err, File, LoadError,
  replicate,
}
pub mod MasterKey
pub mod Variables
pub mod Kafka
pub mod Resume
pub mod Main
pub mod Shutdown
mod Tests
use lattice_hub.Nodes
use lattice_hub.Auth
use lattice_hub.Zones
use lattice_hub.Nodes.Storage.{PersistedNode}
use lattice_hub.Auth.Storage.{PersistedEntry}
use lattice_hub.Events.{new_broker}
use lattice_hub.Server.{Server}

-- MeshServerConfig, with what the paths name. The keys are the outcomes of LoadOrGenerateMasterKey.
pub record HubConfig : Type 0 where
  pub secondary_port : Bool
  pub health_timeout : ℕ
  pub has_event_store : Bool
  pub auth_file : Option (File PersistedEntry)
  pub node_file : Option (File PersistedNode)
  pub zone_file : Option (File Zones.Zone)
  pub master_key : Option (List ℕ)
  pub master_mac : List ℕ
  pub secondary_key : Option (List ℕ)
  pub secondary_mac : List ℕ

abbrev pub loaded {ℓ} : {A : Type ℓ} → A → Result LoadError A → A
loaded d (err e) = d
loaded d (ok a) = a

abbrev pub loaded_nodes : Option (File PersistedNode) → Nodes.Registry
loaded_nodes none = []
loaded_nodes (some f) = loaded [] (Nodes.Storage.load [] f)

abbrev loaded_auth : Option (File PersistedEntry) → Auth.Registry
loaded_auth none = []
loaded_auth (some f) = loaded [] (Auth.Storage.load [] f)

abbrev pub loaded_zones : Option (File Zones.Zone) → Zones.ZoneRegistry
loaded_zones none = []
loaded_zones (some f) = loaded [] (Zones.load [] f)

abbrev zero_key : List ℕ
zero_key = replicate 32 0

unfoldable pub new_mesh_server : HubConfig → Server
new_mesh_server c = record {
  auth = loaded_auth c.auth_file;
  nodes = loaded_nodes c.node_file;
  zones = loaded_zones c.zone_file;
  commands = [];
  broker = new_broker;
  online_state = [];
  primary_open = false;
  secondary_open = false;
  secondary_connected = false;
  secondary_port = c.secondary_port;
  primary_last_frame = 0;
  secondary_last_frame = 0;
  running = false;
  cancelled = false;
  persist_closed = false;
  has_node_path = is_some c.node_file;
  has_zone_path = is_some c.zone_file;
  tx_preset = 0;
  health_timeout = c.health_timeout;
  has_auth_path = is_some c.auth_file;
  has_event_store = c.has_event_store;
  master_mac = c.master_mac;
  master_public_key = or_else c.master_key zero_key;
  secondary_mac = c.secondary_mac;
  secondary_public_key = or_else c.secondary_key zero_key;
  effects = [];
}
