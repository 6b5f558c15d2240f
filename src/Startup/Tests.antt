-- ===== src/Startup/Tests.antt =====
-- A start on saved files.
use lattice_hub.Base.{◌≤◌, ℕ, ◌≡◌, refl, true, false, none, some, List, [], err, replicate}
use lattice_hub.Server.{primary}
use lattice_hub.Server.Lifecycle.{stop, start, is_read}
use lattice_hub.EventStore.{new_store}
use lattice_hub.Startup.Main.{shut_down, start_hub}
use lattice_hub.Startup.Shutdown.{shut_down-restarted, start_hub-preset}
use lattice_hub.Nodes
use lattice_hub.Zones
use lattice_hub.Nodes.Tests.{mac_a, mac_a-IsMac, one_node, one_node-Inv}
use lattice_hub.Nodes.Storage
use lattice_hub.Server.Tests.{env, hub}
use lattice_hub.Startup.{HubConfig, new_mesh_server}
use lattice_hub.Startup.MasterKey.{
  absent, load_or_generate, load_or_generate-again, Outcome, malformed, write_refused, corrupted,
}
use lattice_hub.Startup.Resume.{new_mesh_server-resumes}

abbrev config : HubConfig
config = record {
  secondary_port = false;
  health_timeout = 75000000000;
  has_event_store = true;
  auth_file = none;
  node_file = some (Nodes.Storage.persist one_node);
  zone_file = some (Zones.persist []);
  master_key = none;
  master_mac = mac_a;
  secondary_key = none;
  secondary_mac = replicate 6 0;
}

new_mesh_server-resumes_example :
    let (t, e) = start env (new_mesh_server config) in
    (e ≡ none) × (t.nodes ≡ one_node) × (t.zones ≡ []) × (is_read t primary ≡ true)
new_mesh_server-resumes_example =
    new_mesh_server-resumes config env hub one_node-Inv.is_map ((refl, refl, mac_a-IsMac), tt)
      (record { is_map = tt; keyed = tt }) refl refl refl

-- A stand-in for the curve: the key itself.
abbrev same_key : List ℕ → List ℕ
same_key k = k

-- The disk is full: the file is cut short, and no later call succeeds.
load_or_generate-again_example :
    Outcome same_key none (some malformed) none absent (malformed, err write_refused)
    × (load_or_generate same_key none none malformed ≡ (malformed, err corrupted))
unfolding load_or_generate
load_or_generate-again_example =
    load_or_generate-again same_key (some malformed) none (some (replicate 32 255)) none absent

shut_down-restarted_example :
    let t = (start env (stop env hub).0).0 in
    let p = shut_down env none t (some new_store) in
    (p.exit_code ≡ some 2) × (p.hub.effects ≡ t.effects) × (p.store ≡ some new_store)
shut_down-restarted_example =
    shut_down-restarted none env env env hub (some new_store) refl refl refl

start_hub-preset_example :
    ((start_hub env config (some 1)).tx_preset ≤ 2)
    × (start_hub env config (some 257) ≡ start_hub env config (some 1))
start_hub-preset_example = start_hub-preset env config 1
