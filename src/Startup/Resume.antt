-- ===== src/Startup/Resume.antt =====
-- What a hub is after it has been started again on its own files.
use lattice_hub.Base.{◌≡◌, refl, ap, ◌∙◌, true, false, none, some, [], arith, Result, LoadError}
use lattice_hub.Base.Maps.{IsMap, Entries}
use lattice_hub.Nodes
use lattice_hub.Nodes.Storage.{IsStored, load-persist}
use lattice_hub.Zones
use lattice_hub.Zones.Laws.{load-persist_zones, Inv}
use lattice_hub.Server.{Server, Env, primary}
use lattice_hub.Server.Lifecycle.{start, is_read}
use lattice_hub.Server.Liveness.{record_frame}
use lattice_hub.Startup.{HubConfig, new_mesh_server, loaded, loaded_nodes, loaded_zones}

started :
    (t : Server) (env : Env) {r : Nodes.Registry} {z : Zones.ZoneRegistry}
    → t.running ≡ false
    → t.cancelled ≡ false
    → env.open_ok primary ≡ true
    → t.nodes ≡ r
    → t.zones ≡ z
    → ((start env t).1 ≡ none)
      × ((start env t).0.nodes ≡ r)
      × ((start env t).0.zones ≡ z)
      × (is_read (start env t).0 primary ≡ true)
unfolding start record_frame
started t env off fresh o n z = ground arith

-- A new process on the files that the last one saved has the same nodes and the same zones, each
-- with all of its fields; it can be started where the port opens, and then it reads its primary
-- link. The nodes stand under the texts of their six-byte addresses, and the zones under their own
-- IDs.
pub new_mesh_server-resumes :
    (c : HubConfig) (env : Env) (s : Server)
    → IsMap s.nodes
    → Entries IsStored s.nodes
    → Inv s.zones
    → c.node_file ≡ some (Nodes.Storage.persist s.nodes)
    → c.zone_file ≡ some (Zones.persist s.zones)
    → env.open_ok primary ≡ true
    → let (t, e) = start env (new_mesh_server c) in
      (e ≡ none) × (t.nodes ≡ s.nodes) × (t.zones ≡ s.zones) × (is_read t primary ≡ true)
unfolding start new_mesh_server record_frame
new_mesh_server-resumes c env s m h z fn fz o =
    let nodes : loaded_nodes c.node_file ≡ s.nodes =
      ap loaded_nodes fn
      ∙ ap (λ (r : Result LoadError Nodes.Registry). loaded [] r) (load-persist s.nodes m h) in
    let zones : loaded_zones c.zone_file ≡ s.zones =
      ap loaded_zones fz
      ∙ ap (λ (r : Result LoadError Zones.ZoneRegistry). loaded [] r)
          (load-persist_zones s.zones z) in
    started (new_mesh_server c) env refl refl o nodes zones
