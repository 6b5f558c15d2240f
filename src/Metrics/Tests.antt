-- ===== src/Metrics/Tests.antt =====
-- The hub of Server.Tests loses its link and finds it again.
use lattice_hub.Base.{◌≡◌, true, false, some, [], ◌∷◌, arith, err}
use lattice_hub.Metrics.{serial_connected}
use lattice_hub.Metrics.Gauge.{Round, after_loss, after_loss_lem}
use lattice_hub.Server.Tests.{env, hub}
use lattice_hub.Server.{primary}
use lattice_hub.Server.Liveness.{record_frame, is_master_online}
use lattice_hub.Serial.{no_header}
use lattice_hub.Commands.Tests.{parse_sixteen}
use lattice_hub.EventStore.{Store, new_store}

abbrev back : Round parse_sixteen
back = record { env = env; link = primary; errors = 6; read = err no_header }

after_loss_lem_example :
    let t = after_loss parse_sixteen env no_header (back ∷ []) hub in
    (serial_connected t.effects ≡ some false)
    × (serial_connected (record_frame env t primary).effects ≡ some false)
    × (is_master_online env (record_frame env t primary) ≡ true)
unfolding lattice_hub.Server.Receive.process
after_loss_lem_example =
    after_loss_lem parse_sixteen env hub no_header (back ∷ []) env (omega arith) (omega arith)

abbrev connected_store : Store
connected_store = record new_store { has_writer = true }
