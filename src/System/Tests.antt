-- ===== src/System/Tests.antt =====
-- A run of the hub of Server.Tests: its node is removed through the API and asks again, then the
-- hub is stopped and started.
use lattice_hub.System.{Run-Sound, idles, then_takes, drives, asks, turns}
use lattice_hub.Base.{ok, codes, refl, [], ◌≡◌, some, ◌-◌, ◌≡◌, [], text_eq}
use lattice_hub.Server.{Server, primary}
use lattice_hub.Server.Steps.{receives, goes, stays}
use lattice_hub.Server.Tests.{env, hub, hub-Sound, request}
use lattice_hub.Auth.Tests.{key_a}
use lattice_hub.Server.Receive.{process}
use lattice_hub.Server.Lifecycle.Restart.{switch, starts, stops}
use lattice_hub.Server.Enrollment.Registry.{Sound}
use lattice_hub.Commands.Tests.{parse_sixteen}
use lattice_hub.Api.{respond, message, node_removed}
use lattice_hub.Api.Tests.{is_output, no_mac, keys, uuid}
use lattice_hub.Api.Routes.{serve, v1_remove_node}

-- The hub after its only node is removed, and after that node's next request.
abbrev removed : Server
removed = record hub { nodes = [] }

abbrev asked : Server
asked = (process parse_sixteen env primary 0 removed (ok (request key_a))).0

node_1-removed :
    serve is_output no_mac keys (codes "Bearer a") env uuid hub (v1_remove_node (codes "1"))
    ≡ some (removed, some (respond 200 (message node_removed)))
unfolding serve lattice_hub.Api.Access.authorised text_eq lattice_hub.Api.Nodes.v1_delete_node
    lattice_hub.Api.Ids.parse_node_id lattice_hub.Nodes.get_node_by_id lattice_hub.Base.Maps.find
    lattice_hub.Nodes.remove_node lattice_hub.Base.Maps.lookup lattice_hub.Mac.mac_to_string
    lattice_hub.Mac.hex_digit lattice_hub.Base.Maps.erase
node_1-removed = refl

Run-Sound_example : Sound (switch (switch asked (stops env)).0 (starts env)).0.nodes
Run-Sound_example =
    Run-Sound parse_sixteen is_output no_mac
      (then_takes
        (then_takes
          (then_takes
            (then_takes (idles hub) (
              asks keys (codes "Bearer a") env uuid hub (v1_remove_node (codes "1"))
                (removed, some (respond 200 (message node_removed))) tt node_1-removed))
            (drives (goes (stays removed) (receives env removed primary 0 (ok (request key_a))))))
          (turns asked (stops env)))
        (turns (switch asked (stops env)).0 (starts env)))
      hub-Sound
