-- ===== src/Sim/Tests.antt =====
-- Simulated nodes at work.
use lattice_hub.Base.{
  none, some, ◌⊎◌, ◌≢◌, ℕ, ◌≡◌, refl, inl, true, false, Option, [], ◌∷◌, map, arith, if◌then◌else◌,
  codes, text_eq, filter, replicate,
}
use lattice_hub.Sim.Serve.{Serving, connects, fails, ticks, serve_serial, serve_serial-latest}
use lattice_hub.Base.Maps.{lookup, values}
use mathlib.Core.Option
use lattice_hub.Server.Tests.{hub}
use lattice_hub.Server.Enrollment.{join_ack, node_id_set}
use lattice_hub.Server.Send.{node_data_frame}
use lattice_hub.Nodes.Tests.{mac_a, mac_b}
use lattice_hub.Mac.{mac_to_string, join_hex}
use lattice_hub.Protocol.AdapterType
use lattice_hub.Api.Commands.{Uuid, with_token, payload_of}
use lattice_hub.Sim.{VirtualNode, Simulator, SimEnv}
use lattice_hub.Sim.Frames.{ack_msg}
use lattice_hub.Sim.Handle.{handle_frame, takes}
use lattice_hub.Sim.Joining.{joining_lem, enrolled_node}
use lattice_hub.Sim.Capitals.{handle_frames, handle_frames-capital, enrolled_at}
use lattice_hub.Sim.Commands.{handle_frame-node_data_frame, onto}

abbrev node : VirtualNode
node = record {
  mac = mac_a;
  mac_string = mac_to_string mac_a;
  name = [];
  adapter_type = AdapterType.led;
  node_id = 0;
  route_path = mac_b ∷ [];
  heartbeat_interval = 3000000000;
  enrolled = false;
  rejected = false;
  offline = false;
  silent = false;
  public_key = replicate 32 1;
  uptime = 70000;
  ack_count = 0;
  last_heartbeat = 0;
  last_route_report = 0;
  last_enroll_attempt = 0;
}

abbrev sim_env : SimEnv
sim_env = record { now = 90000000000; write_ok = λ m. true }

-- One node under its text, and one under a text in capitals.
abbrev simulator : Simulator
simulator = record {
  cfg = record { nodes = []; route_report_ms = 0 };
  nodes =
      (mac_to_string mac_a, record node { enrolled = true })
      ∷ (mac_to_string mac_b, record node { mac = mac_b; enrolled = true })
      ∷ (codes "AA:00:00:00:00:01", record node { mac = 0xAA ∷ 0 ∷ 0 ∷ 0 ∷ 0 ∷ 1 ∷ [] })
      ∷ [];
  wire = record { connected = true; written = [] };
  route_report_interval = 6000000000;
  started_at = 1;
}

joining_lem_example :
    lookup
      (mac_to_string mac_a)
      (handle_frame sim_env
        (node_id_set hub mac_a 5)
        (handle_frame sim_env (join_ack hub mac_a (replicate 32 3)) simulator)).nodes
    ≡ (if text_eq (join_hex mac_a) (mac_to_string mac_a)
        then Option.map
            (λ n. record (enrolled_node n) { node_id = 5 })
            (lookup (mac_to_string mac_a) simulator.nodes)
        else lookup (mac_to_string mac_a) simulator.nodes)
joining_lem_example =
    joining_lem sim_env hub mac_a (replicate 32 3) 5 simulator (mac_to_string mac_a) refl refl

handle_frames-capital_example :
    enrolled_at
      (codes "AA:00:00:00:00:01")
      (handle_frames sim_env
        (join_ack hub (0xAA ∷ 0 ∷ 0 ∷ 0 ∷ 0 ∷ 1 ∷ []) (replicate 32 3) ∷ [])
        simulator).nodes
    ≡ false
unfolding lookup text_eq mac_to_string lattice_hub.Mac.hex_digit
handle_frames-capital_example =
    handle_frames-capital sim_env
      (join_ack hub (0xAA ∷ 0 ∷ 0 ∷ 0 ∷ 0 ∷ 1 ∷ []) (replicate 32 3) ∷ []) 65
      (codes "A:00:00:00:00:01") simulator (omega arith, omega arith) refl

abbrev uuid : Uuid
uuid = record { text = codes "0123456789abcdef"; id_bytes = codes "0123456789abcdef" }

handle_frame-node_data_frame_example :
    (handle_frame sim_env
      (node_data_frame AdapterType.led (with_token (payload_of (0xD1 ∷ [])) uuid))
      simulator).wire.written
    ≡ onto [] (map (ack_msg 101 102) (filter (takes AdapterType.led) (values simulator.nodes)))
handle_frame-node_data_frame_example =
    handle_frame-node_data_frame sim_env AdapterType.led (0xD1 ∷ []) uuid simulator (λ m. refl) refl
      (inl refl)

-- Both nodes answer.
two_acks :
    (handle_frame sim_env
      (node_data_frame AdapterType.led (with_token (payload_of (0xD1 ∷ [])) uuid))
      simulator).wire.written
    ≡ ack_msg 101 102 (record node { mac = mac_b }) ∷ ack_msg 101 102 node ∷ []
unfolding onto ack_msg
two_acks =
    handle_frame-node_data_frame sim_env AdapterType.led (0xD1 ∷ []) uuid simulator (λ m. refl) refl
      (inl refl)

abbrev unserved : Serving
unserved = record { sim = simulator; comm = none }

-- The hub connects a second time, then the first connection ends.
serve_serial-latest_example :
    (((serve_serial unserved (connects 2 ∷ ticks sim_env ∷ connects 1 ∷ [])).comm ≡ none)
      ⊎ ((serve_serial unserved (connects 2 ∷ ticks sim_env ∷ connects 1 ∷ [])).comm ≡ some 2))
    × (◌≢◌ {A = Option ℕ} (some 2) (some 1)
        → serve_serial unserved (fails 1 ∷ connects 2 ∷ ticks sim_env ∷ connects 1 ∷ [])
          ≡ serve_serial unserved (connects 2 ∷ ticks sim_env ∷ connects 1 ∷ []))
serve_serial-latest_example =
    serve_serial-latest unserved (connects 2 ∷ ticks sim_env ∷ connects 1 ∷ []) 1 refl
