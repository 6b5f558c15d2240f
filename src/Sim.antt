-- ===== src/Sim.antt =====
-- The mesh simulator: server/orchestrator/meshsim, the stand-in for a mesh that tests connect the
-- hub to. Its nodes are a map under the texts that they were given as addresses. What it writes to
-- the hub is recorded, newest first, in the wire; the wire is cut by a write that fails. Times are
-- nanoseconds since Go's zero time, so 0 is time.Time{}. The listener and the ticker are in
-- Sim.Serve.
use lattice_hub.Base.{ℕ, Bool, not, List, ◌∷◌, if◌then◌else◌, Text}
pub mod Config
pub mod Nodes
pub mod Frames
pub mod Ticks
pub mod Handle
pub mod Control
pub mod Heard
pub mod Joining
pub mod Capitals
pub mod Serve
pub mod Commands
mod Tests
use lattice_hub.Base.Maps.{Map}
use lattice_hub.Protocol.{MeshMessage}

pub record VirtualNode : Type 0 where
  pub mac : List ℕ
  pub mac_string : Text
  pub name : Text
  pub adapter_type : ℕ
  pub node_id : ℕ
  pub route_path : List (List ℕ)
  pub heartbeat_interval : ℕ
  pub enrolled : Bool
  pub rejected : Bool
  pub offline : Bool
  pub silent : Bool
  pub public_key : List ℕ
  pub uptime : ℕ
  pub ack_count : ℕ
  pub last_heartbeat : ℕ
  pub last_route_report : ℕ
  pub last_enroll_attempt : ℕ

-- NodeConfig; a heartbeat that is not positive is 0.
pub record NodeConfig : Type 0 where
  pub mac : Text
  pub name : Text
  pub node_type : Text
  pub route_path : List Text
  pub heartbeat_ms : ℕ
  pub silent : Bool

pub record SimConfig : Type 0 where
  pub nodes : List NodeConfig
  pub route_report_ms : ℕ

-- The link to the hub.
pub record Wire : Type 0 where
  pub connected : Bool
  pub written : List MeshMessage

pub record Simulator : Type 0 where
  pub cfg : SimConfig
  pub nodes : Map VirtualNode
  pub wire : Wire
  pub route_report_interval : ℕ
  pub started_at : ℕ

pub record SimEnv : Type 0 where
  pub now : ℕ
  pub write_ok : MeshMessage → Bool

pub data SimError : Type 0 where
  unknown_node node_not_ready duplicate : SimError
  bad_mac bad_type : SimError

-- writeLocked.
unfoldable pub write_locked : SimEnv → MeshMessage → Wire → Wire
write_locked env m w =
    if not w.connected then w else record { connected = env.write_ok m; written = m ∷ w.written }
