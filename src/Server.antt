-- ===== src/Server.antt =====
-- The state of the mesh server (server/orchestrator/mesh/server.go) and the steps that its handlers
-- share: sending a frame, publishing an event, writing to Kafka. What leaves the server is
-- recorded, newest first, in `effects`. What its surroundings decide is an `Env`: the time, and
-- whether a write to a link, to a file or to Kafka succeeds.
use lattice_hub.Base.{ℕ, ◌-◌, ◌*◌, Bool, not, Option, List, ◌∷◌, ltb, if◌then◌else◌, Text}
pub mod Enrollment
pub mod Receive
pub mod Liveness
pub mod Send
pub mod Steps
pub mod Lifecycle
pub mod Tests
use lattice_hub.Base.Maps.{Map}
use lattice_hub.Protocol.{MeshMessage}
use lattice_hub.Events.{EventBroker, EventType, Payload, publish}
use lattice_hub.Commands.{CommandStore}
use lattice_hub.Zones.{ZoneRegistry}
use lattice_hub.Nodes
use lattice_hub.Auth
use lattice_hub.Builder.{BuildError}

pub data Link : Type 0 where
  primary secondary : Link

pub data Direction : Type 0 where
  incoming outgoing : Direction

-- The Kafka records that the server writes, one topic each. The time of a record is that of the
-- write; its JSON gives it in whole seconds.
pub data KafkaRecord : Type 0 where
  mesh_message : Direction → ℕ → MeshMessage → KafkaRecord
  enrollment_request : Text → List ℕ → ℕ → KafkaRecord
  pir_motion : Text → ℕ → ℕ → List ℕ → KafkaRecord

-- A Kafka write carries the outcome that the metrics count.
pub data Effect : Type 0 where
  sends : Link → MeshMessage → Effect
  logs : KafkaRecord → Bool → Effect
  saves_auth : Effect
  flushes : Link → Effect
  sets_connected : Bool → Effect
  saves_nodes saves_zones : Effect
  closes : Link → Effect

pub record Env : Type 0 where
  pub now : ℕ
  pub write_ok : Link → MeshMessage → Bool
  pub kafka_ok : Bool
  pub save_ok : Bool
  pub open_ok : Link → Bool
  -- In what order Stop and the final saves of the persistence loops come: whether the next step is
  -- Stop's, and whether the next save is that of the trust registry.
  pub stop_turns : List Bool
  pub save_turns : List Bool

pub record Server : Type 0 where
  pub auth : Auth.Registry
  pub nodes : Nodes.Registry
  pub zones : ZoneRegistry
  pub commands : CommandStore
  pub broker : EventBroker
  pub online_state : Map Bool
  -- serialComm and secondarySerialComm are not nil.
  pub primary_open : Bool
  pub secondary_open : Bool
  pub secondary_connected : Bool
  -- secondaryPort is not empty.
  pub secondary_port : Bool
  pub primary_last_frame : ℕ
  pub secondary_last_frame : ℕ
  pub running : Bool
  -- The context is cancelled, and the stop channels are closed.
  pub cancelled : Bool
  pub persist_closed : Bool
  pub has_node_path : Bool
  pub has_zone_path : Bool
  pub tx_preset : ℕ
  pub health_timeout : ℕ
  pub has_auth_path : Bool
  pub has_event_store : Bool
  pub master_mac : List ℕ
  pub master_public_key : List ℕ
  pub secondary_mac : List ℕ
  pub secondary_public_key : List ℕ
  pub effects : List Effect

pub data ServerError : Type 0 where
  auth_error : Auth.AuthError → ServerError
  save_failed : ServerError
  not_running : ServerError
  already_running : ServerError
  write_failed : ServerError
  bad_frame : ServerError
  empty_serial_data : ServerError
  bad_health_report : ServerError
  no_origin_mac : ServerError
  bad_public_key : ℕ → ServerError
  bad_mac : ServerError
  open_failed : ServerError
  -- A panic, here of closing a channel twice.
  panics : ServerError
  bad_preset : ℕ → ServerError
  build_failed : BuildError → ServerError

abbrev pub emit : Server → Effect → Server
emit s e = record s { effects = e ∷ s.effects }

-- publishEvent: the time is that of the call.
abbrev pub publish_event : Env → Server → EventType → Payload → Server
publish_event env s t p = record s {
  broker = publish s.broker (record { event_type = t; payload = p; timestamp = env.now });
}

-- eventStore.WriteMessage and RecordKafkaWrite.
abbrev pub write_kafka : Env → Server → KafkaRecord → Server
write_kafka env s r = emit s (logs r env.kafka_ok)

-- Five quarters of a minute, in nanoseconds.
abbrev failover_threshold : ℕ
failover_threshold = 75 * 1000000000

-- activeOutboundComm and activeOutboundCommLocked: the link that outgoing frames take.
unfoldable pub active_link : Env → Server → Link
active_link env s =
    if not s.secondary_open
    then primary
    else if ltb failover_threshold (env.now - s.primary_last_frame)
    then secondary
    else primary

-- WriteFrame on a link; the frame counts as sent also where the write fails half-way.
abbrev pub write_frame : Env → Server → Link → MeshMessage → Server × Bool
write_frame env s link m = (emit s (sends link m), env.write_ok link m)

-- A handler's answer: the server after it, and its error, if any.
abbrev pub Answer : Type 0
Answer = Server × Option ServerError
