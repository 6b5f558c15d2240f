-- ===== src/Api.antt =====
-- The HTTP API: server/orchestrator/mesh/api.go and the api_v1_*.go files beside it. A handler is a
-- function from the server and the decoded request to the server after it and a response. Decoding
-- a body is encoding/json's part: a body is a value, or none where decoding fails. Of a response
-- the model has the status and what the JSON carries. Outside the repository, and parameters where
-- they are used: adapter.IsOutput of the protocol package, uuid.New, net.ParseMAC.
use lattice_hub.Commands.{PendingCommand}
use lattice_hub.Server.{Env, ServerError, Server}
use lattice_hub.Base.{ℕ, ◌-◌, Bool, Option, List, ltb, leb, Text, some}
pub mod Ids
pub mod Nodes
pub mod Commands
pub mod Zones
pub mod Enrollments
pub mod Control
pub mod Events
pub mod Access
pub mod Routes
pub mod Safety
pub mod Unchanged
pub mod Updates
pub mod Registry
pub mod Tests
use lattice_hub.Nodes.{NodeInfo}
use lattice_hub.Zones.{Zone, ZoneError}
use lattice_hub.Server.Enrollment.{adapter_type_to_string}

pub record NodeV1 : Type 0 where
  pub id : ℕ
  pub name : Text
  pub zone : Text
  pub adapter_type : Text
  pub online : Bool
  pub hop_count : ℕ
  pub uptime : ℕ
  pub last_seen : ℕ
  pub parent_id : Option ℕ

-- nodeToV1.
unfoldable pub node_to_v1 : Env → NodeInfo → ℕ → NodeV1
unfolding adapter_type_to_string
node_to_v1 env n timeout = record {
  id = n.node_id;
  name = n.name;
  zone = n.zone;
  adapter_type = adapter_type_to_string n.adapter_type;
  online = leb (env.now - n.last_seen) timeout;
  hop_count = n.hop_count;
  uptime = n.uptime;
  last_seen = n.last_seen;
  parent_id = n.parent_id;
}

pub record EnrollmentResponse : Type 0 where
  pub mac : Text
  pub public_key : Text
  pub status : ℕ
  pub received_at : ℕ
  pub approved_at : ℕ

pub record MeshStatus : Type 0 where
  pub total : ℕ
  pub online : ℕ
  pub offline : ℕ
  pub next_free_id : ℕ
  pub primary : Text
  pub secondary : Text
  pub master_online : Bool
  pub primary_online : Bool
  pub secondary_online : Bool

pub data ApiError : Type 0 where
  unauthorized admin_key_required : ApiError
  invalid_node_id node_not_found : ApiError
  invalid_body action_required name_required : ApiError
  unknown_type : Text → ApiError
  unknown_action : Text → ApiError
  invalid_adapter_type : ℕ → ApiError
  colour_required : ApiError
  not_an_output : ApiError
  invalid_mac : ApiError
  configure_failed send_failed : ApiError
  command_not_found zone_not_found : ApiError
  zone_failed : ZoneError → ApiError
  server_failed : ServerError → ApiError
  is_running_already is_not_running : ApiError

-- What a message says; its wording is left out, like that of an error.
pub data Notice : Type 0 where
  node_configured all_configured reports_requested broadcasted : Notice
  server_started server_stopped node_removed zone_deleted : Notice
  enrollment_approved enrollment_rejected : Notice

-- What the fields Error, Message and Data of an APIResponse say.
pub data Content : Type 0 where
  failure : ApiError → Content
  message : Notice → Content
  all_nodes : List NodeInfo → Content
  one_node : NodeInfo → Content
  all_nodes_v1 : List NodeV1 → Content
  one_node_v1 : NodeV1 → Content
  command_id : Text → Content
  command : PendingCommand → Content
  all_zones : List Zone → Content
  one_zone : Zone → Content
  sent : ℕ → Content
  enrollments : List EnrollmentResponse → Content
  counts : Bool → ℕ → ℕ → Content
  mesh_status : MeshStatus → Content
  tx_power : ℕ → Text → Content
  alive : Content

pub record Response : Type 0 where
  pub status : ℕ
  pub content : Content

abbrev pub Reply : Type 0
Reply = Server × Response

abbrev pub respond : ℕ → Content → Response
respond status c = record { status = status; content = c }

-- What becomes of a request: the server after it, and the response, or none where the handler
-- panics and net/http drops the connection.
abbrev pub Served : Type 0
Served = Server × Option Response

abbrev pub answered : Reply → Served
answered p = (p.0, some p.1)

-- writeError.
abbrev pub refuse : ℕ → ApiError → Response
refuse status e = respond status (failure e)

abbrev pub succeeded : Response → Bool
succeeded r = ltb r.status 400
