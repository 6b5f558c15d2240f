-- ===== src/Server/Send.antt =====
-- What the hub sends on its own account: SendMessage, ConfigureNode, ConfigureAllNodes,
-- RequestHealthReports, BroadcastData, SendNodeData and SetTxPowerPreset of
-- server/orchestrator/mesh/server.go.
use lattice_hub.Protocol.{MeshMessage, empty_message, proto_version, zeros, max_data_length}
use lattice_hub.Server.{
  Env, Server, Answer, write_failed, not_running, bad_preset, build_failed, write_frame, outgoing,
  active_link,
}
use lattice_hub.Base.{
  ℕ, Bool, true, false, not, none, some, List, ltb, if◌then◌else◌, Result, ok, err, set, copy,
}
pub mod Laws
pub mod WellTyped
use lattice_hub.Builder.{
  build_config_set, build_config_set_broadcast, build_health_request, build_broadcast, BuildError,
}
use lattice_hub.Protocol.AdapterType
use lattice_hub.Protocol.MessageType
use lattice_hub.Protocol.Op
use lattice_hub.Server.Receive.{log_message}

abbrev pub sent : Server × Bool → Answer
sent (s, true) = (s, none)
sent (s, false) = (s, some write_failed)

unfoldable pub send_message : Env → Server → MeshMessage → Answer
unfolding log_message
send_message env s m =
    if not s.running
    then (s, some not_running)
    else let s1 = log_message env s outgoing m in sent (write_frame env s1 (active_link env s1) m)

abbrev pub send_built : Env → Server → Result BuildError MeshMessage → Answer
send_built env s (err e) = (s, some (build_failed e))
send_built env s (ok m) = send_message env s m

abbrev pub from_master : Server → Result BuildError MeshMessage → Result BuildError MeshMessage
from_master s (err e) = err e
from_master s (ok m) = ok (record m { origin = s.master_mac })

unfoldable pub configure_node : Env → Server → List ℕ → ℕ → Answer
unfolding send_message
configure_node env s target adapter_type =
    send_built env s (from_master s (build_config_set target adapter_type))

-- No origin is set here, unlike in configure_node.
unfoldable pub configure_all_nodes : Env → Server → ℕ → Answer
unfolding send_message
configure_all_nodes env s adapter_type = send_built env s (build_config_set_broadcast adapter_type)

unfoldable pub request_health_reports : Env → Server → Answer
unfolding send_message
request_health_reports env s = send_message env s build_health_request

unfoldable pub broadcast_data : Env → Server → ℕ → List ℕ → Answer
unfolding send_message
broadcast_data env s data_type bytes = send_built env s (build_broadcast data_type bytes)

abbrev pub node_data_frame : ℕ → List ℕ → MeshMessage
node_data_frame data_type bytes = record empty_message {
  version = proto_version;
  message_type = MessageType.serial_cmd_broadcast;
  data_type = data_type;
  data_bytes = copy (zeros max_data_length) bytes;
}

unfoldable pub send_node_data : Env → Server → ℕ → List ℕ → Answer
send_node_data env s data_type bytes =
    if not s.primary_open
    then (s, some not_running)
    else sent (write_frame env s (active_link env s) (node_data_frame data_type bytes))

abbrev pub tx_power_frame : ℕ → MeshMessage
tx_power_frame preset = record empty_message {
  version = proto_version;
  message_type = MessageType.adapter_data;
  data_type = AdapterType.serial;
  data_bytes = set (set (zeros max_data_length) 0 Op.tx_power_set) 1 preset;
}

abbrev pub adopt : ℕ → Answer → Answer
adopt preset (s, none) = (record s { tx_preset = preset }, none)
adopt preset (s, some e) = (s, some e)

unfoldable pub set_tx_power_preset : Env → Server → ℕ → Answer
set_tx_power_preset env s preset =
    if ltb 2 preset
    then (s, some (bad_preset preset))
    else if not s.primary_open
    then (s, some not_running)
    else adopt preset (sent (write_frame env s (active_link env s) (tx_power_frame preset)))
