-- ===== src/Protocol/MessageType.antt =====
-- The message types of server/orchestrator/mesh/constants.go.
use lattice_hub.Base.{ℕ}

abbrev pub adapter_data : ℕ
adapter_data = 0

abbrev pub master_beacon : ℕ
master_beacon = 1

abbrev pub enrollment : ℕ
enrollment = 2

abbrev pub serial_cmd_broadcast : ℕ
serial_cmd_broadcast = 3

abbrev pub join_ack : ℕ
join_ack = 4

abbrev pub route_report : ℕ
route_report = 5
