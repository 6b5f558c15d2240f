-- ===== src/Protocol/Op.antt =====
-- The opcodes of server/orchestrator/mesh/constants.go.
use lattice_hub.Base.{ℕ}

abbrev pub health_req : ℕ
health_req = 0xB0

abbrev pub health_report : ℕ
health_report = 0xB1

abbrev pub node_health : ℕ
node_health = 0xB2

abbrev pub node_id_set : ℕ
node_id_set = 0xC0

abbrev pub config_set : ℕ
config_set = 0xC1

abbrev pub tx_power_set : ℕ
tx_power_set = 0xC2

abbrev pub led_solid : ℕ
led_solid = 0xD0

abbrev pub led_off : ℕ
led_off = 0xD1

abbrev pub relay_set : ℕ
relay_set = 0xD8

abbrev pub command_ack : ℕ
command_ack = 0xE0
