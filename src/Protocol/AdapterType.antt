-- ===== src/Protocol/AdapterType.antt =====
-- The adapter types of server/orchestrator/mesh/constants.go, as int32 values.
use lattice_hub.Base.{ℕ}

abbrev pub unknown : ℕ
unknown = 0

abbrev pub serial : ℕ
serial = 1

abbrev pub pir : ℕ
pir = 2

abbrev pub led : ℕ
led = 3

abbrev pub relay : ℕ
relay = 4

abbrev pub wifi : ℕ
wifi = 5
