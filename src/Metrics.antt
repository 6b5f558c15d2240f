-- ===== src/Metrics.antt =====
-- Metrics: server/orchestrator/mesh/metrics.go. The Prometheus client is outside the repository: of
-- a counter, a histogram and a gauge the model has the calls that the program makes of it.
use lattice_hub.Base.{ℕ, Bool, Option, none, some, List, [], ◌∷◌, if◌then◌else◌, Text, codes}
pub mod Gauge
pub mod Writes
mod Tests
use lattice_hub.Server.{
  Effect, sends, logs, saves_auth, flushes, sets_connected, saves_nodes, saves_zones, closes,
}

-- What a handler does with its writer.
pub data Call : Type 0 where
  writes_header : ℕ → Call
  writes_body : List ℕ → Call
  flushes_writer : Call

-- statusResponseWriter: the status it remembers, and what it hands on, newest first.
pub record StatusWriter : Type 0 where
  pub status : ℕ
  pub handed_on : List Call

abbrev pub new_writer : StatusWriter
new_writer = record { status = 200; handed_on = [] }

-- Whether the writer below can flush decides what becomes of Flush.
unfoldable pub write_call : Bool → StatusWriter → Call → StatusWriter
write_call can_flush w (writes_header code) = record {
  status = code;
  handed_on = writes_header code ∷ w.handed_on;
}
write_call can_flush w (writes_body b) = record w { handed_on = writes_body b ∷ w.handed_on }
write_call can_flush w flushes_writer =
    if can_flush then record w { handed_on = flushes_writer ∷ w.handed_on } else w

unfoldable pub serve_with : Bool → StatusWriter → List Call → StatusWriter
unfolding write_call
serve_with can_flush w [] = w
serve_with can_flush w (c ∷ cs) = serve_with can_flush (write_call can_flush w c) cs

-- One request through InstrumentHandler: the labels counted, and what reaches the client.
pub record Observed : Type 0 where
  pub endpoint : Text
  pub method : Text
  pub status : ℕ
  pub seconds : ℕ
  pub handed_on : List Call

unfoldable pub instrument_handler : Text → Text → ℕ → Bool → List Call → Observed
unfolding serve_with
instrument_handler endpoint method duration can_flush calls =
    let w = serve_with can_flush new_writer calls in
    record {
      endpoint = endpoint;
      method = method;
      status = w.status;
      seconds = duration;
      handed_on = w.handed_on;
    }

-- The labels of RecordKafkaWrite.
unfoldable pub record_kafka_write : Text → Option Text → Text × Text
record_kafka_write topic none = (topic, codes "success")
record_kafka_write topic (some e) = (topic, codes "error")

-- What the gauge shows: the last value that SetSerialConnected set.
abbrev pub serial_connected : List Effect → Option Bool
serial_connected [] = none
serial_connected (sends link m ∷ es) = serial_connected es
serial_connected (logs r b ∷ es) = serial_connected es
serial_connected (saves_auth ∷ es) = serial_connected es
serial_connected (flushes link ∷ es) = serial_connected es
serial_connected (sets_connected b ∷ es) = some b
serial_connected (saves_nodes ∷ es) = serial_connected es
serial_connected (saves_zones ∷ es) = serial_connected es
serial_connected (closes link ∷ es) = serial_connected es
