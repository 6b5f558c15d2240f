-- ===== src/Server/Send/Laws.antt =====
-- What sending changes.
use lattice_hub.Protocol.{MeshMessage}
use lattice_hub.Server.Receive.{log_message}
use lattice_hub.Server.{
  Env, Server, active_link, emit, logs, mesh_message, outgoing, sends, write_failed, not_running,
}
use lattice_hub.Server.Send.{set_tx_power_preset, send_message, tx_power_frame}
use lattice_hub.Base.{ℕ, ◌≡◌, not, ◌||◌, none, some, arith, ltb, if◌then◌else◌, is_some}

-- A stopped server sends nothing and says so. A running one writes the message once, over the link
-- in use, after the Kafka record if there is an event store; the answer is the outcome of that
-- write.
pub send_message_total :
    (env : Env) (s : Server) (m : MeshMessage)
    → let s1 =
        if s.has_event_store
        then emit s (logs (mesh_message outgoing env.now m) env.kafka_ok)
        else s in
      send_message env s m ≡ (
        if s.running
        then (
          emit s1 (sends (active_link env s) m),
          if env.write_ok (active_link env s) m then none else some write_failed,
        )
        else (s, some not_running))
unfolding send_message log_message active_link
send_message_total env s m = ground arith

-- The preset changes to the one asked for exactly when no error is reported, and stays otherwise: a
-- preset above 2 is refused, and so is one whose frame is not written.
set_tx_power_preset_total :
    (env : Env) (s : Server) (preset : ℕ)
    → let (s1, e) = set_tx_power_preset env s preset in
      (s1.tx_preset ≡ (if is_some e then s.tx_preset else preset))
      × (is_some e ≡ (
          ltb 2 preset
          || not s.primary_open
          || not (env.write_ok (active_link env s) (tx_power_frame preset))))
unfolding set_tx_power_preset
set_tx_power_preset_total env s preset = ground arith
