-- ===== src/Startup/Shutdown.antt =====
-- The power preset that main starts the hub with, and the end of the program.
use lattice_hub.Server.Liveness.{record_frame}
use lattice_hub.Base.{
  ℕ, ◌+◌, ◌%◌, ◌≤◌, ◌≡◌, refl, ap, ◌∙◌, Bool, true, false, Option, none, some, arith, if◌then◌else◌,
  Text,
}
use lattice_hub.Startup.Main.{shut_down, start_hub, preset_of, powered, ended, Program}
use lattice_hub.Startup.{HubConfig, new_mesh_server}
use lattice_hub.Server.{Server, Env, primary, panics, Answer}
use lattice_hub.Server.Lifecycle.{halt, start, stop, is_running}
use lattice_hub.Server.Send.{set_tx_power_preset}
use lattice_hub.EventStore.{Store}

shut_down-runs :
    (env : Env) (answer : Option Text) (s : Server) (store : Option Store)
    → s.running ≡ true
    → shut_down env answer s store ≡ ended answer store (stop env s)
unfolding shut_down is_running
shut_down-runs env answer s store run = if_true s.running (ended answer store (stop env s)) _ run
  where
    if_true : (b : Bool) (x y : Program) → b ≡ true → (if b then x else y) ≡ x
    if_true false x y h = absurd (ground arith)
    if_true true x y h = refl

stop-closed :
    (env : Env) (s : Server)
    → s.running ≡ true
    → s.persist_closed ≡ true
    → stop env s ≡ (halt s, some panics)
unfolding stop
stop-closed env s run closed = rw (run, closed) refl

stopped_lem :
    (env : Env) (s : Server)
    → s.running ≡ true
    → s.persist_closed ≡ false
    → ((stop env s).0.running ≡ false) × ((stop env s).0.persist_closed ≡ true)
unfolding stop
stopped_lem env s run fresh = ground arith

start_lem :
    (env : Env) (s : Server)
    → s.running ≡ false
    → env.open_ok primary ≡ true
    → ((start env s).0.running ≡ true) × ((start env s).0.persist_closed ≡ s.persist_closed)
unfolding start record_frame
start_lem env s off opens = ground arith

start-tx_preset : (env : Env) (s : Server) → (start env s).0.tx_preset ≡ s.tx_preset
unfolding start record_frame
start-tx_preset env s = ground arith

set_tx_power_preset_le :
    (env : Env) (s : Server) (p : ℕ)
    → s.tx_preset ≤ 2
    → (set_tx_power_preset env s p).0.tx_preset ≤ 2
unfolding set_tx_power_preset
set_tx_power_preset_le env s p h = ground arith

-- A hub that was stopped and started again by the API cannot be shut down: the program panics,
-- nothing is saved, and the event store is left as it is.
pub shut_down-restarted :
    (answer : Option Text) (first env last : Env) (s : Server) (store : Option Store)
    → s.running ≡ true
    → s.persist_closed ≡ false
    → env.open_ok primary ≡ true
    → let t = (start env (stop first s).0).0 in
      let p = shut_down last answer t store in
      (p.exit_code ≡ some 2) × (p.hub.effects ≡ t.effects) × (p.store ≡ store)
shut_down-restarted answer first env last s store run fresh opens =
    let back = start env (stop first s).0 in
    let (off, spent) = stopped_lem first s run fresh in
    let (runs, same) = start_lem env (stop first s).0 off opens in
    rw (shut_down-runs last answer back.0 store runs, stop-closed last back.0 runs (same ∙ spent))
      (refl, refl, refl)

start_hub-preset_le :
    (env : Env) (c : HubConfig) (given : Option ℕ) → (start_hub env c given).tx_preset ≤ 2
unfolding start_hub new_mesh_server
start_hub-preset_le env c given = started (start env (new_mesh_server c)) zero_at_first
  where
    zero_at_first : (start env (new_mesh_server c)).0.tx_preset ≡ 0
    zero_at_first = start-tx_preset env (new_mesh_server c)

    started : (a : Answer) → a.0.tx_preset ≡ 0 → (powered env (preset_of given) a).tx_preset ≤ 2
    started (s, some e) h = omega (arith, h)
    started (s, none) h = set_tx_power_preset_le env s (preset_of given) (omega (arith, h))

-- The preset of a hub that has just started is at most 2, whatever number the flag gives; a number
-- that does not fit a byte is not refused, but taken modulo 256.
pub start_hub-preset :
    (env : Env) (c : HubConfig) (n : ℕ)
    → ((start_hub env c (some n)).tx_preset ≤ 2)
      × (start_hub env c (some (n + 256)) ≡ start_hub env c (some n))
unfolding start_hub
start_hub-preset env c n =
    let wraps : (n + 256) % 256 ≡ n % 256 = omega arith in
    (
      start_hub-preset_le env c (some n),
      ap (λ (k : ℕ). powered env k (start env (new_mesh_server c))) wraps,
    )
