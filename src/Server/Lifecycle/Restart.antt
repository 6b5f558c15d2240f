-- ===== src/Server/Lifecycle/Restart.antt =====
-- What a server is after it has been stopped.
use lattice_hub.Server.Lifecycle.{stop, start, is_read}
use lattice_hub.Server.{Env, Server, Link, panics, Answer, primary, secondary}
use lattice_hub.Base.{◌<◌, ◌≡◌, true, false, none, some, List, [], ◌∷◌, arith, if◌then◌else◌}
use lattice_hub.Server.Liveness.{serial_status, record_frame, is_master_online}

pub data Switch : Type 0 where
  starts : Env → Switch
  stops : Env → Switch

unfoldable pub switch : Server → Switch → Answer
unfolding start stop
switch s (starts env) = start env s
switch s (stops env) = stop env s

unfoldable switches : Server → List Switch → Server
unfolding switch
switches s [] = s
switches s (w ∷ ws) = switches (switch s w).0 ws

-- Cancelled, with the stop channels closed.
pub record IsSpent (s : Server) : Type 0 where
  pub is_cancelled : s.cancelled ≡ true
  pub is_closed : s.persist_closed ≡ true

-- A running server stops without an error or a panic, unless it has been stopped before; then it
-- panics. Either way it is not running and counts as cancelled, no master counts as online, and a
-- primary link that was open is still reported as connected.
stop_lem :
    (env : Env) (s : Server)
    → s.running ≡ true
    → 0 < s.health_timeout
    → let (t, e) = stop env s in
      (e ≡ (if s.persist_closed then some panics else none))
      × (t.running ≡ false)
      × IsSpent t
      × (is_master_online env t ≡ false)
      × ((serial_status t).0 ≡ s.primary_open)
unfolding stop serial_status is_master_online
stop_lem env s run t = ground arith

switch-IsSpent : (s : Server) (w : Switch) → IsSpent s → IsSpent (switch s w).0
unfolding switch record_frame
switch-IsSpent s (starts env) v = ground arith
switch-IsSpent s (stops env) v = ground arith

-- A server that has been stopped once never reads a link again, however often it is started and
-- stopped, although it may run.
switches-IsSpent :
    (s : Server) (ws : List Switch) (link : Link) → IsSpent s → is_read (switches s ws) link ≡ false
unfolding switches
switches-IsSpent s [] primary v = ground arith
switches-IsSpent s [] secondary v = ground arith
switches-IsSpent s (w ∷ ws) link v = switches-IsSpent (switch s w).0 ws link (switch-IsSpent s w v)

-- A restarted server runs and answers without an error, but is not read.
pub restart_lem :
    (env later : Env) (s : Server)
    → IsSpent s
    → s.running ≡ false
    → env.open_ok primary ≡ true
    → let (t, e) = start env s in
      (e ≡ none)
      × (t.running ≡ true)
      × (is_read t primary ≡ false)
      × ((stop later t).1 ≡ some panics)
unfolding start stop record_frame
restart_lem env later s v off opens = ground arith
