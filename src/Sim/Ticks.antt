-- ===== src/Sim/Ticks.antt =====
-- One tick of the simulator: tick of server/orchestrator/meshsim/sim.go. First every node that is
-- due asks to be enrolled or reports its health, then every node that is due reports its route.
use lattice_hub.Base.{ℕ, ◌-◌, ◌*◌, ◌/◌, ◌%◌, not, ◌&&◌, ◌||◌, [], ◌∷◌, leb, if◌then◌else◌}
use lattice_hub.Base.Maps.{Map}
use lattice_hub.Sim.{VirtualNode, Simulator, SimEnv, Wire, write_locked}
use lattice_hub.Sim.Frames.{enrollment_msg, health_msg, route_report_msg}

abbrev enroll_interval : ℕ
enroll_interval = 2 * 1000000000

-- A pass over the nodes, each of which may change and write.
abbrev pub Turn : Type 0
Turn = VirtualNode → Wire → VirtualNode × Wire

unfoldable pub pass : Turn → Map VirtualNode → Wire → Map VirtualNode × Wire
pass f [] w = ([], w)
pass f ((k, n) ∷ ns) w =
    let (n1, w1) = f n w in let (rest, w2) = pass f ns w1 in ((k, n1) ∷ rest, w2)

abbrev pub asks : SimEnv → Turn
asks env n w = (record n { last_enroll_attempt = env.now }, write_locked env (enrollment_msg n) w)

abbrev reports_health : SimEnv → ℕ → Turn
reports_health env started n w =
    let n1 = record n {
      last_heartbeat = env.now;
      uptime = (env.now - started) / 1000000000 % 4294967296;
    } in
    (n1, write_locked env (health_msg n1) w)

unfoldable pulse : SimEnv → ℕ → Turn
unfolding enrollment_msg health_msg write_locked
pulse env started n w =
    if n.offline
    then (n, w)
    else if not n.enrolled
    then (if not n.rejected && leb enroll_interval (env.now - n.last_enroll_attempt)
        then asks env n w
        else (n, w))
    else if n.silent
    then (n, w)
    else if leb n.heartbeat_interval (env.now - n.last_heartbeat)
    then reports_health env started n w
    else (n, w)

unfoldable pub report : SimEnv → ℕ → Turn
unfolding route_report_msg write_locked
report env interval n w =
    if n.offline || not n.enrolled || n.silent
    then (n, w)
    else if leb interval (env.now - n.last_route_report)
    then (record n { last_route_report = env.now }, write_locked env (route_report_msg n) w)
    else (n, w)

unfoldable pub tick : SimEnv → Simulator → Simulator
unfolding pass pulse report
tick env s =
    if not s.wire.connected
    then s
    else let (nodes1, w1) = pass (pulse env s.started_at) s.nodes s.wire in
      let (nodes2, w2) = pass (report env s.route_report_interval) nodes1 w1 in
      record s { nodes = nodes2; wire = w2 }
