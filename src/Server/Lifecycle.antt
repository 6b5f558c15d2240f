-- ===== src/Server/Lifecycle.antt =====
-- Starting and stopping: Start, Stop and IsRunning of server/orchestrator/mesh/server.go. The
-- goroutines that Start creates end when the context is cancelled or a stop channel is closed: a
-- persistence loop then saves once more, at any time before Stop returns.
use lattice_hub.Server.{
  Effect, Env, Server, saves_nodes, secondary, Answer, Link, emit, already_running, primary,
  not_running, saves_auth, sets_connected, closes, open_failed, panics, saves_zones,
}
use lattice_hub.Base.{
  Bool, true, false, not, ◌&&◌, none, some, if◌then◌else◌, List, [], ◌∷◌, ◌++◌, ◌+◌,
}
pub mod Restart
pub mod Waiting
use lattice_hub.Server.Liveness.{record_frame}

abbrev pub effect_if : Bool → Effect → List Effect
effect_if b e = if b then e ∷ [] else []

-- Two goroutines side by side: the order that the turns say, and what is left in the end. A turn of
-- one that has ended lets the other go on.
unfoldable pub interleave : List Bool → List Effect → List Effect → List Effect
interleave [] xs ys = xs ++ ys
interleave (true ∷ turns) [] ys = ys
interleave (true ∷ turns) (x ∷ xs) ys = x ∷ interleave turns xs ys
interleave (false ∷ turns) xs [] = xs
interleave (false ∷ turns) xs (y ∷ ys) = y ∷ interleave turns xs ys

-- The final saves of the persistence loops, newest first.
abbrev pub final_saves : Env → Server → List Effect
final_saves env s =
    interleave env.save_turns (effect_if s.has_auth_path saves_auth)
      (effect_if s.has_node_path saves_nodes)

-- A persistence loop that starts on a closed channel saves at once.
abbrev pub start_loops : Env → Server → Server
start_loops env s =
    if s.persist_closed then record s { effects = final_saves env s ++ s.effects } else s

abbrev pub open_primary : Env → Server → Server
open_primary env s =
    record_frame env (emit (record s { primary_open = true; running = true }) (sets_connected true))
      primary

abbrev pub open_secondary : Env → Server → Server
open_secondary env s =
    if s.secondary_port && env.open_ok secondary
    then record_frame env (record s { secondary_open = true; secondary_connected = true }) secondary
    else s

unfoldable pub start : Env → Server → Answer
start env s =
    if s.running
    then (s, some already_running)
    else if not (env.open_ok primary)
    then (s, some open_failed)
    else (start_loops env (open_secondary env (open_primary env s)), none)

-- What Stop itself does behind the stop channels, newest first: the zones are saved, then the links
-- are closed.
abbrev pub closing : Server → List Effect
closing s =
    effect_if s.secondary_open (closes secondary)
    ++ (effect_if s.primary_open (sets_connected false)
        ++ (effect_if s.primary_open (closes primary) ++ effect_if s.has_zone_path saves_zones))

-- The first part of Stop, up to the stop channels.
abbrev pub halt : Server → Server
halt s = record s {
  cancelled = true;
  running = false;
  primary_last_frame = 0;
  secondary_last_frame = 0;
}

-- The persistence loops save from the closing of their channels on, while Stop goes on; it returns
-- when both have. The links stay set: a later send goes to a closed port. A second Stop panics at
-- the stop channel, which is closed already; by then the server is halted. Stop waits for the other
-- goroutines with ms.mu held: this is the Stop that finds no processor or detector on its way to
-- that lock; Lifecycle.Waiting has the other case.
unfoldable pub stop : Env → Server → Answer
unfolding interleave
stop env s =
    if not s.running
    then (s, some not_running)
    else if s.persist_closed
    then (halt s, some panics)
    else (
      record (halt s) {
        persist_closed = true;
        secondary_connected = s.secondary_connected && not s.secondary_open;
        effects = interleave env.stop_turns (closing s) (final_saves env s) ++ s.effects;
      },
      none,
    )

unfoldable pub is_running : Server → Bool
is_running s = s.running

-- A link is read as long as its processor runs: it ends when the context is cancelled.
abbrev pub is_read : Server → Link → Bool
is_read s primary = s.running && not s.cancelled && s.primary_open
is_read s secondary = s.running && not s.cancelled && s.secondary_open
