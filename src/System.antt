-- ===== src/System.antt =====
-- The hub with everything that drives it: its links and timers (Server/Steps), the HTTP API with
-- its keys (Api/Routes), and the starts and stops of the process (Server/Lifecycle). Each is taken
-- as one whole step, and they take turns in an order that nothing fixes; approvals that take turns
-- within a step are in Server/Enrollment/Interleaved.
use lattice_hub.Base.{ℕ, ◌≡◌, Bool, Option, some, List, Text, sym, subst, ◌-◌}
use lattice_hub.Server.{Env, Server}
use lattice_hub.Server.Steps.{Steps, Steps-Sound}
use lattice_hub.Server.Enrollment.Registry.{Sound}
use lattice_hub.Server.Lifecycle.Restart.{Switch, switch, starts, stops}
use lattice_hub.Api.{Served}
use lattice_hub.Api.Access.{Keys}
use lattice_hub.Api.Commands.{Uuid}
use lattice_hub.Api.Registry.{IsWellTyped, serve-Keeps, Answers, Answers-Sound, stops_again}
use lattice_hub.Api.Routes.{Request, serve}
use lattice_hub.Api.Unchanged.{start-nodes, stop-nodes}
mod Tests

switch-nodes : (s : Server) (w : Switch) → (switch s w).0.nodes ≡ s.nodes
unfolding switch
switch-nodes s (starts env) = start-nodes env s
switch-nodes s (stops env) = stop-nodes env s

module _ (uuid_parse : Text → Option (List ℕ)) (is_output : ℕ → Bool)
    (net_parse_mac : Text → Option (List ℕ)) where
  pub data Turn : Server → Server → Type 0 where
    drives : {s t : Server} → Steps uuid_parse s t → Turn s t
    asks :
        (k : Keys) (auth : Text) (env : Env) (u : Uuid) (s : Server) (r : Request) (p : Served)
        → IsWellTyped r
        → serve is_output net_parse_mac k auth env u s r ≡ some p
        → Turn s p.0
    turns : (s : Server) (w : Switch) → Turn s (switch s w).0

  pub data Run : Server → Server → Type 0 where
    idles : (s : Server) → Run s s
    then_takes : {s t u : Server} → Run s t → Turn t u → Run s u

  Turn-Sound : {s t : Server} → Turn s t → Sound s.nodes → Sound t.nodes
  Turn-Sound (drives steps) v = Steps-Sound uuid_parse steps v
  Turn-Sound (asks k auth env u s r p h e) v = Answers-Sound (stops_again s r) p (
      subst (Answers (stops_again s r)) e
        (serve-Keeps is_output net_parse_mac k auth env u s r h v))
  Turn-Sound (turns s w) v = subst Sound (sym (switch-nodes s w)) v

  -- Any received frames, checks, calls, requests to the API by anyone, starts and stops, in any
  -- order, but each done before the next one begins, keep a node registry in order that was so
  -- before: each entry stands under the text of its address, IDs are bytes, and no two live nodes
  -- share an ID. An ID in the body of an approval is one byte.
  pub Run-Sound : {s t : Server} → Run s t → Sound s.nodes → Sound t.nodes
  Run-Sound (idles s) v = v
  Run-Sound (then_takes before last) v = Turn-Sound last (Run-Sound before v)
