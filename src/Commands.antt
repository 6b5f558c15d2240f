-- ===== src/Commands.antt =====
-- Commands that await an acknowledgement: server/orchestrator/mesh/command_store.go. uuid.Parse is
-- of a package outside the repository and is a parameter: the sixteen bytes of a text, or an error.
use lattice_hub.Base.{
  ℕ, Bool, true, false, ◌&&◌, Option, none, some, List, [], ◌∷◌, ◌==◌, if◌then◌else◌, Text, get_or,
}
pub mod Ack
pub mod Tests
use lattice_hub.Base.Maps.{Map, lookup, insert}

pub data CommandStatus : Type 0 where
  pending acked timeout : CommandStatus

pub record PendingCommand : Type 0 where
  pub id : Text
  pub node_id : ℕ
  pub action : Text
  pub sent_at : ℕ
  pub status : CommandStatus
  pub acked_at : Option ℕ

abbrev pub CommandStore : Type 0
CommandStore = Map PendingCommand

unfoldable pub add : CommandStore → PendingCommand → CommandStore
add cs cmd = insert cmd.id cmd cs

abbrev pub acknowledged : ℕ → PendingCommand → PendingCommand
acknowledged now cmd = record cmd { status = acked; acked_at = some now }

unfoldable pub ack : ℕ → CommandStore → Text → CommandStore × Bool
ack now cs command_id = elim (lookup command_id cs) [
  | none ↦ (cs, false)
  | some cmd ↦ (insert command_id (acknowledged now cmd) cs, true)
]

unfoldable pub get : CommandStore → Text → Option PendingCommand
get cs command_id = lookup command_id cs

abbrev is_pending : CommandStatus → Bool
is_pending pending = true
is_pending _ = false

module _ (uuid_parse : Text → Option (List ℕ)) where
  abbrev token_matches : Option (List ℕ) → ℕ → ℕ → Bool
  token_matches none t0 t1 = false
  token_matches (some u) t0 t1 = get_or u 14 0 == t0 && get_or u 15 0 == t1

  abbrev pub awaits : ℕ → ℕ → Text → PendingCommand → Bool
  awaits t0 t1 id cmd = is_pending cmd.status && token_matches (uuid_parse id) t0 t1

  -- The first match in the order of the iteration is acknowledged.
  unfoldable pub ack_by_token : ℕ → ℕ → ℕ → CommandStore → CommandStore × Option Text
  ack_by_token now t0 t1 [] = ([], none)
  ack_by_token now t0 t1 ((id, cmd) ∷ cs) =
      let rest = ack_by_token now t0 t1 cs in
      if awaits t0 t1 id cmd
      then ((id, acknowledged now cmd) ∷ cs, some id)
      else ((id, cmd) ∷ rest.0, rest.1)
