-- ===== src/Commands/Tests.antt =====
-- One command that awaits its token.
use lattice_hub.Base.{
  ℕ, Option, none, some, List, [], ◌∷◌, ◌==◌, if◌then◌else◌, Text, codes, length,
}
use lattice_hub.Commands.{PendingCommand, CommandStore, pending}

-- A stand-in for uuid.Parse: sixteen characters, taken as bytes.
abbrev pub parse_sixteen : Text → Option (List ℕ)
parse_sixteen t = if length t == 16 then some t else none

abbrev pub id : Text
id = codes "0123456789abcdef"

abbrev pub command : PendingCommand
command = record {
  id = id;
  node_id = 4;
  action = codes "relay_set";
  sent_at = 1;
  status = pending;
  acked_at = none;
}

abbrev pub store : CommandStore
store = (id, command) ∷ []
