-- ===== src/Base/Files.antt =====
-- What a JSON file holds: the list of entries that encoding/json writes and reads back. A file that
-- is missing, that cannot be read and that does not parse are told apart.
use mathlib.Core.List.{List}

pub data File {ℓ} (A : Type ℓ) : Type ℓ where
  missing unreadable corrupt : File A
  holds : List A → File A

pub data LoadError : Type 0 where
  read_failed parse_failed : LoadError
