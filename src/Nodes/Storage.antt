-- ===== src/Nodes/Storage.antt =====
-- Persist and Load of server/orchestrator/mesh/node_registry.go. A file is a list of entries.
use lattice_hub.Mac.RoundTrip.{IsMac, string_to_mac-mac_to_string}
use lattice_hub.Mac.{string_to_mac, mac_to_string}
use lattice_hub.Base.{
  ℕ, ◌≡◌, Option, none, some, List, [], ◌∷◌, map, Text, Result, ok, err, refl, sym, ap, ◌∙◌, File,
  holds, LoadError, read_failed, parse_failed, missing, unreadable, corrupt,
}
use lattice_hub.Base.Maps.{insert, values, insert_all, Entries, IsMap, insert_all-nil}
use lattice_hub.Nodes.{NodeInfo, Registry}

pub record PersistedNode : Type 0 where
  pub mac : Text
  pub adapter_type : ℕ
  pub uptime : ℕ
  pub last_seen : ℕ
  pub hop_count : ℕ
  pub node_id : ℕ
  pub name : Text
  pub zone : Text
  pub status : Text
  pub replaced_by : Text
  pub route_path : List Text
  pub parent_id : Option ℕ

abbrev pub to_persisted : NodeInfo → PersistedNode
to_persisted n = record {
  mac = n.mac_string;
  adapter_type = n.adapter_type;
  uptime = n.uptime;
  last_seen = n.last_seen;
  hop_count = n.hop_count;
  node_id = n.node_id;
  name = n.name;
  zone = n.zone;
  status = n.status;
  replaced_by = n.replaced_by;
  route_path = n.route_path;
  parent_id = n.parent_id;
}

abbrev pub from_persisted : List ℕ → PersistedNode → NodeInfo
from_persisted bytes e = record {
  mac = bytes;
  mac_string = e.mac;
  adapter_type = e.adapter_type;
  uptime = e.uptime;
  last_seen = e.last_seen;
  hop_count = e.hop_count;
  node_id = e.node_id;
  name = e.name;
  zone = e.zone;
  status = e.status;
  replaced_by = e.replaced_by;
  route_path = e.route_path;
  parent_id = e.parent_id;
}

unfoldable pub persist : Registry → File PersistedNode
persist r = holds (map to_persisted (values r))

-- An entry whose address does not parse is skipped; the key is the text of the file.
unfoldable pub load_entry : Registry → PersistedNode → Registry
load_entry r e = elim (string_to_mac e.mac) [
  | none ↦ r
  | some bytes ↦ insert e.mac (from_persisted bytes e) r
]

unfoldable pub load_entries : Registry → List PersistedNode → Registry
unfolding load_entry
load_entries r [] = r
load_entries r (e ∷ es) = load_entries (load_entry r e) es

unfoldable pub load : Registry → File PersistedNode → Result LoadError Registry
unfolding load_entries
load r missing = ok r
load r unreadable = err read_failed
load r corrupt = err parse_failed
load r (holds es) = ok (load_entries r es)

-- Each entry stands under the canonical text of a six-byte address.
abbrev pub IsStored : Text → NodeInfo → Type 0
IsStored k n = (n.mac_string ≡ k) × (mac_to_string n.mac ≡ k) × IsMac n.mac

load_entry-persist :
    (acc : Registry) (k : Text) (n : NodeInfo)
    → IsStored k n
    → load_entry acc (to_persisted n) ≡ insert k n acc
unfolding load_entry
load_entry-persist acc k n (s, m, v) =
    rw (ap string_to_mac (s ∙ sym m) ∙ string_to_mac-mac_to_string n.mac v, load_entry)
      (ap (λ (x : Text). insert x n acc) s)

load_entries-persist :
    (acc r : Registry)
    → Entries IsStored r
    → load_entries acc (map to_persisted (values r)) ≡ insert_all acc r
unfolding load_entries insert_all
load_entries-persist acc [] h = refl
load_entries-persist acc ((k, n) ∷ r) h =
    ap (λ (x : Registry). load_entries x (map to_persisted (values r)))
      (load_entry-persist acc k n h.0)
    ∙ load_entries-persist (insert k n acc) r h.1

-- A registry whose nodes stand under the texts of their six-byte addresses is, saved and loaded
-- into a new registry, the same: every field of every node, under the same key.
pub load-persist : (r : Registry) → IsMap r → Entries IsStored r → load [] (persist r) ≡ ok r
unfolding load persist
load-persist r m h = ap ok (load_entries-persist [] r h ∙ insert_all-nil r m)
