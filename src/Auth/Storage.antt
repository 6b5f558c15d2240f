-- ===== src/Auth/Storage.antt =====
-- server/orchestrator/nodeauth/persistence.go. A time is saved as its Unix second; the constant
-- between Go's zero time and the Unix epoch is added on saving and subtracted on loading, and is
-- left out of both.
use lattice_hub.Auth.Trust.{normalize-hex_encode}
use lattice_hub.Mac.Digits.{IsByte, hex_decode-encode}
use lattice_hub.Mac.RoundTrip.{IsMac, parse_mac-join_hex, length-join_hex}
use lattice_hub.Mac.{parse_public_key, parse_mac, hex_encode}
use lattice_hub.Base.{
  ℕ, ◌*◌, ◌/◌, ◌≡◌, refl, sym, ap, ◌∙◌, inl, inr, false, none, some, List, [], ◌∷◌, map, arith,
  ◌==◌, if◌then◌else◌, Text, length, text_eq_iff, Option-cases, Result, ok, err, File, missing,
  unreadable, corrupt, holds, LoadError, read_failed, parse_failed, All,
}
use lattice_hub.Base.Maps.{
  lookup, insert, values, IsMap, lookup-insert, insert_all, map_values, Entries, insert_all-nil,
  map_values-IsMap, lookup-nil,
}
use lattice_hub.Auth.{
  NodeAuth, Registry, TrustStatus, other, pending, approved, rejected, mac_key, is_approved,
  approve, not_found,
}

pub record PersistedEntry : Type 0 where
  pub mac : Text
  pub public_key : Text
  pub status : ℕ
  pub received_at : ℕ
  pub approved_at : ℕ

abbrev pub nanos : ℕ
nanos = 1000000000

unfoldable pub status_number : TrustStatus → ℕ
status_number pending = 0
status_number approved = 1
status_number rejected = 2
status_number (other n) = n

unfoldable pub number_status : ℕ → TrustStatus
number_status n =
    if n == 0 then pending else if n == 1 then approved else if n == 2 then rejected else other n

abbrev pub to_persisted : NodeAuth → PersistedEntry
to_persisted n = record {
  mac = n.mac_string;
  public_key = hex_encode n.public_key;
  status = status_number n.status;
  received_at = n.received_at / nanos;
  approved_at = n.approved_at / nanos;
}

abbrev pub from_persisted : List ℕ → List ℕ → PersistedEntry → NodeAuth
from_persisted mac key e = record {
  mac = mac;
  mac_string = e.mac;
  public_key = key;
  status = number_status e.status;
  received_at = e.received_at * nanos;
  approved_at = e.approved_at * nanos;
}

unfoldable pub persist : Registry → File PersistedEntry
unfolding status_number
persist r = holds (map to_persisted (values r))

-- An entry whose address or key does not parse is skipped; the key is the text of the file.
unfoldable pub load_entry : Registry → PersistedEntry → Registry
unfolding number_status
load_entry r e = elim (parse_mac e.mac) [
  | none ↦ r
  | some mac ↦ elim (parse_public_key e.public_key) [
    | none ↦ r
    | some key ↦ insert e.mac (from_persisted mac key e) r
  ]
]

unfoldable pub load_entries : Registry → List PersistedEntry → Registry
load_entries r [] = r
load_entries r (e ∷ es) = load_entries (load_entry r e) es

unfoldable pub load : Registry → File PersistedEntry → Result LoadError Registry
load r missing = ok r
load r unreadable = err read_failed
load r corrupt = err parse_failed
load r (holds es) = ok (load_entries r es)

-- Times lose what is below a second.
abbrev pub whole_seconds : NodeAuth → NodeAuth
whole_seconds n = record n {
  received_at = n.received_at / nanos * nanos;
  approved_at = n.approved_at / nanos * nanos;
}

-- An entry as the hub makes it: under the text of its address, with a key of 32 bytes.
pub record IsStored (k : Text) (n : NodeAuth) : Type 0 where
  pub text : n.mac_string ≡ k
  pub canonical : mac_key n.mac ≡ k
  pub address : IsMac n.mac
  pub key_bytes : All IsByte n.public_key
  pub key_length : length n.public_key ≡ 32
  pub known : number_status (status_number n.status) ≡ n.status

parse_public_key-encode :
    (key : List ℕ) → All IsByte key → length key ≡ 32 → parse_public_key (hex_encode key) ≡ some key
unfolding parse_public_key
parse_public_key-encode key b l = rw (hex_decode-encode key b, l) refl

load_entry-persist :
    (acc : Registry) (k : Text) (n : NodeAuth)
    → IsStored k n
    → load_entry acc (to_persisted n) ≡ insert k (whole_seconds n) acc
unfolding load_entry
load_entry-persist acc k n v =
    rw (ap parse_mac (v.text ∙ sym v.canonical) ∙ parse_mac-join_hex n.mac v.address, load_entry)
      (rw (parse_public_key-encode n.public_key v.key_bytes v.key_length, load_entry)
        (λ i. insert (v.text i) (record (whole_seconds n) { status = v.known i }) acc))

load_entries-persist :
    (acc r : Registry)
    → Entries IsStored r
    → load_entries acc (map to_persisted (values r)) ≡ insert_all acc (map_values whole_seconds r)
unfolding load_entries insert_all map_values
load_entries-persist acc [] h = refl
load_entries-persist acc ((k, n) ∷ r) h =
    ap (λ (x : Registry). load_entries x (map to_persisted (values r)))
      (load_entry-persist acc k n h.0)
    ∙ load_entries-persist (insert k (whole_seconds n) acc) r h.1

-- Saved and loaded into a new registry, every entry that stands under the text of its six-byte
-- address, with a key of 32 bytes and a status that Load reads back, comes back under its key with
-- its address, its key and its trust; its times come back without what is below a second.
pub load-persist_trust :
    (r : Registry)
    → IsMap r
    → Entries IsStored r
    → load [] (persist r) ≡ ok (map_values whole_seconds r)
unfolding load persist
load-persist_trust r m h = ap ok (
    load_entries-persist [] r h
    ∙ insert_all-nil (map_values whole_seconds r) (map_values-IsMap whole_seconds r m))

-- An entry whose address is written as twelve bare digits.
abbrev pub IsBare : PersistedEntry → Type 0
IsBare e = length e.mac ≡ 12

lookup-load_entry_bare :
    (r : Registry) (e : PersistedEntry) (k : Text)
    → length k ≡ 17
    → IsBare e
    → lookup k (load_entry r e) ≡ lookup k r
unfolding load_entry
lookup-load_entry_bare r e k h b = elim (Option-cases (parse_mac e.mac)) [
  | inl q ↦ rw (q, load_entry) refl
  | inr (mac, q) ↦ elim (Option-cases (parse_public_key e.public_key)) [
    | inl p ↦ rw (q, load_entry) (rw (p, load_entry) refl)
    | inr (key, p) ↦
        rw (q, load_entry)
          (rw (p, load_entry)
            (ground (
              arith,
              lookup-insert e.mac k (from_persisted mac key e) r,
              text_eq_iff e.mac k,
              same e.mac k,
            )))
  ]
]
  where
    same : (a b : Text) → a ≡ b → length a ≡ length b
    same a b e = ap length e

lookup-load_entries_bare :
    (r : Registry) (es : List PersistedEntry) (k : Text)
    → length k ≡ 17
    → All IsBare es
    → lookup k (load_entries r es) ≡ lookup k r
unfolding load_entries
lookup-load_entries_bare r [] k h b = refl
lookup-load_entries_bare r (e ∷ es) k h b =
    lookup-load_entries_bare (load_entry r e) es k h b.1 ∙ lookup-load_entry_bare r e k h b.0

-- A file whose addresses are all bare digits, the older form that ParseMAC still accepts, gives a
-- registry in which no address is approved, whatever the entries say, and none can be approved: an
-- approval looks under the colon-separated text only.
pub load-bare_unreachable :
    (es : List PersistedEntry) (mac : List ℕ) (now : ℕ)
    → IsMac mac
    → All IsBare es
    → (is_approved (load_entries [] es) mac ≡ false)
      × (approve now (load_entries [] es) (hex_encode mac)
          ≡ (load_entries [] es, err (not_found (mac_key mac))))
unfolding is_approved approve
load-bare_unreachable es mac now v b =
    let gone : lookup (mac_key mac) (load_entries [] es) ≡ none =
      lookup-load_entries_bare [] es (mac_key mac) (length-join_hex mac v) b
      ∙ lookup-nil (mac_key mac) in
    (
      rw (gone, is_approved) refl,
      rw (normalize-hex_encode mac v, approve)
          (rw (gone, approve) (rw (normalize-hex_encode mac v))),
    )
