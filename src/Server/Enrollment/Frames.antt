-- ===== src/Server/Enrollment/Frames.antt =====
-- The frames of an approval.
use mathlib.Core.List.{append_assoc}
use lattice_hub.Protocol.AdapterType
use lattice_hub.Protocol.{zeros, MeshMessage}
use lattice_hub.Base.{
  ℕ, ◌-◌, ◌≤◌, ◌≡◌, sym, ap, ◌∙◌, ◌≢◌, false, List, ◌∷◌, ◌++◌, arith, ltb, if◌then◌else◌, length,
  text_eq, text_eq_iff, copy_at, copy_at-append, take, replicate, copy-replicate, length-take_le,
  length-append, [],
}
use lattice_hub.Server.Enrollment.{join_ack_data, send_join_frames, join_ack, node_id_set}
use lattice_hub.Server.{
  Env, Server, active_link, Effect, sends, logs, flushes, sets_connected, closes, saves_auth,
  saves_nodes, saves_zones,
}

-- The frames among the effects, newest first.
abbrev pub frames : List Effect → List MeshMessage
frames [] = []
frames (sends link m ∷ es) = m ∷ frames es
frames (logs r b ∷ es) = frames es
frames (saves_auth ∷ es) = frames es
frames (flushes link ∷ es) = frames es
frames (sets_connected b ∷ es) = frames es
frames (saves_nodes ∷ es) = frames es
frames (saves_zones ∷ es) = frames es
frames (closes link ∷ es) = frames es

after_prefix :
    (n m : ℕ) (xs src : List ℕ)
    → length xs ≡ n
    → length src ≤ m
    → copy_at n (xs ++ zeros m) src ≡ xs ++ (src ++ zeros (m - length src))
after_prefix n m xs src e h =
    ap (λ (k : ℕ). copy_at k (xs ++ zeros m) src) (sym e)
    ∙ copy_at-append xs (zeros m) src
    ∙ ap (λ (l : List ℕ). xs ++ l) (copy-replicate m 0 src h)

-- With a secondary master configured, the 64 bytes of a JOIN_ACK are the first four bytes of the
-- node's key, the secondary's address and key, and 22 zeros.
join_ack_data_dual :
    (s : Server) (key : List ℕ)
    → length key ≡ 32
    → length s.secondary_mac ≡ 6
    → length s.secondary_public_key ≡ 32
    → s.secondary_mac ≢ zeros 6
    → join_ack_data s key
      ≡ (take 4 key ++ s.secondary_mac) ++ (s.secondary_public_key ++ replicate 22 0)
unfolding join_ack_data
join_ack_data_dual s key k m p set =
    let four : length (take 4 key) ≡ 4 = length-take_le 4 key (omega arith) in
    let on : text_eq s.secondary_mac (zeros 6) ≡ false =
      ground (arith, text_eq_iff s.secondary_mac (zeros 6)) in
    rw on (
      ap (λ (l : List ℕ). copy_at 10 (copy_at 4 l s.secondary_mac) s.secondary_public_key)
        (copy-replicate 64 0 (take 4 key) (omega arith)
          ∙ ap (λ (n : ℕ). take 4 key ++ zeros (64 - n)) four)
      ∙ ap (λ (l : List ℕ). copy_at 10 l s.secondary_public_key)
          (after_prefix 4 60 (take 4 key) s.secondary_mac four (omega arith)
            ∙ ap (λ (n : ℕ). take 4 key ++ (s.secondary_mac ++ zeros (60 - n))) m
            ∙ sym (append_assoc (take 4 key) s.secondary_mac (zeros 54)))
      ∙ after_prefix 10 54 (take 4 key ++ s.secondary_mac) s.secondary_public_key
          (length-append (take 4 key) s.secondary_mac ∙ omega arith) (omega arith)
      ∙ ap
          (λ (n : ℕ). (take 4 key ++ s.secondary_mac) ++ (s.secondary_public_key ++ zeros (54 - n)))
          p)

-- The frames of an approval with no inherited type, newest first.
abbrev join_frames : Env → Server → List ℕ → List ℕ → ℕ → List Effect
join_frames env s mac key id =
    let ack = sends (active_link env s) (join_ack s mac key) ∷ s.effects in
    if ltb 0 id then sends (active_link env s) (node_id_set s mac id) ∷ ack else ack

-- Over an open link an approval sends the JOIN_ACK and then, if the node has an ID, the
-- OP_NODE_ID_SET with that ID, both over the link in use; nothing else of the server changes. With
-- no link open nothing is sent.
pub send_join_frames_lem :
    (env : Env) (s : Server) (mac key : List ℕ) (id : ℕ)
    → send_join_frames env s mac key id AdapterType.unknown
      ≡ (if s.primary_open then record s { effects = join_frames env s mac key id } else s)
unfolding send_join_frames active_link
send_join_frames_lem env s mac key id = ground arith
