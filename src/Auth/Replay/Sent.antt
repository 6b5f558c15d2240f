-- ===== src/Auth/Replay/Sent.antt =====
-- What is taken for a duplicate: IsDuplicate of server/orchestrator/nodeauth/replay.go.
use lattice_hub.Auth.Replay.Window.{next_buf, is_duplicate-buf, is_duplicate-answer, any_match_zero}
use lattice_hub.Base.{
  ℕ, zero, suc, ◌≡◌, ◌∙◌, inl, inr, true, List, [], ◌∷◌, arith, text_eq, text_eq_iff, Bool-cases,
  sym, ◌⊎◌, set,
}
use lattice_hub.Base.Maps.{lookup-nil}
use lattice_hub.Auth.Replay.{
  RingEntry, NodeBuf, ReplayCache, Message, feed, is_duplicate, any_match, buf_of, entry_matches,
}

-- The message is one of these.
abbrev pub Sent : List ℕ → ℕ → ℕ → List Message → Type 0
Sent mac epoch seq [] = ⊥
Sent mac epoch seq (m ∷ ms) =
    ((m.sender ≡ mac) × (m.epoch ≡ epoch) × (m.seq ≡ seq)) ⊎ Sent mac epoch seq ms

any_match-set :
    (epoch seq i : ℕ) (es : List RingEntry) (e : RingEntry)
    → any_match epoch seq (set es i e) ≡ true
    → (any_match epoch seq es ≡ true) ⊎ (entry_matches epoch seq e ≡ true)
unfolding any_match
any_match-set epoch seq i [] e h = absurd (ground arith)
any_match-set epoch seq zero (x ∷ es) e h = ground arith
any_match-set epoch seq (suc i) (x ∷ es) e h = ground (arith, any_match-set epoch seq i es e)

next_buf_sound :
    (nb : NodeBuf) (m : Message) (epoch seq : ℕ)
    → any_match epoch seq (next_buf nb m.epoch m.seq).buf ≡ true
    → (any_match epoch seq nb.buf ≡ true) ⊎ ((m.epoch ≡ epoch) × (m.seq ≡ seq))
next_buf_sound nb m epoch seq h = elim (Bool-cases (any_match m.epoch m.seq nb.buf)) [
  | inl d ↦ inl (ground arith)
  | inr d ↦
      ground
        (arith, any_match-set epoch seq nb.idx nb.buf (record { epoch = m.epoch; seq = m.seq }))
]

feed-Sent :
    (rc : ReplayCache) (mac : List ℕ) (epoch seq : ℕ) (ms : List Message)
    → any_match epoch seq (buf_of (feed rc ms) mac).buf ≡ true
    → (any_match epoch seq (buf_of rc mac).buf ≡ true) ⊎ Sent mac epoch seq ms
unfolding feed
feed-Sent rc mac epoch seq [] h = inl h
feed-Sent rc mac epoch seq (m ∷ ms) h =
    elim (feed-Sent (is_duplicate rc m.sender m.epoch m.seq).0 mac epoch seq ms h) [
      | inr s ↦ inr (inr s)
      | inl e ↦ elim (Bool-cases (text_eq m.sender mac)) [
        | inr q ↦ inl (rw (is_duplicate-buf rc m.sender mac m.epoch m.seq, q) at e)
        | inl q ↦
            elim (next_buf_sound (buf_of rc mac) m epoch seq
              (rw (is_duplicate-buf rc m.sender mac m.epoch m.seq, q) at e)) [
                | inl old ↦ inl old
                | inr (a, b) ↦ inr (inl ((text_eq_iff m.sender mac).0 q, a, b))
              ]
      ]
    ]

-- No message is dropped that did not come before: starting from the empty cache, what is taken for
-- a duplicate was sent by that very node with that epoch and sequence number.
pub is_duplicate-Sent :
    (mac : List ℕ) (epoch seq : ℕ) (ms : List Message)
    → (is_duplicate (feed [] ms) mac epoch seq).1 ≡ true
    → Sent mac epoch seq ms
is_duplicate-Sent mac epoch seq ms h =
    elim (feed-Sent [] mac epoch seq ms
      (sym (is_duplicate-answer (feed [] ms) mac epoch seq) ∙ h)) [
        | inr s ↦ s
        | inl e ↦ absurd (ground (arith, lookup-nil {V = NodeBuf} mac, any_match_zero epoch seq 32))
      ]
