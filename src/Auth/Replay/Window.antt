-- ===== src/Auth/Replay/Window.antt =====
-- How long a message is remembered: IsDuplicate of server/orchestrator/nodeauth/replay.go.
use lattice_hub.Base.{
  ℕ, zero, suc, ◌+◌, ◌-◌, ◌%◌, ◌≤◌, ◌<◌, ◌≡◌, refl, ◌∙◌, inl, inr, true, some, List, [], ◌∷◌, arith,
  if◌then◌else◌, length, text_eq, text_eq_iff, Bool-cases, get_elem?, text_eq_refl,
  get_elem?-set_ne, get_elem?-set_self, length-set, sym, false, replicate,
}
use lattice_hub.Base.Maps.{insert, lookup-insert}
use lattice_hub.Auth.Replay.{
  RingEntry, NodeBuf, ReplayCache, Message, feed, is_duplicate, any_match, buf_of, ring_size,
  entry_matches, record_entry, zero_entry,
}

-- The index stays in the ring.
pub record IsBuf (nb : NodeBuf) : Type 0 where
  pub full : length nb.buf ≡ ring_size
  pub inside : nb.idx < 32

any_match-get :
    (epoch seq i : ℕ) (es : List RingEntry) (e : RingEntry)
    → get_elem? es i ≡ some e
    → entry_matches epoch seq e ≡ true
    → any_match epoch seq es ≡ true
unfolding any_match
any_match-get epoch seq i [] e g m = absurd (ground arith)
any_match-get epoch seq zero (x ∷ es) e g m = ground arith
any_match-get epoch seq (suc i) (x ∷ es) e g m = ground (arith, any_match-get epoch seq i es e)

-- Slot `p` holds the entry and is not written before `left` more entries are recorded.
pub record Holds (nb : NodeBuf) (e : RingEntry) (left : ℕ) : Type 0 where
  pub slot : ℕ
  pub in_ring : slot < 32
  pub holds_it : get_elem? nb.buf slot ≡ some e
  pub gap : ℕ
  pub distance : (nb.idx + gap) % 32 ≡ slot
  pub below : gap < 32
  pub enough : left ≤ gap
  pub is_buf : IsBuf nb

record_entry-Holds : (nb : NodeBuf) (e : RingEntry) → IsBuf nb → Holds (record_entry nb e) e 31
record_entry-Holds nb e v = record {
  slot = nb.idx;
  in_ring = v.inside;
  holds_it = get_elem?-set_self nb.buf nb.idx e (omega (arith, v.inside, v.full));
  gap = 31;
  distance = omega (arith, v.inside);
  below = omega arith;
  enough = omega arith;
  is_buf = record { full = length-set nb.buf nb.idx e ∙ v.full; inside = omega arith };
}

record_entry-keeps :
    (nb : NodeBuf) (e x : RingEntry) (left : ℕ)
    → Holds nb e (suc left)
    → Holds (record_entry nb x) e left
record_entry-keeps nb e x left v = record {
  slot = v.slot;
  in_ring = v.in_ring;
  holds_it =
      get_elem?-set_ne nb.buf x
        (λ q. absurd (omega (arith, v.distance, v.below, v.enough, v.is_buf.inside, q)))
      ∙ v.holds_it;
  gap = v.gap - 1;
  distance = omega (arith, v.distance, v.below, v.enough, v.is_buf.inside);
  below = omega (arith, v.below);
  enough = omega (arith, v.enough);
  is_buf = record { full = length-set nb.buf nb.idx x ∙ v.is_buf.full; inside = omega arith };
}

weaken : {nb : NodeBuf} {e : RingEntry} (left : ℕ) → Holds nb e (suc left) → Holds nb e left
weaken left v = record {
  slot = v.slot;
  in_ring = v.in_ring;
  holds_it = v.holds_it;
  gap = v.gap;
  distance = v.distance;
  below = v.below;
  enough = omega (arith, v.enough);
  is_buf = v.is_buf;
}

buf_of-insert :
    (rc : ReplayCache) (other mac : List ℕ) (x : NodeBuf)
    → buf_of (insert other x rc) mac ≡ (if text_eq other mac then x else buf_of rc mac)
buf_of-insert rc other mac x = rw (lookup-insert other mac x rc) (ground arith)

abbrev pub next_buf : NodeBuf → ℕ → ℕ → NodeBuf
next_buf nb epoch seq =
    if any_match epoch seq nb.buf then nb else record_entry nb (record { epoch = epoch; seq = seq })

-- After a call the node's buffer is the old one or has the new entry; the others are as they were.
pub is_duplicate-buf :
    (rc : ReplayCache) (other mac : List ℕ) (epoch seq : ℕ)
    → buf_of (is_duplicate rc other epoch seq).0 mac
      ≡ (if text_eq other mac then next_buf (buf_of rc mac) epoch seq else buf_of rc mac)
unfolding is_duplicate
is_duplicate-buf rc other mac epoch seq = elim (Bool-cases (text_eq other mac)) [
  | inl e ↦
      let same : other ≡ mac = (text_eq_iff other mac).0 e in
      elim (Bool-cases (any_match epoch seq (buf_of rc other).buf)) [
        | inl d ↦ rw d (
            buf_of-insert rc other mac (buf_of rc other)
            ∙ rw (same, text_eq_refl mac) (rw (rw same at d) refl))
        | inr d ↦
            rw d
              (buf_of-insert rc other mac _ ∙ rw (same, text_eq_refl mac) (rw (rw same at d) refl))
      ]
  | inr e ↦ elim (Bool-cases (any_match epoch seq (buf_of rc other).buf)) [
    | inl d ↦ rw d (buf_of-insert rc other mac (buf_of rc other) ∙ rw e refl)
    | inr d ↦ rw d (buf_of-insert rc other mac _ ∙ rw e refl)
  ]
]

next_buf-keeps :
    (nb : NodeBuf) (e : RingEntry) (epoch seq left : ℕ)
    → Holds nb e (suc left)
    → Holds (next_buf nb epoch seq) e left
next_buf-keeps nb e epoch seq left v = elim (Bool-cases (any_match epoch seq nb.buf)) [
  | inl d ↦ rw d (weaken left v)
  | inr d ↦ rw d (record_entry-keeps nb e (record { epoch = epoch; seq = seq }) left v)
]

-- One more message, of this node or another.
is_duplicate-keeps :
    (rc : ReplayCache) (mac other : List ℕ) (epoch seq left : ℕ) (e : RingEntry)
    → Holds (buf_of rc mac) e (suc left)
    → Holds (buf_of (is_duplicate rc other epoch seq).0 mac) e left
is_duplicate-keeps rc mac other epoch seq left e v =
    rw (is_duplicate-buf rc other mac epoch seq) (elim (Bool-cases (text_eq other mac)) [
      | inl q ↦ rw q (next_buf-keeps (buf_of rc mac) e epoch seq left v)
      | inr q ↦ rw q (weaken left v)
    ])

feed-keeps :
    (rc : ReplayCache) (mac : List ℕ) (ms : List Message) (left : ℕ) (e : RingEntry)
    → length ms ≤ left
    → Holds (buf_of rc mac) e left
    → Holds (buf_of (feed rc ms) mac) e 0
unfolding feed
feed-keeps rc mac [] zero e h v = v
feed-keeps rc mac [] (suc left) e h v = feed-keeps rc mac [] left e (omega arith) (weaken left v)
feed-keeps rc mac (m ∷ ms) zero e h v = absurd (omega arith)
feed-keeps rc mac (m ∷ ms) (suc left) e h v =
    feed-keeps (is_duplicate rc m.sender m.epoch m.seq).0 mac ms left e (omega arith)
      (is_duplicate-keeps rc mac m.sender m.epoch m.seq left e v)

entry_matches_self :
    (epoch seq : ℕ)
    → 0 < epoch + seq
    → entry_matches epoch seq (record { epoch = epoch; seq = seq }) ≡ true
entry_matches_self epoch seq h = ground arith

pub any_match_zero : (epoch seq n : ℕ) → any_match epoch seq (replicate n zero_entry) ≡ false
unfolding any_match
any_match_zero epoch seq zero = refl
any_match_zero epoch seq (suc n) = ground (arith, any_match_zero epoch seq n)

pub is_duplicate-answer :
    (rc : ReplayCache) (mac : List ℕ) (epoch seq : ℕ)
    → (is_duplicate rc mac epoch seq).1 ≡ any_match epoch seq (buf_of rc mac).buf
unfolding is_duplicate
is_duplicate-answer rc mac epoch seq = elim (Bool-cases (any_match epoch seq (buf_of rc mac).buf)) [
  | inl d ↦ rw d refl
  | inr d ↦ rw d refl
]

-- A message that was accepted is taken for a duplicate when it comes again, as long as at most 31
-- messages, of any nodes, came between. (A message whose epoch and sequence number are both 0 is
-- never a duplicate.)
pub feed-is_duplicate :
    (rc : ReplayCache) (mac : List ℕ) (epoch seq : ℕ) (ms : List Message)
    → IsBuf (buf_of rc mac)
    → 0 < epoch + seq
    → length ms ≤ 31
    → (is_duplicate rc mac epoch seq).1 ≡ false
    → (is_duplicate (feed (is_duplicate rc mac epoch seq).0 ms) mac epoch seq).1 ≡ true
feed-is_duplicate rc mac epoch seq ms v pos few first =
    let new : any_match epoch seq (buf_of rc mac).buf ≡ false =
      sym (is_duplicate-answer rc mac epoch seq) ∙ first in
    let kept =
      feed-keeps (is_duplicate rc mac epoch seq).0 mac ms 31 (record { epoch = epoch; seq = seq })
        few (stored new) in
    is_duplicate-answer _ mac epoch seq
    ∙ any_match-get epoch seq kept.slot _ _ kept.holds_it (entry_matches_self epoch seq pos)
  where
    stored :
        any_match epoch seq (buf_of rc mac).buf ≡ false
        → Holds
            (buf_of (is_duplicate rc mac epoch seq).0 mac)
            (record { epoch = epoch; seq = seq })
            31
    stored new =
        rw (is_duplicate-buf rc mac mac epoch seq, text_eq_refl mac)
          (rw new (record_entry-Holds (buf_of rc mac) (record { epoch = epoch; seq = seq }) v))
