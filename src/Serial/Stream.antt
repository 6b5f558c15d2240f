-- ===== src/Serial/Stream.antt =====
-- What the reader makes of what the writer wrote.
use lattice_hub.Base.{
  ℕ, ◌/◌, ◌%◌, ◌≤◌, ◌<◌, ◌≡◌, refl, ap, ◌∙◌, false, Option, some, List, [], ◌∷◌, ◌++◌, arith, ltb,
  ◌==◌, length, ok, err, length-append, take-append, drop-append, All, drop,
}
use lattice_hub.Protocol.{MeshMessage, uint16, put_uint16}
use lattice_hub.Serial.{
  frame_bytes, read_frame, read_sized, decode, read_frames, too_large, after_frame,
}

module _ (marshal : MeshMessage → List ℕ) (unmarshal : List ℕ → Option MeshMessage) where
  ltb-append : (xs rest : List ℕ) → ltb (length (xs ++ rest)) (length xs) ≡ false
  ltb-append xs rest = ground (arith, length-append xs rest)

  read_sized-fits :
      (discard : ℕ) (xs rest : List ℕ) (m : MeshMessage)
      → unmarshal xs ≡ some m
      → 0 < length xs
      → length xs ≤ 4096
      → read_sized unmarshal discard (length xs) (xs ++ rest) ≡ (ok m, rest)
  unfolding read_sized
  read_sized-fits discard xs rest m codec pos le =
      let not_zero : (length xs == 0) ≡ false = ground arith in
      let not_large : ltb 4096 (length xs) ≡ false = ground arith in
      rw (not_zero, not_large, ltb-append xs rest, take-append xs rest, drop-append xs rest)
        (rw (codec, decode) refl)

  length_read : (n : ℕ) → n < 65536 → uint16 (n % 256) (n / 256 % 256) ≡ n
  unfolding uint16
  length_read n h = omega arith

  -- A frame of 1 to 4096 bytes is read back as the message that was written, and the reader stops
  -- exactly at its end.
  read_frame-frame_bytes :
      (discard : ℕ) (m : MeshMessage) (rest : List ℕ)
      → unmarshal (marshal m) ≡ some m
      → 0 < length (marshal m)
      → length (marshal m) ≤ 4096
      → read_frame unmarshal discard (frame_bytes marshal m ++ rest) ≡ (ok m, rest)
  unfolding read_frame frame_bytes put_uint16
  read_frame-frame_bytes discard m rest codec pos le =
      ap (λ (n : ℕ). read_sized unmarshal discard n (marshal m ++ rest))
        (length_read (length (marshal m)) (omega arith))
      ∙ read_sized-fits discard (marshal m) rest m codec pos le

  -- The writer has no upper limit: a message of 4097 to 65535 bytes is written, and the reader
  -- refuses it and drops bytes of its body.
  read_frame-too_large :
      (discard : ℕ) (m : MeshMessage) (rest : List ℕ)
      → 4096 < length (marshal m)
      → length (marshal m) < 65536
      → read_frame unmarshal discard (frame_bytes marshal m ++ rest)
        ≡ (err (too_large (length (marshal m))), drop discard (marshal m ++ rest))
  unfolding read_frame frame_bytes put_uint16
  read_frame-too_large discard m rest lo hi =
      ap (λ (n : ℕ). read_sized unmarshal discard n (marshal m ++ rest))
        (length_read (length (marshal m)) hi)
      ∙ refused discard (length (marshal m)) (marshal m ++ rest) lo
    where
      refused :
          (discard n : ℕ) (stream : List ℕ)
          → 4096 < n
          → read_sized unmarshal discard n stream ≡ (err (too_large n), drop discard stream)
      refused discard n stream lo = ground arith

  -- Every message is one that the codec reads back and the reader's limit admits.
  abbrev Fits : MeshMessage → Type 0
  Fits m = (unmarshal (marshal m) ≡ some m) × (0 < length (marshal m)) × (length (marshal m) ≤ 4096)

  abbrev pub stream_of : List MeshMessage → List ℕ
  stream_of [] = []
  stream_of (m ∷ ms) = frame_bytes marshal m ++ stream_of ms

  -- Frames that the codec reads back and that have 1 to 4096 bytes each come out of a stream as the
  -- messages that went in, all of them and in order, and nothing is left over.
  pub read_frames-stream_of :
      (discard : ℕ) (ms : List MeshMessage)
      → All Fits ms
      → read_frames unmarshal discard (length ms) (stream_of ms) ≡ (ms, [])
  unfolding read_frames
  read_frames-stream_of discard [] h = refl
  read_frames-stream_of discard (m ∷ ms) h =
      let (codec, pos, le) = h.0 in
      ap (after_frame unmarshal (read_frames unmarshal discard (length ms)))
        (read_frame-frame_bytes discard m (stream_of ms) codec pos le)
      ∙ ap (λ (r : List MeshMessage × List ℕ). (m ∷ r.0, r.1))
          (read_frames-stream_of discard ms h.1)
