-- ===== src/Serial.antt =====
-- Framing on the serial link: WriteFrame and ReadFrame of server/orchestrator/mesh/serial.go. The
-- protobuf library is outside the repository: `marshal` and `unmarshal` are parameters. A stream is
-- the list of bytes that the port will still deliver before it fails or ends. Opening the port is
-- in Serial.Transport.
use lattice_hub.Base.{
  ℕ, zero, suc, ◌+◌, Option, none, some, List, [], ◌∷◌, ◌++◌, ltb, ◌==◌, if◌then◌else◌, length,
  Result, ok, err, take, drop,
}
pub mod Stream
pub mod Transport
mod Tests
use lattice_hub.Protocol.{MeshMessage, put_uint16, uint16}

pub data ReadError : Type 0 where
  no_header no_body : ReadError
  zero_length : ReadError
  too_large : ℕ → ReadError
  bad_message : ReadError

-- The longest frame that the reader takes.
abbrev max_frame : ℕ
max_frame = 4096

module _ (marshal : MeshMessage → List ℕ) where
  -- The bytes that WriteFrame puts on the port: the length, cut to 16 bits, and the message.
  unfoldable pub frame_bytes : MeshMessage → List ℕ
  frame_bytes m = put_uint16 (length (marshal m)) ++ marshal m

module _ (unmarshal : List ℕ → Option MeshMessage) where
  abbrev decode : List ℕ → Result ReadError MeshMessage
  decode bytes = elim (unmarshal bytes) [ none ↦ err bad_message | some m ↦ ok m ]

  -- io.ReadFull of `n` bytes, and what is left: a stream that is too short is used up.
  abbrev read_body : ℕ → List ℕ → Result ReadError MeshMessage × List ℕ
  read_body n stream =
      if ltb (length stream) n then (err no_body, []) else (decode (take n stream), drop n stream)

  -- `discard` is how many of the 100 bytes asked for the port hands over after a length that is too
  -- large.
  unfoldable pub read_sized : ℕ → ℕ → List ℕ → Result ReadError MeshMessage × List ℕ
  read_sized discard n stream =
      if n == 0
      then (err zero_length, stream)
      else if ltb max_frame n
      then (err (too_large n), drop discard stream)
      else read_body n stream

  unfoldable pub read_frame : ℕ → List ℕ → Result ReadError MeshMessage × List ℕ
  unfolding read_sized
  read_frame discard (a ∷ b ∷ stream) = read_sized discard (uint16 a b) stream
  read_frame discard stream = (err no_header, [])

  abbrev pub after_frame :
      (List ℕ → List MeshMessage × List ℕ)
      → Result ReadError MeshMessage × List ℕ
      → List MeshMessage × List ℕ
  after_frame more (err e, rest) = ([], rest)
  after_frame more (ok m, rest) = (m ∷ (more rest).0, (more rest).1)

  -- Up to so many frames, one after the other, until one is refused.
  unfoldable pub read_frames : ℕ → ℕ → List ℕ → List MeshMessage × List ℕ
  read_frames discard zero stream = ([], stream)
  read_frames discard (suc n) stream =
      after_frame (read_frames discard n) (read_frame discard stream)
