-- ===== src/Serial/Tests.antt =====
-- Framing with a codec that carries one field.
use lattice_hub.Base.{
  zero, suc, ◌+◌, ◌<◌, codes, ok, err, ℕ, ◌≡◌, refl, Option, none, some, List, [], ◌∷◌, arith,
}
use lattice_hub.Serial.Transport.{open_transport, open_transport-tcp, Fail, tcp_port, dial_failed}
use lattice_hub.Serial.{read_frames}
use lattice_hub.Protocol.{MeshMessage, empty_message}
use lattice_hub.Serial.Stream.{stream_of, read_frames-stream_of}

-- The codec of these tests: the bytes of a message are its data, behind one byte.
abbrev encode : MeshMessage → List ℕ
encode m = 1 ∷ m.data_bytes

abbrev decoded : List ℕ → Option MeshMessage
decoded [] = none
decoded (b ∷ bytes) = some (record empty_message { data_bytes = bytes })

abbrev message : MeshMessage
message = record empty_message { data_bytes = 5 ∷ 6 ∷ [] }

read_frames-stream_of_example :
    read_frames decoded 0 1 (stream_of encode decoded (message ∷ [])) ≡ (message ∷ [], [])
read_frames-stream_of_example =
    read_frames-stream_of encode decoded 0 (message ∷ []) ((refl, omega arith, omega arith), tt)

-- A simulator that listens from the third attempt on.
abbrev late : ℕ → Option (List ℕ)
late zero = some (codes "refused")
late (suc zero) = some (codes "refused")
late (suc (suc n)) = none

open_transport-tcp_example :
    ((k : ℕ)
      → k < 30
      → late k ≡ none
      → Fail late 0 k
      → open_transport late none (codes "tcp://sim:9000")
        ≡ (ok (tcp_port (codes "sim:9000")), k + 1))
    × ((e : List ℕ)
        → Fail late 0 29
        → late 29 ≡ some e
        → open_transport late none (codes "tcp://sim:9000") ≡ (err (dial_failed e), 30))
open_transport-tcp_example = open_transport-tcp late none (codes "sim:9000")

-- It is reached by the third.
reached : open_transport late none (codes "tcp://sim:9000") ≡ (ok (tcp_port (codes "sim:9000")), 3)
unfolding open_transport
reached = refl
