-- ===== src/Protocol/Codec.antt =====
-- The byte encodings of integers and what undoes them.
use lattice_hub.Base.{ℕ, ◌<◌, ◌≡◌, arith}
use lattice_hub.Protocol.{sign_extend, low_byte, put_uint32, uint32}

-- The byte of an adapter type comes back from int32(int8(b)).
low_byte-sign_extend : (b : ℕ) → b < 256 → low_byte (sign_extend b) ≡ b
unfolding low_byte sign_extend
low_byte-sign_extend b h = ground arith

pub uint32-put_uint32 : (n : ℕ) → n < 4294967296 → uint32 (put_uint32 n) ≡ n
unfolding uint32 put_uint32
uint32-put_uint32 n h = omega arith
