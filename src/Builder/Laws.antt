-- ===== src/Builder/Laws.antt =====
-- What the built frames carry.
use lattice_hub.Base.{
  ℕ, ◌≡◌, refl, List, ◌∷◌, ◌++◌, length, replicate, six-elements, ◌≢◌, ◌≤◌, ok, err, ◌-◌, arith,
  ◌⊎◌, ◌<◌, dec_le, inl, copy-replicate, inr,
}
use lattice_hub.Protocol.Op
use lattice_hub.Protocol.AdapterType
use lattice_hub.Builder.{
  mac_payload, build_config_set, build_broadcast, MeshMessage, bad_mac_length, low_byte,
  data_too_long, config_set_frame, broadcast_frame,
}

-- The payload of OP_CONFIG_SET and OP_NODE_ID_SET: 64 bytes that hold the opcode, the address and
-- one argument, and zeros behind them.
mac_payload_layout :
    (op : ℕ) (mac : List ℕ) (b : ℕ)
    → length mac ≡ 6
    → mac_payload op mac b ≡ (op ∷ mac) ++ b ∷ replicate 56 0
mac_payload_layout op mac b h = let (a0, a1, a2, a3, a4, a5, e) = six-elements mac h in rw e refl

-- ConfigureNode's frame reaches the node that it names: it is built exactly for a six-byte address,
-- and then is addressed to it and carries the opcode, the address and the low byte of the type.
build_config_set_lem :
    (target : List ℕ) (adapter_type : ℕ)
    → length target ≡ 6
    → (m : MeshMessage) × (build_config_set target adapter_type ≡ ok m)
      × (m.target ≡ target)
      × (m.data_type ≡ AdapterType.serial)
      × (m.data_bytes ≡ (Op.config_set ∷ target) ++ low_byte adapter_type ∷ replicate 56 0)
unfolding build_config_set
build_config_set_lem target t h = (
  config_set_frame target t,
  rw h refl,
  refl,
  refl,
  mac_payload_layout Op.config_set target (low_byte t) h,
)

build_config_set_refused :
    (target : List ℕ) (adapter_type : ℕ)
    → length target ≢ 6
    → build_config_set target adapter_type ≡ err (bad_mac_length (length target))
unfolding build_config_set
build_config_set_refused target t h = ground arith

-- A broadcast payload is the data given, padded with zeros to 64 bytes, and data of more than 64
-- bytes is refused, never cut.
build_broadcast_total :
    (data_type : ℕ) (bytes : List ℕ)
    → ((length bytes ≤ 64)
        × ((m : MeshMessage) × (build_broadcast data_type bytes ≡ ok m)
            × (m.data_bytes ≡ bytes ++ replicate (64 - length bytes) 0)
            × (m.data_type ≡ data_type)))
      ⊎ ((64 < length bytes)
          × (build_broadcast data_type bytes ≡ err (data_too_long (length bytes))))
unfolding build_broadcast
build_broadcast_total data_type bytes = elim (dec_le (length bytes) 64) [
  | yes h ↦
      inl (h, (broadcast_frame data_type bytes, ground arith, copy-replicate 64 0 bytes h, refl))
  | no h ↦ inr (omega arith, ground arith)
]
