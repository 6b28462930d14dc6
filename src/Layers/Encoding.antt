-- ===== src/Layers/Encoding.antt =====
-- What AddrOffset keeps of the type, the offset and the mark that it is set from.
use mediaroom.Prelude.{ℕ, ◌+◌, ◌*◌, ◌%◌, ◌^◌, ◌≤◌, ◌≡◌, Bool, false, some, arith}
use mediaroom.Layers.{LayerType, code, encode, get_type, get_offset, get_mix, unset_mix}

-- The type and the mark come back; of the offset, that `set` admits up to 0x3FFF, the low eleven
-- bits.
pub encode_lem :
    (type : LayerType) (offset : ℕ) (mix : Bool)
    → offset ≤ 0x3FFF
    → (v : ℕ) × (encode type offset mix ≡ some v)
      × (get_type v ≡ code type)
      × (get_mix v ≡ mix)
      × (get_offset v ≡ offset % 2048)
unfolding encode get_type get_mix get_offset
encode_lem type offset mix h = (
  (offset * 32 + mediaroom.Layers.to_nat mix * 16 + code type) % 2 ^ 16,
  ground arith,
  ground arith,
  ground arith,
  ground arith,
)

-- `unsetMix` clears the mark and nothing else, and does so once.
pub unset_mix_lem :
    (v : ℕ)
    → (get_mix (unset_mix v) ≡ false)
      × (get_type (unset_mix v) ≡ get_type v)
      × (get_offset (unset_mix v) ≡ get_offset v)
      × (unset_mix (unset_mix v) ≡ unset_mix v)
unfolding unset_mix get_type get_mix get_offset
unset_mix_lem v = (ground arith, omega arith, omega arith, omega arith)
