-- ===== src/FlowKey/Parts.antt =====
-- What comes back of a flow key, and the order of the keys.
use mediaroom.Prelude.{ℕ, ◌+◌, ◌*◌, ◌^◌, ◌<◌, ◌≡◌, ◌⊎◌, ◌↔◌, Bool, false, some, arith}
use mediaroom.FlowKey.{side_bit, prepare_key, get_flow_idx, get_flow_side, get_seq}

-- The sequence number and the index come back from a key, which fits into 64 bits; of the side,
-- `false` comes back whatever it was.
pub prepare_key_lem :
    (seq idx : ℕ) (side : Bool)
    → seq < 2 ^ 32
    → idx < 0x7FFFFFFF
    → (k : ℕ) × (prepare_key seq idx side ≡ some k)
      × (k < 2 ^ 64)
      × (get_seq k ≡ seq)
      × (get_flow_idx k ≡ idx)
      × (get_flow_side k ≡ false)
unfolding prepare_key get_flow_idx get_flow_side get_seq
prepare_key_lem seq idx side a b = (
  (idx + side_bit side) * 2 ^ 32 + seq,
  ground arith,
  ground arith,
  ground arith,
  ground arith,
  ground arith,
)

-- A key is before another one when its flow is, where the flows of one side come first, or when
-- the flow is the same and the sequence number is smaller.
pub prepare_key-order :
    (seq seq' idx idx' : ℕ) (side side' : Bool) {k k' : ℕ}
    → seq < 2 ^ 32
    → seq' < 2 ^ 32
    → prepare_key seq idx side ≡ some k
    → prepare_key seq' idx' side' ≡ some k'
    → (k < k') ↔ (
        (idx + side_bit side < idx' + side_bit side')
        ⊎ ((idx ≡ idx') × (side ≡ side') × (seq < seq')))
unfolding prepare_key
prepare_key-order seq seq' idx idx' side side' a b e e' = (λ h. ground arith, λ h. ground arith)
