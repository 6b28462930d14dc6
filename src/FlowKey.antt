-- ===== src/FlowKey.antt =====
-- lib/libshared/SharedFlowAccum.h: the key under which the blocks of a flow are kept, a number of
-- 64 bits made of the side, the index of the flow and the sequence number.
pub mod Parts
mod Tests
use mediaroom.Prelude.{
  ℕ, ◌+◌, ◌*◌, ◌/◌, ◌%◌, ◌^◌, Bool, true, false, not, Option, none, some, ltb, ◌==◌, if◌then◌else◌,
}

abbrev pub side_bit : Bool → ℕ
side_bit true = 2 ^ 31
side_bit false = 0

-- FlowSeqKeyCtx::prepare; none where the assertion on the index fails. The index has at most 31
-- bits, so that `|` is a sum.
pub prepare_key : ℕ → ℕ → Bool → Option ℕ
prepare_key seq idx side =
    if ltb idx 0x7FFFFFFF then some ((idx + side_bit side) * 2 ^ 32 + seq) else none

unfoldable pub get_flow_idx : ℕ → ℕ
get_flow_idx key = key / 2 ^ 32 % 2 ^ 31

-- (key & 0x80000000) >> 32, as a bool
pub get_flow_side : ℕ → Bool
get_flow_side key = not (key / 2 ^ 31 % 2 * 2 ^ 31 / 2 ^ 32 == 0)

pub get_seq : ℕ → ℕ
get_seq key = key % 2 ^ 32
