-- ===== src/FlowKey/Tests.antt =====
-- Flow keys at concrete inputs.
use mediaroom.Prelude.{ℕ, ◌+◌, ◌<◌, ◌≡◌, ◌⊎◌, ◌↔◌, refl, false, arith}
use mediaroom.FlowKey.{side_bit, prepare_key}
use mediaroom.FlowKey.Parts.{prepare_key-order}

abbrev seven : ℕ
seven = 7

prepare_key-order_example : (30064771172 < 30064771272) ↔ (
    (7 + side_bit false < 7 + side_bit false) ⊎ ((seven ≡ seven) × (false ≡ false) × (100 < 200)))
unfolding prepare_key
prepare_key-order_example =
    prepare_key-order 100 200 7 7 false false (omega arith) (omega arith) refl refl
