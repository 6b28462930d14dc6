-- ===== src/Block/Tests.antt =====
-- Blocks at concrete inputs.
use mediaroom.Prelude.{false}
use mediaroom.Block.{Block}

abbrev block : Block
block = record {
  type = 3;
  block_size = 10;
  is_complete = false;
  update_timestamp = 5;
  contents = λ i. 0;
  data_len = 8000;
}
