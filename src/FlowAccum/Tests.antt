-- ===== src/FlowAccum/Tests.antt =====
-- The shared blocks of flows at concrete calls.
use mediaroom.Prelude.{◌≡◌, false, none, some, [], ◌∷◌}
use mediaroom.Block.{Block}
use mediaroom.FlowAccum.Calls.{put_packet, search, mark_expired, initial, run, run-initial}

abbrev block : Block
block = record {
  type = 3;
  block_size = 0;
  is_complete = false;
  update_timestamp = 0;
  contents = λ i. 0;
  data_len = 0;
}

run-initial_example :
    run some 5 (mark_expired (λ k. 7) ∷ search (λ k. k) ∷ put_packet 5 1 block ∷ []) initial ≡ none
run-initial_example =
    run-initial some 5 (mark_expired (λ k. 7) ∷ search (λ k. k) ∷ put_packet 5 1 block ∷ [])
