-- ===== src/Distributor/Tests.antt =====
-- Two handlers and the blocks of three flows, and the theorem at them.
use mediaroom.Prelude.{ℕ, ◌+◌, ◌*◌, ◌^◌, ◌≡◌, refl, true, false, none, some, List, [], ◌∷◌, arith}
use mediaroom.Block.{Block}
use mediaroom.FlowKey.{get_flow_idx}
use mediaroom.FlowAccum.{Accum, remove, lock, get_lower_bound_block, lower_bound, erase}
use mediaroom.Distributor.{
  Distributor, lookup, handle_block, remaining_flows, remove_old_flows, run_flow, exired,
  start_flow,
}
use mediaroom.Distributor.Balance.{Shared, flows_of}

abbrev block : ℕ → Block
block type = record {
  type = type;
  block_size = 0;
  is_complete = true;
  update_timestamp = 1000;
  contents = λ p. 0;
  data_len = 8;
}

abbrev two : Distributor
two = record {
  handlers = λ i. [];
  count = 2;
  current = 2;
  assigned = [];
  idle_check_ts = 0;
  check_ts = 0;
}

two-Shared : Shared two
unfolding flows_of lookup
two-Shared = record {
  rounds = 0;
  inside = omega arith;
  even = λ i h. ground arith;
  known = λ i idx h. refl;
  placed = λ idx i e. ground (arith, e);
}

-- The blocks of the flows 5, 6 and 7, one of them twice, and one that does not start a flow.
abbrev blocks : List (ℕ × Block)
blocks =
    (5 * 2 ^ 32, block start_flow)
    ∷ (6 * 2 ^ 32, block start_flow)
    ∷ (5 * 2 ^ 32 + 9, block start_flow)
    ∷ (8 * 2 ^ 32, block 3)
    ∷ (7 * 2 ^ 32, block start_flow)
    ∷ []

-- The constructor makes no handlers: the first flow is pushed behind the end of the list.
no_handlers :
    handle_block 2000 (5 * 2 ^ 32) (block start_flow) (record two { count = 0; current = 0 }) ≡ none
unfolding handle_block lookup get_flow_idx
no_handlers = refl

-- A flow that a handler knows counts as expired, however new it is.
abbrev busy : Distributor
busy = record two {
  handlers = λ i. (5, record { isn = 0; last_seq = 0; update_time = 6000000 }) ∷ [];
  assigned = (5, 0) ∷ [];
}

new_flow_removed :
    remove_old_flows 6000000 busy ≡ some (record busy { assigned = []; check_ts = 6000000 })
unfolding remaining_flows lookup remove_old_flows
new_flow_removed = refl

-- A flow that none knows is looked up behind the end.
unknown_flow : exired 6 (busy.handlers 0) ≡ none
unfolding lookup
unknown_flow = refl

-- The thread of a handler goes on from a block that it has erased.
abbrev accum : Accum
accum = record {
  nodes = (5 * 2 ^ 32, block start_flow) ∷ [];
  locked = false;
  it_read = 0;
  active = [];
}

run_goes_wrong : run_flow 5 accum ≡ none
unfolding lock lower_bound get_lower_bound_block remove erase run_flow
run_goes_wrong = refl
