-- ===== src/Distributor.antt =====
-- app/SharedFlowDistributor.cpp and SharedFlowHandler.cpp: the flows that a reader finds are handed
-- to handlers in turn. The list of handlers is a function with their number; a result of none is
-- an access behind the end of a list or a map, or of a block that was erased.
pub mod Known
pub mod Balance
mod Tests
use mediaroom.Prelude.{
  ℕ, zero, suc, ◌+◌, ◌-◌, ◌*◌, ◌%◌, ◌^◌, Bool, true, false, not, ◌&&◌, Option, none, some, List, [],
  ◌∷◌, ◌++◌, ltb, leb, ◌==◌, if◌then◌else◌, length, get_elem?,
}
use mediaroom.Block.{Block}
use mediaroom.FlowKey.{get_flow_idx}
use mediaroom.FlowAccum.{Accum, get, erase, get_lower_bound_block, later}

-- FlowContext
pub record Context : Type 0 where
  pub isn : ℕ
  pub last_seq : ℕ
  pub update_time : ℕ

-- `_flow_ctx_map` of a SharedFlowHandler
abbrev pub Handler : Type 0
Handler = List (ℕ × Context)

module _ {ℓ} {A : Type ℓ} where
  unfoldable pub lookup : ℕ → List (ℕ × A) → Option A
  lookup k [] = none
  lookup k ((j, a) ∷ m) = let later = lookup k m in if j == k then some a else later

  unfoldable pub without : ℕ → List (ℕ × A) → List (ℕ × A)
  without k [] = []
  without k ((j, a) ∷ m) = let rest = without k m in if j == k then m else (j, a) ∷ rest

-- FlowContext's constructor
abbrev pub new_context : ℕ → ℕ → Context
new_context now isn = record { isn = isn; last_seq = isn; update_time = now }

-- updateLastSeq
abbrev pub update_last_seq : ℕ → ℕ → Context → Context
update_last_seq now new_seq c = record c { last_seq = new_seq; update_time = now }

-- SharedFlowHandler::push: get_isn reads the header of BlockL4Wrapper, at the place of `type`.
abbrev pub push_found : ℕ → ℕ → Block → Option Context → Handler → Handler
push_found now idx b (some c) h = h
push_found now idx b none h = h ++ ((idx, new_context now b.type) ∷ [])

unfoldable pub push : ℕ → ℕ → Block → Handler → Handler
push now key b h = let idx = get_flow_idx key in push_found now idx b (lookup idx h) h

-- exired: none where end() is dereferenced.
abbrev pub exired : ℕ → Handler → Option Bool
exired idx h = elim (lookup idx h) [ none ↦ none | some c ↦ some true ]

abbrev pub remove : ℕ → Handler → Handler
remove idx h = without idx h

-- What run does for one flow: it erases the first block from the key of the flow on, and goes on
-- from the place of that block. `some none` is where no block is found.
abbrev pub run_block : Option ((Bool × ℕ) × Accum) → Option Accum
run_block none = none
run_block (some ((false, at), s)) = some s
run_block (some ((true, at), s)) = elim (erase at s) [ none ↦ none | some erased ↦ none ]

pub run_flow : ℕ → Accum → Option Accum
run_flow idx s = run_block (get_lower_bound_block (idx * 2 ^ 32) s)

-- One pass of run over the flows of a handler.
pub run_pass : Handler → Accum → Option Accum
run_pass [] s = some s
run_pass ((idx, c) ∷ h) s = elim (run_flow idx s) [ none ↦ none | some r ↦ run_pass h r ]

-- SharedFlowDistributor: `current` is the place of `_it_curr_flow_handler`, `count` that of end(),
-- and `assigned` is `_flow_handlers_map`.
pub record Distributor : Type 0 where
  pub handlers : ℕ → Handler
  pub count : ℕ
  pub current : ℕ
  pub assigned : List (ℕ × ℕ)
  pub idle_check_ts : ℕ
  pub check_ts : ℕ

-- Block::BlockType::START_FLOW
abbrev pub start_flow : ℕ
start_flow = 5

abbrev pub set_handler : (ℕ → Handler) → ℕ → Handler → ℕ → Handler
set_handler handlers i h j = if i == j then h else handlers j

-- it_flow_handler->second->push(it_block)
abbrev pub push_to : ℕ → ℕ → Block → ℕ → Distributor → Option Distributor
push_to now key b i d =
    if ltb i d.count
    then some (record d { handlers = set_handler d.handlers i (push now key b (d.handlers i)) })
    else none

-- The next handler in turn, for a flow that has none.
abbrev pub next_handler : Distributor → ℕ
next_handler d = if d.current == d.count then 0 else d.current

abbrev pub assign_next : ℕ → ℕ → Block → Distributor → Option Distributor
assign_next now key b d =
    let i = next_handler d in
    push_to now key b i
      (record d { assigned = d.assigned ++ ((get_flow_idx key, i) ∷ []); current = i + 1 })

abbrev pub handle_found : ℕ → ℕ → Block → Option ℕ → Distributor → Option Distributor
handle_found now key b (some i) d = push_to now key b i d
handle_found now key b none d = assign_next now key b d

-- What handlePkts does with a block.
unfoldable pub handle_block : ℕ → ℕ → Block → Distributor → Option Distributor
handle_block now key b d =
    if b.type == start_flow
    then handle_found now key b (lookup (get_flow_idx key) d.assigned) d
    else some d

abbrev pub then_blocks :
    (Distributor → Option Distributor) → Option Distributor → Option Distributor
then_blocks go none = none
then_blocks go (some d) = go d

-- handlePkts on the blocks that get hands out, with the time at each of them.
unfoldable pub handle_blocks : (ℕ → ℕ) → List (ℕ × Block) → Distributor → Option Distributor
handle_blocks clock [] d = some d
handle_blocks clock ((key, b) ∷ bs) d =
    then_blocks (handle_blocks (later clock) bs) (handle_block (clock 0) key b d)

-- What a number of turns of handlePkts leaves, and whether it has ended.
abbrev pub Handled : Type 0
Handled = Option (Bool × Accum × Distributor)

abbrev pub go_on : (Distributor → Handled) → Option Distributor → Handled
go_on go none = none
go_on go (some d) = go d

-- *it_block, at the place that get found
pub handle_got :
    ℕ → (Accum → Distributor → Handled) → Option (Option ℕ × Accum) → Distributor → Handled
unfolding handle_block
handle_got now go none d = none
handle_got now go (some (none, s)) d = some (true, s, d)
handle_got now go (some (some at, s)) d = elim (get_elem? s.nodes at) [
  | none ↦ none
  | some (key, b) ↦ go_on (go s) (handle_block now key b d)
]

-- handlePkts for at most `turns` turns; `fuel` is that of the searches of get. The clock is read by
-- the turn: first what a new context gets, and then by the round of the search.
pub handle_pkts : ℕ → ℕ → (ℕ → ℕ → ℕ) → Accum → Distributor → Handled
unfolding handle_got
handle_pkts zero fuel clock s d = some (false, s, d)
handle_pkts (suc turns) fuel clock s d =
    handle_got (clock 0 0) (handle_pkts turns fuel (λ turn. clock (suc turn)))
      (get fuel (later (clock 0)) s) d

-- FLOW_HANDLER_EXIPATION_INTERVAL and IDLE_INTERVAL, in microseconds
abbrev pub check_interval : ℕ
check_interval = 5000000

abbrev pub idle_interval : ℕ
idle_interval = 1000000

-- The difference of two times, of 64 bits
abbrev pub since : ℕ → ℕ → ℕ
since now ts = (now + 2 ^ 64 - ts) % 2 ^ 64

-- The entries that the loop of removeOldFlows leaves.
abbrev pub keep_entry : ℕ → ℕ → Option Bool → Option (List (ℕ × ℕ)) → Option (List (ℕ × ℕ))
keep_entry idx i none rest = none
keep_entry idx i (some expired) none = none
keep_entry idx i (some true) (some rest) = some rest
keep_entry idx i (some false) (some rest) = some ((idx, i) ∷ rest)

unfoldable pub remaining_flows : (ℕ → Handler) → List (ℕ × ℕ) → Option (List (ℕ × ℕ))
remaining_flows handlers [] = some []
remaining_flows handlers ((idx, i) ∷ assigned) =
    keep_entry idx i (exired idx (handlers i)) (remaining_flows handlers assigned)

abbrev pub with_assigned : ℕ → Distributor → Option (List (ℕ × ℕ)) → Option Distributor
with_assigned now d none = none
with_assigned now d (some assigned) = some (record d { assigned = assigned; check_ts = now })

pub remove_old_flows : ℕ → Distributor → Option Distributor
remove_old_flows now d =
    if ltb (since now d.check_ts) check_interval
    then some d
    else with_assigned now d (remaining_flows d.handlers d.assigned)

pub idle : ℕ → Distributor → Distributor
idle now d =
    if ltb (since now d.idle_check_ts) idle_interval then d else record d { idle_check_ts = now }
