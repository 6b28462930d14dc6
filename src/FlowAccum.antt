-- ===== src/FlowAccum.antt =====
-- lib/libshared/SharedFlowAccum.cpp: the blocks of all flows in a multimap of shared memory, that
-- one process writes and another reads. The mutex of the map is not recursive. A result of none
-- is a call that never returns, or that reads behind the end of the map. A loop that reads the
-- clock in every round gets what it reads as a function of the round.
pub mod Reader
pub mod Calls
mod Tests
use mediaroom.Prelude.{
  ℕ, zero, suc, ◌+◌, ◌-◌, Bool, true, false, not, ◌&&◌, Option, none, some, List, [], ◌∷◌, ltb,
  ◌==◌, if◌then◌else◌, length, get_elem?,
}
use mediaroom.Block.{Block, expired}

-- The multimap as a list in its order, and `it_read` as a position of it, the length for `end()`.
-- `active` has the flows of `_active_flows_ctxs`.
pub record Accum : Type 0 where
  pub nodes : List (ℕ × Block)
  pub locked : Bool
  pub it_read : ℕ
  pub active : List ℕ

unfoldable pub lock : Accum → Option Accum
lock s = if s.locked then none else some (record s { locked = true })

abbrev pub unlock : Accum → Accum
unlock s = record s { locked = false }

-- Behind the nodes with the same key.
pub place : ℕ → Block → List (ℕ × Block) → List (ℕ × Block)
place key b [] = (key, b) ∷ []
place key b ((k, c) ∷ nodes) =
    if ltb key k then (key, b) ∷ (k, c) ∷ nodes else (k, c) ∷ place key b nodes

-- How many nodes are before the first with a key that is not smaller: lower_bound.
unfoldable pub lower_bound : ℕ → List (ℕ × Block) → ℕ
lower_bound key [] = 0
lower_bound key ((k, c) ∷ nodes) = if ltb k key then suc (lower_bound key nodes) else 0

abbrev upper_bound : ℕ → List (ℕ × Block) → ℕ
upper_bound key nodes = lower_bound (key + 1) nodes

-- SharedMultimap::emplace. `it_read` goes on pointing to its node.
pub emplace : ℕ → Block → Accum → Option Accum
unfolding lock place lower_bound
emplace key b s = elim (lock s) [
  | none ↦ none
  | some l ↦ some (
      unlock (record l {
        nodes = place key b l.nodes;
        it_read = if ltb l.it_read (upper_bound key l.nodes) then l.it_read else l.it_read + 1;
      }))
]

-- put_start_flow_block up to its unlock, and the new flow.
pub put_start_flow_block : ℕ → ℕ → Block → Accum → Option Accum
unfolding lock emplace
put_start_flow_block key idx b s = elim (lock s) [
  | none ↦ none
  | some l ↦ elim (emplace key b l) [
    | none ↦ none
    | some e ↦ some (record (unlock e) { active = idx ∷ e.active })
  ]
]

pub is_active : ℕ → List ℕ → Bool
is_active idx [] = false
is_active idx (i ∷ is) = elim (i == idx) [ true ↦ true | false ↦ is_active idx is ]

-- put, where `go_on` is what it does for a flow that is active.
pub put : (Accum → Option Accum) → ℕ → ℕ → Block → Accum → Option Accum
unfolding lock is_active put_start_flow_block
put go_on key idx b s = elim (lock s) [
  | none ↦ none
  | some l ↦ elim (is_active idx l.active) [
    | true ↦ go_on l
    | false ↦ elim (put_start_flow_block key idx b l) [ none ↦ none | some started ↦ go_on started ]
  ]
]

-- What `get` may hand out: a complete block that has expired.
pub is_ready : ℕ → Option (ℕ × Block) → Bool
is_ready now none = false
is_ready now (some (key, b)) = b.is_complete && expired now b

-- What the rounds behind the first one read of a clock.
abbrev pub later : (ℕ → ℕ) → ℕ → ℕ
later clock round = clock (suc round)

-- The loop of `get`, on fuel: the position that is found, and `it_read`.
pub get_loop : ℕ → (ℕ → ℕ) → List (ℕ × Block) → ℕ → ℕ → Option (Option ℕ × ℕ)
unfolding is_ready
get_loop zero clock nodes last pos = none
get_loop (suc fuel) clock nodes last pos =
    let at = if pos == length nodes then 0 else pos in
    let more = get_loop fuel (later clock) nodes last (at + 1) in
    if is_ready (clock 0) (get_elem? nodes at)
    then some (some at, at + 1)
    else if at + 1 == last
    then some (none, at + 1)
    else more

abbrev pub reads : Accum → Option (Option ℕ × ℕ) → Option (Option ℕ × Accum)
reads l none = none
reads l (some (found, pos)) = some (found, unlock (record l { it_read = pos }))

-- An empty map is left locked.
unfoldable pub get : ℕ → (ℕ → ℕ) → Accum → Option (Option ℕ × Accum)
unfolding lock get_loop
get fuel clock s = elim (lock s) [
  | none ↦ none
  | some l ↦
      if length l.nodes == 0
      then some (none, l)
      else reads l (get_loop fuel clock l.nodes l.it_read l.it_read)
]

unfoldable pub remove : ℕ → List (ℕ × Block) → List (ℕ × Block)
remove i [] = []
remove zero (n ∷ nodes) = nodes
remove (suc i) (n ∷ nodes) = n ∷ remove i nodes

-- `it_read` goes on pointing to its node, or to the next one where that node is erased.
unfoldable pub erase : ℕ → Accum → Option Accum
unfolding lock remove
erase i s = elim (lock s) [
  | none ↦ none
  | some l ↦ some (
      unlock (record l {
        nodes = remove i l.nodes;
        it_read = if ltb i l.it_read then l.it_read - 1 else l.it_read;
      }))
]

-- Both return with the lock held where the map is empty.
unfoldable pub get_lower_bound_block : ℕ → Accum → Option ((Bool × ℕ) × Accum)
unfolding lock lower_bound
get_lower_bound_block key s = elim (lock s) [
  | none ↦ none
  | some l ↦
      if length l.nodes == 0
      then some ((false, 0), l)
      else let found = lower_bound key l.nodes in
        some ((not (found == length l.nodes), found), unlock l)
]

pub get_next_block : ℕ → Accum → Option ((Bool × ℕ) × Accum)
unfolding lock
get_next_block i s = elim (lock s) [
  | none ↦ none
  | some l ↦
      if length l.nodes == 0
      then some ((false, 0), l)
      else let following = if i + 1 == length l.nodes then 0 else i + 1 in
        some ((not (following == i), following), unlock l)
]

-- The node `i` becomes complete now.
pub mark : ℕ → ℕ → List (ℕ × Block) → List (ℕ × Block)
mark now i [] = []
mark now zero ((key, b) ∷ nodes) =
    (key, record b { is_complete = true; update_timestamp = now }) ∷ nodes
mark now (suc i) (n ∷ nodes) = n ∷ mark now i nodes

pub is_open : Option (ℕ × Block) → Bool
is_open none = false
is_open (some (key, b)) = not b.is_complete

-- The loop of markExpiredBlocks from the position `i`. It asks the block at `it_read` whether it
-- has expired; none where there is no such block. A round reads the clock for the question, and
-- once more for the mark.
pub mark_loop : ℕ → (ℕ → ℕ) → ℕ → ℕ → List (ℕ × Block) → Option (List (ℕ × Block))
unfolding mark is_open
mark_loop zero clock i it_read nodes = some nodes
mark_loop (suc rounds) clock i it_read nodes =
    let kept = mark_loop rounds (later (later clock)) (i + 1) it_read nodes in
    let marked = mark_loop rounds (later (later clock)) (i + 1) it_read (mark (clock 1) i nodes) in
    if is_open (get_elem? nodes i)
    then elim (get_elem? nodes it_read) [
      | none ↦ none
      | some (key, b) ↦ if expired (clock 0) b then marked else kept
    ]
    else kept

pub mark_expired_blocks : (ℕ → ℕ) → Accum → Option Accum
unfolding lock mark_loop
mark_expired_blocks clock s = elim (lock s) [
  | none ↦ none
  | some l ↦ elim (mark_loop (length l.nodes) clock 0 l.it_read l.nodes) [
    | none ↦ none
    | some nodes ↦ some (unlock (record l { nodes = nodes }))
  ]
]
