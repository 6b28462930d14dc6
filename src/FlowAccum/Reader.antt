-- ===== src/FlowAccum/Reader.antt =====
-- What the reader and the writer do with the map that is empty, and which blocks are marked.
use mediaroom.Prelude.{
  ℕ, zero, suc, ◌+◌, ◌≡◌, inl, inr, refl, true, false, Option, none, some, List, [], length,
  get_elem?, Bool-cases,
}
use mediaroom.Block.{Block, expired}
use mediaroom.FlowAccum.{
  Accum, lock, mark_loop, is_open, mark_expired_blocks, put_start_flow_block, is_active, put, get,
  later,
}

-- A search in an empty map leaves it locked, and finds nothing.
pub get_empty :
    (fuel : ℕ) (clock : ℕ → ℕ) (s : Accum)
    → s.locked ≡ false
    → s.nodes ≡ []
    → get fuel clock s ≡ some (none, record s { locked = true })
unfolding get lock
get_empty fuel clock s free nodes = rw (free, nodes) refl

-- The first packet of a flow is never put: `put` holds the mutex, and put_start_flow_block waits
-- for it, whatever the map and whatever is done for an active flow.
pub put_new_flow :
    (go_on : Accum → Option Accum) (key idx : ℕ) (b : Block) (s : Accum)
    → is_active idx s.active ≡ false
    → put go_on key idx b s ≡ none
unfolding put lock put_start_flow_block
put_new_flow go_on key idx b s fresh = elim (Bool-cases s.locked) [
  | inl e ↦ rw (e) refl
  | inr e ↦ rw (e, put, fresh) refl
]

keep-nodes :
    (rounds : ℕ) (clock : ℕ → ℕ) (i it_read : ℕ) (nodes : List (ℕ × Block)) {key : ℕ} {b : Block}
    → get_elem? nodes it_read ≡ some (key, b)
    → ((k : ℕ) → expired (clock k) b ≡ false)
    → mark_loop rounds clock i it_read nodes ≡ some nodes
unfolding mark_loop
keep-nodes zero clock i it_read nodes e fresh = refl
keep-nodes (suc rounds) clock i it_read nodes e fresh =
    let rest =
      keep-nodes rounds (later (later clock)) (i + 1) it_read nodes e (λ k. fresh (suc (suc k))) in
    elim (Bool-cases (is_open (get_elem? nodes i))) [
      | inl o ↦ rw (o, e, fresh 0) rest
      | inr o ↦ rw (o) rest
    ]

-- markExpiredBlocks looks at the time of the reader's block only: while that has not expired, no
-- block is marked, however old.
pub mark_expired_blocks_fresh :
    (clock : ℕ → ℕ) (s : Accum) {key : ℕ} {b : Block}
    → s.locked ≡ false
    → get_elem? s.nodes s.it_read ≡ some (key, b)
    → ((k : ℕ) → expired (clock k) b ≡ false)
    → mark_expired_blocks clock s ≡ some s
unfolding mark_expired_blocks lock
mark_expired_blocks_fresh clock s free e fresh =
    rw (free, mark_expired_blocks, keep-nodes (length s.nodes) clock 0 s.it_read s.nodes e fresh)
      refl
