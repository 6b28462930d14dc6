-- ===== src/FlowAccum/Calls.antt =====
-- The calls of a writer and a reader on the map of lib/libshared/SharedFlowAccum.cpp, from the
-- empty map on.
use mediaroom.Prelude.{
  ap, ◌∙◌, ℕ, ◌≡◌, refl, Bool, true, false, Option, none, some, List, [], ◌∷◌, ◌++◌,
}
use mediaroom.Block.{Block}
use mediaroom.FlowAccum.{
  Accum, lock, put, is_active, get, get_lower_bound_block, mark_loop, mark_expired_blocks,
}
use mediaroom.FlowAccum.Reader.{put_new_flow, get_empty}

-- A call that needs no block of the map: the rest of the class is called with a position that one
-- of these has found.
pub data Call : Type 0 where
  put_packet : (key idx : ℕ) → Block → Call
  search : (clock : ℕ → ℕ) → Call
  look_up : (key : ℕ) → Call
  mark_expired : (clock : ℕ → ℕ) → Call

-- The map that the writer creates.
abbrev pub initial : Accum
initial = record { nodes = []; locked = false; it_read = 0; active = [] }

abbrev held : Accum
held = record initial { locked = true }

-- Whether the map is left locked by calls that all return: any number of markExpiredBlocks, and at
-- most one other call, the last, that is no `put`.
abbrev pub leaves_locked : List Call → Option Bool
leaves_locked [] = some false
leaves_locked (mark_expired _ ∷ cs) = leaves_locked cs
leaves_locked (search _ ∷ []) = some true
leaves_locked (look_up _ ∷ []) = some true
leaves_locked (search _ ∷ _ ∷ _) = none
leaves_locked (look_up _ ∷ _ ∷ _) = none
leaves_locked (put_packet _ _ _ ∷ _) = none

abbrev pub with_nothing : Option Bool → Option (List ℕ × Accum)
with_nothing none = none
with_nothing (some l) = some ([], record initial { locked = l })

module _ (go_on : Accum → Option Accum) (fuel : ℕ) where
  -- The positions that a call hands out, and the map behind it.
  abbrev handed : Option (Option ℕ × Accum) → Option (List ℕ × Accum)
  handed none = none
  handed (some (none, s)) = some ([], s)
  handed (some (some i, s)) = some (i ∷ [], s)

  abbrev silent : Option Accum → Option (List ℕ × Accum)
  silent none = none
  silent (some s) = some ([], s)

  abbrev looked_up : Option ((Bool × ℕ) × Accum) → Option (List ℕ × Accum)
  looked_up none = none
  looked_up (some ((false, i), s)) = some ([], s)
  looked_up (some ((true, i), s)) = some (i ∷ [], s)

  call : Call → Accum → Option (List ℕ × Accum)
  unfolding put get get_lower_bound_block mark_expired_blocks
  call (put_packet key idx b) s = silent (put go_on key idx b s)
  call (search clock) s = handed (get fuel clock s)
  call (look_up key) s = looked_up (get_lower_bound_block key s)
  call (mark_expired clock) s = silent (mark_expired_blocks clock s)

  abbrev behind :
      (Accum → Option (List ℕ × Accum)) → Option (List ℕ × Accum) → Option (List ℕ × Accum)
  behind rest none = none
  behind rest (some (xs, s)) = elim (rest s) [ none ↦ none | some (ys, t) ↦ some (xs ++ ys, t) ]

  -- One call after the other, while they return.
  pub run : List Call → Accum → Option (List ℕ × Accum)
  unfolding call
  run [] s = some ([], s)
  run (c ∷ cs) s = behind (run cs) (call c s)

  call-held : (c : Call) → call c held ≡ none
  unfolding call put get get_lower_bound_block mark_expired_blocks lock
  call-held (put_packet key idx b) = refl
  call-held (search clock) = refl
  call-held (look_up key) = refl
  call-held (mark_expired clock) = refl

  run-held : (c : Call) (cs : List Call) → run (c ∷ cs) held ≡ none
  unfolding run
  run-held c cs = rw (call-held c) refl

  held_stays : (c : Call) (cs : List Call) → behind (run (c ∷ cs)) (some ([], held)) ≡ none
  held_stays c cs = rw (behind, run-held c cs) refl

  put_first : (key idx : ℕ) (b : Block) → call (put_packet key idx b) initial ≡ none
  unfolding call is_active
  put_first key idx b = ap silent (put_new_flow go_on key idx b initial refl)

  search_first : (clock : ℕ → ℕ) → call (search clock) initial ≡ some ([], held)
  unfolding call
  search_first clock = ap handed (get_empty fuel clock initial refl refl)

  look_up_first : (key : ℕ) → call (look_up key) initial ≡ some ([], held)
  unfolding call get_lower_bound_block lock
  look_up_first key = refl

  mark_first : (clock : ℕ → ℕ) → call (mark_expired clock) initial ≡ some ([], initial)
  unfolding call mark_expired_blocks mark_loop lock
  mark_first clock = refl

  mark_more :
      (cs : List Call) (o : Option Bool)
      → run cs initial ≡ with_nothing o
      → behind (run cs) (some ([], initial)) ≡ with_nothing o
  mark_more cs none e = rw (behind, e) refl
  mark_more cs (some l) e = rw (behind, e) refl

  -- Whatever calls of put, get, getLowerBoundBlock and markExpiredBlocks are made on the new map,
  -- one after the other, no block gets into it and none is handed out; the class's other calls need
  -- a block that one of these has found. The calls all return if and only if they are
  -- markExpiredBlocks and at most one get or getLowerBoundBlock as the last: such a call in the
  -- empty map leaves it locked, and no call behind it returns. A put never returns, whatever it
  -- would do for a flow that is active.
  pub run-initial : (cs : List Call) → run cs initial ≡ with_nothing (leaves_locked cs)
  unfolding run
  run-initial [] = refl
  run-initial (put_packet key idx b ∷ cs) = rw (put_first key idx b) refl
  run-initial (search clock ∷ []) = rw (search_first clock) refl
  run-initial (look_up key ∷ []) = rw (look_up_first key) refl
  run-initial (search clock ∷ c ∷ cs) =
      ap (behind (run (c ∷ cs))) (search_first clock) ∙ held_stays c cs
  run-initial (look_up key ∷ c ∷ cs) =
      ap (behind (run (c ∷ cs))) (look_up_first key) ∙ held_stays c cs
  run-initial (mark_expired clock ∷ cs) =
      ap (behind (run cs)) (mark_first clock) ∙ mark_more cs (leaves_locked cs) (run-initial cs)
