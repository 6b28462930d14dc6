-- ===== src/FreeList/Tests.antt =====
-- A history of an AllocatorList, and the theorems on it at concrete inputs.
use mediaroom.Prelude.{All, Distinct, ◌<◌, ◌≡◌, refl, some, none, [], ◌∷◌, arith}
use mediaroom.FreeList.{Allocator, init, get, put, overwrite, set_next, link}
use mediaroom.FreeList.Allocation.{Owns}
use mediaroom.FreeList.History.{Step, Reach, here, further, history-Sound}

-- Four entries of 2048 bytes behind the first page.
abbrev start : Allocator
start = record {
  array = 4096;
  first = 0;
  last = 3;
  count = 4;
  overall = 4;
  next = set_next (link 3 0 (λ i. none)) 3 none;
}

start_is : init 12288 2048 0 (λ i. none) ≡ some start
unfolding init
start_is = refl

start-Owns : Owns start (0 ∷ 1 ∷ 2 ∷ 3 ∷ []) []
unfolding init link
start-Owns = record {
  chain = ground arith;
  free_distinct = ground arith;
  held_distinct = tt;
  apart = tt;
  free_in = ground arith;
  held_in = tt;
  counted = refl;
  total = refl;
  bounded = omega arith;
}

-- After the first entry was handed out.
abbrev one_held : Allocator
one_held = record {
  array = 4096;
  first = 1;
  last = 3;
  count = 3;
  overall = 4;
  next = set_next (link 3 0 (λ i. none)) 3 none;
}

one_held-Owns : Owns one_held (1 ∷ 2 ∷ 3 ∷ []) (0 ∷ [])
unfolding link
one_held-Owns = record {
  chain = ground arith;
  free_distinct = ground arith;
  held_distinct = ground arith;
  apart = ground arith;
  free_in = ground arith;
  held_in = ground arith;
  counted = refl;
  total = refl;
  bounded = omega arith;
}

-- Entry 0 is handed out, written over, and given back; then entry 1 is handed out.
abbrev given_back : Allocator
given_back = record {
  array = 4096;
  first = 1;
  last = 0;
  count = 4;
  overall = 4;
  next =
      set_next (set_next (set_next (set_next (link 3 0 (λ i. none)) 3 none) 0 (some 99)) 0 none) 3
        (some 0);
}

abbrev again : Allocator
again = record given_back { first = 2; count = 3 }

history :
    Reach (record { allocator = start; held = [] }) (record { allocator = again; held = 1 ∷ [] })
unfolding get put overwrite link
history =
    further
      (further
        (further (further here (Step.allocate {a = start} {a' = one_held} {i = 0} refl))
          (Step.fill {a = one_held} [] 0 [] (some 99) refl))
        (Step.deallocate [] 0 [] refl refl))
      (Step.allocate {a = given_back} {a' = again} {i = 1} refl)

history-Sound_example : Distinct (1 ∷ []) × All (λ i. i < 4) (1 ∷ []) × (1 < 4)
history-Sound_example =
    history-Sound 12288 2048 0 (λ i. none) (omega arith) (omega arith) (omega arith) (omega arith)
      start_is history
