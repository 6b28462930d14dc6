-- ===== src/Cycle/Fifo.antt =====
-- A CycleBuffer as a first-in first-out queue of messages.
use mediaroom.Prelude.{
  ℕ, ◌+◌, ◌*◌, ◌^◌, ◌≤◌, ◌<◌, ◌≡◌, ◌⊎◌, inl, inr, refl, ap, Bool, true, false, Option, some, none,
  List, [], ◌∷◌, ◌++◌, arith, length, Bool-cases,
}
use mediaroom.Bytes.{bytes}
use mediaroom.Cycle.{Cycle, no_space, write1, read1, clear, region_size}
use mediaroom.Cycle.Path.{end_pos, OnPath, end_pos-OnPath}
use mediaroom.Cycle.Write.{
  IsValid, put, Room, no_space-Room, Room-no_space, Room-Grows, write1_full, write1_room,
}
use mediaroom.Cycle.Holds.{Holds, Holds-put}
use mediaroom.Cycle.Read.{drop_first, read1-none, read1-some, drop_first-IsValid}

-- The buffer is well formed and holds the messages `q`, the oldest first.
pub record Queues (c : Cycle) (q : List (List ℕ)) : Type 0 where
  pub valid : IsValid c
  pub held : Holds c.memory c.size c.head c.tail q

pub put-Queues :
    {c : Cycle} {q : List (List ℕ)} (x : List ℕ)
    → Queues c q
    → Room c (length x)
    → length x < 65536
    → Queues (put c x) (q ++ x ∷ [])
put-Queues {c} {q} x k room b =
    let v = k.valid in
    record {
      valid = put_valid (Room-Grows (length x) v room);
      held = Holds-put x c.tail q v room b (ground arith) k.held;
    }
  where
    put_valid : mediaroom.Cycle.Path.Grows c.size c.tail c.head (put c x).head → IsValid (put c x)
    put_valid g =
        let v = k.valid in record { head_in = ground arith; tail_in = v.tail_in; small = v.small }

-- What a caller of `write1` meets: a refusal that changes nothing, or its message at the end.
abbrev pub Wrote : Cycle → List (List ℕ) → List ℕ → Type 0
Wrote c q x =
    (write1 c x ≡ some (false, c))
    ⊎ ((c' : Cycle) × (write1 c x ≡ some (true, c')) × Queues c' (q ++ x ∷ []))

pub write1-Queues :
    {c : Cycle} {q : List (List ℕ)} (x : List ℕ) → Queues c q → length x < 65536 → Wrote c q x
write1-Queues {c} x k b = elim (Bool-cases (no_space c (length x))) [
  | inl full ↦ inl (write1_full x full)
  | inr room ↦ inr (
    put c x,
    write1_room x k.valid b room,
    put-Queues x k (no_space-Room (length x) k.valid b room) b,
  )
]

-- A buffer that holds nothing takes each message that is shorter than half of it, wherever its
-- positions stand.
pub write1_empty :
    {c : Cycle} (x : List ℕ)
    → Queues c []
    → length x < 65536
    → 2 * (length x + 2) < c.size
    → write1 c x ≡ some (true, put c x)
write1_empty {c} x k b h =
    write1_room x k.valid b (Room-no_space (length x) k.valid b (ground arith))

-- A call of the two sides, and what each returns.
pub data Call : Type 0 where
  write : List ℕ → Call
  read : Call

pub data Reply : Type 0 where
  wrote : Bool → Reply
  got : Option (List ℕ) → Reply

-- A reader looks at the `len` bytes behind the pointer.
abbrev pub message : Cycle → Option (ℕ × ℕ) → Option (List ℕ)
message c none = none
message c (some (pos, len)) = some (bytes c.memory pos len)

unfoldable pub step : Cycle → Call → Option (Reply × Cycle)
step c (write x) = elim (write1 c x) [ none ↦ none | some (done, c') ↦ some (wrote done, c') ]
step c read = elim (read1 c) [ none ↦ none | some (found, c') ↦ some (got (message c found), c') ]

-- The replies to a sequence of calls; none after an access out of the region.
unfoldable pub run : Cycle → List Call → Option (List Reply)
run c [] = some []
run c (call ∷ calls) = elim (step c call) [
  | none ↦ none
  | some (r, c') ↦ elim (run c' calls) [ none ↦ none | some rs ↦ some (r ∷ rs) ]
]

-- A queue of messages answers these calls by these replies. It may refuse a message.
pub data Replies : List (List ℕ) → List Call → List Reply → Type 0 where
  done : {q : List (List ℕ)} → Replies q [] []
  accept :
      {q : List (List ℕ)} {x : List ℕ} {cs : List Call} {rs : List Reply}
      → Replies (q ++ x ∷ []) cs rs
      → Replies q (write x ∷ cs) (wrote true ∷ rs)
  refuse :
      {q : List (List ℕ)} {x : List ℕ} {cs : List Call} {rs : List Reply}
      → Replies q cs rs
      → Replies q (write x ∷ cs) (wrote false ∷ rs)
  take :
      {q : List (List ℕ)} {x : List ℕ} {cs : List Call} {rs : List Reply}
      → Replies q cs rs
      → Replies (x ∷ q) (read ∷ cs) (got (some x) ∷ rs)
  idle :
      {cs : List Call} {rs : List Reply} → Replies [] cs rs → Replies [] (read ∷ cs) (got none ∷ rs)

-- Each message is shorter than a uint16_t counts.
abbrev pub Short : List Call → Type 0
Short [] = Unit {0}
Short (write x ∷ cs) = (length x < 65536) × Short cs
Short (read ∷ cs) = Short cs

step-write :
    (c : Cycle) {c' : Cycle} {b : Bool} (x : List ℕ)
    → write1 c x ≡ some (b, c')
    → step c (write x) ≡ some (wrote b, c')
unfolding step
step-write c x e = rw (e, step)

step-none : {c : Cycle} → Queues c [] → step c read ≡ some (got none, c)
unfolding step
step-none k = rw (read1-none k.valid k.held, step)

step-some :
    {c : Cycle} (x : List ℕ) (q : List (List ℕ))
    → Queues c (x ∷ q)
    → (step c read ≡ some (got (some x), drop_first c (length x)))
      × Queues (drop_first c (length x)) q
unfolding step
step-some {c} x q k = (
  rw (read1-some x q k.valid k.held, step)
      (ap (λ (m : List ℕ). some (got (some m), drop_first c (length x))) k.held.0.content),
  record { valid = drop_first-IsValid x k.valid k.held.0; held = k.held.1 },
)

-- From a buffer that holds `q`, no sequence of calls reads or writes out of the region, and the
-- replies are those of a queue that holds `q`.
pub run-Replies :
    (calls : List Call) {c : Cycle} (q : List (List ℕ))
    → Queues c q
    → Short calls
    → (rs : List Reply) × (run c calls ≡ some rs) × Replies q calls rs
unfolding run
run-Replies [] q k s = ([], refl, Replies.done)
run-Replies (write x ∷ cs) {c} q k (b, s) = elim (write1-Queues x k b) [
  | inl e ↦
      let (rs, r, p) = run-Replies cs q k s in
      (wrote false ∷ rs, rw (step-write c x e, run, r), Replies.refuse p)
  | inr (c', e, k') ↦
      let (rs, r, p) = run-Replies cs (q ++ x ∷ []) k' s in
      (wrote true ∷ rs, rw (step-write c x e, run, r), Replies.accept p)
]
run-Replies (read ∷ cs) [] k s =
    let (rs, r, p) = run-Replies cs [] k s in
    (got none ∷ rs, rw (step-none k, run, r), Replies.idle p)
run-Replies (read ∷ cs) (x ∷ q) k s =
    let (e, k') = step-some x q k in
    let (rs, r, p) = run-Replies cs q k' s in (got (some x) ∷ rs, rw (e, run, r), Replies.take p)

-- `clear` leaves an empty queue, in any buffer of a size between the descriptor and 2 ^ 31.
pub clear-Queues : (size : ℕ) (c : Cycle) → 136 < size → size ≤ 2 ^ 31 → Queues (clear size c) []
unfolding clear
clear-Queues size c h k = record {
  valid = record { head_in = omega arith; tail_in = omega arith; small = omega arith };
  held = refl;
}
