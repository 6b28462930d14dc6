-- ===== src/Cycle/Write.antt =====
-- CycleBuffer::write1: the space that it takes, and the messages that it keeps.
use mediaroom.Prelude.{ℕ, ◌+◌, ◌^◌, ◌≤◌, ◌<◌, ◌≡◌, ◌⊎◌, true, false, some, List, arith, length}
use mediaroom.Bytes.{memcpy, store16}
use mediaroom.Cycle.{Cycle, no_space, length_at, data_at, add_size, write1}
use mediaroom.Cycle.Path.{length_pos, data_pos, end_pos, Fits, Within, Occupied, Grows}

-- The positions lie in the region, which the int cast of `write1` covers.
pub record IsValid (c : Cycle) : Type 0 where
  pub head_in : c.head < c.size
  pub tail_in : c.tail < c.size
  pub small : c.size ≤ 2 ^ 31

-- No size_t sum wraps: the positions of the code are those of the geometry.
pub positions :
    {c : Cycle} (at n : ℕ)
    → IsValid c
    → at < c.size
    → n < 65536
    → (length_at c at ≡ length_pos c.size at)
      × (data_at c at n ≡ data_pos c.size at n)
      × (add_size (data_at c at n) n ≡ end_pos c.size at n)
positions at n v a b = ground arith

-- The buffer after `x` is put at the head.
abbrev pub put : Cycle → List ℕ → Cycle
put c x = record c {
  memory =
      memcpy (store16 c.memory (length_pos c.size c.head) (length x))
        (data_pos c.size c.head (length x)) x;
  head = end_pos c.size c.head (length x);
}

-- There is room for `n` bytes and their length before the end of the region, or before the tail.
abbrev pub Room : Cycle → ℕ → Type 0
Room c n =
    ((c.tail ≤ c.head) × ((c.head + 2 + n < c.size) ⊎ (n + 2 < c.tail)))
    ⊎ ((c.head < c.tail) × (c.head + 2 + n < c.tail))

pub no_space-Room : {c : Cycle} (n : ℕ) → IsValid c → n < 65536 → no_space c n ≡ false → Room c n
unfolding no_space
no_space-Room n v b h = ground arith

pub Room-no_space : {c : Cycle} (n : ℕ) → IsValid c → n < 65536 → Room c n → no_space c n ≡ false
unfolding no_space
Room-no_space n v b h = ground arith

pub Room-Grows :
    {c : Cycle} (n : ℕ)
    → IsValid c
    → Room c n
    → Grows c.size c.tail c.head (end_pos c.size c.head n)
Room-Grows n v h = ground arith

-- What the write touches was free and in the region.
pub Room-free :
    {c : Cycle} (n q : ℕ)
    → IsValid c
    → Room c n
    → Within c.size c.head n q
    → ¬ (Occupied c.tail c.head q)
Room-free n q v h w o = ground arith

pub Room-inside :
    {c : Cycle} (n : ℕ)
    → IsValid c
    → Room c n
    → (length_pos c.size c.head + 2 ≤ c.size) × (data_pos c.size c.head n + n ≤ c.size)
Room-inside n v h = ground arith

pub Room-Fits :
    {c : Cycle} (n : ℕ) → IsValid c → Room c n → Fits c.size (end_pos c.size c.head n) c.head n
Room-Fits n v h = ground arith

pub write1_full :
    {c : Cycle} (x : List ℕ) → no_space c (length x) ≡ true → write1 c x ≡ some (false, c)
unfolding write1
write1_full {c} x h = ground arith

pub write1_room :
    {c : Cycle} (x : List ℕ)
    → IsValid c
    → length x < 65536
    → no_space c (length x) ≡ false
    → write1 c x ≡ some (true, put c x)
unfolding write1
write1_room {c} x v b h =
    let room = no_space-Room (length x) v b h in
    ground (arith, positions c.head (length x) v v.head_in b, Room-inside (length x) v room)
