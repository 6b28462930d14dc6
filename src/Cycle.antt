-- ===== src/Cycle.antt =====
-- lib/libshared/CycleBuffer.h: a ring of length-prefixed messages in shared memory.
-- A `Cycle` is the descriptor with the data region before it. A position is an offset into the
-- region. An access outside of it is `none`: it would overwrite the descriptor.
pub mod Path
pub mod Write
pub mod Holds
pub mod Read
pub mod Fifo
mod Tests
use mediaroom.Prelude.{
  ℕ, ◌+◌, ◌-◌, ◌%◌, ◌^◌, Bool, true, false, ◌&&◌, ◌||◌, Option, none, some, List, ltb, leb, ◌==◌,
  if◌then◌else◌, length,
}
use mediaroom.Bytes.{Memory, memcpy, store16, load16}

-- CycleBufferDescriptor; `tmp_head` and `tmp_tail` serve the asynchronous operations.
pub record Cycle : Type 0 where
  pub head : ℕ
  pub tmp_head : ℕ
  pub tail : ℕ
  pub tmp_tail : ℕ
  pub size : ℕ
  pub memory : Memory

abbrev pub size_mod : ℕ
size_mod = 2 ^ 64

-- (size_t)-1
abbrev pub no_position : ℕ
no_position = 2 ^ 64 - 1

-- sizeof(CycleBufferDescriptor): two cache lines and the size
abbrev pub descriptor_size : ℕ
descriptor_size = 136

-- The buffer object beside the descriptor: `_size` of the last `set`.
abbrev pub region_size : ℕ → ℕ
region_size size = (size + size_mod - descriptor_size) % size_mod

-- `set` finds the descriptor at the end of the buffer as it was left, and drops what
-- asynchronous operations had begun.
pub set : Cycle → Cycle
set c = record c { tmp_head = no_position; tmp_tail = no_position }

-- `clear` after a `set` with `size` bytes.
pub clear : ℕ → Cycle → Cycle
clear size c = record c {
  head = 0;
  tail = 0;
  size = region_size size;
  tmp_head = no_position;
  tmp_tail = no_position;
}

-- size_t arithmetic wraps
abbrev pub add_size : ℕ → ℕ → ℕ
add_size a b = (a + b) % size_mod

abbrev pub sub_size : ℕ → ℕ → ℕ
sub_size a b = (a + size_mod - b) % size_mod

pub used : Cycle → ℕ
used c =
    if leb c.tail c.head then sub_size c.head c.tail else add_size (sub_size c.size c.tail) c.head

-- static_cast<int>(t) <= k, for an int k that is not negative
abbrev pub int_le : ℕ → ℕ → Bool
int_le t k = let low = t % 2 ^ 32 in if ltb low (2 ^ 31) then leb low k else true

-- The test of `write1` that finds no space.
pub no_space : Cycle → ℕ → Bool
no_space c len =
    let pos = add_size c.head 2 in
    (leb c.tail c.head && leb c.size (add_size pos len) && int_le c.tail (len + 2))
    || (ltb c.head c.tail && leb c.tail (add_size pos len))

-- Where the length of the message at position `at` stands, and where its data begin.
-- `write1` computes them from `head` and `read1` from `tail`, in the same words.
abbrev pub length_at : Cycle → ℕ → ℕ
length_at c at = if at == sub_size c.size 1 then 0 else at

abbrev pub data_at : Cycle → ℕ → ℕ → ℕ
data_at c at len =
    if at == sub_size c.size 1
    then 2
    else if leb c.size (add_size (add_size at 2) len)
    then 0
    else add_size at 2

-- The access to `n` bytes at `p` stays in the region.
abbrev pub inside : Cycle → ℕ → ℕ → Bool
inside c p n = leb (p + n) c.size

-- The list is the `len` bytes at `data`, and `len` is a uint16_t.
pub write1 : Cycle → List ℕ → Option (Bool × Cycle)
unfolding no_space
write1 c message =
    let len = length message in
    if no_space c len
    then some (false, c)
    else let p = length_at c c.head in
      let pos = data_at c c.head len in
      if inside c p 2 && inside c pos len
      then some (
        true,
        record c { memory = memcpy (store16 c.memory p len) pos message; head = add_size pos len },
      )
      else none

-- The pointer and the length that `read1` returns: an offset into the region, and `len`.
abbrev pub Message : Type 0
Message = ℕ × ℕ

pub nothing_to_read : Cycle → Bool
nothing_to_read c = leb c.tail c.head && ltb c.head (add_size c.tail 2)

-- The outer option is a fault, the inner one the null pointer.
pub read1 : Cycle → Option (Option Message × Cycle)
unfolding nothing_to_read
read1 c =
    if nothing_to_read c
    then some (none, c)
    else let p = length_at c c.tail in
      let len = load16 c.memory p in
      let pos = data_at c c.tail len in
      if inside c p 2 then some (some (pos, len), record c { tail = add_size pos len }) else none
