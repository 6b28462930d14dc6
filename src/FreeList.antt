-- ===== src/FreeList.antt =====
-- lib/libshared/AllocatorList.h: an allocator of equal entries on a free list in shared memory.
-- An entry is its index in `_array`. `next` is the pointer in the last bytes of each entry, which
-- the owner of an allocated entry overwrites with its object.
pub mod Chain
pub mod Allocation
pub mod History
mod Tests
use mediaroom.Prelude.{
  ℕ, zero, suc, ◌+◌, ◌-◌, ◌*◌, ◌/◌, ◌%◌, ◌^◌, Bool, true, false, ◌&&◌, Option, none, some, ltb, leb,
  ◌==◌, if◌then◌else◌,
}

-- AllocatorCtx with the entries behind it; `array` is the offset of the first entry from `mem`.
pub record Allocator : Type 0 where
  pub array : ℕ
  pub first : ℕ
  pub last : ℕ
  pub count : ℕ
  pub overall : ℕ
  pub next : ℕ → Option ℕ

abbrev pub page_size : ℕ
page_size = 4096

-- sizeof(AllocatorCtx): three pointers and two size_t
abbrev pub context_size : ℕ
context_size = 40

abbrev pub set_next : (ℕ → Option ℕ) → ℕ → Option ℕ → ℕ → Option ℕ
set_next next i v j = if i == j then v else next j

-- The loop of `init`: `rounds` more entries from `i` on are linked to the one behind.
link : ℕ → ℕ → (ℕ → Option ℕ) → ℕ → Option ℕ
link zero i next = next
link (suc rounds) i next = link rounds (i + 1) (set_next next i (some (i + 1)))

-- `init` with `create`: none where the assertion on the size fails. `stale` is what the memory
-- held in the place of `_array`, as an address: the code computes with it before it is set.
pub init : ℕ → ℕ → ℕ → (ℕ → Option ℕ) → Option Allocator
unfolding link
init size entry_size stale next =
    let n = (size - page_size) / entry_size in
    if ltb (page_size + context_size) size
    then some (record {
      array = page_size - stale % page_size;
      first = 0;
      last = n - 1;
      count = n;
      overall = n;
      next = set_next (link (n - 1) 0 next) (n - 1) none;
    })
    else none

-- `allocate`: the null pointer where only one entry is left.
pub get : Allocator → Option ℕ × Allocator
get a = elim (a.next a.first) [
  | none ↦ (none, a)
  | some i ↦ (some a.first, record a { first = i; count = (a.count + 2 ^ 64 - 1) % 2 ^ 64 })
]

-- `deallocate`: none where the assertion fails that the entry is one of the array.
pub put : ℕ → Allocator → Option Allocator
put i a =
    if ltb i a.overall
    then some (record a {
      next = set_next (set_next a.next i none) a.last (some i);
      last = i;
      count = (a.count + 1) % 2 ^ 64;
    })
    else none

-- The owner of an entry writes its object over the pointer.
pub overwrite : ℕ → Option ℕ → Allocator → Allocator
overwrite i v a = record a { next = set_next a.next i v }
