-- ===== src/SharedCycle.antt =====
-- lib/libshared/SharedCycleBuffer.h: a CycleBuffer in a named shared memory segment.
-- The segment of boost::interprocess is a parameter: what it hands out for the buffer's name is
-- the argument `segment` of `open`, none for the null pointer.
pub mod Transfer
mod Tests
use mediaroom.Prelude.{ℕ, ◌+◌, ◌-◌, ◌%◌, ◌^◌, Bool, Option, none, some, List, length, take}
use mediaroom.Cycle.{Cycle, Message, set, clear, write1, read1, size_mod, region_size}

-- `_mem` and `_cb`: none after the object was moved from.
pub record SharedBuffer : Type 0 where
  pub buffer : Option Cycle

pub data Thrown : Type 0 where
  failed_to_create failed_to_find failed_to_push failed_to_pop : Thrown

-- A call returns, throws, or leaves its region of memory.
pub data Outcome {ℓ} (A : Type ℓ) : Type ℓ where
  returns : A → Outcome A
  throws : Thrown → Outcome A
  faults : Outcome A

-- The bytes that the creating side asks the segment for: `length - 1024`, on size_t.
abbrev pub allocated : ℕ → ℕ
allocated length = (length + size_mod - 1024) % size_mod

-- The constructor. Both the side that creates the buffer and the one that finds it clear it.
pub open_buffer : Bool → ℕ → Option Cycle → Outcome SharedBuffer
open_buffer create length none =
    throws (elim create [ Bool.true ↦ failed_to_create | Bool.false ↦ failed_to_find ])
open_buffer create length (some mem) = returns (record { buffer = some (clear length (set mem)) })

-- `this = std::move(cb)`: the new value of this object, and of `cb`.
pub move_from : SharedBuffer → SharedBuffer → SharedBuffer × SharedBuffer
move_from this cb = (cb, record { buffer = none })

abbrev written : Option (Bool × Cycle) → Outcome (Bool × SharedBuffer)
written none = faults
written (some (done, c)) = returns (done, record { buffer = some c })

-- `write1` takes the length as a uint16_t, so the bytes that it copies are the first of the data.
pub push : SharedBuffer → List ℕ → Outcome (Bool × SharedBuffer)
push s message = elim s.buffer [
  | none ↦ throws failed_to_push
  | some c ↦ written (write1 c (take (length message % 2 ^ 16) message))
]

abbrev popped : Option (Option Message × Cycle) → Outcome (Option Message × SharedBuffer)
popped none = faults
popped (some (found, c)) = returns (found, record { buffer = some c })

pub pop : SharedBuffer → Outcome (Option Message × SharedBuffer)
pop s = elim s.buffer [ none ↦ throws failed_to_pop | some c ↦ popped (read1 c) ]
