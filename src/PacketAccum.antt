-- ===== src/PacketAccum.antt =====
-- lib/libstack/PacketAccum.h: packets in blocks of eight entries, of which the last one links to
-- the next block. What the allocator returns is an argument.

pub mod Blocks
pub mod Put
mod Tests
use mediaroom.Prelude.{
  ℕ, zero, suc, ◌+◌, ◌-◌, ◌*◌, ◌/◌, ◌%◌, ◌^◌, ◌≤◌, ◌<◌, ◌≡◌, ◌≢◌, refl, sym, ap, ◌∙◌, ◌↔◌, ◌⊎◌, inl,
  inr, Bool, true, false, not, ◌&&◌, ◌||◌, Option, none, some, List, [], ◌∷◌, ◌++◌, map, arith, ltb,
  leb, ◌==◌, if◌then◌else◌, ltb→lt, lt→ltb, leb→le, ==_iff, Bool-cases, Option-cases, length,
  get_elem?, take, replicate, length-append, All, Distinct, All-left, All-right,
}

-- The union Entry, and what it holds before it is written.
pub data Entry : Type 0 where
  packet next_block : ℕ → Entry
  unset : Entry

-- BLOCKCNT
abbrev pub block_cnt : ℕ
block_cnt = 8

-- The entries of each block, by its address.
abbrev pub Entries : Type 0
Entries = ℕ → ℕ → Entry

abbrev pub set_entry : ℕ → ℕ → Entry → Entries → Entries
set_entry b i e entries c j = if (b == c) && (i == j) then e else entries c j

pub record Accum : Type 0 where
  pub first_block : Option ℕ
  pub curr_block : Option ℕ
  pub total : ℕ
  pub curr : ℕ
  pub entries : Entries

pub init : Entries → Accum
init entries = record {
  first_block = none;
  curr_block = none;
  total = 0;
  curr = 0;
  entries = entries;
}

-- A new block becomes the current one: none is a write through the null pointer.
pub link_block : (new : ℕ) → (first current : Option ℕ) → Accum → Option Accum
link_block new none current s = some (record s { first_block = some new; curr_block = some new })
link_block new (some f) none s = none
link_block new (some f) (some b) s = some (record s {
  curr_block = some new;
  curr = 0;
  entries = set_entry b (block_cnt - 1) (next_block new) s.entries;
})

-- The end of put: the packet goes to the current block.
pub store : (current : Option ℕ) → ℕ → Accum → Option (Bool × Accum)
store none pkt s = none
store (some b) pkt s = some (
  true,
  record s {
    entries = set_entry b s.curr (packet pkt) s.entries;
    curr = (s.curr + 1) % 2 ^ 64;
    total = (s.total + 1) % 2 ^ 64;
  },
)

-- What put does where it needs a block, with the result of the allocator.
pub put_block : Option ℕ → ℕ → Accum → Option (Bool × Accum)
unfolding link_block store
put_block none pkt s = some (false, s)
put_block (some new) pkt s = elim (link_block new s.first_block s.curr_block s) [
  | none ↦ none
  | some s' ↦ store s'.curr_block pkt s'
]

pub put_at : (current : Option ℕ) → Option ℕ → ℕ → Accum → Option (Bool × Accum)
unfolding put_block store
put_at none new pkt s = put_block new pkt s
put_at (some b) new pkt s =
    if s.curr == block_cnt - 1 then put_block new pkt s else store (some b) pkt s

unfoldable pub put : Option ℕ → ℕ → Accum → Option (Bool × Accum)
unfolding put_at
put new pkt s = put_at s.curr_block new pkt s

pub size : Accum → ℕ
size s = s.total
