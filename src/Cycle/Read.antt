-- ===== src/Cycle/Read.antt =====
-- CycleBuffer::read1: the message that it hands out, and when it hands out none.
use mediaroom.Prelude.{ℕ, ◌≡◌, some, none, List, [], ◌∷◌, arith, length}
use mediaroom.Cycle.{Cycle, read1}
use mediaroom.Cycle.Path.{data_pos, end_pos, end_pos-lt}
use mediaroom.Cycle.Write.{IsValid, positions}
use mediaroom.Cycle.Holds.{Entry, Holds}

-- The buffer after the message of `n` bytes at the tail is taken.
abbrev pub drop_first : Cycle → ℕ → Cycle
drop_first c n = record c { tail = end_pos c.size c.tail n }

pub read1-none :
    {c : Cycle} → IsValid c → Holds c.memory c.size c.head c.tail [] → read1 c ≡ some (none, c)
unfolding read1
read1-none v e = ground arith

pub read1-some :
    {c : Cycle} (x : List ℕ) (q : List (List ℕ))
    → IsValid c
    → Holds c.memory c.size c.head c.tail (x ∷ q)
    → read1 c ≡ some (some (data_pos c.size c.tail (length x), length x), drop_first c (length x))
unfolding read1
read1-some {c} x q v (e, rest) =
    ground (arith, e.prefix, positions c.tail (length x) v v.tail_in e.short, e.fits)

pub drop_first-IsValid :
    {c : Cycle} (x : List ℕ)
    → IsValid c
    → Entry c.memory c.size c.head c.tail x
    → IsValid (drop_first c (length x))
drop_first-IsValid {c} x v e = record {
  head_in = v.head_in;
  tail_in = end_pos-lt c.size c.head c.tail (length x) v.head_in v.tail_in e.fits;
  small = v.small;
}
