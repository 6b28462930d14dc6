-- ===== src/Cycle/Path.antt =====
-- Where the messages of a CycleBuffer lie: the geometry that write1 and read1 share, on plain
-- numbers. `s` is the size of the region, `h` the head, `t` a position of a message.
use mediaroom.Prelude.{ℕ, ◌+◌, ◌≤◌, ◌<◌, ◌⊎◌, arith, leb, ◌==◌, if◌then◌else◌}

abbrev pub length_pos : ℕ → ℕ → ℕ
length_pos s t = if t + 1 == s then 0 else t

abbrev pub data_pos : ℕ → ℕ → ℕ → ℕ
data_pos s t n = if t + 1 == s then 2 else if leb s (t + 2 + n) then 0 else t + 2

abbrev pub end_pos : ℕ → ℕ → ℕ → ℕ
end_pos s t n = data_pos s t n + n

-- A message of `n` bytes at `t` ends before the head, or the head is behind and the message
-- ends in the region, or goes on at its start and ends before the head.
abbrev pub Fits : ℕ → ℕ → ℕ → ℕ → Type 0
Fits s h t n = ((t < h) × (t + 2 + n ≤ h)) ⊎ ((h < t) × ((t + 2 + n < s) ⊎ (end_pos s t n ≤ h)))

-- `q` is a byte of the message.
abbrev pub Within : ℕ → ℕ → ℕ → ℕ → Type 0
Within s t n q =
    ((length_pos s t ≤ q) × (q < length_pos s t + 2))
    ⊎ ((data_pos s t n ≤ q) × (q < data_pos s t n + n))

-- `q` lies between the tail and the head.
abbrev pub Occupied : ℕ → ℕ → ℕ → Type 0
Occupied tail h q = ((tail ≤ q) × (q < h)) ⊎ ((h < tail) × ((tail ≤ q) ⊎ (q < h)))

-- `t` is met on the way from the tail to the head.
abbrev pub OnPath : ℕ → ℕ → ℕ → ℕ → Type 0
OnPath s tail h t = ((tail ≤ t) × (t ≤ h)) ⊎ ((h < tail) × (((tail ≤ t) × (t < s)) ⊎ (t ≤ h)))

-- How a write moves the head from `h` to `h'`.
abbrev pub Grows : ℕ → ℕ → ℕ → ℕ → Type 0
Grows s tail h h' =
    ((tail ≤ h) × (h < h') × (h' < s))
    ⊎ ((tail ≤ h) × (h' < tail))
    ⊎ ((h < tail) × (h < h') × (h' < tail))

pub Within-Occupied :
    (s tail h t n q : ℕ)
    → h < s
    → t < s
    → OnPath s tail h t
    → Fits s h t n
    → Within s t n q
    → Occupied tail h q
Within-Occupied s tail h t n q a b path fits w = ground arith

pub end_pos-OnPath :
    (s tail h t n : ℕ)
    → h < s
    → t < s
    → OnPath s tail h t
    → Fits s h t n
    → OnPath s tail h (end_pos s t n)
end_pos-OnPath s tail h t n a b path fits = ground arith

pub end_pos-lt : (s h t n : ℕ) → h < s → t < s → Fits s h t n → end_pos s t n < s
end_pos-lt s h t n a b fits = ground arith

pub Fits-grow :
    (s tail h h' t n : ℕ)
    → h < s
    → t < s
    → OnPath s tail h t
    → Grows s tail h h'
    → Fits s h t n
    → Fits s h' t n
Fits-grow s tail h h' t n a b path grows fits = ground arith
