-- ===== src/Time/Accuracy.antt =====
-- What TimeHandler computes of times and ticks.
use mediaroom.Prelude.{
  ℕ, ◌+◌, ◌-◌, ◌*◌, ◌/◌, ◌%◌, ◌||◌, ◌^◌, ◌≤◌, ◌<◌, ◌≡◌, ◌⊎◌, ap, true, false, some, ltb, leb, ◌==◌,
  arith,
}
use mediaroom.Time.{
  usecs_in_secs, usecs_to_timeval, timeval_to_usecs, plus, minus, to_signed, usecs_diff, TimePoint,
  TimeData, get_time, Clock, slots, update_time, sub64,
}

-- Microseconds come back from a timeval, whose second part is less than a second.
pub usecs_to_timeval_lem :
    (usecs : ℕ)
    → usecs < 2 ^ 64
    → (timeval_to_usecs (usecs_to_timeval usecs) ≡ usecs)
      × ((usecs_to_timeval usecs).tv_usec < usecs_in_secs)
unfolding timeval_to_usecs usecs_to_timeval
usecs_to_timeval_lem usecs h = (grind arith, grind arith)

-- The difference of two times that are less than 2^63 microseconds apart has its sign.
pub usecs_diff_lem :
    (r n : ℕ)
    → r + n < 2 ^ 64
    → n < 2 ^ 63
    → (usecs_diff (r + n) r ≡ plus n) × ((n ≡ 0) ⊎ (usecs_diff r (r + n) ≡ minus n))
unfolding usecs_diff to_signed
usecs_diff_lem r n h k = (ground arith, ground arith)

small_sum : (u q : ℕ) → u + q < 2 ^ 64 → (u + q) % 2 ^ 64 ≡ u + q
small_sum u q h = omega arith

small_difference : (u q : ℕ) → u < 2 ^ 64 → q ≤ u → sub64 u q ≡ u - q
small_difference u q h k = omega arith

-- The time at a count of ticks behind the last time point is that point's time and the
-- microseconds that the ticks last, rounded down.
pub get_time_lem :
    (td : TimeData) (n : ℕ)
    → 0 < td.freq
    → n * usecs_in_secs < 2 ^ 63
    → td.tp.ticks + n < 2 ^ 64
    → td.tp.usecs + n * usecs_in_secs / td.freq < 2 ^ 64
    → get_time td (td.tp.ticks + n) ≡ some (td.tp.usecs + n * usecs_in_secs / td.freq)
unfolding get_time to_signed
get_time_lem td n pos small ticks usecs =
    let same : sub64 (td.tp.ticks + n) td.tp.ticks ≡ n = omega arith in
    let is_plus : ltb n (2 ^ 63) ≡ true = ground arith in
    let fits : (td.freq == 0 || leb (2 ^ 63) (n * usecs_in_secs)) ≡ false = ground arith in
    rw (same, is_plus, fits) (ap some (small_sum td.tp.usecs (n * usecs_in_secs / td.freq) usecs))

-- The time at a count of ticks before the last time point is that point's time less the
-- microseconds that the ticks last, rounded down.
pub get_time_before :
    (td : TimeData) (ticks n : ℕ)
    → 0 < td.freq
    → 0 < n
    → n * usecs_in_secs < 2 ^ 63
    → td.tp.ticks ≡ ticks + n
    → td.tp.ticks < 2 ^ 64
    → td.tp.usecs < 2 ^ 64
    → n * usecs_in_secs / td.freq ≤ td.tp.usecs
    → get_time td ticks ≡ some (td.tp.usecs - n * usecs_in_secs / td.freq)
unfolding get_time to_signed
get_time_before td ticks n pos some_ticks small at bound usecs le =
    let same : sub64 ticks td.tp.ticks ≡ 2 ^ 64 - n = omega (arith, at) in
    let is_minus : ltb (2 ^ 64 - n) (2 ^ 63) ≡ false = ground arith in
    let back : 2 ^ 64 - (2 ^ 64 - n) ≡ n = omega arith in
    let fits : (td.freq == 0 || leb (2 ^ 63) (n * usecs_in_secs)) ≡ false = ground arith in
    rw (same, is_minus, back, fits)
      (ap some (small_difference td.tp.usecs (n * usecs_in_secs / td.freq) usecs le))

-- An update leaves the clock as it is, or makes the new time point the current one; either way
-- the index stays in the array.
pub update_time-index :
    (ticks : ℕ) (tp : TimePoint) (later : ℕ) (c : Clock) {c' : Clock}
    → c.index < slots
    → update_time ticks tp later c ≡ some c'
    → (c'.index < slots) × ((c' ≡ c) ⊎ ((c'.timedatas c'.index).tp ≡ tp))
unfolding update_time
update_time-index ticks tp later c h e = (ground arith, ground arith)
