-- ===== src/Time.antt =====
-- lib/TimeHandler.h: the time of the processor's tick counter. Reading the counter and the clock
-- of the system are arguments. A result of none is a division by zero or an overflow of a signed
-- product.
pub mod Accuracy
mod Tests
use mediaroom.Prelude.{
  ℕ, ◌+◌, ◌-◌, ◌*◌, ◌/◌, ◌%◌, ◌^◌, Bool, true, false, ◌||◌, Option, none, some, ltb, leb, ◌==◌,
  if◌then◌else◌,
}

abbrev pub usecs_in_secs : ℕ
usecs_in_secs = 1000000

pub record Timeval : Type 0 where
  pub tv_sec : ℕ
  pub tv_usec : ℕ

pub usecs_to_timeval : ℕ → Timeval
usecs_to_timeval usecs = record { tv_sec = usecs / usecs_in_secs; tv_usec = usecs % usecs_in_secs }

unfoldable pub timeval_to_usecs : Timeval → ℕ
timeval_to_usecs tv = (tv.tv_sec * usecs_in_secs + tv.tv_usec) % 2 ^ 64

-- An int64_t: its sign and its magnitude.
pub data Signed : Type 0 where
  plus minus : ℕ → Signed

pub to_signed : ℕ → Signed
to_signed v = if ltb v (2 ^ 63) then plus v else minus (2 ^ 64 - v)

-- a - b of uint64_t
abbrev pub sub64 : ℕ → ℕ → ℕ
sub64 a b = (a + 2 ^ 64 - b) % 2 ^ 64

pub usecs_diff : ℕ → ℕ → Signed
unfolding to_signed
usecs_diff l r = to_signed (sub64 l r)

pub timeval_diff : Timeval → Timeval → Signed
unfolding usecs_diff timeval_to_usecs
timeval_diff l r = usecs_diff (timeval_to_usecs l) (timeval_to_usecs r)

pub record TimePoint : Type 0 where
  pub usecs : ℕ
  pub ticks : ℕ

pub record TimeData : Type 0 where
  pub tp : TimePoint
  pub freq : ℕ

-- A product with USECS_IN_SECS and a quotient by the frequency, on int64_t.
abbrev scaled : ℕ → ℕ → Option ℕ
scaled freq n =
    if freq == 0 || leb (2 ^ 63) (n * usecs_in_secs) then none else some (n * usecs_in_secs / freq)

abbrev forward : ℕ → Option ℕ → Option ℕ
forward usecs none = none
forward usecs (some n) = some ((usecs + n) % 2 ^ 64)

abbrev backward : ℕ → Option ℕ → Option ℕ
backward usecs none = none
backward usecs (some n) = some (sub64 usecs n)

abbrev moved : TimeData → Signed → Option ℕ
moved td (plus n) = forward td.tp.usecs (scaled td.freq n)
moved td (minus n) = backward td.tp.usecs (scaled td.freq n)

-- get_time_impl, for a frequency that is positive as an int64_t
pub get_time : TimeData → ℕ → Option ℕ
unfolding to_signed
get_time td cpu_ticks = moved td (to_signed (sub64 cpu_ticks td.tp.ticks))

-- `index`, `timedatas` and the static `prev` of update_time.
pub record Clock : Type 0 where
  pub index : ℕ
  pub timedatas : ℕ → TimeData
  pub prev : ℕ

abbrev pub slots : ℕ
slots = 10

abbrev is_recent : Signed → Bool
is_recent (plus n) = ltb n 1000000
is_recent (minus n) = true

abbrev pub set_slot : (ℕ → TimeData) → ℕ → TimeData → ℕ → TimeData
set_slot timedatas i td j = if i == j then td else timedatas j

-- The frequency between the last time point and this one; none where no time has passed.
pub measured : TimeData → TimePoint → Option ℕ
measured td tp =
    let usecs = sub64 tp.usecs td.tp.usecs in
    if usecs == 0 then none else some (sub64 tp.ticks td.tp.ticks * usecs_in_secs % 2 ^ 64 / usecs)

abbrev following : ℕ → ℕ
following index = if leb slots (index + 1) then 0 else index + 1

-- update_time: `ticks` and `later` are the counter at its start and its end, `tp` the time point
-- between them.
pub update_time : ℕ → TimePoint → ℕ → Clock → Option Clock
unfolding get_time usecs_diff measured
update_time ticks tp later c =
    let td = c.timedatas c.index in
    elim (get_time td ticks) [
      | none ↦ none
      | some curr ↦ elim (is_recent (usecs_diff curr c.prev)) [
        | true ↦ some c
        | false ↦ elim (measured td tp) [
          | none ↦ none
          | some freq ↦
              let fresh : TimeData = record { tp = tp; freq = (td.freq + freq) % 2 ^ 64 / 2 } in
              elim (get_time fresh later) [
                | none ↦ none
                | some prev ↦ some (record {
                  index = following c.index;
                  timedatas = set_slot c.timedatas (following c.index) fresh;
                  prev = prev;
                })
              ]
        ]
      ]
    ]
