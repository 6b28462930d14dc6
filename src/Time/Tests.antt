-- ===== src/Time/Tests.antt =====
-- Times at concrete inputs.
use mediaroom.Prelude.{◌≡◌, refl, some}
use mediaroom.Time.{
  usecs_diff, TimePoint, TimeData, get_time, Clock, measured, update_time, set_slot,
}

abbrev time_data : TimeData
time_data = record { tp = record { usecs = 5000000; ticks = 9000000000 }; freq = 3000000000 }

-- The last slot is used; two seconds later the first one is.
abbrev clock : Clock
clock = record { index = 9; timedatas = λ i. time_data; prev = 5000000 }

abbrev point : TimePoint
point = record { usecs = 7000000; ticks = 15000000000 }

abbrev moved_on : Clock
moved_on = record {
  index = 0;
  timedatas = set_slot (λ i. time_data) 0 (record { tp = point; freq = 3000000000 });
  prev = 7000000;
}

clock_moves : update_time 15000000000 point 15000000000 clock ≡ some moved_on
unfolding update_time get_time usecs_diff measured
clock_moves = refl
