-- ===== src/LogRotate/Tests.antt =====
-- The theorems on log files at short histories, and runs.
use mediaroom.Prelude.{ℕ, ◌≡◌, refl, Bool, true, none, some, List, [], ◌∷◌, arith, ◌==◌}
use mediaroom.LogRotate.{
  LogRotate, drop_slash, get_file, create_file, counted_file, check, check_files, rotate, close_old,
}
use mediaroom.LogRotate.Files.{Keeps}
use mediaroom.LogRotate.Calls.{Calls, start, call, asks, checks, Calls-Keeps}

abbrev digits : ℕ → List ℕ
digits n = 0x30 ∷ []

-- Nothing is open yet but stream 2, which is not the log's.
abbrev stderr_only : ℕ → Bool
stderr_only f = f == 2

abbrev fresh_log : LogRotate
fresh_log = record {
  filename = 0x6c ∷ [];
  log_path = 0x2e ∷ 0x2f ∷ [];
  active_log = none;
  active_logname = [];
  old_log = none;
  create_time = 1000;
  switch_time = 0;
  check_file_exists_count = 0;
  is_open = stderr_only;
}

fresh_log-Keeps : Keeps stderr_only fresh_log
fresh_log-Keeps = record {
  open_files = λ f. ground arith;
  apart = λ f e. refl;
  not_others = λ f e. cc;
}

abbrev first_log : LogRotate
first_log = get_file digits true 1000 1000 1000 (some 3) fresh_log

-- The file 3 is opened, and an hour later the file 4.
abbrev rotated_log : LogRotate
rotated_log = check digits 4601 10 (some 4) first_log

history : Calls digits fresh_log rotated_log
unfolding get_file counted_file create_file
history =
    call (call start (asks true 1000 1000 1000 (some 3) (λ f e. ground arith)))
      (checks 4601 10 (some 4) (λ f e. ground arith))

Calls-Keeps_example : Keeps stderr_only rotated_log
Calls-Keeps_example = Calls-Keeps history fresh_log-Keeps

two_open : (rotated_log.active_log ≡ some 4) × (rotated_log.old_log ≡ some 3)
unfolding check check_files rotate close_old get_file counted_file create_file
two_open = (refl, refl)

slash_dropped : drop_slash (0x61 ∷ 0x2f ∷ []) ≡ some (0x61 ∷ [])
unfolding drop_slash
slash_dropped = refl
