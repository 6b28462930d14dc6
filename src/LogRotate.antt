-- ===== src/LogRotate.antt =====
-- src/core/LogRotate.h: the log file that is written, and the one before it. What the system
-- answers is an argument: the time, the result of fopen, and whether the file can be read.
pub mod Files
pub mod Calls
mod Tests
use mediaroom.Prelude.{
  ℕ, zero, suc, ◌+◌, ◌-◌, ◌*◌, ◌/◌, ◌%◌, ◌^◌, ◌≤◌, ◌<◌, ◌≡◌, ◌≢◌, refl, sym, ap, ◌∙◌, ◌↔◌, ◌⊎◌, inl,
  inr, Bool, true, false, not, ◌&&◌, ◌||◌, Option, none, some, List, [], ◌∷◌, ◌++◌, map, arith, ltb,
  leb, ◌==◌, if◌then◌else◌, ltb→lt, lt→ltb, leb→le, ==_iff, Bool-cases, Option-cases, length,
  get_elem?, take, replicate, length-append, All, Distinct, All-left, All-right,
}

-- A FILE is a number. `is_open` has the streams that are open, for all of the program.
pub record LogRotate : Type 0 where
  pub filename : List ℕ
  pub log_path : List ℕ
  pub active_log : Option ℕ
  pub active_logname : List ℕ
  pub old_log : Option ℕ
  pub create_time : ℕ
  pub switch_time : ℕ
  pub check_file_exists_count : ℕ
  pub is_open : ℕ → Bool

abbrev pub create_new_log_interval : ℕ
create_new_log_interval = 3600

abbrev pub max_file_size : ℕ
max_file_size = 1024 * 1024 * 1024

abbrev pub close_old_log_timeout : ℕ
close_old_log_timeout = 5

abbrev pub check_file_exists_count_limit : ℕ
check_file_exists_count_limit = 200

abbrev pub set_open : ℕ → Bool → (ℕ → Bool) → ℕ → Bool
set_open f b is_open g = if f == g then b else is_open g

-- fopen, which answers a new stream or the null pointer
abbrev pub opened : Option ℕ → (ℕ → Bool) → ℕ → Bool
opened none is_open = is_open
opened (some f) is_open = set_open f true is_open

abbrev pub closed : Option ℕ → (ℕ → Bool) → ℕ → Bool
closed none is_open = is_open
closed (some f) is_open = set_open f false is_open

pub set_filename : List ℕ → LogRotate → LogRotate
set_filename name s = record s { filename = name }

-- setLogPath: none where the path is empty, which has no last character.
pub drop_slash : List ℕ → Option (List ℕ)
drop_slash [] = none
drop_slash (c ∷ []) = some (if c == 0x2f then [] else c ∷ [])
drop_slash (c ∷ d ∷ cs) = elim (drop_slash (d ∷ cs)) [ none ↦ none | some r ↦ some (c ∷ r) ]

pub set_log_path : List ℕ → LogRotate → Option LogRotate
unfolding drop_slash
set_log_path path s = elim (drop_slash path) [
  | none ↦ none
  | some p ↦ some (record s { log_path = p })
]

-- generateName: `to_string` is that of the standard library.
pub generate_name : (to_string : ℕ → List ℕ) → ℕ → LogRotate → List ℕ
generate_name to_string time s =
    s.log_path ++ (0x2f ∷ s.filename ++ (0x2d ∷ to_string time ++ (0x2e ∷ 0x6c ∷ 0x6f ∷ 0x67 ∷ [])))

-- createFile asks for the time twice.
pub create_file : (ℕ → List ℕ) → (now later : ℕ) → Option ℕ → LogRotate → LogRotate
unfolding generate_name
create_file to_string now later file s = record s {
  active_logname = generate_name to_string now s;
  active_log = file;
  create_time = later;
  is_open = opened file s.is_open;
}

-- The branch of `operator FILE*` for a file that is gone: a new one, unless the one before, `old`,
-- is still open.
pub recreate :
    (old : Option ℕ) → (ℕ → List ℕ) → (switched now later : ℕ) → Option ℕ → LogRotate → LogRotate
unfolding create_file
recreate (some f) to_string switched now later file s = s
recreate none to_string switched now later file s =
    create_file to_string now later file
      (record s { old_log = s.active_log; switch_time = switched })

-- `operator FILE*` once the call is counted, on the active file.
pub counted_file :
    (active : Option ℕ)
    → (ℕ → List ℕ)
    → (readable : Bool) → (switched now later : ℕ) → Option ℕ
    → LogRotate
    → LogRotate
unfolding create_file recreate
counted_file none to_string readable switched now later file s =
    create_file to_string now later file s
counted_file (some f) to_string readable switched now later file s =
    if leb check_file_exists_count_limit s.check_file_exists_count
    then record (if readable then s else recreate s.old_log to_string switched now later file s) {
      check_file_exists_count = 0;
    }
    else s

-- `operator FILE*`: `readable` says whether the active file can be opened for reading.
pub get_file :
    (ℕ → List ℕ) → (readable : Bool) → (switched now later : ℕ) → Option ℕ → LogRotate → LogRotate
unfolding counted_file
get_file to_string readable switched now later file s =
    counted_file s.active_log to_string readable switched now later file
      (record s { check_file_exists_count = s.check_file_exists_count + 1 })

-- The first half of `check`: a new file where the active one is old or large. `size` is ftell.
pub rotate : (ℕ → List ℕ) → (now size : ℕ) → Option ℕ → LogRotate → LogRotate
unfolding generate_name
rotate to_string now size file s =
    if ltb (s.create_time + create_new_log_interval) now || ltb max_file_size size
    then elim file [
      | none ↦ s
      | some f ↦ record s {
        old_log = s.active_log;
        active_log = some f;
        create_time = now;
        switch_time = now;
        active_logname = generate_name to_string now s;
        is_open = opened (some f) s.is_open;
      }
    ]
    else s

-- The second half: the file before, `old`, is closed some seconds later.
pub close_old : (old : Option ℕ) → (now : ℕ) → LogRotate → LogRotate
close_old none now s = s
close_old (some f) now s =
    if ltb (s.switch_time + close_old_log_timeout) now
    then record s { old_log = none; is_open = closed (some f) s.is_open }
    else s

-- `check`, on the two files.
pub check_files :
    (active old : Option ℕ) → (ℕ → List ℕ) → (now size : ℕ) → Option ℕ → LogRotate → LogRotate
unfolding rotate close_old
check_files none old to_string now size file s = s
check_files (some f) (some g) to_string now size file s = close_old (some g) now s
check_files (some f) none to_string now size file s =
    let r = rotate to_string now size file s in close_old r.old_log now r

pub check : (ℕ → List ℕ) → (now size : ℕ) → Option ℕ → LogRotate → LogRotate
unfolding check_files
check to_string now size file s = check_files s.active_log s.old_log to_string now size file s

pub close : LogRotate → LogRotate
close s = record s {
  active_log = none;
  old_log = none;
  is_open = closed s.old_log (closed s.active_log s.is_open);
}
