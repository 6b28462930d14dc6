-- ===== src/LogRotate/Calls.antt =====
-- Any sequence of calls of a LogRotate, and how old its files are.
use mediaroom.Prelude.{
  ℕ, ◌+◌, ◌≤◌, ◌≡◌, refl, ◌⊎◌, inl, inr, Bool, Option, none, some, List, arith, Option-cases,
}
use mathlib.Core.Path.{subst}
use mediaroom.LogRotate.{
  LogRotate, create_new_log_interval, set_filename, drop_slash, set_log_path, get_file, check,
  close,
}
use mediaroom.LogRotate.Files.{Keeps, Fresh, get_file-Keeps, check_files-Keeps, close-Keeps}

-- A call, with what the system answers. A stream that is opened was not open before.
pub data Call (to_string : ℕ → List ℕ) (s : LogRotate) : LogRotate → Type 0 where
  names : (name : List ℕ) → Call to_string s (set_filename name s)
  moves : (path : List ℕ) {r : LogRotate} → set_log_path path s ≡ some r → Call to_string s r
  asks :
      (readable : Bool) (switched now later : ℕ) (file : Option ℕ)
      → Fresh file s
      → Call to_string s (get_file to_string readable switched now later file s)
  checks :
      (now size : ℕ) (file : Option ℕ)
      → Fresh file s
      → Call to_string s (check to_string now size file s)
  closes : Call to_string s (close s)

pub data Calls (to_string : ℕ → List ℕ) (s : LogRotate) : LogRotate → Type 0 where
  start : Calls to_string s s
  call : {r t : LogRotate} → Calls to_string s r → Call to_string r t → Calls to_string s t

set_log_path-Keeps :
    (others : ℕ → Bool) (path : List ℕ) (s r : LogRotate)
    → set_log_path path s ≡ some r
    → Keeps others s
    → Keeps others r
unfolding set_log_path
set_log_path-Keeps others path s r e k = elim (Option-cases (drop_slash path)) [
  | inl f ↦ absurd (ground arith)
  | inr (p, f) ↦
      let moved : record s { log_path = p } ≡ r = ground arith in
      subst (Keeps others) moved
        (record { open_files = k.open_files; apart = k.apart; not_others = k.not_others })
]

Call-Keeps :
    {to_string : ℕ → List ℕ} {others : ℕ → Bool} {s r : LogRotate}
    → Call to_string s r
    → Keeps others s
    → Keeps others r
unfolding set_filename check
Call-Keeps (names name) k = record {
  open_files = k.open_files;
  apart = k.apart;
  not_others = k.not_others;
}
Call-Keeps {to_string} {others} {s} {r} (moves path e) k = set_log_path-Keeps others path s r e k
Call-Keeps {to_string} {others} {s} (asks readable switched now later file fresh) k =
    get_file-Keeps to_string others readable switched now later file s fresh k
Call-Keeps {to_string} {others} {s} (checks now size file fresh) k =
    check_files-Keeps to_string others s.active_log s.old_log now size file s refl fresh k
Call-Keeps {to_string} {others} {s} closes k = close-Keeps to_string others s k

-- Whatever is called, and whatever the system answers, a LogRotate holds no more files open than
-- its active one and the one before, which are two, and it closes no file that is not its own:
-- the streams that are open are those of others and these two.
pub Calls-Keeps :
    {to_string : ℕ → List ℕ} {others : ℕ → Bool} {s r : LogRotate}
    → Calls to_string s r
    → Keeps others s
    → Keeps others r
Calls-Keeps start k = k
Calls-Keeps (call past c) k = Call-Keeps c (Calls-Keeps past k)

-- `r` has a file that is not more than an hour old, and if there is one from before, that is `f`,
-- and it was replaced now.
abbrev pub Recent : (now f g : ℕ) → LogRotate → Type 0
Recent now f g r =
    (now ≤ r.create_time + create_new_log_interval)
    × ((r.old_log ≡ none)
        ⊎ ((r.old_log ≡ some f) × (r.active_log ≡ some g) × (r.switch_time ≡ now)))
