-- ===== src/LogRotate/Files.antt =====
-- What the calls of a LogRotate do to the files that are open.
use mediaroom.Prelude.{
  ℕ, ◌+◌, ◌≡◌, refl, Bool, true, false, ◌||◌, Option, none, some, List, arith, ltb, leb, ◌==◌,
  if◌then◌else◌,
}
use mediaroom.LogRotate.{
  LogRotate, opened, closed, create_new_log_interval, max_file_size, close_old_log_timeout,
  create_file, recreate, counted_file, get_file, rotate, close_old, check_files, close,
  generate_name, check_file_exists_count_limit,
}

abbrev pub is_file : ℕ → Option ℕ → Bool
is_file f none = false
is_file f (some g) = f == g

-- The two files are different, and open; `others` are the streams that others have open.
pub record Keeps (others : ℕ → Bool) (s : LogRotate) : Type 0 where
  pub open_files :
      (f : ℕ) → s.is_open f ≡ (others f || (is_file f s.active_log || is_file f s.old_log))
  pub apart : (f : ℕ) → s.active_log ≡ some f → is_file f s.old_log ≡ false
  pub not_others : (f : ℕ) → is_file f s.active_log || is_file f s.old_log ≡ true → others f ≡ false

-- fopen answers a stream that is not open.
abbrev pub Fresh : Option ℕ → LogRotate → Type 0
Fresh file s = (f : ℕ) → file ≡ some f → s.is_open f ≡ false

create_file-Keeps :
    (to_string : ℕ → List ℕ) (now later : ℕ) (file : Option ℕ) (others : ℕ → Bool) (s : LogRotate)
    → Fresh file s
    → s.active_log ≡ none
    → Keeps others s
    → Keeps others (create_file to_string now later file s)
unfolding create_file
create_file-Keeps to_string now later none others s fresh empty k = record {
  open_files = λ f. ground (arith, k.open_files f);
  apart = λ f e. ground (arith, k.open_files f);
  not_others = λ f e. ground (arith, k.not_others f);
}
create_file-Keeps to_string now later (some g) others s fresh empty k = record {
  open_files = λ f. ground (arith, k.open_files f, fresh g);
  apart = λ f e. ground (arith, k.open_files f, fresh g);
  not_others = λ f e. ground (arith, k.open_files f, k.not_others f, fresh g);
}

Keeps-if :
    (others : ℕ → Bool) (c : Bool) (s r : LogRotate)
    → Keeps others s
    → Keeps others r
    → Keeps others (if c then s else r)
Keeps-if others true s r h k = h
Keeps-if others false s r h k = k

-- The active file becomes the one before, and a new one is opened.
moved-Keeps :
    (to_string : ℕ → List ℕ) (switched now later : ℕ) (file : Option ℕ) (others : ℕ → Bool)
    (s : LogRotate)
    → Fresh file s
    → s.old_log ≡ none
    → Keeps others s
    → Keeps others (
        create_file to_string now later file
          (record s { old_log = s.active_log; switch_time = switched }))
unfolding create_file
moved-Keeps to_string switched now later none others s fresh e k = record {
  open_files = λ f. ground (arith, k.open_files f);
  apart = λ f h. ground (arith, k.open_files f);
  not_others = λ f h. ground (arith, k.not_others f);
}
moved-Keeps to_string switched now later (some g) others s fresh e k = record {
  open_files = λ f. ground (arith, k.open_files f, fresh g);
  apart = λ f h. ground (arith, k.open_files f, fresh g);
  not_others = λ f h. ground (arith, k.open_files f, k.not_others f, fresh g);
}

closed_lem :
    (file : Option ℕ) (is_open : ℕ → Bool) (f : ℕ)
    → closed file is_open f ≡ (if is_file f file then false else is_open f)
closed_lem none is_open f = refl
closed_lem (some g) is_open f = ground arith

abbrev pub rotated : (ℕ → List ℕ) → ℕ → ℕ → LogRotate → LogRotate
rotated to_string now g s = record s {
  old_log = s.active_log;
  active_log = some g;
  create_time = now;
  switch_time = now;
  active_logname = generate_name to_string now s;
  is_open = opened (some g) s.is_open;
}

module _ (to_string : ℕ → List ℕ) (others : ℕ → Bool) where
  recreate-Keeps :
      (old : Option ℕ) (switched now later : ℕ) (file : Option ℕ) (s : LogRotate)
      → s.old_log ≡ old
      → Fresh file s
      → Keeps others s
      → Keeps others (recreate old to_string switched now later file s)
  unfolding recreate
  recreate-Keeps (some g) switched now later file s e fresh k = k
  recreate-Keeps none switched now later file s e fresh k =
      moved-Keeps to_string switched now later file others s fresh e k

  -- Neither counts nor names matter.
  recount-Keeps :
      (n : ℕ) (s : LogRotate)
      → Keeps others s
      → Keeps others (record s { check_file_exists_count = n })
  recount-Keeps n s k = record {
    open_files = k.open_files;
    apart = k.apart;
    not_others = k.not_others;
  }

  counted_file-Keeps :
      (active : Option ℕ) (readable : Bool) (switched now later : ℕ) (file : Option ℕ)
      (s : LogRotate)
      → s.active_log ≡ active
      → Fresh file s
      → Keeps others s
      → Keeps others (counted_file active to_string readable switched now later file s)
  unfolding counted_file
  counted_file-Keeps none readable switched now later file s e fresh k =
      create_file-Keeps to_string now later file others s fresh e k
  counted_file-Keeps (some f) readable switched now later file s e fresh k =
      let again = recreate-Keeps s.old_log switched now later file s refl fresh k in
      let kept =
        Keeps-if others readable s (recreate s.old_log to_string switched now later file s) k
          again in
      Keeps-if others (leb check_file_exists_count_limit s.check_file_exists_count)
        (record (if readable then s else recreate s.old_log to_string switched now later file s) {
          check_file_exists_count = 0;
        })
        s (recount-Keeps 0 _ kept) k

  pub get_file-Keeps :
      (readable : Bool) (switched now later : ℕ) (file : Option ℕ) (s : LogRotate)
      → Fresh file s
      → Keeps others s
      → Keeps others (get_file to_string readable switched now later file s)
  unfolding get_file
  get_file-Keeps readable switched now later file s fresh k =
      counted_file-Keeps s.active_log readable switched now later file _ refl fresh
        (recount-Keeps (s.check_file_exists_count + 1) s k)

  rotate-Keeps :
      (now size : ℕ) (file : Option ℕ) (s : LogRotate)
      → Fresh file s
      → s.old_log ≡ none
      → Keeps others s
      → Keeps others (rotate to_string now size file s)
  unfolding rotate
  rotate-Keeps now size none s fresh e k =
      Keeps-if others (ltb (s.create_time + create_new_log_interval) now || ltb max_file_size size)
        s s k k
  rotate-Keeps now size (some g) s fresh e k =
      Keeps-if others (ltb (s.create_time + create_new_log_interval) now || ltb max_file_size size)
        (rotated to_string now g s) s
        (record {
          open_files = λ f. ground (arith, k.open_files f, fresh g);
          apart = λ f h. ground (arith, k.open_files f, fresh g);
          not_others = λ f h. ground (arith, k.open_files f, k.not_others f, fresh g);
        })
        k

  close_old-Keeps :
      (old : Option ℕ) (now : ℕ) (s : LogRotate)
      → s.old_log ≡ old
      → Keeps others s
      → Keeps others (close_old old now s)
  unfolding close_old
  close_old-Keeps none now s e k = k
  close_old-Keeps (some g) now s e k =
      Keeps-if others (ltb (s.switch_time + close_old_log_timeout) now)
        (record s { old_log = none; is_open = closed (some g) s.is_open }) s
        (record {
          open_files = λ f. ground (arith, k.open_files f, k.apart f, k.not_others f);
          apart = λ f h. refl;
          not_others = λ f h. ground (arith, k.not_others f);
        })
        k

  pub check_files-Keeps :
      (active old : Option ℕ) (now size : ℕ) (file : Option ℕ) (s : LogRotate)
      → s.old_log ≡ old
      → Fresh file s
      → Keeps others s
      → Keeps others (check_files active old to_string now size file s)
  unfolding check_files
  check_files-Keeps none old now size file s e fresh k = k
  check_files-Keeps (some f) (some g) now size file s e fresh k = close_old-Keeps (some g) now s e k
  check_files-Keeps (some f) none now size file s e fresh k =
      close_old-Keeps _ now (rotate to_string now size file s) refl
        (rotate-Keeps now size file s fresh e k)

  pub close-Keeps : (s : LogRotate) → Keeps others s → Keeps others (close s)
  unfolding close
  close-Keeps s k = record {
    open_files = λ f. ground (
      arith,
      k.open_files f,
      k.not_others f,
      closed_lem s.old_log (closed s.active_log s.is_open) f,
      closed_lem s.active_log s.is_open f,
    );
    apart = λ f h. refl;
    not_others = λ f h. cc;
  }
