-- ===== src/Args/Text.antt =====
-- src/core/System.h: find and substr behind a text that is known.
use mediaroom.Prelude.{
  append_assoc, ℕ, suc, ◌+◌, ◌≡◌, ◌≢◌, refl, sym, ap, ◌∙◌, true, false, some, List, [], ◌∷◌, ◌++◌,
  leb, ◌==◌, length, take, arith, All, length-append,
}
use mathlib.Core.Path.{ap₂}
use mediaroom.Args.{npos, drop, find_in, find, substr, char_of}

-- No character of the text is `c`.
abbrev pub Free : ℕ → List ℕ → Type 0
Free c = All (λ x. x ≢ c)

pub drop-append : (xs ys : List ℕ) → drop (length xs) (xs ++ ys) ≡ ys
unfolding drop
drop-append [] ys = refl
drop-append (x ∷ xs) ys = drop-append xs ys

pub take-append : (xs ys : List ℕ) → take (length xs) (xs ++ ys) ≡ xs
take-append [] ys = refl
take-append (x ∷ xs) ys = ap (λ l. x ∷ l) (take-append xs ys)

find_in-skip :
    (c : ℕ) (xs ys : List ℕ) (i : ℕ)
    → Free c xs
    → find_in c (xs ++ ys) i ≡ find_in c ys (i + length xs)
unfolding find_in
find_in-skip c [] ys i h = ap (find_in c ys) (omega arith)
find_in-skip c (x ∷ xs) ys i (h, k) =
    let t : (x == c) ≡ false = ground arith in
    rw (t) (find_in-skip c xs ys (i + 1) k ∙ ap (find_in c ys) (omega arith))

find_in-here : (c : ℕ) (ys : List ℕ) (i : ℕ) → find_in c (c ∷ ys) i ≡ i
unfolding find_in
find_in-here c ys i = ground arith

find_in-none : (c : ℕ) (xs : List ℕ) (i : ℕ) → Free c xs → find_in c xs i ≡ npos
unfolding find_in
find_in-none c [] i h = refl
find_in-none c (x ∷ xs) i (h, k) =
    let t : (x == c) ≡ false = ground arith in rw (t) (find_in-none c xs (i + 1) k)

-- The first `c` behind `pre`, or none.
pub find_behind :
    (c : ℕ) (pre xs ys : List ℕ)
    → Free c xs
    → find c (pre ++ (xs ++ (c ∷ ys))) (length pre) ≡ length pre + length xs
find_behind c pre xs ys h =
    ap (λ l. find_in c l (length pre)) (drop-append pre (xs ++ (c ∷ ys)))
    ∙ find_in-skip c xs (c ∷ ys) (length pre) h
    ∙ find_in-here c ys (length pre + length xs)

pub find_nowhere : (c : ℕ) (pre xs : List ℕ) → Free c xs → find c (pre ++ xs) (length pre) ≡ npos
find_nowhere c pre xs h =
    ap (λ l. find_in c l (length pre)) (drop-append pre xs) ∙ find_in-none c xs (length pre) h

-- What stands behind `pre`.
pub substr_behind :
    (pre xs ys : List ℕ) → substr (pre ++ (xs ++ ys)) (length pre) (length xs) ≡ some xs
unfolding substr
substr_behind pre xs ys =
    let t : leb (length pre) (length (pre ++ (xs ++ ys))) ≡ true =
      ground (arith, length-append pre (xs ++ ys)) in
    rw (t) (ap some (ap (take (length xs)) (drop-append pre (xs ++ ys)) ∙ take-append xs ys))

pub char_of-behind :
    (pre : List ℕ) (c : ℕ) (ys : List ℕ) → char_of (pre ++ (c ∷ ys)) (length pre) ≡ some c
unfolding char_of
char_of-behind [] c ys = refl
char_of-behind (x ∷ pre) c ys = char_of-behind pre c ys

-- The same, behind one more character.
abbrev pub snoc : List ℕ → ℕ → List ℕ
snoc pre x = pre ++ (x ∷ [])

pub shift : (pre : List ℕ) (x : ℕ) (ys : List ℕ) → pre ++ (x ∷ ys) ≡ snoc pre x ++ ys
shift pre x ys = sym (append_assoc pre (x ∷ []) ys)

pub length-snoc : (pre : List ℕ) (x : ℕ) → length (snoc pre x) ≡ length pre + 1
length-snoc pre x = length-append pre (x ∷ [])

pub substr_second :
    (pre xs ys : List ℕ) (x : ℕ)
    → substr (pre ++ (x ∷ (xs ++ ys))) (length pre + 1) (length xs) ≡ some xs
substr_second pre xs ys x =
    ap₂ (λ l p. substr l p (length xs)) (shift pre x (xs ++ ys)) (sym (length-snoc pre x))
    ∙ substr_behind (snoc pre x) xs ys

pub find_second :
    (c : ℕ) (pre xs ys : List ℕ) (x : ℕ)
    → Free c xs
    → find c (pre ++ (x ∷ (xs ++ (c ∷ ys)))) (length pre + 1) ≡ length pre + 1 + length xs
find_second c pre xs ys x h =
    ap₂ (λ l p. find c l p) (shift pre x (xs ++ (c ∷ ys))) (sym (length-snoc pre x))
    ∙ find_behind c (snoc pre x) xs ys h
    ∙ ap (λ p. p + length xs) (length-snoc pre x)

suc-add : (n : ℕ) → suc n + 1 ≡ suc (n + 1)
suc-add n = omega arith

pub char_of-second :
    (pre : List ℕ) (x : ℕ) (ys : List ℕ) → char_of (pre ++ (x ∷ ys)) (length pre + 1) ≡ char_of ys 0
unfolding char_of
char_of-second [] x ys = refl
char_of-second (y ∷ pre) x ys =
    ap (char_of (y ∷ (pre ++ (x ∷ ys)))) (suc-add (length pre)) ∙ char_of-second pre x ys
