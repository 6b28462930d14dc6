-- ===== src/Args/Turns.antt =====
-- src/core/System.h: what a turn of the loop over the parameters reads.
use mediaroom.Prelude.{
  append_assoc, take-more, ℕ, ◌+◌, ◌<◌, ◌≡◌, ◌≢◌, refl, sym, ap, ◌∙◌, true, false, some, List, [],
  ◌∷◌, ◌++◌, leb, ◌==◌, length, take, arith, length-append,
}
use mathlib.Core.Path.{ap₂}
use mediaroom.Args.{
  npos, add64, sub64, drop, find, substr, char_of, Props, insert, quote, with_places, quoted_value,
  plain_value, read_value, parse_turn,
}
use mediaroom.Args.Text.{
  Free, drop-append, find_behind, find_nowhere, substr_behind, snoc, shift, length-snoc,
  substr_second, find_second, char_of-second,
}

-- What does not begin with a quote.
abbrev pub Unquoted : List ℕ → Type 0
Unquoted [] = Unit {0}
Unquoted (c ∷ cs) = c ≢ quote

abbrev pub Small : List ℕ → Type 0
Small xs = length xs < npos

pub read_value-plain :
    (params : List ℕ) (pos index c : ℕ)
    → c ≢ quote
    → read_value params pos index (some c) ≡ plain_value params pos index
read_value-plain params pos index c h = let t : (c == quote) ≡ false = ground arith in rw (t) refl

char_of-Unquoted :
    (value more : List ℕ) (d : ℕ)
    → Unquoted value
    → d ≢ quote
    → (c : ℕ) × (char_of (value ++ (d ∷ more)) 0 ≡ some c) × (c ≢ quote)
unfolding char_of
char_of-Unquoted [] more d h k = (d, refl, k)
char_of-Unquoted (c ∷ cs) more d h k = (c, refl, h)

-- Numbers of 64 bits that do not wrap around.
pub add64-small : (a : ℕ) → a < npos → add64 a 1 ≡ a + 1
add64-small a h = omega arith

pub sub64-small : (a b : ℕ) → a + b < npos → sub64 (a + b) a ≡ b
sub64-small a b h = omega arith

plain_found :
    (params : List ℕ) (pos from n : ℕ)
    → find b',' params from ≡ pos + n
    → pos + n < npos
    → plain_value params pos from ≡ with_places (pos + n + 1) (pos + n) (substr params pos n)
plain_found params pos from n e h =
    let t : (pos + n == npos) ≡ false = ground arith in
    let f : add64 (pos + n) 1 ≡ pos + n + 1 = add64-small (pos + n) h in
    let g : sub64 (pos + n) pos ≡ n = sub64-small pos n h in rw (e, t, f, g) refl

-- A plain value with a comma behind it.
pub plain_lem :
    (pre value more : List ℕ)
    → Free b',' value
    → Unquoted value
    → Small (pre ++ (b':' ∷ (value ++ (b',' ∷ more))))
    → read_value
        (pre ++ (b':' ∷ (value ++ (b',' ∷ more))))
        (length pre + 1)
        (length pre)
        (char_of (pre ++ (b':' ∷ (value ++ (b',' ∷ more)))) (length pre + 1))
      ≡ some (value, length pre + 1 + length value + 1, length pre + 1 + length value)
plain_lem pre value more h u s =
    let params : List ℕ = pre ++ (b':' ∷ (value ++ (b',' ∷ more))) in
    let (c, e, f) = char_of-Unquoted value more b',' u (omega arith) in
    let b : length pre + 1 + length value < npos = omega (
      arith,
      length-append pre (b':' ∷ (value ++ (b',' ∷ more))),
      length-append value (b',' ∷ more),
    ) in
    ap (read_value params (length pre + 1) (length pre))
      (char_of-second pre b':' (value ++ (b',' ∷ more)) ∙ e)
    ∙ read_value-plain params (length pre + 1) (length pre) c f
    ∙ plain_found params (length pre + 1) (length pre) (length value)
        (find_behind b',' pre (b':' ∷ value) more (omega arith, h) ∙ omega arith) b
    ∙ ap (with_places (length pre + 1 + length value + 1) (length pre + 1 + length value))
        (substr_second pre value (b',' ∷ more) b':')

read_value-quoted :
    (params : List ℕ) (pos index : ℕ)
    → read_value params pos index (some quote) ≡ quoted_value params pos
read_value-quoted params pos index = refl

quoted_found :
    (params : List ℕ) (pos n : ℕ)
    → find quote params (pos + 1) ≡ pos + 1 + n
    → pos + 1 + n < npos
    → quoted_value params pos
      ≡ with_places (pos + 1 + n + 1) (pos + 1 + n) (substr params (pos + 1) n)
quoted_found params pos n e h =
    let d : add64 pos 1 ≡ pos + 1 = add64-small pos (omega arith) in
    let f : add64 (pos + 1 + n) 1 ≡ pos + 1 + n + 1 = add64-small (pos + 1 + n) h in
    let g : sub64 (pos + 1 + n) (pos + 1) ≡ n = sub64-small (pos + 1) n h in rw (d, e, f, g) refl

-- A value in quotes.
pub quoted_lem :
    (pre value more : List ℕ)
    → Free quote value
    → Small (pre ++ (b':' ∷ (quote ∷ (value ++ (quote ∷ more)))))
    → read_value
        (pre ++ (b':' ∷ (quote ∷ (value ++ (quote ∷ more)))))
        (length pre + 1)
        (length pre)
        (char_of (pre ++ (b':' ∷ (quote ∷ (value ++ (quote ∷ more))))) (length pre + 1))
      ≡ some (value, length pre + 1 + 1 + length value + 1, length pre + 1 + 1 + length value)
unfolding char_of
quoted_lem pre value more h s =
    let params : List ℕ = pre ++ (b':' ∷ (quote ∷ (value ++ (quote ∷ more)))) in
    let behind : List ℕ = snoc pre b':' in
    let e : params ≡ behind ++ (quote ∷ (value ++ (quote ∷ more))) =
      shift pre b':' (quote ∷ (value ++ (quote ∷ more))) in
    let n : length behind ≡ length pre + 1 = length-snoc pre b':' in
    let b : length pre + 1 + 1 + length value < npos = omega (
      arith,
      length-append pre (b':' ∷ (quote ∷ (value ++ (quote ∷ more)))),
      length-append value (quote ∷ more),
    ) in
    ap (read_value params (length pre + 1) (length pre))
      (char_of-second pre b':' (quote ∷ (value ++ (quote ∷ more))))
    ∙ quoted_found params (length pre + 1) (length value)
        (ap₂ (λ l p. find quote l (p + 1)) e (sym n)
          ∙ find_second quote behind value more quote h
          ∙ ap (λ p. p + 1 + length value) n)
        b
    ∙ ap (with_places (length pre + 1 + 1 + length value + 1) (length pre + 1 + 1 + length value)) (
        ap₂ (λ l p. substr l (p + 1) (length value)) e (sym n)
        ∙ substr_second behind value (quote ∷ more) quote)

-- A turn, by what it reads.
pub turn_lem :
    (pre name rest value : List ℕ) (index pos' index' : ℕ) (props : Props)
    → find b':' ((pre ++ name) ++ (b':' ∷ rest)) index ≡ length (pre ++ name)
    → Small ((pre ++ name) ++ (b':' ∷ rest))
    → read_value
        ((pre ++ name) ++ (b':' ∷ rest))
        (length (pre ++ name) + 1)
        (length (pre ++ name))
        (char_of ((pre ++ name) ++ (b':' ∷ rest)) (length (pre ++ name) + 1))
      ≡ some (value, pos', index')
    → parse_turn
        ((pre ++ name) ++ (b':' ∷ rest))
        (record { pos = length pre; index = index; props = props })
      ≡ some (record { pos = pos'; index = index'; props = insert name value props })
unfolding parse_turn
turn_lem pre name rest value index pos' index' props e s r =
    let params : List ℕ = (pre ++ name) ++ (b':' ∷ rest) in
    let at : ℕ = length (pre ++ name) in
    let b : at < npos = omega (arith, length-append (pre ++ name) (b':' ∷ rest)) in
    let f : add64 at 1 ≡ at + 1 = add64-small at b in
    let t : (at == npos) ≡ false = ground arith in
    let g : sub64 at (length pre) ≡ length name =
      ap (λ k. sub64 k (length pre)) (length-append pre name)
      ∙ sub64-small (length pre) (length name) (omega (arith, length-append pre name)) in
    let n : substr params (length pre) (length name) ≡ some name =
      ap (λ l. substr l (length pre) (length name)) (append_assoc pre name (b':' ∷ rest))
      ∙ substr_behind pre name (b':' ∷ rest) in
    rw (e, t, f, g, n, r) refl

char_of-last :
    (value : List ℕ) → Unquoted value → (c : ℕ) × (char_of value 0 ≡ some c) × (c ≢ quote)
unfolding char_of
char_of-last [] h = (0, refl, omega arith)
char_of-last (c ∷ cs) h = (c, refl, h)

substr-last :
    (pre value : List ℕ) (x : ℕ)
    → length value < npos
    → substr (pre ++ (x ∷ value)) (length pre + 1) npos ≡ some value
unfolding substr
substr-last pre value x h =
    let t : leb (length pre + 1) (length (pre ++ (x ∷ value))) ≡ true =
      ground (arith, length-append pre (x ∷ value)) in
    rw (t) (
      ap some (
        ap (take npos) (
          ap₂ (λ l n. drop n l) (shift pre x value) (sym (length-snoc pre x))
          ∙ drop-append (snoc pre x) value)
        ∙ take-more npos value (omega arith)))

last_found :
    (params value : List ℕ) (pos from : ℕ)
    → find b',' params from ≡ npos
    → substr params pos npos ≡ some value
    → pos + length value < npos
    → plain_value params pos from ≡ some (value, pos + length value, npos)
last_found params value pos from e s h =
    let a : add64 pos (length value) ≡ pos + length value = omega arith in rw (e, s, a) refl

-- A plain value at the end.
pub last_lem :
    (pre value : List ℕ)
    → Free b',' value
    → Unquoted value
    → Small (pre ++ (b':' ∷ value))
    → read_value
        (pre ++ (b':' ∷ value))
        (length pre + 1)
        (length pre)
        (char_of (pre ++ (b':' ∷ value)) (length pre + 1))
      ≡ some (value, length pre + 1 + length value, npos)
last_lem pre value h u s =
    let params : List ℕ = pre ++ (b':' ∷ value) in
    let (c, e, f) = char_of-last value u in
    let b : length pre + 1 + length value < npos =
      omega (arith, length-append pre (b':' ∷ value)) in
    ap (read_value params (length pre + 1) (length pre)) (char_of-second pre b':' value ∙ e)
    ∙ read_value-plain params (length pre + 1) (length pre) c f
    ∙ last_found params value (length pre + 1) (length pre)
        (find_nowhere b',' pre (b':' ∷ value) (omega arith, h))
        (substr-last pre value b':' (omega arith)) b
