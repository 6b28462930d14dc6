-- ===== src/Args/Params.antt =====
-- src/core/System.h: parameters as they are written, and the turn of the loop at one of them.
use mediaroom.Prelude.{
  append_assoc, ℕ, suc, ◌+◌, ◌<◌, ◌≡◌, ◌≢◌, refl, sym, ap, ◌∙◌, Bool, true, false, some, List, [],
  ◌∷◌, ◌++◌, ltb, ◌==◌, length, arith, length-append,
}
use mathlib.Core.Path.{subst}
use mediaroom.Args.{
  npos, find_in, find, char_of, Props, insert, Parse, quote, read_value, parse_turn, Parsed,
  parse_loop,
}
use mediaroom.Args.Text.{Free, drop-append, find_behind, snoc, shift, length-snoc}
use mediaroom.Args.Turns.{Unquoted, Small, last_lem, turn_lem, plain_lem, quoted_lem}

-- A parameter as it is written.
pub record Param : Type 0 where
  pub name : List ℕ
  pub value : List ℕ
  pub quoted : Bool

-- name:value or name:"value", in front of `more`
abbrev pub written_value : Bool → List ℕ → List ℕ → List ℕ
written_value true value more = quote ∷ (value ++ (quote ∷ more))
written_value false value more = value ++ more

abbrev pub written : Param → List ℕ → List ℕ
written p more = p.name ++ (b':' ∷ written_value p.quoted p.value more)

-- The parameters with a comma between each two.
abbrev pub written_all : List Param → List ℕ
written_all [] = []
written_all (p ∷ []) = written p []
written_all (p ∷ q ∷ ps) = written p (b',' ∷ written_all (q ∷ ps))

-- What can be written so: a name without colons, and a value without the character that ends it.
abbrev pub WritableValue : Bool → List ℕ → Type 0
WritableValue true value = Free quote value
WritableValue false value = Free b',' value × Unquoted value

abbrev pub Writable : List Param → Type 0
Writable [] = Unit {0}
Writable (p ∷ ps) = Free b':' p.name × WritableValue p.quoted p.value × Writable ps

-- The code reads the comma behind a value in quotes as part of the next name.
abbrev pub comma : Bool → List ℕ
comma true = b',' ∷ []
comma false = []

abbrev pub reads : List ℕ → List Param → Props → Props
reads before [] props = props
reads before (p ∷ ps) props = reads (comma p.quoted) ps (insert (before ++ p.name) p.value props)

abbrev pub at : ℕ → ℕ → Props → Parse
at pos index props = record { pos = pos; index = index; props = props }

find-from : (c : ℕ) (pre ys : List ℕ) → find c (pre ++ ys) (length pre) ≡ find_in c ys (length pre)
find-from c pre ys = ap (λ l. find_in c l (length pre)) (drop-append pre ys)

find_in-next : (c x : ℕ) (ys : List ℕ) (i : ℕ) → x ≢ c → find_in c (x ∷ ys) i ≡ find_in c ys (i + 1)
unfolding find_in
find_in-next c x ys i h = let t : (x == c) ≡ false = ground arith in rw (t) refl

-- A search from a character that is another one is the search from the next place.
find-next :
    (c : ℕ) (q more : List ℕ) (x : ℕ)
    → x ≢ c
    → find c (q ++ (x ∷ more)) (length q) ≡ find c (q ++ (x ∷ more)) (length (snoc q x))
find-next c q more x h =
    find-from c q (x ∷ more)
    ∙ find_in-next c x more (length q) h
    ∙ sym (
        ap (λ l. find c l (length (snoc q x))) (shift q x more)
        ∙ find-from c (snoc q x) more
        ∙ ap (find_in c more) (length-snoc q x))

pub parse_loop-turn :
    (n : ℕ) (params : List ℕ) (s : Parse)
    → s.pos < length params
    → parse_loop (suc n) params (some s) ≡ parse_loop n params (parse_turn params s)
unfolding parse_loop
parse_loop-turn n params s h =
    let t : ltb s.pos (length params) ≡ true = ground arith in rw (t) refl

-- A turn that ends behind the character `x`, and what the loop does from there.
pub advance :
    (n : ℕ) (params pre q more : List ℕ) (x index : ℕ) (props props' result : Props)
    → params ≡ q ++ (x ∷ more)
    → length pre < length params
    → x ≢ b':'
    → parse_turn params (at (length pre) index props) ≡ some (at (length q + 1) (length q) props')
    → (find b':' params (length q) ≡ find b':' params (length (snoc q x))
        → parse_loop n params (some (at (length (snoc q x)) (length q) props'))
          ≡ Parsed.parsed result)
    → parse_loop (suc n) params (some (at (length pre) index props)) ≡ Parsed.parsed result
advance n params pre q more x index props props' result e h k t next =
    parse_loop-turn n params (at (length pre) index props) h
    ∙ ap (parse_loop n params) t
    ∙ ap (λ p. parse_loop n params (some (at p (length q) props'))) (sym (length-snoc q x))
    ∙ next (
        subst (λ l. find b':' l (length q) ≡ find b':' l (length (snoc q x))) (sym e)
          (find-next b':' q more x k))

pub regroup :
    (pre before name rest : List ℕ)
    → pre ++ (before ++ (name ++ rest)) ≡ (pre ++ (before ++ name)) ++ rest
regroup pre before name rest =
    ap (λ l. pre ++ l) (sym (append_assoc before name rest))
    ∙ sym (append_assoc pre (before ++ name) rest)

pub Free-append : (c : ℕ) (xs ys : List ℕ) → Free c xs → Free c ys → Free c (xs ++ ys)
Free-append c [] ys h k = k
Free-append c (x ∷ xs) ys (h, i) k = (h, Free-append c xs ys i k)

-- A turn at a parameter, by what it reads of the value.
turn_at :
    (params pre name rest value : List ℕ) (index pos' index' : ℕ) (props : Props)
    → params ≡ (pre ++ name) ++ (b':' ∷ rest)
    → Free b':' name
    → Small params
    → find b':' params index ≡ find b':' params (length pre)
    → read_value
        ((pre ++ name) ++ (b':' ∷ rest))
        (length (pre ++ name) + 1)
        (length (pre ++ name))
        (char_of ((pre ++ name) ++ (b':' ∷ rest)) (length (pre ++ name) + 1))
      ≡ some (value, pos', index')
    → parse_turn params (at (length pre) index props)
      ≡ some (at pos' index' (insert name value props))
turn_at params pre name rest value index pos' index' props e h s search r =
    let found : find b':' ((pre ++ name) ++ (b':' ∷ rest)) index ≡ length (pre ++ name) =
      ap (λ l. find b':' l index) (sym e)
      ∙ search
      ∙ ap (λ l. find b':' l (length pre)) (e ∙ append_assoc pre name (b':' ∷ rest))
      ∙ find_behind b':' pre name rest h
      ∙ sym (length-append pre name) in
    ap (λ l. parse_turn l (at (length pre) index props)) e
    ∙ turn_lem pre name rest value index pos' index' props found (subst Small e s) r

-- The text up to the last character of a value, which a comma or a quote follows.
abbrev pub up_to : List ℕ → List ℕ → Bool → List ℕ → List ℕ
up_to pre name true value = (pre ++ name) ++ (b':' ∷ quote ∷ value)
up_to pre name false value = (pre ++ name) ++ (b':' ∷ value)

pub turn-quoted :
    (params pre name value more : List ℕ) (index : ℕ) (props : Props)
    → params ≡ (pre ++ name) ++ (b':' ∷ quote ∷ (value ++ (quote ∷ more)))
    → Free b':' name
    → Free quote value
    → Small params
    → find b':' params index ≡ find b':' params (length pre)
    → parse_turn params (at (length pre) index props)
      ≡ some (
          at
            (length (up_to pre name true value) + 1)
            (length (up_to pre name true value))
            (insert name value props))
turn-quoted params pre name value more index props e h v s search =
    let i : length (pre ++ name) + 1 + 1 + length value ≡ length (up_to pre name true value) =
      omega (arith, length-append (pre ++ name) (b':' ∷ quote ∷ value)) in
    turn_at params pre name (quote ∷ (value ++ (quote ∷ more))) value index
      (length (pre ++ name) + 1 + 1 + length value + 1)
      (length (pre ++ name) + 1 + 1 + length value) props e h s search
      (quoted_lem (pre ++ name) value more v (subst Small e s))
    ∙ ap (λ k. some (at (k + 1) k (insert name value props))) i

pub turn-plain :
    (params pre name value more : List ℕ) (index : ℕ) (props : Props)
    → params ≡ (pre ++ name) ++ (b':' ∷ (value ++ (b',' ∷ more)))
    → Free b':' name
    → Free b',' value × Unquoted value
    → Small params
    → find b':' params index ≡ find b':' params (length pre)
    → parse_turn params (at (length pre) index props)
      ≡ some (
          at
            (length (up_to pre name false value) + 1)
            (length (up_to pre name false value))
            (insert name value props))
turn-plain params pre name value more index props e h (v, u) s search =
    let i : length (pre ++ name) + 1 + length value ≡ length (up_to pre name false value) =
      omega (arith, length-append (pre ++ name) (b':' ∷ value)) in
    turn_at params pre name (value ++ (b',' ∷ more)) value index
      (length (pre ++ name) + 1 + length value + 1) (length (pre ++ name) + 1 + length value) props
      e h s search (plain_lem (pre ++ name) value more v u (subst Small e s))
    ∙ ap (λ k. some (at (k + 1) k (insert name value props))) i

pub turn-last :
    (params pre name value : List ℕ) (index : ℕ) (props : Props)
    → params ≡ (pre ++ name) ++ (b':' ∷ value)
    → Free b':' name
    → Free b',' value × Unquoted value
    → Small params
    → find b':' params index ≡ find b':' params (length pre)
    → parse_turn params (at (length pre) index props)
      ≡ some (at (length params) npos (insert name value props))
turn-last params pre name value index props e h (v, u) s search =
    let i : length (pre ++ name) + 1 + length value ≡ length params =
      omega (arith, length-append (pre ++ name) (b':' ∷ value), ap length e) in
    turn_at params pre name value value index (length (pre ++ name) + 1 + length value) npos props e
      h s search (last_lem (pre ++ name) value v u (subst Small e s))
    ∙ ap (λ k. some (at k npos (insert name value props))) i
