-- ===== src/Config/Lines.antt =====
-- Which lines of a configuration file set a parameter.
use mediaroom.Prelude.{
  ℕ, zero, suc, ◌≡◌, ◌≢◌, ◌⊎◌, inl, inr, refl, Bool, false, not, Option, none, some, List, [], ◌==◌,
  arith, replicate, Bool-cases,
}
use mediaroom.Config.{
  skip_blanks, char_at, double_quote, stops, repeats, breaks, value_loop, named, rest, after_quote,
  parse_line,
}

-- Only a line whose first character is `=` sets anything, since the name is not passed over
-- before the `=` is looked for: a line of the form `name = value` does nothing.
pub parse_line_named :
    (scan : List ℕ → List ℕ) (line : List ℕ)
    → char_at (skip_blanks (skip_blanks line)) ≢ b'='
    → parse_line scan line ≡ some none
unfolding parse_line
parse_line_named scan line ne = ground arith

-- The value, where the loop ends: nothing, or one character as often as there is room.
abbrev pub Value : ℕ → Option (List ℕ) → Type 0
Value room none = Unit {0}
Value room (some v) = (v ≡ []) ⊎ ((c : ℕ) × (v ≡ replicate room c))

value_loop-replicate :
    (room : ℕ) (quota dquota : Bool) (c : ℕ)
    → stops quota dquota c ≡ false
    → repeats dquota c ≡ false
    → breaks quota dquota c ≡ false
    → value_loop room quota dquota c ≡ some (replicate room c)
unfolding value_loop
value_loop-replicate zero quota dquota c s r b = refl
value_loop-replicate (suc room) quota dquota c s r b =
    rw (s, r, b, value_loop-replicate room quota dquota c s r b) refl

value_loop-Value :
    (room : ℕ) (quota dquota : Bool) (c : ℕ) → Value room (value_loop room quota dquota c)
unfolding value_loop
value_loop-Value zero quota dquota c = inl refl
value_loop-Value (suc room) quota dquota c = elim (Bool-cases (stops quota dquota c)) [
  | inl s ↦ rw (s) (inl refl)
  | inr s ↦ elim (Bool-cases (repeats dquota c)) [
    | inl r ↦ rw (s, r) tt
    | inr r ↦ elim (Bool-cases (breaks quota dquota c)) [
      | inl b ↦ rw (s, r, b) (inl refl)
      | inr b ↦ rw (s, r, b, value_loop-replicate room quota dquota c s r b) (inr (c, refl))
    ]
  ]
]

-- What a line sets, if its round ends.
abbrev pub Setting : Option (Option (List ℕ × List ℕ)) → Type 0
Setting none = Unit {0}
Setting (some none) = Unit {0}
Setting (some (some (name, v))) = (v ≡ []) ⊎ ((c : ℕ) × (v ≡ replicate 895 c))

named-Setting : (name : List ℕ) (v : Option (List ℕ)) → Value 895 v → Setting (named name v)
named-Setting name none h = tt
named-Setting name (some v) h = h

-- Every value that a line sets is empty or 895 times the same character, since the loop over the
-- value does not move on in the line.
pub parse_line-Setting : (scan : List ℕ → List ℕ) (line : List ℕ) → Setting (parse_line scan line)
unfolding parse_line
parse_line-Setting scan line =
    let ptr = skip_blanks line in
    let behind = skip_blanks (rest (skip_blanks ptr)) in
    let inner = after_quote b'\'' behind in
    let value = named-Setting (scan ptr) _ (
      value_loop-Value 895 (char_at behind == b'\'') (char_at inner == double_quote)
        (char_at (after_quote double_quote inner))) in
    elim (Bool-cases (char_at ptr == b'#')) [
      | inl e ↦ rw (e) tt
      | inr e ↦ elim (Bool-cases (not (char_at (skip_blanks ptr) == b'='))) [
        | inl f ↦ rw (e, f) tt
        | inr f ↦ rw (e, f) value
      ]
    ]
