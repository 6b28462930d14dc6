-- ===== src/Config.antt =====
-- src/common/ConfigParser.h: the lines of a configuration file. A line is the characters before
-- its end, of the C string that fgets leaves. `scan` is sscanf's first word.
pub mod Lines
mod Tests
use mediaroom.Prelude.{
  ℕ, zero, suc, ◌-◌, Bool, true, false, not, ◌&&◌, ◌||◌, Option, none, some, List, [], ◌∷◌, ◌==◌,
  if◌then◌else◌,
}

-- while (*ptr == ' ' || *ptr == '\t') ++ptr;
pub skip_blanks : List ℕ → List ℕ
skip_blanks [] = []
skip_blanks (c ∷ cs) = let rest = skip_blanks cs in if (c == b' ') || (c == 9) then rest else c ∷ cs

-- *ptr, 0 at the end of the string
abbrev pub char_at : List ℕ → ℕ
char_at [] = 0
char_at (c ∷ cs) = c

abbrev pub rest : List ℕ → List ℕ
rest [] = []
rest (c ∷ cs) = cs

abbrev pub double_quote : ℕ
double_quote = 34

abbrev pub backslash : ℕ
backslash = 92

-- The tests of the loop over the value: its end, the `continue` and the `break`.
abbrev pub stops : Bool → Bool → ℕ → Bool
stops quota dquota c = (c == 0) || ((c == b'\'') && quota) || ((c == double_quote) && dquota)

abbrev pub repeats : Bool → ℕ → Bool
repeats dquota c = dquota && (c == backslash)

abbrev pub breaks : Bool → Bool → ℕ → Bool
breaks quota dquota c = not quota && dquota && (c == b' ')

-- The loop over the value, with room for `room` more characters: `ptr` does not move, so it sees
-- the character `c` each time. none where it goes on for ever, at a backslash in double quotes.
pub value_loop : ℕ → Bool → Bool → ℕ → Option (List ℕ)
value_loop zero quota dquota c = some []
value_loop (suc room) quota dquota c =
    let more = value_loop room quota dquota c in
    if stops quota dquota c
    then some []
    else if repeats dquota c
    then none
    else if breaks quota dquota c
    then some []
    else elim more [ none ↦ none | some cs ↦ some (c ∷ cs) ]

-- The quotes in front of a value: a single one, and then a double one.
abbrev pub after_quote : ℕ → List ℕ → List ℕ
after_quote q cs = if char_at cs == q then rest cs else cs

abbrev pub named : List ℕ → Option (List ℕ) → Option (Option (List ℕ × List ℕ))
named name none = none
named name (some value) = some (some (name, value))

-- One round of the loop of loadConfigFromFile: what putConfig is called with, if it is.
pub parse_line : (List ℕ → List ℕ) → List ℕ → Option (Option (List ℕ × List ℕ))
unfolding skip_blanks value_loop
parse_line scan line =
    let ptr = skip_blanks line in
    let behind = skip_blanks (rest (skip_blanks ptr)) in
    let inner = after_quote b'\'' behind in
    if char_at ptr == b'#'
    then some none
    else if not (char_at (skip_blanks ptr) == b'=')
    then some none
    else named (scan ptr) (
        value_loop 895 (char_at behind == b'\'') (char_at inner == double_quote)
          (char_at (after_quote double_quote inner)))

-- putConfig: each parameter of the name takes the value, as `put_value` reads it.
pub put_config {ℓ} :
    {A : Type ℓ}
    → (List ℕ → A → A)
    → (List ℕ → List ℕ → Bool)
    → List ℕ
    → List ℕ
    → List (List ℕ × A)
    → List (List ℕ × A)
put_config put_value same name value [] = []
put_config put_value same name value ((n, a) ∷ params) =
    let more = put_config put_value same name value params in
    (n, if same n name then put_value value a else a) ∷ more
