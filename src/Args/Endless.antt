-- ===== src/Args/Endless.antt =====
-- src/core/System.h: a value with only one quote, where the loop of processArgs starts over.
use mediaroom.Prelude.{
  ℕ, zero, suc, ◌-◌, ◌≤◌, ◌≡◌, refl, ap, ◌∙◌, true, some, List, [], ◌∷◌, leb, length, take-more,
  arith,
}
use mediaroom.Args.{
  npos, sub64, drop, find_in, find, substr, char_of, Props, inserted, insert, quote, quoted_value,
  with_places, parse_turn, Parsed, parse_loop, parse_params,
}
use mediaroom.Args.Params.{parse_loop-turn}
use mediaroom.Args.Text.{Free, find_nowhere}
use mediaroom.Args.Turns.{Small}

-- A search from a place behind the end finds nothing.
drop-behind : (n : ℕ) (xs : List ℕ) → length xs ≤ n → drop n xs ≡ []
unfolding drop
drop-behind zero [] h = refl
drop-behind zero (x ∷ xs) h = absurd (omega arith)
drop-behind (suc n) [] h = refl
drop-behind (suc n) (x ∷ xs) h = drop-behind n xs (omega arith)

find-behind : (c : ℕ) (xs : List ℕ) → Small xs → find c xs npos ≡ npos
unfolding find_in
find-behind c xs h = ap (λ l. find_in c l npos) (drop-behind npos xs (omega arith))

substr-open : (cs : List ℕ) → Small (quote ∷ cs) → substr (quote ∷ cs) 1 (sub64 npos 1) ≡ some cs
unfolding substr drop
substr-open cs s =
    let t : leb 1 (length (quote ∷ cs)) ≡ true = ground arith in
    rw (t) (ap some (take-more (npos - 1) cs (omega arith)))

-- The quote that is not closed: the value is the rest of the text, and pos is 0 again.
quoted_value-open :
    (cs : List ℕ)
    → Free quote cs
    → Small (quote ∷ cs)
    → quoted_value (quote ∷ cs) 0 ≡ some (cs, 0, npos)
quoted_value-open cs h s =
    let e : find quote (quote ∷ cs) 1 ≡ npos = find_nowhere quote (quote ∷ []) cs h in
    rw (e) (ap (with_places 0 npos) (substr-open cs s))

turn-open :
    (cs : List ℕ) (index : ℕ) (props : Props)
    → Free quote cs
    → Small (quote ∷ cs)
    → find b':' (quote ∷ cs) index ≡ npos
    → parse_turn (quote ∷ cs) (record { pos = 0; index = index; props = props })
      ≡ some (record { pos = 0; index = npos; props = insert [] cs props })
unfolding parse_turn char_of
turn-open cs index props h s e = rw (e) (ap (inserted props (some [])) (quoted_value-open cs h s))

loop-open :
    (fuel : ℕ) (cs : List ℕ) (index : ℕ) (props : Props)
    → Free quote cs
    → Small (quote ∷ cs)
    → find b':' (quote ∷ cs) index ≡ npos
    → parse_loop fuel (quote ∷ cs) (some (record { pos = 0; index = index; props = props }))
      ≡ Parsed.running
unfolding parse_loop
loop-open zero cs index props h s e = ground arith
loop-open (suc fuel) cs index props h s e =
    parse_loop-turn fuel (quote ∷ cs) (record { pos = 0; index = index; props = props })
      (omega arith)
    ∙ ap (parse_loop fuel (quote ∷ cs)) (turn-open cs index props h s e)
    ∙ loop-open fuel cs npos (insert [] cs props) h s (find-behind b':' (quote ∷ cs) s)

-- An argument of a module whose parameters begin with a quote, with no second quote and no colon
-- behind it, is never parsed: however many turns the loop is given, it is still running.
pub parse_params_endless :
    (fuel : ℕ) (cs : List ℕ)
    → Free quote cs
    → Free b':' cs
    → Small (quote ∷ cs)
    → parse_params fuel (quote ∷ cs) ≡ Parsed.running
parse_params_endless fuel cs h k s =
    loop-open fuel cs 0 [] h s (find_nowhere b':' [] (quote ∷ cs) (omega arith, k))
