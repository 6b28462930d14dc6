-- ===== src/Args/Written.antt =====
-- src/core/System.h: what processArgs reads of parameters that were written one after the other.
use mediaroom.Prelude.{
  append_assoc, append-nil, ℕ, zero, suc, ◌<◌, ◌≡◌, refl, sym, ap, ◌∙◌, Bool, true, false, some,
  List, [], ◌∷◌, ◌++◌, length, arith, length-append,
}
use mediaroom.Args.{npos, find, Props, insert, quote, Parsed, parse_loop, parse_params}
use mediaroom.Args.Text.{Free, snoc, shift}
use mediaroom.Args.Turns.{Small}
use mediaroom.Args.Params.{
  Param, written_value, written, written_all, WritableValue, Writable, comma, reads, at, advance,
  parse_loop-turn, regroup, Free-append, up_to, turn-quoted, turn-plain, turn-last,
}

-- What is left of the text: the parameters, behind the comma that was not read.
abbrev remaining : List ℕ → List Param → List ℕ
remaining before [] = []
remaining before (p ∷ ps) = before ++ written_all (p ∷ ps)

parse_loop-end :
    (n : ℕ) (params : List ℕ) (index : ℕ) (props : Props)
    → parse_loop n params (some (at (length params) index props)) ≡ Parsed.parsed props
unfolding parse_loop
parse_loop-end zero params index props = ground arith
parse_loop-end (suc n) params index props = ground arith

-- The text behind a parameter.
abbrev behind : List Param → List ℕ
behind [] = []
behind (p ∷ ps) = b',' ∷ written_all (p ∷ ps)

written_all-behind : (p : Param) (ps : List Param) → written_all (p ∷ ps) ≡ written p (behind ps)
written_all-behind p [] = refl
written_all-behind p (q ∷ ps) = refl

behind-remaining : (ps : List Param) → behind ps ≡ remaining (comma true) ps
behind-remaining [] = refl
behind-remaining (q ∷ ps) = refl

comma-Free : (quoted : Bool) → Free b':' (comma quoted)
comma-Free true = (omega arith, tt)
comma-Free false = tt

-- What the loop does from the next parameter on.
abbrev Goes : List ℕ → List Param → Type 0
Goes params ps =
    (pre before : List ℕ) (index : ℕ) (props : Props)
    → Free b':' before
    → params ≡ pre ++ remaining before ps
    → find b':' params index ≡ find b':' params (length pre)
    → parse_loop (length ps) params (some (at (length pre) index props))
      ≡ Parsed.parsed (reads before ps props)

length-less :
    (params pre name rest : List ℕ)
    → params ≡ (pre ++ name) ++ (b':' ∷ rest)
    → length pre < length params
length-less params pre name rest e =
    omega (arith, ap length e, length-append (pre ++ name) (b':' ∷ rest), length-append pre name)

loop-param :
    (quoted : Bool) (ps : List Param) (params pre name value : List ℕ) (index : ℕ) (props : Props)
    → params ≡ (pre ++ name) ++ (b':' ∷ written_value quoted value (behind ps))
    → Free b':' name
    → WritableValue quoted value
    → Small params
    → find b':' params index ≡ find b':' params (length pre)
    → Goes params ps
    → parse_loop (suc (length ps)) params (some (at (length pre) index props))
      ≡ Parsed.parsed (reads (comma quoted) ps (insert name value props))
loop-param true ps params pre name value index props e h v s search goes =
    let q : List ℕ = up_to pre name true value in
    let e' : params ≡ q ++ (quote ∷ behind ps) =
      e ∙ sym (append_assoc (pre ++ name) (b':' ∷ quote ∷ value) (quote ∷ behind ps)) in
    advance (length ps) params pre q (behind ps) quote index props (insert name value props)
      (reads (comma true) ps (insert name value props)) e'
      (length-less params pre name (written_value true value (behind ps)) e) (omega arith)
      (turn-quoted params pre name value (behind ps) index props e h v s search)
      (goes (snoc q quote) (comma true) (length q) (insert name value props) (comma-Free true)
        (e' ∙ shift q quote (behind ps) ∙ ap (λ l. snoc q quote ++ l) (behind-remaining ps)))
loop-param false [] params pre name value index props e h v s search goes =
    let e' : params ≡ (pre ++ name) ++ (b':' ∷ value) =
      e ∙ ap (λ l. (pre ++ name) ++ (b':' ∷ l)) (append-nil value) in
    parse_loop-turn 0 params (at (length pre) index props) (length-less params pre name value e')
    ∙ ap (parse_loop 0 params) (turn-last params pre name value index props e' h v s search)
    ∙ parse_loop-end 0 params npos (insert name value props)
loop-param false (p ∷ ps) params pre name value index props e h v s search goes =
    let q : List ℕ = up_to pre name false value in
    let more : List ℕ = written_all (p ∷ ps) in
    let e' : params ≡ q ++ (b',' ∷ more) =
      e ∙ sym (append_assoc (pre ++ name) (b':' ∷ value) (b',' ∷ more)) in
    advance (length (p ∷ ps)) params pre q more b',' index props (insert name value props)
      (reads [] (p ∷ ps) (insert name value props)) e'
      (length-less params pre name (written_value false value (b',' ∷ more)) e) (omega arith)
      (turn-plain params pre name value more index props e h v s search)
      (goes (snoc q b',') [] (length q) (insert name value props) tt (e' ∙ shift q b',' more))

loop-reads : (ps : List Param) (params : List ℕ) → Writable ps → Small params → Goes params ps
loop-reads [] params w s pre before index props b e search =
    let i : length params ≡ length pre = ap length (e ∙ append-nil pre) in
    ap (λ k. parse_loop 0 params (some (at k index props))) (sym i)
    ∙ parse_loop-end 0 params index props
loop-reads (p ∷ ps) params (h, v, w) s pre before index props b e search =
    loop-param p.quoted ps params pre (before ++ p.name) p.value index props
      (e
        ∙ ap (λ l. pre ++ (before ++ l)) (written_all-behind p ps)
        ∙ regroup pre before p.name (b':' ∷ written_value p.quoted p.value (behind ps)))
      (Free-append b':' before p.name b h) v s search (loop-reads ps params w s)

-- For parameters that can be written (names without colons, values without the character that
-- ends them) as name:value or name:"value" with commas between, in a text of less than npos
-- characters: processArgs ends after one turn for each and has inserted them in their order, with
-- their values, where the name behind a value in quotes has the comma in front of it.
pub parse_params-reads :
    (ps : List Param)
    → Writable ps
    → Small (written_all ps)
    → parse_params (length ps) (written_all ps) ≡ Parsed.parsed (reads [] ps [])
parse_params-reads [] w s = loop-reads [] [] w s [] [] 0 [] tt refl refl
parse_params-reads (p ∷ ps) w s =
    loop-reads (p ∷ ps) (written_all (p ∷ ps)) w s [] [] 0 [] tt refl refl
