-- ===== src/PacketAccum/Put.antt =====
-- What an accumulator holds, and what put adds to it.
use mediaroom.Prelude.{
  ℕ, ◌+◌, ◌%◌, ◌^◌, ◌≤◌, ◌<◌, ◌≡◌, ◌≢◌, refl, sym, ap, ◌∙◌, inl, inr, Bool, true, false, Option,
  none, some, List, [], ◌∷◌, ◌++◌, arith, ◌==◌, Bool-cases, length, length-append, All, Distinct,
}
use mathlib.Core.Path.{subst}
use mediaroom.PacketAccum.{
  packet, Entries, set_entry, Accum, init, link_block, store, put_block, put_at, put,
}
use mediaroom.PacketAccum.Blocks.{Blocks, grown, Blocks-store, Blocks-grow}

-- An accumulator with blocks.
abbrev pub accum : (first current total curr : ℕ) → Entries → Accum
accum first current total curr entries = record {
  first_block = some first;
  curr_block = some current;
  total = total;
  curr = curr;
  entries = entries;
}

-- What an accumulator holds: nothing and no blocks, or the packets of its blocks, at least one of
-- them in the last block.
abbrev pub Holds : Accum → List ℕ → List ℕ → Type 0
Holds s [] ps =
    (ps ≡ []) × (s.first_block ≡ none) × (s.curr_block ≡ none) × (s.curr ≡ 0) × (s.total ≡ 0)
Holds s (b ∷ bs) ps =
    (current : ℕ) × (s.first_block ≡ some b)
    × (s.curr_block ≡ some current)
    × (0 < s.curr)
    × (s.curr ≤ 7)
    × (s.total ≡ length ps)
    × Distinct (b ∷ bs)
    × Blocks s.entries b bs current s.curr ps

-- The blocks after a put that may take the block `new`.
abbrev pub taken : Bool → ℕ → List ℕ → List ℕ
taken true new bs = bs ++ (new ∷ [])
taken false new bs = bs

-- A new block is needed by the first packet, and where the current block has seven.
abbrev pub needs_block : Accum → List ℕ → Bool
needs_block s [] = true
needs_block s (b ∷ bs) = s.curr == 7

put-accum :
    (first current total curr p : ℕ) (entries : Entries) (o : Option ℕ)
    → (curr == 7) ≡ false
    → put o p (accum first current total curr entries)
      ≡ some (
        true,
        accum first current
            ((total + 1) % 2 ^ 64)
            ((curr + 1) % 2 ^ 64)
            (set_entry current curr (packet p) entries),
      )
unfolding put put_at store
put-accum first current total curr p entries o e = rw (put, put_at, e) refl

put-full :
    (first current total p new : ℕ) (entries : Entries)
    → put (some new) p (accum first current total 7 entries)
      ≡ some (true, accum first new ((total + 1) % 2 ^ 64) 1 (grown entries current new p))
unfolding put put_at put_block link_block store
put-full first current total p new entries = refl

All-append : (P : ℕ → Type 0) (bs : List ℕ) (new : ℕ) → All P bs → P new → All P (bs ++ (new ∷ []))
All-append P [] new h k = (k, tt)
All-append P (b ∷ bs) new (h, hs) k = (h, All-append P bs new hs k)

Distinct-append :
    (new : ℕ) (bs : List ℕ) → Distinct bs → All (λ y. new ≢ y) bs → Distinct (bs ++ (new ∷ []))
Distinct-append new [] d f = (tt, tt)
Distinct-append new (b ∷ bs) (ne, d) (f, fs) =
    (All-append (λ y. b ≢ y) bs new ne (λ e. f (sym e)), Distinct-append new bs d fs)

-- An accumulator is what its fields say.
accum-fields :
    (s : Accum) (first current : ℕ)
    → s.first_block ≡ some first
    → s.curr_block ≡ some current
    → s ≡ accum first current s.total s.curr s.entries
accum-fields s first current e f =
    ap (λ o. record s { first_block = o }) e
    ∙ ap (λ o. record s { first_block = some first; curr_block = o }) f

init-fields :
    (s : Accum)
    → s.first_block ≡ none
    → s.curr_block ≡ none
    → s.curr ≡ 0
    → s.total ≡ 0
    → s ≡ init s.entries
unfolding init
init-fields s e f g h =
    ap (λ o. record s { first_block = o }) e
    ∙ ap (λ o. record s { first_block = none; curr_block = o }) f
    ∙ ap (λ n. record s { first_block = none; curr_block = none; curr = n }) g
    ∙ ap (λ n. record s { first_block = none; curr_block = none; curr = 0; total = n }) h

-- What put is to do with a packet that it takes.
abbrev pub Adds : ℕ → List ℕ → List ℕ → ℕ → Accum → Type 0
Adds new bs ps p s =
    (s' : Accum) × (put (some new) p s ≡ some (true, s'))
    × Holds s' (taken (needs_block s bs) new bs) (ps ++ (p ∷ []))

Adds-first : (new p : ℕ) (entries : Entries) → Adds new [] [] p (init entries)
unfolding put put_at put_block link_block store init
Adds-first new p entries = (
  accum new new 1 1 (set_entry new 0 (packet p) entries),
  refl,
  (new, refl, refl, omega arith, omega arith, refl, (tt, tt), (refl, refl, (ground arith, tt))),
)

Adds-room :
    (new first current total curr p : ℕ) (bs ps : List ℕ) (entries : Entries)
    → (curr == 7) ≡ false
    → 0 < curr
    → curr ≤ 7
    → total ≡ length ps
    → length ps + 1 < 2 ^ 64
    → Distinct (first ∷ bs)
    → Blocks entries first bs current curr ps
    → Adds new (first ∷ bs) ps p (accum first current total curr entries)
Adds-room new first current total curr p bs ps entries e some_one few count small d h =
    let next : curr + 1 ≡ (curr + 1) % 2 ^ 64 = omega arith in
    let entries' = set_entry current curr (packet p) entries in
    rw (e) (
      accum first current ((total + 1) % 2 ^ 64) ((curr + 1) % 2 ^ 64) entries',
      put-accum first current total curr p entries (some new) e,
      (
        current,
        refl,
        refl,
        omega arith,
        ground arith,
        omega (arith, length-append ps (p ∷ [])),
        d,
        subst (λ n. Blocks entries' first bs current n (ps ++ (p ∷ []))) next
            (Blocks-store entries first bs current curr p ps d h),
      ),
    )

Adds-full :
    (new first current total p : ℕ) (bs ps : List ℕ) (entries : Entries)
    → total ≡ length ps
    → length ps + 1 < 2 ^ 64
    → Distinct (first ∷ bs)
    → All (λ y. new ≢ y) (first ∷ bs)
    → Blocks entries first bs current 7 ps
    → Adds new (first ∷ bs) ps p (accum first current total 7 entries)
Adds-full new first current total p bs ps entries count small d fresh h = (
  accum first new ((total + 1) % 2 ^ 64) 1 (grown entries current new p),
  put-full first current total p new entries,
  (
    new,
    refl,
    refl,
    omega arith,
    omega arith,
    omega (arith, length-append ps (p ∷ [])),
    Distinct-append new (first ∷ bs) d fresh,
    Blocks-grow entries first bs current new p ps d fresh h,
  ),
)

-- put takes every packet for which the allocator has a block if one is needed, and adds it behind
-- those that are held: none is lost, moved or overwritten. A block is taken for the first packet,
-- and whenever the current one has seven. The allocator's block is none of those in use, and fewer
-- than `2 ^ 64 - 1` packets are held.
pub put-Holds :
    (s : Accum) (bs ps : List ℕ) (p new : ℕ)
    → Holds s bs ps
    → All (λ y. new ≢ y) bs
    → length ps + 1 < 2 ^ 64
    → Adds new bs ps p s
put-Holds s [] ps p new (nothing, e, f, g, h) fresh small =
    subst (Adds new [] ps p) (sym (init-fields s e f g h))
      (subst (λ l. Adds new [] l p (init s.entries)) (sym nothing) (Adds-first new p s.entries))
put-Holds s (b ∷ bs) ps p new (current, e, f, some_one, few, count, d, h) fresh small =
    subst (Adds new (b ∷ bs) ps p) (sym (accum-fields s b current e f))
      (elim (Bool-cases (s.curr == 7)) [
        | inl k ↦
            let seven : 7 ≡ s.curr = ground arith in
            subst (λ n. Adds new (b ∷ bs) ps p (accum b current s.total n s.entries)) seven
              (Adds-full new b current s.total p bs ps s.entries count small d fresh
                (subst (λ n. Blocks s.entries b bs current n ps) (sym seven) h))
        | inr k ↦
            Adds-room new b current s.total s.curr p bs ps s.entries k some_one few count small d h
      ])

-- A put that needs a block and gets none changes nothing.
pub put_refused :
    (s : Accum) (bs ps : List ℕ) (p : ℕ)
    → Holds s bs ps
    → needs_block s bs ≡ true
    → put none p s ≡ some (false, s)
unfolding put put_at put_block init
put_refused s [] ps p (nothing, e, f, g, h) need =
    subst (λ r. put none p r ≡ some (false, r)) (sym (init-fields s e f g h)) refl
put_refused s (b ∷ bs) ps p (current, e, f, _, _, _, _, _) need =
    subst (λ r. put none p r ≡ some (false, r)) (sym (accum-fields s b current e f))
      (rw (put, put_at, need) refl)
