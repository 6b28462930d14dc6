-- ===== src/PacketAccum/Blocks.antt =====
-- The packets that a chain of blocks holds, and what put does to them.
use mediaroom.Prelude.{
  ℕ, ◌+◌, ◌≤◌, ◌≡◌, ◌≢◌, refl, sym, ap, ◌∙◌, List, [], ◌∷◌, ◌++◌, arith, length, length-append, All,
  Distinct,
}
use mathlib.Core.List.{append_assoc}
use mediaroom.PacketAccum.{Entry, packet, next_block, Entries, set_entry}

-- The entries of the block `b` from `i` on are the packets.
abbrev pub Cells : Entries → ℕ → ℕ → List ℕ → Type 0
Cells entries b i [] = Unit {0}
Cells entries b i (p ∷ ps) = (entries b i ≡ packet p) × Cells entries b (i + 1) ps

-- The blocks `b` and then `bs` hold the packets: seven in each block and the link to the next one,
-- and `n` in the last block, which is `current`.
abbrev pub Blocks : Entries → (b : ℕ) → (bs : List ℕ) → (current n : ℕ) → List ℕ → Type 0
Blocks entries b [] current n ps = (b ≡ current) × (length ps ≡ n) × Cells entries b 0 ps
Blocks entries b (b' ∷ bs) current n ps =
    (qs rs : List ℕ) × (ps ≡ qs ++ rs)
    × (length qs ≡ 7)
    × (entries b 7 ≡ next_block b')
    × Cells entries b 0 qs
    × Blocks entries b' bs current n rs

Cells-other :
    (entries : Entries) (c j b i : ℕ) (e : Entry) (ps : List ℕ)
    → c ≢ b
    → Cells entries b i ps
    → Cells (set_entry c j e entries) b i ps
Cells-other entries c j b i e [] ne h = tt
Cells-other entries c j b i e (p ∷ ps) ne (h, k) =
    (ground arith, Cells-other entries c j b (i + 1) e ps ne k)

Cells-behind :
    (entries : Entries) (c j b i : ℕ) (e : Entry) (ps : List ℕ)
    → i + length ps ≤ j
    → Cells entries b i ps
    → Cells (set_entry c j e entries) b i ps
Cells-behind entries c j b i e [] le h = tt
Cells-behind entries c j b i e (p ∷ ps) le (h, k) =
    (ground arith, Cells-behind entries c j b (i + 1) e ps (omega arith) k)

Cells-append :
    (entries : Entries) (b i p : ℕ) (ps : List ℕ)
    → Cells entries b i ps
    → entries b (i + length ps) ≡ packet p
    → Cells entries b i (ps ++ (p ∷ []))
Cells-append entries b i p [] h e = (ap (entries b) (omega arith) ∙ e, tt)
Cells-append entries b i p (q ∷ ps) (h, k) e =
    (h, Cells-append entries b (i + 1) p ps k (ap (entries b) (omega arith) ∙ e))

-- The current block is one of them.
Blocks-current :
    (entries : Entries) (c b : ℕ) (bs : List ℕ) (current n : ℕ) (ps : List ℕ)
    → All (λ y. c ≢ y) (b ∷ bs)
    → Blocks entries b bs current n ps
    → c ≢ current
Blocks-current entries c b [] current n ps (ne, _) (e, _, _) = λ f. ne (f ∙ sym e)
Blocks-current entries c b (b' ∷ bs) current n ps (_, ne) (qs, rs, _, _, _, _, h) =
    Blocks-current entries c b' bs current n rs ne h

-- A packet that is put behind the `n` of the current block.
pub Blocks-store :
    (entries : Entries) (b : ℕ) (bs : List ℕ) (current n p : ℕ) (ps : List ℕ)
    → Distinct (b ∷ bs)
    → Blocks entries b bs current n ps
    → Blocks (set_entry current n (packet p) entries) b bs current (n + 1) (ps ++ (p ∷ []))
Blocks-store entries b [] current n p ps d (e, l, h) = (
  e,
  omega (arith, length-append ps (p ∷ [])),
  Cells-append (set_entry current n (packet p) entries) b 0 p ps
      (Cells-behind entries current n b 0 (packet p) ps (omega arith) h) (ground arith),
)
Blocks-store entries b (b' ∷ bs) current n p ps (ne, d) (qs, rs, e, l, link, h, k) =
    let other : b ≢ current = Blocks-current entries b b' bs current n rs ne k in
    (
      qs,
      rs ++ (p ∷ []),
      ap (λ xs. xs ++ (p ∷ [])) e ∙ append_assoc qs rs (p ∷ []),
      l,
      ground arith,
      Cells-other entries current n b 0 (packet p) qs (λ f. other (sym f)) h,
      Blocks-store entries b' bs current n p rs d k,
    )

-- The entries after a new block is linked and the packet is put in it.
abbrev pub grown : Entries → (current new p : ℕ) → Entries
grown entries current new p =
    set_entry new 0 (packet p) (set_entry current 7 (next_block new) entries)

pub Blocks-grow :
    (entries : Entries) (b : ℕ) (bs : List ℕ) (current new p : ℕ) (ps : List ℕ)
    → Distinct (b ∷ bs)
    → All (λ y. new ≢ y) (b ∷ bs)
    → Blocks entries b bs current 7 ps
    → Blocks (grown entries current new p) b (bs ++ (new ∷ [])) new 1 (ps ++ (p ∷ []))
Blocks-grow entries b [] current new p ps d (fresh, _) (e, l, h) = (
  ps,
  p ∷ [],
  refl,
  l,
  ground arith,
  Cells-other (set_entry current 7 (next_block new) entries) new 0 b 0 (packet p) ps fresh
      (Cells-behind entries current 7 b 0 (next_block new) ps (omega arith) h),
  (refl, refl, (ground arith, tt)),
)
Blocks-grow entries b (b' ∷ bs) current new p ps (ne, d) (fresh, others)
      (qs, rs, e, l, link, h, k) =
    let other : b ≢ current = Blocks-current entries b b' bs current 7 rs ne k in
    (
      qs,
      rs ++ (p ∷ []),
      ap (λ xs. xs ++ (p ∷ [])) e ∙ append_assoc qs rs (p ∷ []),
      l,
      ground arith,
      Cells-other (set_entry current 7 (next_block new) entries) new 0 b 0 (packet p) qs fresh
          (Cells-other entries current 7 b 0 (next_block new) qs (λ f. other (sym f)) h),
      Blocks-grow entries b' bs current new p rs d others k,
    )
