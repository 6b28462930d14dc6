-- ===== src/FreeList/Chain.antt =====
-- The free list of an AllocatorList: the entries from the first to the last, along `next`.
use mediaroom.Prelude.{
  ℕ, ◌≡◌, ◌≢◌, refl, Option, none, some, List, [], ◌∷◌, ◌++◌, arith, All, Distinct,
}
use mathlib.Core.Path.{subst}
use mediaroom.FreeList.{set_next}

-- The entries `l` are linked one after another, and the last of them is `last`.
abbrev pub Chain : (ℕ → Option ℕ) → ℕ → ℕ → List ℕ → Type 0
Chain next first last [] = ⊥
Chain next first last (x ∷ []) = (x ≡ first) × (x ≡ last) × (next x ≡ none)
Chain next first last (x ∷ y ∷ l) = (x ≡ first) × (next x ≡ some y) × Chain next y last (y ∷ l)

pub All-append : (P : ℕ → Type 0) (l m : List ℕ) → All P l → All P m → All P (l ++ m)
All-append P [] m h k = k
All-append P (x ∷ l) m (h, t) k = (h, All-append P l m t k)

-- A link that is not of the chain may change.
pub Chain-set_ne :
    (next : ℕ → Option ℕ) (first last i : ℕ) (v : Option ℕ) (l : List ℕ)
    → All (λ y. i ≢ y) l
    → Chain next first last l
    → Chain (set_next next i v) first last l
Chain-set_ne next first last i v [] h c = c
Chain-set_ne next first last i v (x ∷ []) (h, _) (a, b, c) = (a, b, ground arith)
Chain-set_ne next first last i v (x ∷ y ∷ l) (h, k) (a, b, c) =
    (a, ground arith, Chain-set_ne next y last i v (y ∷ l) k c)

pub All-last :
    (P : ℕ → Type 0) (next : ℕ → Option ℕ) (first last : ℕ) (l : List ℕ)
    → All P l
    → Chain next first last l
    → P last
All-last P next first last [] h c = absurd c
All-last P next first last (x ∷ []) (h, _) (a, b, c) = subst P b h
All-last P next first last (x ∷ y ∷ l) (h, k) (a, b, c) = All-last P next y last (y ∷ l) k c

-- An entry outside of the chain is linked behind it.
pub Chain-snoc :
    (next : ℕ → Option ℕ) (first last i : ℕ) (l : List ℕ)
    → All (λ y. i ≢ y) l
    → Distinct l
    → next i ≡ none
    → Chain next first last l
    → Chain (set_next next last (some i)) first i (l ++ i ∷ [])
Chain-snoc next first last i [] h d e c = absurd c
Chain-snoc next first last i (x ∷ []) (h, _) d e (a, b, c) =
    (a, ground arith, (refl, refl, ground arith))
Chain-snoc next first last i (x ∷ y ∷ l) (h, k) (d, ds) e (a, b, c) =
    let ne : x ≢ last = All-last (λ z. x ≢ z) next y last (y ∷ l) d c in
    (a, ground arith, Chain-snoc next y last i (y ∷ l) k ds e c)

pub All-ne_snoc : (l : List ℕ) (i : ℕ) → All (λ y. i ≢ y) l → Distinct l → Distinct (l ++ i ∷ [])
All-ne_snoc [] i h d = (tt, tt)
All-ne_snoc (x ∷ l) i (h, k) (d, ds) =
    (All-append (λ y. x ≢ y) l (i ∷ []) d (ground arith, tt), All-ne_snoc l i k ds)
