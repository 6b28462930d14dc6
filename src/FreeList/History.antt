-- ===== src/FreeList/History.antt =====
-- The free list that `init` builds, and what holds after any history of calls from it.
use mediaroom.Prelude.{
  All, Distinct, ℕ, zero, suc, ◌+◌, ◌-◌, ◌/◌, ◌%◌, ◌^◌, ◌≤◌, ◌<◌, ◌≡◌, ◌≢◌, ◌⊎◌, inl, inr, refl,
  sym, Option, none, some, List, [], ◌∷◌, ◌++◌, arith, length,
}
use mathlib.Core.Path.{subst}
use mediaroom.FreeList.{Allocator, set_next, link, init, get, put, overwrite, page_size}
use mediaroom.FreeList.Chain.{Chain}
use mediaroom.FreeList.Allocation.{Owns, get-Owns, get-last, put-Owns, overwrite-Owns}

-- The indices from `i` on.
pub range : ℕ → ℕ → List ℕ
range i zero = []
range i (suc n) = i ∷ range (i + 1) n

length-range : (i n : ℕ) → length (range i n) ≡ n
unfolding range
length-range i zero = refl
length-range i (suc n) = omega (arith, length-range (i + 1) n)

range-All : (P : ℕ → Type 0) (i n : ℕ) → ((j : ℕ) → i ≤ j → j < i + n → P j) → All P (range i n)
unfolding range
range-All P i zero h = tt
range-All P i (suc n) h = (
  h i (omega arith) (omega arith),
  range-All P (i + 1) n (λ j a b. h j (omega arith) (omega arith)),
)

range-Distinct : (i n : ℕ) → Distinct (range i n)
unfolding range
range-Distinct i zero = tt
range-Distinct i (suc n) =
    (range-All (λ y. i ≢ y) (i + 1) n (λ j a b. omega arith), range-Distinct (i + 1) n)

link_below : (n i : ℕ) (next : ℕ → Option ℕ) (j : ℕ) → j < i → link n i next j ≡ next j
unfolding link
link_below zero i next j h = refl
link_below (suc n) i next j h =
    ground (arith, link_below n (i + 1) (set_next next i (some (i + 1))) j)

-- The linked entries make a chain.
range-Chain :
    (n i last : ℕ) (next : ℕ → Option ℕ)
    → last ≡ i + n
    → Chain (set_next (link n i next) last none) i last (range i (suc n))
unfolding link range
range-Chain zero i last next e = (refl, ground arith, ground arith)
range-Chain (suc n) i last next e =
    let next' = set_next next i (some (i + 1)) in
    (
      refl,
      ground (arith, link_below n (i + 1) next' i),
      range-Chain n (i + 1) last next' (omega arith),
    )

-- The allocator that `init` leaves, with `n` entries.
abbrev fresh : ℕ → ℕ → (ℕ → Option ℕ) → Allocator
fresh n stale next = record {
  array = page_size - stale % page_size;
  first = 0;
  last = n - 1;
  count = n;
  overall = n;
  next = set_next (link (n - 1) 0 next) (n - 1) none;
}

fresh-Owns :
    (n stale : ℕ) (next : ℕ → Option ℕ)
    → 0 < n
    → n < 2 ^ 64
    → Owns (fresh n stale next) (range 0 n) []
fresh-Owns zero stale next h k = elim h [ ]
fresh-Owns (suc n) stale next h k = record {
  chain =
      subst (λ l. Chain (set_next (link l 0 next) l none) 0 l (range 0 (suc n))) less
        (range-Chain n 0 n next (omega arith));
  free_distinct = range-Distinct 0 (suc n);
  held_distinct = tt;
  apart = tt;
  free_in = range-All (λ f. f < suc n) 0 (suc n) (λ j a b. omega arith);
  held_in = tt;
  counted = omega (arith, length-range 0 (suc n));
  total = omega (arith, length-range 0 (suc n));
  bounded = k;
}
  where
    less : n ≡ suc n - 1
    less = omega arith

-- `init` frees every entry that fits behind the first page, in order, and hands out none.
pub init-Owns :
    (size entry_size stale : ℕ) (next : ℕ → Option ℕ)
    → 0 < entry_size
    → page_size + entry_size ≤ size
    → page_size + 40 < size
    → size < 2 ^ 64
    → (a : Allocator) × (init size entry_size stale next ≡ some a)
      × Owns a (range 0 ((size - page_size) / entry_size)) []
unfolding init
init-Owns size entry_size stale next pos one h k =
    let n = (size - page_size) / entry_size in
    (fresh n stale next, ground arith, fresh-Owns n stale next (grind arith) (grind arith))

-- A caller of the allocator with the entries that it holds.
pub record Client : Type 0 where
  pub allocator : Allocator
  pub held : List ℕ

-- What a caller may do: allocate, give back an entry that it holds, and write into one.
pub data Step : Client → Client → Type 0 where
  allocate :
      {a a' : Allocator} {i : ℕ} {held : List ℕ}
      → get a ≡ (some i, a')
      → Step (record { allocator = a; held = held }) (record { allocator = a'; held = i ∷ held })
  refuse :
      {a a' : Allocator} {held : List ℕ}
      → get a ≡ (none, a')
      → Step (record { allocator = a; held = held }) (record { allocator = a'; held = held })
  deallocate :
      {a a' : Allocator} {held : List ℕ} (h : List ℕ) (i : ℕ) (k : List ℕ)
      → held ≡ h ++ i ∷ k
      → put i a ≡ some a'
      → Step (record { allocator = a; held = held }) (record { allocator = a'; held = h ++ k })
  fill :
      {a : Allocator} {held : List ℕ} (h : List ℕ) (i : ℕ) (k : List ℕ) (v : Option ℕ)
      → held ≡ h ++ i ∷ k
      → Step
          (record { allocator = a; held = held })
          (record { allocator = overwrite i v a; held = held })

pub data Reach (c : Client) : Client → Type 0 where
  here : Reach c c
  further : {d e : Client} → Reach c d → Step d e → Reach c e

-- The free entries and those of the caller make up the array.
abbrev pub Sound : Client → Type 0
Sound c = (free : List ℕ) × Owns c.allocator free c.held

allocate-Sound :
    {a a' : Allocator} {r : Option ℕ} (held free : List ℕ)
    → Owns a free held
    → get a ≡ (r, a')
    → (r ≡ none) × (a' ≡ a) ⊎ ((i : ℕ) × (r ≡ some i) × (free' : List ℕ) × Owns a' free' (i ∷ held))
allocate-Sound held [] o e = absurd o.chain
allocate-Sound held (x ∷ []) o e =
    inl (ground (arith, get-last x held o), ground (arith, get-last x held o))
allocate-Sound held (x ∷ y ∷ l) o e =
    let (b, f, o') = get-Owns x y l held o in
    inr (x, ground arith, y ∷ l, subst (λ b. Owns b (y ∷ l) (x ∷ held)) (ground arith) o')

-- Every step keeps the entries parted between the free list and the caller.
pub Step-Sound : {c d : Client} → Step c d → Sound c → Sound d
Step-Sound (allocate {a' = a'} {held = held} e) (free, o) = elim (allocate-Sound held free o e) [
  | inl (none_is, same) ↦ cc
  | inr (j, is, free', o') ↦ (free', subst (λ i. Owns a' free' (i ∷ held)) (ground arith) o')
]
Step-Sound (refuse {held = held} e) (free, o) = elim (allocate-Sound held free o e) [
  | inl (_, same) ↦ (free, subst (λ b. Owns b free held) (sym same) o)
  | inr (j, is, _, _) ↦ cc
]
Step-Sound (deallocate {a = a} h i k split e) (free, o) =
    let (b, f, o') = put-Owns free h i k (subst (Owns a free) split o) in
    (free ++ i ∷ [], subst (λ b. Owns b (free ++ i ∷ []) (h ++ k)) (ground arith) o')
Step-Sound (fill {a = a} h i k v split) (free, o) = (
  free,
  subst (Owns (overwrite i v a) free) (sym split)
      (overwrite-Owns free h i k v (subst (Owns a free) split o)),
)

pub Reach-Sound : {c d : Client} → Reach c d → Sound c → Sound d
Reach-Sound here s = s
Reach-Sound (further r st) s = Step-Sound st (Reach-Sound r s)

held_count : {a : Allocator} (free held : List ℕ) → Owns a free held → length held < a.overall
held_count [] held o = absurd o.chain
held_count (x ∷ l) held o = omega (arith, o.total)

-- In any history from `init`, the entries that the caller holds are distinct and in the array,
-- and at least one entry of the array is not handed out.
pub history-Sound :
    (size entry_size stale : ℕ) (next : ℕ → Option ℕ) {a : Allocator} {c : Client}
    → 0 < entry_size
    → page_size + entry_size ≤ size
    → page_size + 40 < size
    → size < 2 ^ 64
    → init size entry_size stale next ≡ some a
    → Reach (record { allocator = a; held = [] }) c
    → Distinct c.held
      × All (λ i. i < c.allocator.overall) c.held
      × (length c.held < c.allocator.overall)
history-Sound size entry_size stale next pos one h k e r =
    let (b, f, o) = init-Owns size entry_size stale next pos one h k in
    let (free, s) = Reach-Sound r (
      range 0 ((size - page_size) / entry_size),
      subst (λ b. Owns b (range 0 ((size - page_size) / entry_size)) []) (ground arith) o,
    ) in
    (s.held_distinct, s.held_in, held_count free _ s)
