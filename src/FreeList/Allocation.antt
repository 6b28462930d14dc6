-- ===== src/FreeList/Allocation.antt =====
-- Who owns which entry of an AllocatorList, through any history of calls.
use mediaroom.Prelude.{
  All, Distinct, ℕ, ◌+◌, ◌-◌, ◌%◌, ◌^◌, ◌<◌, ◌≡◌, ◌≢◌, Option, none, some, List, [], ◌∷◌, ◌++◌,
  arith, length, length-append,
}
use mediaroom.FreeList.{Allocator, set_next, get, put, overwrite}
use mediaroom.FreeList.Chain.{Chain, All-append, Chain-set_ne, Chain-snoc, All-ne_snoc}

-- The entries are parted into the free ones, in the order of the list, and those handed out.
pub record Owns (a : Allocator) (free held : List ℕ) : Type 0 where
  pub chain : Chain a.next a.first a.last free
  pub free_distinct : Distinct free
  pub held_distinct : Distinct held
  pub apart : All (λ h. All (λ f. h ≢ f) free) held
  pub free_in : All (λ f. f < a.overall) free
  pub held_in : All (λ h. h < a.overall) held
  pub counted : a.count ≡ length free
  pub total : length free + length held ≡ a.overall
  pub bounded : a.overall < 2 ^ 64

pub All-middle :
    (P : ℕ → Type 0) (h : List ℕ) (i : ℕ) (k : List ℕ) → All P (h ++ i ∷ k) → P i × All P (h ++ k)
All-middle P [] i k p = p
All-middle P (x ∷ h) i k (p, ps) = let (q, qs) = All-middle P h i k ps in (q, (p, qs))

ne_symm : {a b : ℕ} → a ≢ b → b ≢ a
ne_symm h = ground arith

All-ne_symm : (i : ℕ) (l : List ℕ) → All (λ y. i ≢ y) l → All (λ y. y ≢ i) l
All-ne_symm i [] h = tt
All-ne_symm i (x ∷ l) (h, k) = (ne_symm h, All-ne_symm i l k)

-- The owner's entry differs from the others that are held.
Distinct-middle :
    (h : List ℕ) (i : ℕ) (k : List ℕ)
    → Distinct (h ++ i ∷ k)
    → All (λ y. y ≢ i) (h ++ k) × Distinct (h ++ k)
Distinct-middle [] i k (p, q) = (All-ne_symm i k p, q)
Distinct-middle (x ∷ h) i k (p, q) =
    let (e, rest) = All-middle (λ y. x ≢ y) h i k p in
    let (ne, d) = Distinct-middle h i k q in ((e, ne), (rest, d))

length-middle : (h : List ℕ) (i : ℕ) (k : List ℕ) → length (h ++ i ∷ k) ≡ length (h ++ k) + 1
length-middle [] i k = omega arith
length-middle (x ∷ h) i k = omega (arith, length-middle h i k)

apart-snoc :
    (held free : List ℕ) (i : ℕ)
    → All (λ h. All (λ f. h ≢ f) free) held
    → All (λ y. y ≢ i) held
    → All (λ h. All (λ f. h ≢ f) (free ++ i ∷ [])) held
apart-snoc [] free i a n = tt
apart-snoc (h ∷ held) free i (a, rest) (n, ns) =
    (All-append (λ f. h ≢ f) free (i ∷ []) a (n, tt), apart-snoc held free i rest ns)

apart-rest :
    (held : List ℕ) (x : ℕ) (l : List ℕ)
    → All (λ h. All (λ f. h ≢ f) (x ∷ l)) held
    → All (λ h. All (λ f. h ≢ f) l) held × All (λ h. x ≢ h) held
apart-rest [] x l a = (tt, tt)
apart-rest (h ∷ held) x l ((n, a), more) =
    let (r, s) = apart-rest held x l more in ((a, r), (ne_symm n, s))

-- `get` hands out the first free entry, and keeps the last one back.
pub get-Owns :
    {a : Allocator} (x y : ℕ) (l held : List ℕ)
    → Owns a (x ∷ y ∷ l) held
    → (a' : Allocator) × (get a ≡ (some x, a')) × Owns a' (y ∷ l) (x ∷ held)
unfolding get
get-Owns {a} x y l held o =
    let (start, to, rest) = o.chain in
    let (apart, other) = apart-rest held x (y ∷ l) o.apart in
    (
      record a { first = y; count = (a.count + 2 ^ 64 - 1) % 2 ^ 64 },
      ground arith,
      record {
        chain = rest;
        free_distinct = o.free_distinct.1;
        held_distinct = (other, o.held_distinct);
        apart = (o.free_distinct.0, apart);
        free_in = o.free_in.1;
        held_in = (o.free_in.0, o.held_in);
        counted = omega (arith, o.counted, o.total, o.bounded);
        total = omega (arith, o.total);
        bounded = o.bounded;
      },
    )

pub get-last : {a : Allocator} (x : ℕ) (held : List ℕ) → Owns a (x ∷ []) held → get a ≡ (none, a)
unfolding get
get-last x held o = ground (arith, o.chain)

-- `put` takes back an entry that is held, whichever it is, and it becomes the last free one.
pub put-Owns :
    {a : Allocator} (free h : List ℕ) (i : ℕ) (k : List ℕ)
    → Owns a free (h ++ i ∷ k)
    → (a' : Allocator) × (put i a ≡ some a') × Owns a' (free ++ i ∷ []) (h ++ k)
unfolding put
put-Owns {a} free h i k o =
    let (i_in, held_in) = All-middle (λ x. x < a.overall) h i k o.held_in in
    let (i_apart, apart) = All-middle (λ x. All (λ f. x ≢ f) free) h i k o.apart in
    let (other, held_distinct) = Distinct-middle h i k o.held_distinct in
    (
      record a {
        next = set_next (set_next a.next i none) a.last (some i);
        last = i;
        count = (a.count + 1) % 2 ^ 64;
      },
      ground arith,
      record {
        chain =
            Chain-snoc (set_next a.next i none) a.first a.last i free i_apart o.free_distinct
              (ground arith) (Chain-set_ne a.next a.first a.last i none free i_apart o.chain);
        free_distinct = All-ne_snoc free i i_apart o.free_distinct;
        held_distinct = held_distinct;
        apart = apart-snoc (h ++ k) free i apart other;
        free_in = All-append (λ f. f < a.overall) free (i ∷ []) o.free_in (i_in, tt);
        held_in = held_in;
        counted = omega (
          arith,
          o.counted,
          o.total,
          o.bounded,
          length-append free (i ∷ []),
          length-middle h i k,
        );
        total = omega (arith, o.total, length-append free (i ∷ []), length-middle h i k);
        bounded = o.bounded;
      },
    )

-- What the owner of an entry writes over its link does not disturb the free list.
pub overwrite-Owns :
    {a : Allocator} (free h : List ℕ) (i : ℕ) (k : List ℕ) (v : Option ℕ)
    → Owns a free (h ++ i ∷ k)
    → Owns (overwrite i v a) free (h ++ i ∷ k)
unfolding overwrite
overwrite-Owns {a} free h i k v o = record {
  chain =
      Chain-set_ne a.next a.first a.last i v free
        (All-middle (λ x. All (λ f. x ≢ f) free) h i k o.apart).0 o.chain;
  free_distinct = o.free_distinct;
  held_distinct = o.held_distinct;
  apart = o.apart;
  free_in = o.free_in;
  held_in = o.held_in;
  counted = o.counted;
  total = o.total;
  bounded = o.bounded;
}
