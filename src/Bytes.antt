-- ===== src/Bytes.antt =====
-- A region of memory as a function from offsets to bytes, with memcpy and the 16-bit accesses
-- that the shared structures make through cast pointers (little-endian).
use mediaroom.Prelude.{
  ℕ, zero, suc, ◌+◌, ◌-◌, ◌*◌, ◌/◌, ◌%◌, ◌≤◌, ◌<◌, ◌≡◌, ◌≢◌, refl, ap, ◌∙◌, none, some, List, [],
  ◌∷◌, ◌++◌, arith, ◌==◌, if◌then◌else◌, length, get_elem?,
}
use mathlib.Core.Path.{ap₂, subst}

abbrev pub Memory : Type 0
Memory = ℕ → ℕ

abbrev pub store8 : Memory → ℕ → ℕ → Memory
store8 m p v q = if p == q then v else m q

-- memcpy(base + p, data, len): the list is the `len` bytes at `data`.
unfoldable pub memcpy : Memory → ℕ → List ℕ → Memory
memcpy m p [] = m
memcpy m p (x ∷ xs) = memcpy (store8 m p x) (p + 1) xs

-- The `n` bytes from `p` on.
unfoldable pub bytes : Memory → ℕ → ℕ → List ℕ
bytes m p zero = []
bytes m p (suc n) = m p ∷ bytes m (p + 1) n

-- *(uint16_t*)(base + p) = v
unfoldable pub store16 : Memory → ℕ → ℕ → Memory
store16 m p v = store8 (store8 m p (v % 256)) (p + 1) (v / 256 % 256)

-- *(uint16_t*)(base + p)
unfoldable pub load16 : Memory → ℕ → ℕ
load16 m p = m p + 256 * m (p + 1)

pub memcpy_below : (m : Memory) (p : ℕ) (xs : List ℕ) (q : ℕ) → q < p → memcpy m p xs q ≡ m q
unfolding memcpy
memcpy_below m p [] q h = refl
memcpy_below m p (x ∷ xs) q h = ground (arith, memcpy_below (store8 m p x) (p + 1) xs q)

pub memcpy_above :
    (m : Memory) (p : ℕ) (xs : List ℕ) (q : ℕ) → p + length xs ≤ q → memcpy m p xs q ≡ m q
unfolding memcpy
memcpy_above m p [] q h = refl
memcpy_above m p (x ∷ xs) q h = ground (arith, memcpy_above (store8 m p x) (p + 1) xs q)

-- What memcpy wrote is read back.
pub bytes-memcpy : (m : Memory) (p : ℕ) (xs : List ℕ) → bytes (memcpy m p xs) p (length xs) ≡ xs
unfolding bytes memcpy
bytes-memcpy m p [] = refl
bytes-memcpy m p (x ∷ xs) =
    ap₂ ◌∷◌ (ground (arith, memcpy_below (store8 m p x) (p + 1) xs p))
      (bytes-memcpy (store8 m p x) (p + 1) xs)

pub bytes_agree :
    (m m' : Memory) (p n : ℕ)
    → ((q : ℕ) → p ≤ q → q < p + n → m' q ≡ m q)
    → bytes m' p n ≡ bytes m p n
unfolding bytes
bytes_agree m m' p zero h = refl
bytes_agree m m' p (suc n) h =
    ap₂ ◌∷◌ (h p (omega arith) (omega arith))
      (bytes_agree m m' (p + 1) n (λ q a b. h q (omega arith) (omega arith)))

pub length-bytes : (m : Memory) (p n : ℕ) → length (bytes m p n) ≡ n
unfolding bytes
length-bytes m p zero = refl
length-bytes m p (suc n) = ap suc (length-bytes m (p + 1) n)

pub load16-store16 : (m : Memory) (p v : ℕ) → v < 65536 → load16 (store16 m p v) p ≡ v
unfolding load16 store16
load16-store16 m p v h = ground arith

pub store16_ne : (m : Memory) (p v q : ℕ) → p ≢ q → p + 1 ≢ q → store16 m p v q ≡ m q
unfolding store16
store16_ne m p v q h k = ground arith

pub load16_agree :
    (m m' : Memory) (p : ℕ) → m' p ≡ m p → m' (p + 1) ≡ m (p + 1) → load16 m' p ≡ load16 m p
unfolding load16
load16_agree m m' p h k = ground arith

-- *(uint32_t*)(base + p)
unfoldable pub load32 : Memory → ℕ → ℕ
unfolding load16
load32 m p = load16 m p + 65536 * load16 m (p + 2)

-- Two copies, the second right behind the first, are one.
pub memcpy-append :
    (m : Memory) (p : ℕ) (xs ys : List ℕ)
    → memcpy (memcpy m p xs) (p + length xs) ys ≡ memcpy m p (xs ++ ys)
unfolding memcpy
memcpy-append m p [] ys = ap (λ k. memcpy m k ys) (omega arith)
memcpy-append m p (x ∷ xs) ys =
    ap (λ k. memcpy (memcpy (store8 m p x) (p + 1) xs) k ys) (omega arith)
    ∙ memcpy-append (store8 m p x) (p + 1) xs ys

zero-add : (b : ℕ) → 0 + b ≡ b
zero-add b = omega arith

suc-add : (a b : ℕ) → suc a + b ≡ suc (a + b)
suc-add a b = omega arith

pub bytes-append : (m : Memory) (p a b : ℕ) → bytes m p (a + b) ≡ bytes m p a ++ bytes m (p + a) b
unfolding bytes
bytes-append m p zero b = rw (zero-add b) (ap (λ k. bytes m k b) (omega arith))
bytes-append m p (suc a) b = rw (suc-add a b) (
    ap (λ xs. m p ∷ xs)
      (bytes-append m (p + 1) a b ∙ ap (λ k. bytes m (p + 1) a ++ bytes m k b) (omega arith)))

pub memcpy-nil : (m : Memory) (p : ℕ) → memcpy m p [] ≡ m
unfolding memcpy
memcpy-nil m p = refl

-- The bytes `xs` stand from `p` on.
abbrev pub HasBytes : Memory → ℕ → List ℕ → Type 0
HasBytes m p [] = Unit {0}
HasBytes m p (x ∷ xs) = (m p ≡ x) × HasBytes m (p + 1) xs

pub HasBytes-right :
    (m : Memory) (p : ℕ) (xs ys : List ℕ) → HasBytes m p (xs ++ ys) → HasBytes m (p + length xs) ys
HasBytes-right m p [] ys h = subst (λ q. HasBytes m q ys) (omega arith) h
HasBytes-right m p (x ∷ xs) ys (_, h) =
    subst (λ q. HasBytes m q ys) (omega arith) (HasBytes-right m (p + 1) xs ys h)

pub HasBytes-left :
    (m : Memory) (p : ℕ) (xs ys : List ℕ) → HasBytes m p (xs ++ ys) → HasBytes m p xs
HasBytes-left m p [] ys h = tt
HasBytes-left m p (x ∷ xs) ys (e, h) = (e, HasBytes-left m (p + 1) xs ys h)

-- A memory that holds `xs` from `base` on.
abbrev pub holding : ℕ → List ℕ → Memory
holding base xs p = elim (get_elem? xs (p - base)) [ none ↦ 0 | some x ↦ x ]
