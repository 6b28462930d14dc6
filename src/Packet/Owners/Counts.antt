-- ===== src/Packet/Owners/Counts.antt =====
-- The count of references of a packet and the variables that own it.
use mediaroom.Prelude.{
  ℕ, zero, suc, ◌+◌, ◌-◌, ◌^◌, ◌≤◌, ◌<◌, ◌≡◌, refl, sym, ap, ◌∙◌, inl, inr, Bool, true, false,
  Option, none, some, List, [], ◌∷◌, ◌==◌, length, arith, Bool-cases, Option-cases,
}
use mathlib.Core.Path.{subst}
use mediaroom.Packet.{Packet, Heap, Run, done, fault, endless, write}
use mediaroom.Packet.Release.{free-shared, free-end}
use mediaroom.Packet.Owners.{Variables, pointer, set_pointer, delete}

abbrev pub to_nat : Bool → ℕ
to_nat true = 1
to_nat false = 0

-- Whether a pointer is to `p`.
abbrev pub hits : ℕ → Option ℕ → ℕ
hits p none = 0
hits p (some q) = to_nat (q == p)

-- How many variables own the packet at `p`.
unfoldable pub owners : ℕ → List (Option ℕ) → ℕ
owners p [] = 0
owners p (v ∷ vs) = hits p v + owners p vs

pub hits-most : (p : ℕ) (v : Option ℕ) → hits p v ≤ 1
hits-most p none = omega arith
hits-most p (some q) = ground arith

pub owners-most : (p : ℕ) (vs : List (Option ℕ)) → owners p vs ≤ length vs
unfolding owners
owners-most p [] = omega arith
owners-most p (v ∷ vs) = omega (arith, hits-most p v, owners-most p vs)

pub length-set_pointer :
    (i : ℕ) (v : Option ℕ) (vs : List (Option ℕ)) → length (set_pointer i v vs) ≡ length vs
unfolding set_pointer
length-set_pointer i v [] = refl
length-set_pointer zero v (w ∷ vs) = refl
length-set_pointer (suc i) v (w ∷ vs) = ap suc (length-set_pointer i v vs)

-- Where one pointer is replaced by another.
pub owners-set_pointer :
    (p i : ℕ) (v : Option ℕ) (vs : List (Option ℕ))
    → i < length vs
    → owners p (set_pointer i v vs) + hits p (pointer i vs) ≡ owners p vs + hits p v
unfolding owners set_pointer pointer
owners-set_pointer p i v [] h = absurd (omega arith)
owners-set_pointer p zero v (w ∷ vs) h = omega arith
owners-set_pointer p (suc i) v (w ∷ vs) h = omega (arith, owners-set_pointer p i v vs (omega arith))

pub pointer-owned : (p i : ℕ) (vs : List (Option ℕ)) → pointer i vs ≡ some p → 0 < owners p vs
unfolding owners pointer
pointer-owned p i [] e = absurd (ground arith)
pointer-owned p zero (v ∷ vs) e =
    let t : hits p v ≡ 1 = ap (hits p) e ∙ ground arith in omega (arith, t)
pointer-owned p (suc i) (v ∷ vs) e = omega (arith, pointer-owned p i vs e)

pub pointer-taken :
    (i j : ℕ) (vs : List (Option ℕ))
    → pointer j vs ≡ none
    → pointer j (set_pointer i none vs) ≡ none
unfolding pointer set_pointer
pointer-taken i j [] e = e
pointer-taken zero zero (v ∷ vs) e = refl
pointer-taken zero (suc j) (v ∷ vs) e = e
pointer-taken (suc i) zero (v ∷ vs) e = e
pointer-taken (suc i) (suc j) (v ∷ vs) e = pointer-taken i j vs e

-- What is at `p`, owned by `n` variables and pointers: a packet in no chain that counts them, or
-- memory that none of them points to.
abbrev pub Held : ℕ → Option Packet → Type 0
Held n none = n ≡ 0
Held n (some c) = (c.refcnt ≡ n) × (0 < n) × (c.next ≡ none)

-- One pointer, besides the variables, is still to be let go of.
pub record Owes (extra : Option ℕ) (s : Variables) : Type 0 where
  pub held : (p : ℕ) → Held (owners p s.pointers + hits p extra) (s.heap p)
  pub few : length s.pointers < 2 ^ 16 - 1

-- Every packet counts the variables that own it, and no variable points to memory that has been
-- given back; so nothing is allocated where no variable owns it. There are fewer variables than
-- a count can tell.
pub record Counted (s : Variables) : Type 0 where
  pub held : (p : ℕ) → Held (owners p s.pointers) (s.heap p)
  pub few : length s.pointers < 2 ^ 16 - 1

pub Held-count : (n m : ℕ) (o : Option Packet) → n ≡ m → Held n o → Held m o
Held-count n m o e h = subst (λ k. Held k o) e h

-- What is left when a pointer is let go of.
abbrev pub Counts : Run Variables → Type 0
Counts (done s) = Counted s
Counts fault = ⊥
Counts endless = ⊥

pub same : (a b : ℕ) → (a == b) ≡ true → a ≡ b
same a b h = ground arith

pub at_same :
    (p q n : ℕ) (c : Packet) (h : Heap)
    → h p ≡ some c
    → (p == q) ≡ true
    → Held n (h q)
    → Held n (some c)
at_same p q n c h e t held = subst (Held n) (ap h (sym (same p q t)) ∙ e) held

-- The heap after free, of a packet that others own too, and of one that none else owns.
shared-Held :
    (p q n : ℕ) (c : Packet) (h : Heap)
    → h p ≡ some c
    → 1 < c.refcnt
    → Held (n + hits q (some p)) (h q)
    → Held n (write h p (some (record c { refcnt = c.refcnt - 1 })) q)
shared-Held p q n c h e more held = elim (Bool-cases (p == q)) [
  | inr t ↦
      let miss : hits q (some p) ≡ 0 = ap to_nat t in
      rw (t) (Held-count (n + hits q (some p)) n (h q) (omega (arith, miss)) held)
  | inl t ↦
      let hit : hits q (some p) ≡ 1 = ap to_nat t in
      let (a, b, d) = at_same p q (n + hits q (some p)) c h e t held in
      rw (t) (omega (arith, a, hit), omega (arith, a, hit), d)
]

last-Held :
    (p q n : ℕ) (c : Packet) (h : Heap)
    → h p ≡ some c
    → c.refcnt ≡ 1
    → Held (n + hits q (some p)) (h q)
    → Held n (write (write h p (some (record c { refcnt = 0 }))) p none q)
last-Held p q n c h e one held = elim (Bool-cases (p == q)) [
  | inr t ↦
      let miss : hits q (some p) ≡ 0 = ap to_nat t in
      rw (t) (Held-count (n + hits q (some p)) n (h q) (omega (arith, miss)) held)
  | inl t ↦
      let hit : hits q (some p) ≡ 1 = ap to_nat t in
      let (a, b, d) = at_same p q (n + hits q (some p)) c h e t held in
      rw (t) (omega (arith, a, hit))
]

-- PacketDeleter lets go of the pointer that is owed.
pub delete-Counts : (extra : Option ℕ) (s : Variables) → Owes extra s → Counts (delete extra s)
delete-Counts none s h = record {
  held = λ p.
      Held-count (owners p s.pointers + 0) (owners p s.pointers) (s.heap p) (omega arith)
        (h.held p);
  few = h.few;
}
delete-Counts (some p) s h = elim (Option-cases (s.heap p)) [
  | inl e ↦
      let none_left : owners p s.pointers + hits p (some p) ≡ 0 =
        subst (Held (owners p s.pointers + hits p (some p))) e (h.held p) in
      absurd (ground (arith, none_left))
  | inr (c, e) ↦
      let (a, b, d) : Held (owners p s.pointers + hits p (some p)) (some c) =
        subst (Held (owners p s.pointers + hits p (some p))) e (h.held p) in
      let bound : owners p s.pointers + hits p (some p) < 2 ^ 16 =
        omega (arith, owners-most p s.pointers, hits-most p (some p), h.few) in
      elim (Bool-cases (c.refcnt == 1)) [
        | inl t ↦ rw (free-end 0 s.heap p c e (same c.refcnt 1 t) d) (record {
          held = λ q. last-Held p q (owners q s.pointers) c s.heap e (same c.refcnt 1 t) (h.held q);
          few = h.few;
        })
        | inr t ↦
            rw (free-shared 0 s.heap p c e (ground (arith, a, b)) (omega (arith, a, bound)))
              (record {
                held = λ q.
                    shared-Held p q (owners q s.pointers) c s.heap e (ground (arith, a, b))
                      (h.held q);
                few = h.few;
              })
      ]
]
