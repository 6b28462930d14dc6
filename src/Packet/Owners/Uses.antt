-- ===== src/Packet/Owners/Uses.antt =====
-- What variables of type Pkt and PktOffset do keeps every packet as long as one of them owns it.
use mediaroom.Prelude.{
  ℕ, ◌+◌, ◌-◌, ◌%◌, ◌^◌, ◌<◌, ◌≡◌, refl, sym, ap, ◌∙◌, inl, inr, Bool, true, false, Option, none,
  some, List, [], ◌∷◌, ◌==◌, length, arith, Bool-cases,
}
use mathlib.Core.Path.{subst}
use mediaroom.Packet.{
  Packet, Run, done, fault, endless, ◌>>=◌, write, load, alloc_packet, clone, offset_clone,
  packet_size,
}
use mediaroom.Packet.Owners.{
  Variables, pointer, set_pointer, Use, clone_at, taken, use_variable, use_variables, Allowed,
  AllowedAfter, AllowedAll,
}
use mediaroom.Packet.Owners.Counts.{
  to_nat, hits, owners, owners-set_pointer, length-set_pointer, owners-most, pointer-owned,
  pointer-taken, Held, Held-count, Counted, Counts, same, delete-Counts,
}

few-set :
    (i : ℕ) (v : Option ℕ) (vs : List (Option ℕ))
    → length vs < 2 ^ 16 - 1
    → length (set_pointer i v vs) < 2 ^ 16 - 1
few-set i v vs h = omega (arith, length-set_pointer i v vs)

destroyed-Counts :
    (i : ℕ) (s : Variables)
    → Counted s
    → i < length s.pointers
    → Counts (use_variable (Use.destroyed i) s)
unfolding use_variable
destroyed-Counts i s h k =
    delete-Counts (pointer i s.pointers) (record s { pointers = taken i s })
      (record {
        held = λ q.
            Held-count (owners q s.pointers) (owners q (taken i s) + hits q (pointer i s.pointers))
              (s.heap q) (omega (arith, owners-set_pointer q i none s.pointers k)) (h.held q);
        few = few-set i none s.pointers h.few;
      })

-- The owners behind a move, with the pointer that was replaced.
moved-owners :
    (q i j : ℕ) (s : Variables)
    → i < length s.pointers
    → j < length s.pointers
    → owners q (set_pointer j (pointer i s.pointers) (taken i s)) + hits q (pointer j (taken i s))
      ≡ owners q s.pointers
moved-owners q i j s k l = omega (
  arith,
  owners-set_pointer q i none s.pointers k,
  owners-set_pointer q j (pointer i s.pointers) (taken i s)
      (omega (arith, length-set_pointer i none s.pointers)),
)

assigned-Counts :
    (i j : ℕ) (s : Variables)
    → Counted s
    → i < length s.pointers
    → j < length s.pointers
    → Counts (use_variable (Use.assigned i j) s)
unfolding use_variable
assigned-Counts i j s h k l =
    let now : List (Option ℕ) = set_pointer j (pointer i s.pointers) (taken i s) in
    delete-Counts (pointer j (taken i s)) (record s { pointers = now })
      (record {
        held = λ q.
            Held-count (owners q s.pointers) (owners q now + hits q (pointer j (taken i s)))
              (s.heap q) (sym (moved-owners q i j s k l)) (h.held q);
        few = few-set j (pointer i s.pointers) (taken i s) (few-set i none s.pointers h.few);
      })

moved-Counts :
    (i j : ℕ) (s : Variables)
    → Counted s
    → i < length s.pointers
    → j < length s.pointers
    → pointer j s.pointers ≡ none
    → Counts (use_variable (Use.moved i j) s)
unfolding use_variable
moved-Counts i j s h k l e = record {
  held = λ q.
      let gone : hits q (pointer j (taken i s)) ≡ 0 =
        ap (hits q) (pointer-taken i j s.pointers e) in
      Held-count (owners q s.pointers) (owners q (set_pointer j (pointer i s.pointers) (taken i s)))
        (s.heap q) (omega (arith, gone, moved-owners q i j s k l)) (h.held q);
  few = few-set j (pointer i s.pointers) (taken i s) (few-set i none s.pointers h.few);
}

allocated-Held :
    (i p n q : ℕ) (s : Variables)
    → Counted s
    → i < length s.pointers
    → pointer i s.pointers ≡ none
    → s.heap p ≡ none
    → Held (owners q (set_pointer i (some p) s.pointers)) (alloc_packet p n s.heap q)
unfolding alloc_packet
allocated-Held i p n q s h k e f =
    let none_was : hits q (pointer i s.pointers) ≡ 0 = ap (hits q) e in
    let more : owners q (set_pointer i (some p) s.pointers) + hits q (pointer i s.pointers)
        ≡ owners q s.pointers + hits q (some p) =
      owners-set_pointer q i (some p) s.pointers k in
    elim (Bool-cases (p == q)) [
      | inl t ↦
          let before : owners q s.pointers ≡ 0 =
            subst (Held (owners q s.pointers)) (ap s.heap (sym (same p q t)) ∙ f) (h.held q) in
          let hit : hits q (some p) ≡ 1 = ap to_nat t in
          rw (t) (
            omega (arith, before, more, none_was, hit),
            omega (arith, before, more, none_was, hit),
            refl,
          )
      | inr t ↦
          let miss : hits q (some p) ≡ 0 = ap to_nat t in
          rw (t) (
            Held-count (owners q s.pointers) (owners q (set_pointer i (some p) s.pointers))
              (s.heap q) (omega (arith, more, none_was, miss)) (h.held q))
    ]

-- A packet that is owned is there.
owned-there :
    (p n : ℕ) (o : Option Packet)
    → 0 < n
    → Held n o
    → (c : Packet) × (o ≡ some c) × (c.refcnt ≡ n) × (c.next ≡ none)
owned-there p n none h k = absurd (omega (arith, h, k))
owned-there p n (some c) h (a, b, d) = (c, refl, a, d)

-- One variable more owns the packet `c'` that is now at `p`.
cloned-Held :
    (j p q n : ℕ) (c' : Packet) (s : Variables)
    → Counted s
    → j < length s.pointers
    → pointer j s.pointers ≡ none
    → owners p s.pointers ≡ n
    → c'.refcnt ≡ n + 1
    → c'.next ≡ none
    → Held (owners q (set_pointer j (some p) s.pointers)) (write s.heap p (some c') q)
cloned-Held j p q n c' s h k e was count end =
    let none_was : hits q (pointer j s.pointers) ≡ 0 = ap (hits q) e in
    let more : owners q (set_pointer j (some p) s.pointers) + hits q (pointer j s.pointers)
        ≡ owners q s.pointers + hits q (some p) =
      owners-set_pointer q j (some p) s.pointers k in
    elim (Bool-cases (p == q)) [
      | inl t ↦
          let here : owners q s.pointers ≡ n =
            ap (λ r. owners r s.pointers) (sym (same p q t)) ∙ was in
          let hit : hits q (some p) ≡ 1 = ap to_nat t in
          rw (t) (
            omega (arith, here, more, none_was, hit, count),
            omega (arith, more, none_was, hit),
            end,
          )
      | inr t ↦
          let miss : hits q (some p) ≡ 0 = ap to_nat t in
          rw (t) (
            Held-count (owners q s.pointers) (owners q (set_pointer j (some p) s.pointers))
              (s.heap q) (omega (arith, more, none_was, miss)) (h.held q))
    ]

clone_at-done :
    (offset : Bool) (p j : ℕ) (c : Packet) (s : Variables)
    → s.heap p ≡ some c
    → (c' : Packet) × (clone_at offset (some p) j s
        ≡ done (record {
          pointers = set_pointer j (some p) s.pointers;
          heap = write s.heap p (some c');
        }))
      × (c'.refcnt ≡ (c.refcnt + 1) % 65536)
      × (c'.next ≡ c.next)
unfolding clone offset_clone
clone_at-done true p j c s e =
    (record c { refcnt = (c.refcnt + 1) % 65536 }, rw (load, e) refl, refl, refl)
clone_at-done false p j c s e = (
  record c { refcnt = (c.refcnt + 1) % 65536; offset = packet_size },
  rw (load, e) refl,
  refl,
  refl,
)

cloned-Counts :
    (offset : Bool) (i j p : ℕ) (s : Variables)
    → Counted s
    → j < length s.pointers
    → pointer j s.pointers ≡ none
    → pointer i s.pointers ≡ some p
    → Counts (use_variable (Use.cloned offset i j) s)
unfolding use_variable
cloned-Counts offset i j p s h k e f =
    let (c, there, a, d) =
      owned-there p (owners p s.pointers) (s.heap p) (pointer-owned p i s.pointers f) (h.held p) in
    let (c', run, count, end) = clone_at-done offset p j c s there in
    let most : owners p s.pointers < 2 ^ 16 - 1 = omega (arith, owners-most p s.pointers, h.few) in
    subst Counts (sym (ap (λ o. clone_at offset o j s) f ∙ run)) (record {
      held = λ q.
          cloned-Held j p q (owners p s.pointers) c' s h k e refl (omega (arith, count, a, most))
            (end ∙ d);
      few = few-set j (some p) s.pointers h.few;
    })

use_variable-Counts :
    (u : Use) (s : Variables) → Counted s → Allowed u s → Counts (use_variable u s)
unfolding use_variable
use_variable-Counts (Use.allocated i p n) s h (k, e, f) = record {
  held = λ q. allocated-Held i p n q s h k e f;
  few = few-set i (some p) s.pointers h.few;
}
use_variable-Counts (Use.moved i j) s h (k, l, e) = moved-Counts i j s h k l e
use_variable-Counts (Use.assigned i j) s h (k, l) = assigned-Counts i j s h k l
use_variable-Counts (Use.destroyed i) s h k = destroyed-Counts i s h k
use_variable-Counts (Use.cloned offset i j) s h (k, e, p, f) = cloned-Counts offset i j p s h k e f

next-Counts :
    (us : List Use) (o : Run Variables) (go : Variables → Run Variables)
    → Counts o
    → AllowedAfter (AllowedAll us) o
    → ((r : Variables) → Counted r → AllowedAll us r → Counts (go r))
    → Counts (o >>= go)
next-Counts us (done r) go h a next = next r h a
next-Counts us fault go h a next = h
next-Counts us endless go h a next = h

use_variables-Counts :
    (us : List Use) (s : Variables) → Counted s → AllowedAll us s → Counts (use_variables us s)
unfolding use_variables AllowedAll
use_variables-Counts [] s h a = h
use_variables-Counts (u ∷ us) s h (k, a) =
    next-Counts us (use_variable u s) (use_variables us) (use_variable-Counts u s h k) a
      (use_variables-Counts us)

Counted-run : (o : Run Variables) → Counts o → (r : Variables) × (o ≡ done r) × Counted r
Counted-run (done r) h = (r, refl, h)
Counted-run fault h = absurd h
Counted-run endless h = absurd h

-- For any sequence of uses that the program may make of its variables, each packet being in no
-- chain and the variables being fewer than 65535: no use reaches memory that is not allocated,
-- and afterwards every packet counts the variables that own it, so that each variable points to
-- a packet that is there, and no packet is left that no variable owns.
pub use_variables-Counted :
    (us : List Use) (s : Variables)
    → Counted s
    → AllowedAll us s
    → (r : Variables) × (use_variables us s ≡ done r) × Counted r
use_variables-Counted us s h a = Counted-run (use_variables us s) (use_variables-Counts us s h a)
