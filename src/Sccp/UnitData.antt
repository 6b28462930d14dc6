-- ===== src/Sccp/UnitData.antt =====
-- Unitdata messages of SCCP: what extractSccp hands to TCAP.
use mediaroom.Prelude.{
  ℕ, ◌+◌, ◌-◌, ◌≤◌, ◌<◌, ◌≡◌, ◌≢◌, refl, sym, ap, ◌∙◌, ◌⊎◌, inl, inr, true, false, Option, none,
  some, List, [], ◌∷◌, ◌++◌, arith, Bool-cases, length, length-append,
}
use mathlib.Core.Path.{subst}
use mediaroom.Bytes.{Memory, HasBytes, HasBytes-right}
use mediaroom.View.{Base, get_offset, get_length}
use mediaroom.View.Moves.{IsBase, Shows, offset_ptr-Shows}
use mediaroom.Extract.{Outcome, got, tcap}
use mediaroom.Sccp.{
  Walk, ok, byte_at, is_extended, udt_parties, pointers_set, extract_udt, extract_sccp,
}
use mediaroom.Sccp.Parties.{
  Address, UnitData, encode_address, subsystem, front, parties, encode_unit_data, head_size,
  IsUnitData, parties-Places, tcap_at, udt_parties-Places,
}

-- The message is one of the switch's cases for unitdata.
extract_sccp-udt :
    (fuel : ℕ) (m : Memory) (b : Base) (mt : ℕ)
    → ((mt ≡ 0x09) ⊎ (mt ≡ 0x0a)) ⊎ ((mt ≡ 0x12) ⊎ (mt ≡ 0x13))
    → byte_at m b 0 ≡ mt
    → extract_sccp fuel m b ≡ extract_udt fuel m b
unfolding extract_sccp
extract_sccp-udt fuel m b mt (inl (inl k)) e = rw (e, k) refl
extract_sccp-udt fuel m b mt (inl (inr k)) e = rw (e, k) refl
extract_sccp-udt fuel m b mt (inr (inl k)) e = rw (e, k) refl
extract_sccp-udt fuel m b mt (inr (inr k)) e = rw (e, k) refl

extract_udt-extended :
    (fuel : ℕ) (m : Memory) (b : Base)
    → is_extended (byte_at m b 0) ≡ true
    → pointers_set m b 3 ≡ true
    → extract_udt fuel m b ≡ udt_parties fuel m b (some (byte_at m b 6)) 7
unfolding extract_udt
extract_udt-extended fuel m b e f = rw (e, f) refl

extract_udt-plain :
    (fuel : ℕ) (m : Memory) (b : Base)
    → is_extended (byte_at m b 0) ≡ false
    → pointers_set m b 2 ≡ true
    → extract_udt fuel m b ≡ udt_parties fuel m b none 5
unfolding extract_udt
extract_udt-plain fuel m b e f = rw (e, f) refl

-- TCAP gets a pointer to the user data, `n` bytes behind the start of the message.
abbrev pub Hands : Memory → Base → List ℕ → ℕ → Walk Outcome → Type 0
Hands m b user n result =
    (b' : Base) × (result ≡ ok (got tcap b'))
    × Shows b' (get_offset b + n) (get_length b - n)
    × HasBytes m (get_offset b') user

udt_parties-Hands :
    (fuel : ℕ) (m : Memory) (b : Base) (pointer : Option ℕ) (k : ℕ) (called : List ℕ) (a : Address)
    (user : List ℕ)
    → HasBytes m (get_offset b + k) (parties called (encode_address a) ++ (length user ∷ user))
    → subsystem a ≢ 0
    → IsBase b
    → get_offset b + (k + 3 + length called + length (encode_address a)) < 65536
    → k + 3 + length called + length (encode_address a) ≤ get_length b
    → Hands m b user
        (k + 3 + length called + length (encode_address a))
        (udt_parties fuel m b pointer k)
udt_parties-Hands fuel m b pointer k called a user has ne base inside fits =
    let n : ℕ = k + 3 + length called + length (encode_address a) in
    let ending =
      HasBytes-right m (get_offset b + k) (parties called (encode_address a)) (length user ∷ user)
        has in
    let (at, rest) = offset_ptr-Shows b n base inside fits in
    (
      tcap_at b n,
      udt_parties-Places fuel m b pointer k (length called) (length (encode_address a))
          (subsystem a) (parties-Places m (get_offset b + k) called a (length user ∷ user) has) ne
          (omega arith),
      (at, rest),
      subst (λ p. HasBytes m p user)
          (omega (arith, at, length-append called (length (encode_address a) ∷ encode_address a)))
          ending.1,
    )

-- The pointers stand behind the list `before`.
pointers_set-after :
    (m : Memory) (b : Base) (before after : List ℕ) (ptr1 ptr2 ptr3 : ℕ)
    → HasBytes m (get_offset b) (before ++ ptr1 ∷ ptr2 ∷ ptr3 ∷ after)
    → ptr1 ≢ 0
    → ptr2 ≢ 0
    → ptr3 ≢ 0
    → pointers_set m b (length before) ≡ true
pointers_set-after m b before after ptr1 ptr2 ptr3 h x y z =
    let (e, (f, (g, _))) = HasBytes-right m (get_offset b) before (ptr1 ∷ ptr2 ∷ ptr3 ∷ after) h in
    let p : ℕ = length before in
    let f' : byte_at m b (p + 1) ≡ ptr2 = ap m (omega arith) ∙ f in
    let g' : byte_at m b (p + 2) ≡ ptr3 = ap m (omega arith) ∙ g in ground arith

abbrev body : UnitData → List ℕ
body u = parties u.called (encode_address u.calling) ++ (length u.user ∷ u.user)

-- What follows where the front is known.
Hands-front :
    (fuel : ℕ) (m : Memory) (b : Base) (u : UnitData) (f : List ℕ) (pointer : Option ℕ)
    → front u ≡ f
    → HasBytes m (get_offset b) (f ++ body u)
    → subsystem u.calling ≢ 0
    → extract_sccp fuel m b ≡ udt_parties fuel m b pointer (length f)
    → IsBase b
    → get_offset b + head_size u < 65536
    → head_size u ≤ get_length b
    → Hands m b u.user (head_size u) (extract_sccp fuel m b)
Hands-front fuel m b u f pointer e has ne run base inside fits =
    let size : head_size u ≡ length f + 3 + length u.called + length (encode_address u.calling) =
      ap (λ g. length g + 3 + length u.called + length (encode_address u.calling)) e in
    subst (Hands m b u.user (head_size u)) (sym run) (
      subst (λ n. Hands m b u.user n (udt_parties fuel m b pointer (length f))) (sym size)
        (udt_parties-Hands fuel m b pointer (length f) u.called u.calling u.user
          (HasBytes-right m (get_offset b) f (body u) has) ne base (omega arith) (omega arith)))

-- A unitdata message or a unitdata service message, extended or not, in which the called party,
-- the calling party and the user data follow the pointers in this order without a gap, and whose
-- calling party has a subsystem number: extractSccp hands TCAP a pointer to the user data, which
-- has the rest of the packet's length. The code does not read where the mandatory pointers point,
-- and the theorem does not ask for it: of their values only that none is zero, as the assertions
-- want. The message's start is one of a packet, the user data begin below byte `2 ^ 16`, and the
-- packet is not shorter than what stands in front of them.
pub extract_sccp-Hands :
    (fuel : ℕ) (m : Memory) (b : Base) (u : UnitData)
    → IsUnitData u
    → HasBytes m (get_offset b) (encode_unit_data u)
    → IsBase b
    → get_offset b + head_size u < 65536
    → head_size u ≤ get_length b
    → Hands m b u.user (head_size u) (extract_sccp fuel m b)
extract_sccp-Hands fuel m b u (kind, x, y, z, ne) has base inside fits =
    elim (Bool-cases (is_extended u.mt)) [
      | inl e ↦
          let start = u.mt ∷ u.class ∷ u.hop ∷ [] in
          let f = u.mt ∷ u.class ∷ u.hop ∷ u.ptr1 ∷ u.ptr2 ∷ u.ptr3 ∷ u.optional ∷ [] in
          let eq : front u ≡ f = rw (e) refl in
          let h = subst (λ g. HasBytes m (get_offset b) (g ++ body u)) eq has in
          let mt : byte_at m b 0 ≡ u.mt = ap m (omega arith) ∙ h.0 in
          let set =
            pointers_set-after m b start (u.optional ∷ body u) u.ptr1 u.ptr2 u.ptr3 h x y z in
          Hands-front fuel m b u f (some (byte_at m b 6)) eq h ne
            (extract_sccp-udt fuel m b u.mt kind mt
              ∙ extract_udt-extended fuel m b (ap is_extended mt ∙ e) set)
            base inside fits
      | inr e ↦
          let start = u.mt ∷ u.class ∷ [] in
          let f = u.mt ∷ u.class ∷ u.ptr1 ∷ u.ptr2 ∷ u.ptr3 ∷ [] in
          let eq : front u ≡ f = rw (e) refl in
          let h = subst (λ g. HasBytes m (get_offset b) (g ++ body u)) eq has in
          let mt : byte_at m b 0 ≡ u.mt = ap m (omega arith) ∙ h.0 in
          let set = pointers_set-after m b start (body u) u.ptr1 u.ptr2 u.ptr3 h x y z in
          Hands-front fuel m b u f none eq h ne
            (extract_sccp-udt fuel m b u.mt kind mt
              ∙ extract_udt-plain fuel m b (ap is_extended mt ∙ e) set)
            base inside fits
    ]
