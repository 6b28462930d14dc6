-- ===== src/Sccp/Parties.antt =====
-- The addresses of a unitdata message, and how its called and calling party are found.
use mediaroom.Prelude.{
  ℕ, ◌+◌, ◌*◌, ◌/◌, ◌%◌, ◌<◌, ◌≡◌, ◌≢◌, refl, ap, ◌∙◌, ◌⊎◌, true, false, Option, some, List, [],
  ◌∷◌, ◌++◌, arith, ◌==◌, if◌then◌else◌, length,
}
use mathlib.Core.Path.{subst}
use mathlib.Core.List.{append_assoc}
use mediaroom.Bytes.{Memory, HasBytes, HasBytes-right}
use mediaroom.View.{Base, get_offset}
use mediaroom.Extract.{got, tcap}
use mediaroom.Sccp.{ok, byte_at, add16, get_ssn, is_extended, udt_parties}

-- A party address with a subsystem number, with or without a point code. `upper` are the upper
-- six bits of the indicator.
pub data Address : Type 0 where
  full : (upper low high ssn : ℕ) (title : List ℕ) → Address
  short : (upper ssn : ℕ) (title : List ℕ) → Address

abbrev pub encode_address : Address → List ℕ
encode_address (full upper low high ssn title) = (4 * upper + 3) ∷ low ∷ high ∷ ssn ∷ title
encode_address (short upper ssn title) = (4 * upper + 2) ∷ ssn ∷ title

abbrev pub subsystem : Address → ℕ
subsystem (full upper low high ssn title) = ssn
subsystem (short upper ssn title) = ssn

-- A message: `class` is the protocol class or the return cause, and `hop` the hop counter and
-- `optional` the fourth pointer of the extended forms.
pub record UnitData : Type 0 where
  pub mt : ℕ
  pub class : ℕ
  pub hop : ℕ
  pub ptr1 : ℕ
  pub ptr2 : ℕ
  pub ptr3 : ℕ
  pub optional : ℕ
  pub called : List ℕ
  pub calling : Address
  pub user : List ℕ

abbrev pub front : UnitData → List ℕ
front u =
    if is_extended u.mt
    then u.mt ∷ u.class ∷ u.hop ∷ u.ptr1 ∷ u.ptr2 ∷ u.ptr3 ∷ u.optional ∷ []
    else u.mt ∷ u.class ∷ u.ptr1 ∷ u.ptr2 ∷ u.ptr3 ∷ []

abbrev pub parties : List ℕ → List ℕ → List ℕ
parties called calling = length called ∷ called ++ (length calling ∷ calling)

abbrev pub encode_unit_data : UnitData → List ℕ
encode_unit_data u =
    front u ++ (parties u.called (encode_address u.calling) ++ (length u.user ∷ u.user))

-- How many bytes stand in front of the user data.
abbrev pub head_size : UnitData → ℕ
head_size u = length (front u) + 3 + length u.called + length (encode_address u.calling)

abbrev pub IsUnitData : UnitData → Type 0
IsUnitData u =
    (((u.mt ≡ 0x09) ⊎ (u.mt ≡ 0x0a)) ⊎ ((u.mt ≡ 0x12) ⊎ (u.mt ≡ 0x13)))
    × (u.ptr1 ≢ 0)
    × (u.ptr2 ≢ 0)
    × (u.ptr3 ≢ 0)
    × (subsystem u.calling ≢ 0)

get_ssn-encode_address :
    (m : Memory) (p : ℕ) (a : Address) (rest : List ℕ)
    → HasBytes m p (encode_address a ++ rest)
    → get_ssn m p ≡ subsystem a
unfolding get_ssn
get_ssn-encode_address m p (full upper low high ssn title) rest (e, (f, (g, (h, t)))) =
    let pci : (m p % 2 == 1) ≡ true = ground arith in
    let ssni : (m p / 2 % 2 == 1) ≡ true = ground arith in rw (pci, ssni) (ap m (omega arith) ∙ h)
get_ssn-encode_address m p (short upper ssn title) rest (e, (f, t)) =
    let pci : (m p % 2 == 1) ≡ false = ground arith in
    let ssni : (m p / 2 % 2 == 1) ≡ true = ground arith in rw (pci, ssni) f

-- What stands where in the parties and the length of the user data.
pub record Places (m : Memory) (p : ℕ) (called calling : ℕ) (ssn : ℕ) : Type 0 where
  pub called_length : m p ≡ called
  pub calling_length : m (p + 1 + called) ≡ calling
  pub calling_ssn : get_ssn m (p + 1 + called + 1) ≡ ssn

pub parties-Places :
    (m : Memory) (p : ℕ) (called : List ℕ) (a : Address) (rest : List ℕ)
    → HasBytes m p (parties called (encode_address a) ++ rest)
    → Places m p (length called) (length (encode_address a)) (subsystem a)
parties-Places m p called a rest (e, h) =
    let at =
      HasBytes-right m (p + 1) called (length (encode_address a) ∷ encode_address a ++ rest) (
        subst (HasBytes m (p + 1))
          (append_assoc called (length (encode_address a) ∷ encode_address a) rest) h) in
    record {
      called_length = e;
      calling_length = at.0;
      calling_ssn = get_ssn-encode_address m _ a rest at.1;
    }

-- The pointer to what stands `n` bytes behind the start of the message.
abbrev pub tcap_at : Base → ℕ → Base
tcap_at b n = record b { own = some ((n + get_offset b) % 65536) }

pub udt_parties-Places :
    (fuel : ℕ) (m : Memory) (b : Base) (pointer : Option ℕ) (k called calling ssn : ℕ)
    → Places m (get_offset b + k) called calling ssn
    → ssn ≢ 0
    → k + 3 + called + calling < 65536
    → udt_parties fuel m b pointer k ≡ ok (got tcap (tcap_at b (k + 3 + called + calling)))
unfolding udt_parties
udt_parties-Places fuel m b pointer k called calling ssn places ne inside =
    let first : add16 (k + 1) (byte_at m b k) ≡ k + 1 + called =
      rw (places.called_length) (omega arith) in
    let second : byte_at m b (k + 1 + called) ≡ calling =
      ap m (omega arith) ∙ places.calling_length in
    let number : get_ssn m (get_offset b + add16 (k + 1 + called) 1) ≡ ssn =
      ap (get_ssn m) (omega arith) ∙ places.calling_ssn in
    let user : add16 (add16 (k + 1 + called) 1) calling ≡ k + 2 + called + calling = omega arith in
    let payload : add16 (k + 2 + called + calling) 1 ≡ k + 3 + called + calling = omega arith in
    let some_ssn : (ssn == 0) ≡ false = ground arith in
    rw (first) (rw (second, number, user, payload, some_ssn) refl)
