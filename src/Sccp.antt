-- ===== src/Sccp.antt =====
-- lib/libstack/ss7/ExtractorSccp.h: the walk over the parameters of an SCCP message. LS_ASSERT
-- is the one of a build without NDEBUG.
pub mod Optional
pub mod Parties
pub mod UnitData
mod Tests
use mediaroom.Prelude.{
  ℕ, zero, suc, ◌+◌, ◌-◌, ◌*◌, ◌/◌, ◌%◌, ◌^◌, ◌≤◌, ◌<◌, ◌≡◌, ◌≢◌, refl, sym, ap, ◌∙◌, ◌↔◌, ◌⊎◌, inl,
  inr, Bool, true, false, not, ◌&&◌, ◌||◌, Option, none, some, List, [], ◌∷◌, ◌++◌, map, arith, ltb,
  leb, ◌==◌, if◌then◌else◌, ltb→lt, lt→ltb, leb→le, ==_iff, Bool-cases, Option-cases, length,
  get_elem?, take, replicate, length-append, All, Distinct, All-left, All-right,
}
use mediaroom.Bytes.{Memory}
use mediaroom.View.{Base, get_offset, get_length}
use mediaroom.Extract.{Proto, Outcome, got, left, empty, tcap}

-- A failed assertion, and a walk that has not ended when its fuel is used up.
pub data Walk {ℓ} (A : Type ℓ) : Type ℓ where
  ok : A → Walk A
  crash : Walk A
  endless : Walk A

-- Sccp::getWithOffset
abbrev pub byte_at : Memory → Base → ℕ → ℕ
byte_at m b offset = m (get_offset b + offset)

-- offset += n, on a uint16_t
abbrev pub add16 : ℕ → ℕ → ℕ
add16 offset n = (offset + n) % 65536

-- The loop of gotOptionalParameter: `offset` when the name was P_END.
pub optional_loop : ℕ → Memory → Base → (name offset : ℕ) → Walk ℕ
optional_loop zero m b name offset = endless
optional_loop (suc fuel) m b name offset =
    let value = add16 (add16 offset 1) (byte_at m b offset) in
    let further = optional_loop fuel m b (byte_at m b value) (add16 value 1) in
    if name == 0 then ok (add16 offset 1) else further

-- Nothing of what the walk finds is used.
pub got_optional_parameter : ℕ → Memory → Base → ℕ → Walk Outcome
unfolding optional_loop
got_optional_parameter fuel m b offset =
    elim (optional_loop fuel m b (byte_at m b offset) (add16 offset 1)) [
      | ok end ↦ ok empty
      | crash ↦ crash
      | endless ↦ endless
    ]

-- getSsn: the subsystem number of the address at `p`.
pub get_ssn : Memory → ℕ → ℕ
get_ssn m p =
    let offset = if m p % 2 == 1 then 3 else 1 in if m p / 2 % 2 == 1 then m (p + offset) else 0

-- The macro OPTIONAL_PARAMETER, and the return behind it.
optional_parameter : ℕ → Memory → Base → ℕ → Walk Outcome
unfolding got_optional_parameter
optional_parameter fuel m b offset =
    if byte_at m b offset == 0 then ok empty else got_optional_parameter fuel m b (add16 offset 1)

-- Connection request.
pub extract_cr : ℕ → Memory → Base → Walk Outcome
unfolding got_optional_parameter
extract_cr fuel m b =
    let class = byte_at m b 4 in
    let behind = add16 8 (byte_at m b 7) in
    if class == 2 || class == 3
    then if byte_at m b 5 == 0
      then crash
      else if byte_at m b 6 == 0
      then ok (left b)
      else got_optional_parameter fuel m b behind
    else crash

-- Connection confirm.
pub extract_cc : ℕ → Memory → Base → Walk Outcome
unfolding optional_parameter
extract_cc fuel m b =
    let class = byte_at m b 7 in
    if class == 2 || class == 3 then optional_parameter fuel m b 8 else crash

-- Data form 1: what is read of it changes nothing but a local offset.
pub extract_dt1 : Memory → Base → Walk Outcome
extract_dt1 m b = if byte_at m b 5 == 0 then crash else ok empty

abbrev pub is_extended : ℕ → Bool
is_extended mt = mt == 0x12 || mt == 0x13

-- The mandatory parameters of extract_udt, from the called party address at `called` on: the
-- user data go to TCAP if the calling party has a subsystem number. `pointer` is the one to the
-- optional parameters, none in the forms that have no such.
pub udt_parties : ℕ → Memory → Base → (pointer : Option ℕ) → (called : ℕ) → Walk Outcome
unfolding got_optional_parameter get_ssn
udt_parties fuel m b pointer called =
    let calling = add16 (called + 1) (byte_at m b called) in
    let user = add16 (add16 calling 1) (byte_at m b calling) in
    let payload = add16 user 1 in
    if get_ssn m (get_offset b + add16 calling 1) == 0
    then elim pointer [
      | none ↦ ok (left b)
      | some o ↦
          if o == 0
          then ok (left b)
          else got_optional_parameter fuel m b (add16 payload (byte_at m b user))
    ]
    else ok (got tcap (record b { own = some ((payload + get_offset b) % 65536) }))

-- The assertions on the three mandatory pointers from `ptrs` on.
abbrev pub pointers_set : Memory → Base → ℕ → Bool
pointers_set m b ptrs =
    not (byte_at m b ptrs == 0)
    && (not (byte_at m b (ptrs + 1) == 0) && not (byte_at m b (ptrs + 2) == 0))

-- Unitdata and unitdata service, and their extended forms, which have a hop counter in front of
-- the pointers and a fourth pointer.
pub extract_udt : ℕ → Memory → Base → Walk Outcome
unfolding udt_parties
extract_udt fuel m b =
    if is_extended (byte_at m b 0)
    then if pointers_set m b 3 then udt_parties fuel m b (some (byte_at m b 6)) 7 else crash
    else if pointers_set m b 2
    then udt_parties fuel m b none 5
    else crash

-- The switch on the message type.
pub extract_sccp : ℕ → Memory → Base → Walk Outcome
unfolding optional_parameter extract_cr extract_cc extract_dt1 extract_udt
extract_sccp fuel m b =
    let mt = byte_at m b 0 in
    if mt == 0x01
    then extract_cr fuel m b
    else if mt == 0x02
    then extract_cc fuel m b
    else if mt == 0x03
    then optional_parameter fuel m b 5
    else if mt == 0x04
    then optional_parameter fuel m b 8
    else if mt == 0x06
    then extract_dt1 m b
    else if mt == 0x09 || mt == 0x0a || is_extended mt
    then extract_udt fuel m b
    else ok empty
