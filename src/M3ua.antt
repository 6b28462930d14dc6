-- ===== src/M3ua.antt =====
-- lib/libstack/ss7/ExtractorM3ua.h: the search for the protocol data among the parameters of an
-- M3UA message.
pub mod Parameters
mod Tests
use mediaroom.Prelude.{
  ℕ, zero, suc, ◌+◌, ◌-◌, ◌*◌, ◌/◌, ◌%◌, ◌^◌, ◌≤◌, ◌<◌, ◌≡◌, ◌≢◌, refl, sym, ap, ◌∙◌, ◌↔◌, ◌⊎◌, inl,
  inr, Bool, true, false, not, ◌&&◌, ◌||◌, Option, none, some, List, [], ◌∷◌, ◌++◌, map, arith, ltb,
  leb, ◌==◌, if◌then◌else◌, ltb→lt, lt→ltb, leb→le, ==_iff, Bool-cases, Option-cases, length,
  get_elem?, take, replicate, length-append, All, Distinct, All-left, All-right,
}
use mediaroom.Bytes.{Memory}
use mediaroom.View.{Base, get_offset}
use mediaroom.Extract.{Outcome, got, left, empty, sccp, ntohs}
use mediaroom.Sccp.{Walk, ok, crash, endless, add16}

-- M3ua::size: the length that the header claims, as a uint16_t.
abbrev pub m3ua_size : Memory → Base → ℕ
m3ua_size m b = ntohs m (get_offset b + 6) % 65536

-- The case PDATA: the argument of pushM3ua, and what is returned. An ISUP is not handed out.
pub protocol_data : Memory → Base → (offset : ℕ) → ℕ × Outcome
protocol_data m b offset = (
  add16 offset 4,
  if m (get_offset b + offset + 12) == 3
      then got sccp (record b { own = some ((add16 offset 16 + get_offset b) % 65536) })
      else empty,
)

-- The loop over the parameters, from `offset` on: none where it ends without protocol data.
pub m3ua_loop : ℕ → Memory → Base → (size offset : ℕ) → Walk (Option (ℕ × Outcome))
unfolding protocol_data
m3ua_loop zero m b size offset = endless
m3ua_loop (suc fuel) m b size offset =
    let further = m3ua_loop fuel m b size (add16 offset (ntohs m (get_offset b + offset + 2))) in
    if leb offset size
    then if ntohs m (get_offset b + offset) == 0x0210
      then ok (some (protocol_data m b offset))
      else further
    else ok none

-- The argument of the call of pushM3ua, and what is returned.
pub extract_m3ua : ℕ → Memory → Base → Walk (ℕ × Outcome)
unfolding m3ua_loop
extract_m3ua fuel m b =
    if ltb 8 (m3ua_size m b)
    then elim (m3ua_loop fuel m b (m3ua_size m b) 8) [
      | ok none ↦ ok (0, left b)
      | ok (some found) ↦ ok found
      | crash ↦ crash
      | endless ↦ endless
    ]
    else ok (0, left b)
