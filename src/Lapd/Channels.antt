-- ===== src/Lapd/Channels.antt =====
-- The two directions of a channel, and the formats of a frame.
use mediaroom.Prelude.{
  ℕ, ◌+◌, ◌-◌, ◌*◌, ◌≤◌, ◌<◌, ◌≡◌, ◌≢◌, ◌⊎◌, true, false, arith, leb, if◌then◌else◌,
}
use mediaroom.Lapd.{
  is_i_type, is_s_type, is_u_type, get_stm_e1_id, one_direction, get_hash, get_opc, get_dpc,
  get_cic, get_stm_e1_id_pair, get_stm_e1_id_base, stm_e1_id_to_pc,
}

-- The channel of the same time slot in the other direction.
abbrev pub other_direction : ℕ → ℕ
other_direction chanid =
    if leb one_direction (get_stm_e1_id chanid)
    then chanid - 32 * one_direction
    else chanid + 32 * one_direction

-- The two directions of a time slot have the same hash and CIC, the origin of each is the
-- destination of the other, and the two differ. The channel is one of the two directions: less
-- than 32 times 2016.
pub other_direction-pair :
    (chanid : ℕ)
    → chanid < 32 * (2 * one_direction)
    → let other = other_direction chanid in
      (get_hash other ≡ get_hash chanid)
      × (get_cic other ≡ get_cic chanid)
      × (get_opc other ≡ get_dpc chanid)
      × (get_dpc other ≡ get_opc chanid)
      × (get_opc chanid ≢ get_dpc chanid)
unfolding get_hash get_cic get_opc get_dpc get_stm_e1_id_base get_stm_e1_id_pair stm_e1_id_to_pc
other_direction-pair chanid h =
    (ground arith, ground arith, ground arith, ground arith, λ e. ground arith)

-- The highest channel numbers, from 64512 on, belong to no direction: the destination of such a
-- channel is the origin of one of the second direction, whose own destination is another one.
pub get_dpc_stray :
    (chanid other : ℕ)
    → 32 * (2 * one_direction) ≤ chanid
    → chanid < 65536
    → other < 65536
    → get_opc other ≡ get_dpc chanid
    → get_dpc other ≢ get_opc chanid
unfolding get_opc get_dpc get_stm_e1_id_pair stm_e1_id_to_pc
get_dpc_stray chanid other a b c e f = ground arith

-- A control field has exactly one of the three formats.
pub one_format :
    (octet : ℕ)
    → ((is_i_type octet ≡ true) × (is_s_type octet ≡ false) × (is_u_type octet ≡ false))
      ⊎ (((is_i_type octet ≡ false) × (is_s_type octet ≡ true) × (is_u_type octet ≡ false))
          ⊎ ((is_i_type octet ≡ false) × (is_s_type octet ≡ false) × (is_u_type octet ≡ true)))
unfolding is_i_type is_s_type is_u_type
one_format octet = ground arith
