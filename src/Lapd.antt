-- ===== src/Lapd.antt =====
-- lib/libstack/ss7/Lapd.h: the address and control fields of a LAPD header, and the point codes
-- that stand for the channel of a packet.
pub mod Channels
mod Tests
use mediaroom.Prelude.{
  ℕ, zero, suc, ◌+◌, ◌-◌, ◌*◌, ◌/◌, ◌%◌, ◌^◌, ◌≤◌, ◌<◌, ◌≡◌, ◌≢◌, refl, sym, ap, ◌∙◌, ◌↔◌, ◌⊎◌, inl,
  inr, Bool, true, false, not, ◌&&◌, ◌||◌, Option, none, some, List, [], ◌∷◌, ◌++◌, map, arith, ltb,
  leb, ◌==◌, if◌then◌else◌, ltb→lt, lt→ltb, leb→le, ==_iff, Bool-cases, Option-cases, length,
  get_elem?, take, replicate, length-append, All, Distinct, All-left, All-right,
}
use mediaroom.Bytes.{Memory}

-- address_t: the fields of its two octets.
pub sapi : ℕ → ℕ
sapi octet1 = octet1 / 4

pub tei : ℕ → ℕ
tei octet2 = octet2 / 2

pub is_q931 : ℕ → Bool
unfolding sapi
is_q931 octet1 = sapi octet1 == 0

pub is_x25 : ℕ → Bool
unfolding sapi
is_x25 octet1 = sapi octet1 == 16

-- control_t: the first octet tells the format.
abbrev pub bit1 : ℕ → ℕ
bit1 octet = octet % 2

abbrev pub bit2 : ℕ → ℕ
bit2 octet = octet / 2 % 2

pub is_i_type : ℕ → Bool
is_i_type octet = bit1 octet == 0

pub is_s_type : ℕ → Bool
is_s_type octet = bit1 octet == 1 && bit2 octet == 0

pub is_u_type : ℕ → Bool
is_u_type octet = bit1 octet == 1 && bit2 octet == 1

-- The channel of a packet: the number of an E1 in an STM, and a time slot.
abbrev pub get_stm_e1_id : ℕ → ℕ
get_stm_e1_id chanid = chanid / 32

abbrev pub get_ts : ℕ → ℕ
get_ts chanid = chanid % 32

-- 16 STMs of 63 E1s in each of the two directions
abbrev pub one_direction : ℕ
one_direction = 16 * 63

pub get_stm_e1_id_base : ℕ → ℕ
get_stm_e1_id_base chanid =
    let id = get_stm_e1_id chanid in if leb one_direction id then id - one_direction else id

pub get_stm_e1_id_pair : ℕ → ℕ
get_stm_e1_id_pair chanid =
    let id = get_stm_e1_id chanid in
    if leb one_direction id then id - one_direction else id + one_direction

-- stmE1Id | 0x4000: the bit is set where it is not.
pub stm_e1_id_to_pc : ℕ → ℕ
stm_e1_id_to_pc id = if id / 0x4000 % 2 == 1 then id else id + 0x4000

pub get_hash : ℕ → ℕ
unfolding get_stm_e1_id_base
get_hash chanid = get_stm_e1_id_base chanid

pub get_opc : ℕ → ℕ
unfolding stm_e1_id_to_pc
get_opc chanid = stm_e1_id_to_pc (get_stm_e1_id chanid)

pub get_dpc : ℕ → ℕ
unfolding stm_e1_id_to_pc get_stm_e1_id_pair
get_dpc chanid = stm_e1_id_to_pc (get_stm_e1_id_pair chanid)

pub get_cic : ℕ → ℕ
get_cic chanid = get_ts chanid
