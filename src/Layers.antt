-- ===== src/Layers.antt =====
-- src/core/PacketDetails.h: the addresses that a packet's headers carry, each kept as the type of
-- its header and its offset in the packet.
pub mod Encoding
pub mod Push
pub mod Address
pub mod Lookup
pub mod Print
mod Tests
use mediaroom.Prelude.{
  ℕ, ◌+◌, ◌-◌, ◌*◌, ◌/◌, ◌%◌, ◌^◌, Bool, true, false, ◌&&◌, Option, none, some, ltb, leb, ◌==◌,
  if◌then◌else◌,
}

-- `bidir` is `_Bidir`: the types behind it have an address for each direction.
pub data LayerType : Type 0 where
  vlan mpls bidir eth ip4 tcp udp mtp mtp3 sccp isup sctp sctp_chunk m2ua m3ua max_value : LayerType

abbrev pub code : LayerType → ℕ
code LayerType.vlan = 0
code LayerType.mpls = 1
code LayerType.bidir = 2
code LayerType.eth = 3
code LayerType.ip4 = 4
code LayerType.tcp = 5
code LayerType.udp = 6
code LayerType.mtp = 7
code LayerType.mtp3 = 8
code LayerType.sccp = 9
code LayerType.isup = 10
code LayerType.sctp = 11
code LayerType.sctp_chunk = 12
code LayerType.m2ua = 13
code LayerType.m3ua = 14
code LayerType.max_value = 15

-- `getTypeLength`: none where RT_ASSERT(0) stops the program.
abbrev pub type_length : ℕ → Option ℕ
type_length t =
    if t == 0
    then some 2
    else if t == 1
    then some 2
    else if t == 3
    then some 12
    else if t == 4
    then some 8
    else if t == 5
    then some 4
    else if t == 6
    then some 4
    else if t == 7
    then some 4
    else if t == 8
    then some 4
    else if t == 9
    then some 1
    else if t == 11
    then some 4
    else if t == 12
    then some 0
    else if t == 13
    then some 0
    else if t == 14
    then some 0
    else if t == 10
    then some 1
    else none

-- `getTypeMask`
abbrev pub type_mask : ℕ → Option ℕ
type_mask t =
    if t == 0
    then some 0xFF
    else if t == 1
    then some 0xFF
    else if t == 3
    then some 0
    else if t == 4
    then some 0
    else if t == 5
    then some 0
    else if t == 6
    then some 0
    else if t == 11
    then some 0
    else if t == 12
    then some 0
    else if t == 13
    then some 0
    else if t == 14
    then some 0
    else if t == 7
    then some 0x3FFF
    else if t == 8
    then some 0x3FFF
    else if t == 9
    then some 0
    else if t == 10
    then some 0
    else none

-- AddrOffset is the 16 bits of `typeOffset`.
pub get_type : ℕ → ℕ
get_type type_offset = type_offset % 16

pub get_offset : ℕ → ℕ
get_offset type_offset = type_offset / 32

pub get_mix : ℕ → Bool
get_mix type_offset = type_offset / 16 % 2 == 1

pub unset_mix : ℕ → ℕ
unset_mix type_offset = type_offset - 16 * (type_offset / 16 % 2)

abbrev pub to_nat : Bool → ℕ
to_nat true = 1
to_nat false = 0

-- `AddrOffset::set`; none where its assertion fails.
pub encode : LayerType → ℕ → Bool → Option ℕ
encode type offset mix =
    if ltb (code type) 16 && leb offset 0x3FFF
    then some ((offset * 32 + to_nat mix * 16 + code type) % 2 ^ 16)
    else none

-- `layers2Max`, `layers3Max` and `layers4Max`, which `configure` sets for the program.
pub record Limits : Type 0 where
  pub layers2 : ℕ
  pub layers3 : ℕ
  pub layers4 : ℕ

-- PacketDetails; `layers` maps an index to a `typeOffset`.
pub record Details : Type 0 where
  pub flow_hash : ℕ
  pub last_ip_layer : ℕ
  pub last_mtp_layer : ℕ
  pub last_m3ua_layer : ℕ
  pub layers_cnt : ℕ
  pub layers2_cnt : ℕ
  pub layers3_cnt : ℕ
  pub layers4_cnt : ℕ
  pub more2_layers : Bool
  pub more3_layers : Bool
  pub more4_layers : Bool
  pub layers : ℕ → ℕ

-- The mark of a `last…Layer` that is not there.
abbrev pub no_layer : ℕ
no_layer = 0xFF

-- `init`: the array is left as the memory was.
pub init : Details → Details
init d = record d {
  flow_hash = 0;
  last_ip_layer = no_layer;
  last_mtp_layer = no_layer;
  last_m3ua_layer = no_layer;
  layers_cnt = 0;
  layers2_cnt = 0;
  layers3_cnt = 0;
  layers4_cnt = 0;
  more2_layers = false;
  more3_layers = false;
  more4_layers = false;
}

-- calcPacketDetailsSize: sizeof(PacketDetails) and one AddrOffset more for each layer but the
-- first. On size_t, for an int of at least one layer.
pub details_size : ℕ → ℕ
details_size layers = 24 + 2 * (layers - 1)
