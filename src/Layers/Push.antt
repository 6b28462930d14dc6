-- ===== src/Layers/Push.antt =====
-- PacketDetails: the push functions, one for each header. A header is given by the bytes of the
-- packet (`data()` is offset 0) and the offset at which it stands. The result is none where an
-- assertion of AddrOffset::set fails, or where `layers[layersCnt - 1]` lies before the array.
pub mod Counts
pub mod Hash
pub mod Uncounted
use mediaroom.Prelude.{
  ℕ, ◌+◌, ◌-◌, ◌*◌, ◌/◌, ◌%◌, ◌^◌, Bool, true, false, not, Option, none, some, List, [], ◌∷◌, ltb,
  leb, ◌==◌, if◌then◌else◌,
}
use mediaroom.Bytes.{Memory, load16, load32}
use mediaroom.Layers.{LayerType, Details, Limits, encode}

abbrev pub add8 : ℕ → ℕ
add8 n = (n + 1) % 256

-- flowHash += v
abbrev pub hash : ℕ → Details → Details
hash v d = record d { flow_hash = (d.flow_hash + v) % 2 ^ 64 }

abbrev pub set_layer : (ℕ → ℕ) → ℕ → ℕ → ℕ → ℕ
set_layer layers i v j = if i == j then v else layers j

-- layers[layersCnt++].set(type, (uint16_t)offset, mix)
unfoldable pub append_layer : LayerType → ℕ → Bool → Details → Option Details
append_layer type offset mix d = elim (encode type (offset % 2 ^ 16) mix) [
  | none ↦ none
  | some v ↦
      some (record d { layers = set_layer d.layers d.layers_cnt v; layers_cnt = add8 d.layers_cnt })
]

-- layers[layersCnt - 1].set(type, (uint16_t)offset, false)
unfoldable pub replace_layer : LayerType → ℕ → Details → Option Details
replace_layer type offset d = elim (encode type (offset % 2 ^ 16) false) [
  | none ↦ none
  | some v ↦
      if d.layers_cnt == 0
      then none
      else some (record d { layers = set_layer d.layers (d.layers_cnt - 1) v })
]

abbrev count2 : Option Details → Option Details
count2 none = none
count2 (some d) = some (record d { layers2_cnt = add8 d.layers2_cnt })

abbrev count3 : Option Details → Option Details
count3 none = none
count3 (some d) = some (record d { layers3_cnt = add8 d.layers3_cnt })

abbrev count4 : Option Details → Option Details
count4 none = none
count4 (some d) = some (record d { layers4_cnt = add8 d.layers4_cnt })

abbrev more2 : Details → Details
more2 d = record d { more2_layers = true }

abbrev more3 : Option Details → Option Details
more3 none = none
more3 (some d) = some (record d { more3_layers = true })

abbrev more4 : Option Details → Option Details
more4 none = none
more4 (some d) = some (record d { more4_layers = true })

-- *((uint32_t*)p) + *((uint16_t*)p + 2), of six bytes: a sum of 32 bits
abbrev pub mac_hash : Memory → ℕ → ℕ
mac_hash packet p = (load32 packet p + load16 packet (p + 4)) % 2 ^ 32

-- The bit fields of routing_label_t: dpc, then opc, 14 bits each.
abbrev pub dpc : ℕ → ℕ
dpc rl = rl % 2 ^ 14

abbrev pub opc : ℕ → ℕ
opc rl = rl / 2 ^ 14 % 2 ^ 14

module _ (limits : Limits) (packet : Memory) where
  -- EthHdr: `dest` at 0, `source` at 6
  pub push_eth : ℕ → Bool → Details → Option Details
  push_eth o mix d =
      if not (d.layers2_cnt == limits.layers2)
      then (let hashed = hash (mac_hash packet o) (hash (mac_hash packet (o + 6)) d) in
          count2 (append_layer LayerType.eth (o + 6) mix (if mix then d else hashed)))
      else some (more2 d)

  -- The body that pushMtp and pushMtp3 share; `rl` is the offset of the routing label.
  unfoldable pub push_rl : LayerType → ℕ → Details → Option Details
  push_rl type rl d =
      let label = load32 packet rl in
      let e = record (hash (dpc label) (hash (opc label) d)) { last_mtp_layer = d.layers_cnt } in
      if not (d.layers3_cnt == limits.layers3)
      then count3 (append_layer type rl false e)
      else more3 (replace_layer type rl e)

  -- MtpHdr: the routing label at 4
  unfoldable pub push_mtp : ℕ → Details → Option Details
  unfolding push_rl
  push_mtp o d = push_rl LayerType.mtp (o + 4) d

  -- Mtp3Hdr: the routing label at 1
  pub push_mtp3 : ℕ → Details → Option Details
  unfolding push_rl
  push_mtp3 o d = push_rl LayerType.mtp3 (o + 1) d

  -- VlanHdr: `tci` at 0
  pub push_vlan : ℕ → Bool → Details → Option Details
  push_vlan o mix d =
      if not (d.layers2_cnt == limits.layers2)
      then (let hashed = hash (load16 packet o) (hash (load16 packet o) d) in
          count2 (append_layer LayerType.vlan o mix (if mix then d else hashed)))
      else some (more2 d)

  -- MplsHdr::getLabel: 16 bits, and 4 of the third byte
  abbrev pub mpls_label : ℕ → ℕ
  mpls_label o = load16 packet o + load32 packet o / 2 ^ 20 % 16 * 2 ^ 16

  pub push_mpls : ℕ → Bool → Details → Option Details
  push_mpls o mix d =
      if not (d.layers2_cnt == limits.layers2)
      then (let hashed = hash (mpls_label o) (hash (mpls_label o) d) in
          count2 (append_layer LayerType.mpls o mix (if mix then d else hashed)))
      else some (more2 d)

  -- Ip4Hdr: `srcaddr` at 12, `dstaddr` at 16
  unfoldable pub push_ip4 : ℕ → Bool → Details → Option Details
  push_ip4 o mix d =
      let hashed = hash (load32 packet (o + 16)) (hash (load32 packet (o + 12)) d) in
      if not (d.layers3_cnt == limits.layers3)
      then (let e = if mix then d else hashed in
          count3
            (append_layer LayerType.ip4 (o + 12) mix (record e { last_ip_layer = d.layers_cnt })))
      else more3 (replace_layer LayerType.ip4 (o + 12) hashed)

  -- IsupHdr: `cic`, of 12 bits
  pub push_isup : ℕ → Details → Option Details
  push_isup o d =
      let hashed = hash (load16 packet o % 2 ^ 12) d in
      if not (d.layers4_cnt == limits.layers4)
      then count4 (append_layer LayerType.isup o false hashed)
      else more4 (replace_layer LayerType.isup o hashed)

  -- The body that pushTcp, pushUdp and pushSctp share: the source port at 0, the other at 2.
  push_ports : LayerType → ℕ → Details → Option Details
  push_ports type o d =
      let hashed = hash (load16 packet (o + 2)) (hash (load16 packet o) d) in
      if not (d.layers4_cnt == limits.layers4)
      then count4 (append_layer type o false hashed)
      else more4 (replace_layer type o hashed)

  pub push_tcp : ℕ → Details → Option Details
  unfolding push_ports
  push_tcp o d = push_ports LayerType.tcp o d

  pub push_udp : ℕ → Details → Option Details
  unfolding push_ports
  push_udp o d = push_ports LayerType.udp o d

  pub push_sctp : ℕ → Details → Option Details
  unfolding push_ports
  push_sctp o d = push_ports LayerType.sctp o d

  -- These two do not count their layer.
  pub push_sctp_chunk : ℕ → Details → Option Details
  push_sctp_chunk o d =
      if not (d.layers4_cnt == limits.layers4)
      then append_layer LayerType.sctp_chunk o false d
      else some d

  pub push_m2ua : ℕ → Details → Option Details
  push_m2ua o d =
      if not (d.layers4_cnt == limits.layers4)
      then append_layer LayerType.m2ua o false d
      else some d

  -- `base` is where getWithOffset counts from, `o` where the header stands.
  pub push_m3ua : ℕ → ℕ → ℕ → Details → Option Details
  push_m3ua base o opc_offset d =
      let hashed =
        hash (load32 packet (base + (opc_offset + 4) % 2 ^ 16))
          (hash (load32 packet (base + opc_offset)) d) in
      let e = record (if opc_offset == 0 then d else hashed) { last_m3ua_layer = d.layers_cnt } in
      if not (d.layers4_cnt == limits.layers4)
      then count4 (append_layer LayerType.m3ua (o + opc_offset) false e)
      else some e

-- A header of a packet with its offset, and what its push function takes beside.
pub data Header : Type 0 where
  eth vlan mpls ip4 : ℕ → Bool → Header
  mtp mtp3 isup tcp udp sctp sctp_chunk m2ua : ℕ → Header
  m3ua : ℕ → ℕ → ℕ → Header

-- What holds of each header of a packet.
abbrev pub Every : (Header → Type 0) → List Header → Type 0
Every P [] = Unit {0}
Every P (h ∷ hs) = P h × Every P hs

-- The functions, called by the headers of a packet in turn.
pub push : Limits → Memory → Header → Details → Option Details
unfolding push_eth push_vlan push_mpls push_ip4 push_mtp push_mtp3 push_isup push_tcp push_udp
    push_sctp push_sctp_chunk push_m2ua push_m3ua
push l p (Header.eth o mix) d = push_eth l p o mix d
push l p (Header.vlan o mix) d = push_vlan l p o mix d
push l p (Header.mpls o mix) d = push_mpls l p o mix d
push l p (Header.ip4 o mix) d = push_ip4 l p o mix d
push l p (Header.mtp o) d = push_mtp l p o d
push l p (Header.mtp3 o) d = push_mtp3 l p o d
push l p (Header.isup o) d = push_isup l p o d
push l p (Header.tcp o) d = push_tcp l p o d
push l p (Header.udp o) d = push_udp l p o d
push l p (Header.sctp o) d = push_sctp l p o d
push l p (Header.sctp_chunk o) d = push_sctp_chunk l p o d
push l p (Header.m2ua o) d = push_m2ua l p o d
push l p (Header.m3ua base o opc) d = push_m3ua l p base o opc d

pub push_all : Limits → Memory → List Header → Details → Option Details
push_all l p [] d = some d
push_all l p (h ∷ hs) d = elim (push l p h d) [ none ↦ none | some d' ↦ push_all l p hs d' ]
