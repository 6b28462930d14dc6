-- ===== src/Extract.antt =====
-- The extractors of lib/libstack that look at one header and hand the packet on: ExtractorEth,
-- ExtractorIp4, and in ss7 ExtractorMtp and ExtractorSctp. The class that inherits them is a
-- parameter: it answers which tags to skip, and gets the packets that are handed out.
pub mod Labels
pub mod Tags
pub mod Ends
mod Tests
use mediaroom.Prelude.{
  ℕ, zero, suc, ◌+◌, ◌-◌, ◌*◌, ◌/◌, ◌%◌, ◌^◌, ◌≤◌, ◌<◌, ◌≡◌, ◌≢◌, refl, sym, ap, ◌∙◌, ◌↔◌, ◌⊎◌, inl,
  inr, Bool, true, false, not, ◌&&◌, ◌||◌, Option, none, some, List, [], ◌∷◌, ◌++◌, map, arith, ltb,
  leb, ◌==◌, if◌then◌else◌, ltb→lt, lt→ltb, leb→le, ==_iff, Bool-cases, Option-cases, length,
  get_elem?, take, replicate, length-append, All, Distinct, All-left, All-right,
}
use mediaroom.Bytes.{Memory, load16, load32}
use mediaroom.View.{Base, get_offset, get_length, Layer, enter, make, hdr, full_size, rebase}

pub data Proto : Type 0 where
  eth ip4 tcp udp sctp isup sccp m2ua m3ua tcap : Proto

-- A packet is handed to the function of the protocol, or returned with no new header found, or
-- an empty PktOffset is returned.
pub data Outcome : Type 0 where
  got : Proto → Base → Outcome
  left : Base → Outcome
  empty : Outcome

-- skipVlan and skipMpls of the inheriting class, by the position of the tag's header.
pub record Parent : Type 0 where
  pub skip_vlan : ℕ → Bool
  pub skip_mpls : ℕ → Bool

-- LS_ntohs of the 16 bits at `p`
abbrev pub ntohs : Memory → ℕ → ℕ
ntohs m p = 256 * m p + m (p + 1)

-- An Ip4 on a layer: its getLength is the total length that its own header claims.
abbrev pub make_ip4 : Memory → Layer → Layer
make_ip4 m l =
    let at = get_offset l.base + full_size l in
    record l { below = full_size l; size = 4 * (m at % 16); len = ntohs m (at + 2) }

-- The numbers of the types, in the byte order in which they are read.
abbrev pub type_ip4 : ℕ
type_ip4 = 0x0008

abbrev pub type_vlan : ℕ
type_vlan = 0x0081

abbrev pub type_qinq : ℕ
type_qinq = 0xA888

abbrev pub type_mpls_u : ℕ
type_mpls_u = 0x4788

abbrev pub type_mpls_m : ℕ
type_mpls_m = 0x4888

-- MplsHdr::getBs
abbrev pub get_bs : Memory → ℕ → ℕ
get_bs m p = m (p + 2) % 2

-- One level of extractMpls: `more` is what it does at a label that is not the last.
pub mpls_level : Parent → Memory → (more : Layer → Outcome) → Layer → Outcome
mpls_level parent m more mpls =
    if parent.skip_mpls (hdr mpls)
    then if get_bs m (hdr mpls) == 1 then got ip4 (rebase (make_ip4 m mpls)) else more mpls
    else left mpls.base

-- The third level: what is behind a label that is not the last is taken for Ethernet.
pub extract_mpls3 : Parent → Memory → Layer → Outcome
unfolding mpls_level
extract_mpls3 parent m = mpls_level parent m (λ mpls3. got eth (rebase (make mpls3 14)))

pub extract_mpls2 : Parent → Memory → Layer → Outcome
unfolding mpls_level extract_mpls3
extract_mpls2 parent m = mpls_level parent m (λ mpls2. extract_mpls3 parent m (make mpls2 4))

pub extract_mpls : Parent → Memory → Layer → Outcome
unfolding mpls_level extract_mpls2
extract_mpls parent m = mpls_level parent m (λ mpls1. extract_mpls2 parent m (make mpls1 4))

-- The inner switch of extractEth, on the second tag.
pub extract_vlan2 : Parent → Memory → Layer → Outcome
unfolding extract_mpls
extract_vlan2 parent m vlan2 =
    let tpid = load16 m (hdr vlan2 + 2) in
    if parent.skip_vlan (hdr vlan2)
    then if tpid == type_ip4
      then got ip4 (rebase (make_ip4 m vlan2))
      else if tpid == type_mpls_u || tpid == type_mpls_m
      then extract_mpls parent m (make vlan2 4)
      else left vlan2.base
    else left vlan2.base

-- The switch on the first tag.
pub extract_vlan1 : Parent → Memory → Layer → Outcome
unfolding extract_mpls extract_vlan2
extract_vlan1 parent m vlan1 =
    let tpid = load16 m (hdr vlan1 + 2) in
    if parent.skip_vlan (hdr vlan1)
    then if tpid == type_ip4
      then got ip4 (rebase (make_ip4 m vlan1))
      else if tpid == type_vlan
      then extract_vlan2 parent m (make vlan1 4)
      else if tpid == type_mpls_u || tpid == type_mpls_m
      then extract_mpls parent m (make vlan1 4)
      else left vlan1.base
    else left vlan1.base

pub extract_eth : Parent → Memory → Base → Outcome
unfolding extract_mpls extract_vlan1
extract_eth parent m b =
    let eth_layer = enter b 14 in
    let type = load16 m (hdr eth_layer + 12) in
    if type == type_ip4
    then got ip4 (rebase (make_ip4 m eth_layer))
    else if type == type_vlan || type == type_qinq
    then extract_vlan1 parent m (make eth_layer 4)
    else if type == type_mpls_u || type == type_mpls_m
    then extract_mpls parent m (make eth_layer 4)
    else left b

-- An Ip4 on a pointer. Its layers on top inherit its getLength.
abbrev pub enter_ip4 : Memory → Base → Layer
enter_ip4 m b = record {
  base = b;
  below = 0;
  size = 4 * (m (get_offset b) % 16);
  len = ntohs m (get_offset b + 2);
}

-- The lengths that are compared are both the one of the header.
pub extract_ip4 : Memory → Base → Outcome
extract_ip4 m b =
    let ip = enter_ip4 m b in
    let protocol = m (hdr ip + 9) in
    if leb ip.size ip.len && leb (ntohs m (hdr ip + 2)) ip.len
    then if protocol == 0x85
      then got ip4 (rebase (make_ip4 m ip))
      else if protocol == 0x06
      then got tcp (rebase (make ip (4 * (m (hdr ip + full_size ip + 12) / 16))))
      else if protocol == 0x11
      then got udp (rebase (make ip 8))
      else if protocol == 0x84
      then got sctp (rebase (make ip 12))
      else left b
    else left b

-- The service indicator of an SIO.
abbrev pub service : Memory → ℕ → ℕ
service m p = m p % 16

-- An SCCP in an MTP is returned and not handed out.
pub extract_mtp : Memory → Base → Outcome
extract_mtp m b =
    let mtp = enter b 8 in
    if service m (hdr mtp + 3) == 5 then got isup (rebase (make mtp 2)) else left b

pub extract_mtp3 : Memory → Base → Outcome
extract_mtp3 m b =
    let mtp3 = enter b 5 in
    if service m (hdr mtp3) == 5
    then got isup (rebase (make mtp3 2))
    else if service m (hdr mtp3) == 3
    then got sccp (rebase (make mtp3 1))
    else left b

-- A data chunk of another protocol has been moved into `chunkData` when it is returned, and is
-- empty then: the packet goes with `chunkData`.
pub extract_sctp_chunk : Memory → Base → Outcome
extract_sctp_chunk m b =
    let chunk = enter b (ntohs m (get_offset b + 2)) in
    let chunk_data = enter b 16 in
    let proto = load32 m (hdr chunk_data + 12) in
    if ltb chunk.len chunk.size
    then left b
    else if m (hdr chunk) == 0
    then if proto == 0x02000000
      then got m2ua (rebase (make chunk_data 12))
      else if proto == 0x03000000
      then got m3ua (rebase (make chunk_data (ntohs m (hdr chunk_data + 22) % 65536)))
      else empty
    else empty
