-- ===== src/Extract/Ends.antt =====
-- What the extractors of IPv4 and of SCTP chunks hand out, and where it ends.
use mediaroom.Prelude.{
  ℕ, ◌+◌, ◌-◌, ◌*◌, ◌%◌, ◌≤◌, ◌<◌, ◌≡◌, sym, Option, none, some, List, ◌∷◌, ◌++◌, arith, ltb, ◌==◌,
  if◌then◌else◌, length, Bool-cases, ◌/◌, ◌^◌, ap, ◌∙◌, refl, false, true, inl, inr,
}
use mathlib.Core.Path.{subst}
use mediaroom.Bytes.{Memory, load16, load32, HasBytes, HasBytes-right}
use mediaroom.View.{Base, get_offset, get_length, new_base, enter, make, rebase}
use mediaroom.View.Moves.{IsBase, Shows, new_base-Shows}
use mediaroom.Extract.{
  Proto, Outcome, got, empty, tcp, udp, sctp, m2ua, m3ua, ntohs, extract_ip4, extract_sctp_chunk,
}

-- An SCTP data chunk (RFC 4960, 3.3.1), all numbers in network byte order. `order` is its
-- transmission sequence number, stream identifier and stream sequence number.
pub record DataChunk : Type 0 where
  pub flags : ℕ
  pub order : List ℕ
  pub protocol : ℕ
  pub user : List ℕ

-- The fields have their sizes.
pub record IsDataChunk (c : DataChunk) : Type 0 where
  pub eight : length c.order ≡ 8
  pub four : c.protocol < 2 ^ 32

abbrev pub encode_chunk : DataChunk → List ℕ
encode_chunk c =
    0 ∷ c.flags ∷ (16 + length c.user) / 256 ∷ (16 + length c.user) % 256 ∷ c.order
    ++ (c.protocol / 2 ^ 24
        ∷ c.protocol / 2 ^ 16 % 256
        ∷ c.protocol / 256 % 256
        ∷ c.protocol % 256
        ∷ c.user)

-- The payload protocols that are known.
abbrev pub payload_protocol : ℕ → Option Proto
payload_protocol n = if n == 2 then some m2ua else if n == 3 then some m3ua else none

-- The user data are handed to the protocol, with the rest of the packet's length; those of a
-- protocol that is not known are gone.
abbrev pub Handed : Memory → Base → List ℕ → Option Proto → Outcome → Type 0
Handed m b user none o = o ≡ empty
Handed m b user (some p) o =
    (b' : Base) × (o ≡ got p b')
    × Shows b' (get_offset b + 16) (get_length b - 16)
    × HasBytes m (get_offset b') user

-- The protocols that extractIp4 hands out.
abbrev pub transport : ℕ → Option Proto
transport n =
    if n == 0x06
    then some tcp
    else if n == 0x11
    then some udp
    else if n == 0x84
    then some sctp
    else none

-- extractIp4 believes the header: what it hands out to TCP, UDP and SCTP ends where the total
-- length of the header says, also where that is behind the end of the packet.
pub extract_ip4-believes :
    (m : Memory) (b : Base) (p : Proto)
    → transport (m (get_offset b + 9)) ≡ some p
    → b.own ≡ none
    → 4 * (m (get_offset b) % 16) ≤ ntohs m (get_offset b + 2)
    → get_offset b + ntohs m (get_offset b + 2) < 65536
    → (b' : Base) × (extract_ip4 m b ≡ got p b')
      × (get_offset b' ≡ get_offset b + 4 * (m (get_offset b) % 16))
      × (get_offset b' + get_length b' ≡ get_offset b + ntohs m (get_offset b + 2))
unfolding extract_ip4 rebase new_base
extract_ip4-believes m b p t pointer h inside =
    let s : ℕ = 4 * (m (get_offset b) % 16) in
    let b' = new_base b (ntohs m (get_offset b + 2) + 65536 - s) (get_offset b + s) in
    (b', ground arith, ground arith, ground arith)

rebase-Handed :
    (m : Memory) (b : Base) (p : Proto) (size : ℕ) (user : List ℕ)
    → IsBase b
    → 16 ≤ get_length b
    → get_offset b + 16 < 65536
    → HasBytes m (get_offset b + 16) user
    → Handed m b user (some p) (got p (rebase (make (enter b 16) size)))
unfolding rebase
rebase-Handed m b p size user base fits inside has =
    let (at, rest) = new_base-Shows b 16 base inside fits in
    (_, refl, (at, rest), subst (λ q. HasBytes m q user) (sym at) has)

-- The protocol number is compared with constants in the byte order in which it is read.
load32_protocol :
    (m : Memory) (p n : ℕ)
    → n < 2 ^ 32
    → m p ≡ n / 2 ^ 24
    → m (p + 1) ≡ n / 2 ^ 16 % 256
    → m (p + 2) ≡ n / 256 % 256
    → m (p + 3) ≡ n % 256
    → ((load32 m p == 0x02000000) ≡ (n == 2)) × ((load32 m p == 0x03000000) ≡ (n == 3))
unfolding load32 load16
load32_protocol m p n small e f g h = (ground arith, ground arith)

-- A data chunk of SCTP whose claimed length is right and within the packet: extractSctpChunk hands
-- M2UA or M3UA a pointer to the user data, by the protocol number 2 or 3 of the chunk. It has the
-- rest of the packet's length and not of the chunk's. With any other number the packet is neither
-- handed on nor returned. The chunk's start is one of a packet, and the user data begin below
-- byte `2 ^ 16`.
pub extract_sctp_chunk-encode_chunk :
    (m : Memory) (b : Base) (c : DataChunk)
    → IsDataChunk c
    → HasBytes m (get_offset b) (encode_chunk c)
    → IsBase b
    → 16 + length c.user ≤ get_length b
    → get_offset b + 16 < 65536
    → Handed m b c.user (payload_protocol c.protocol) (extract_sctp_chunk m b)
unfolding extract_sctp_chunk
extract_sctp_chunk-encode_chunk m b c is (kind, (_, (l1, (l0, has)))) base fits inside =
    let at : ℕ = get_offset b in
    let (e, (f, (g, (h, user)))) = HasBytes-right m (at + 1 + 1 + 1 + 1) c.order _ has in
    let (m2, m3) =
      load32_protocol m (at + 0 + 12) c.protocol is.four (ap m (omega (arith, is.eight)) ∙ e)
        (ap m (omega (arith, is.eight)) ∙ f) (ap m (omega (arith, is.eight)) ∙ g)
        (ap m (omega (arith, is.eight)) ∙ h) in
    let behind : HasBytes m (at + 16) c.user =
      subst (λ q. HasBytes m q c.user) (omega (arith, is.eight)) user in
    let l1' : m (at + 2) ≡ (16 + length c.user) / 256 = ap m (omega arith) ∙ l1 in
    let l0' : m (at + 2 + 1) ≡ (16 + length c.user) % 256 = ap m (omega arith) ∙ l0 in
    let whole : ltb (get_length b) (ntohs m (at + 2)) ≡ false = ground arith in
    let data_type : (m (at + 0) == 0) ≡ true = ground arith in
    let give =
      λ (p : Proto) (s : ℕ). rebase-Handed m b p s c.user base (omega arith) inside behind in
    elim (Bool-cases (c.protocol == 2)) [
      | inl two ↦ rw (whole, data_type, m2, two) (give m2ua 12)
      | inr not_two ↦ elim (Bool-cases (c.protocol == 3)) [
        | inl three ↦ rw (whole, data_type, m2, m3, not_two, three) (give m3ua _)
        | inr other ↦ rw (whole, data_type, m2, m3, not_two, other) refl
      ]
    ]
