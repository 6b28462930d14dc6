-- ===== src/Layers/Print.antt =====
-- PacketDetails: printSrcAddr, printDstAddr and printSlsCic, the text of the address of the last
-- layers. A result of none is a read behind the array of layers, or behind the buffer.
pub mod Numbers
pub mod Reading
pub mod Room
pub mod Steps
mod Tests
use mediaroom.Prelude.{
  ℕ, zero, suc, ◌+◌, ◌-◌, ◌*◌, ◌/◌, ◌%◌, ◌^◌, ◌≤◌, ◌<◌, ◌≡◌, ◌≢◌, refl, ap, ◌∙◌, Bool, true, false,
  ◌||◌, Option, none, some, List, [], ◌∷◌, ◌++◌, ltb, ◌==◌, if◌then◌else◌, length, take, arith,
}
use mediaroom.Bytes.{Memory, load16, load32}
use mediaroom.Layers.{Details, no_layer, get_type, get_offset}

-- AddrBuffer with the `length` of the function: `text` is what stands in front of the end.
pub record Buffer : Type 0 where
  pub text : List ℕ
  pub length : ℕ

-- AddrBuffer::Size
abbrev pub buffer_size : ℕ
buffer_size = 64

-- The digits that %d and %u write for a number below 10 ^ fuel.
unfoldable pub digits : ℕ → ℕ → List ℕ
digits zero n = []
digits (suc fuel) n =
    let front = digits fuel (n / 10) in
    if ltb n 10 then (48 + n) ∷ [] else front ++ ((48 + n % 10) ∷ [])

-- Ten digits are enough for 32 bits.
abbrev pub decimal : ℕ → List ℕ
decimal n = digits 10 n

-- length += snprintf(buffer + length, Size - length, ...), where `s` is the whole text: the last
-- place is for the end, and a size below 0 is a huge one.
unfoldable pub append : Buffer → List ℕ → Option Buffer
append b s =
    if ltb b.length buffer_size
    then some (record {
      text = b.text ++ take (buffer_size - 1 - b.length) s;
      length = b.length + length s;
    })
    else if b.length == buffer_size
    then some (record b { length = b.length + length s })
    else none

-- The layers that were found; sccpLayer and ip6Layer are never read.
pub record Parts : Type 0 where
  pub tcp_layer : ℕ
  pub ip4_layer : ℕ
  pub mtp_layer : ℕ
  pub m3ua_layer : ℕ
  pub isup_layer : ℕ
  pub layer : ℕ

-- --layer, of 8 bits
abbrev pub lower : ℕ → ℕ
lower layer = (layer + 255) % 256

abbrev pub parts_at : ℕ → Parts
parts_at layer = record {
  tcp_layer = no_layer;
  ip4_layer = no_layer;
  mtp_layer = no_layer;
  m3ua_layer = no_layer;
  isup_layer = no_layer;
  layer = layer;
}

-- The tests of the last layer, by its type.
abbrev pub last_part : ℕ → Parts → Parts
last_part type p =
    if (type == 5) || (type == 6)
    then record p { tcp_layer = p.layer; layer = lower p.layer }
    else if type == 10
    then record p { isup_layer = p.layer; layer = lower p.layer }
    else p

-- The tests of the layer below, by its type.
abbrev pub next_part : ℕ → Parts → Parts
next_part type p =
    if type == 4
    then record p { ip4_layer = p.layer; layer = lower p.layer }
    else if type == 9
    then record p { layer = lower p.layer }
    else if type == 7
    then record p { mtp_layer = p.layer }
    else if type == 14
    then record p { m3ua_layer = p.layer; layer = lower p.layer }
    else p

-- if (layer != 0xFF) { type = layers[layer].getType(); ... }
abbrev pub next_parts : Details → Parts → Parts
next_parts d p = if p.layer == no_layer then p else next_part (get_type (d.layers p.layer)) p

unfoldable pub find_parts : Details → ℕ → Parts
find_parts d layer = next_parts d (last_part (get_type (d.layers layer)) (parts_at layer))

-- packetData + layers[layer].getOffset()
abbrev pub place : Details → ℕ → ℕ
place d layer = get_offset (d.layers layer)

-- The four parts of the ip, by the masks and shifts of the source.
abbrev pub ip_text : ℕ → List ℕ
ip_text ip =
    decimal (ip % 2 ^ 8)
    ++ (b'.'
        ∷ (decimal (ip % 2 ^ 16 / 2 ^ 8)
            ++ (b'.'
                ∷ (decimal (ip % 2 ^ 24 / 2 ^ 16) ++ (b'.' ∷ decimal (ip % 2 ^ 32 / 2 ^ 24))))))

-- LS_ntohs
abbrev pub swap16 : ℕ → ℕ
swap16 v = v % 256 * 256 + v / 256 % 256

abbrev pub port_text : ℕ → List ℕ
port_text port = b':' ∷ decimal (swap16 port)

-- The fields of routing_label_t and of cic_t
abbrev pub dpc : ℕ → ℕ
dpc rl = rl % 2 ^ 14

abbrev pub opc : ℕ → ℕ
opc rl = rl / 2 ^ 14 % 2 ^ 14

abbrev pub sls : ℕ → ℕ
sls rl = rl / 2 ^ 28 % 2 ^ 4

abbrev pub cic : ℕ → ℕ
cic v = v % 2 ^ 12

-- An `if (layer != 0xFF)` that prints.
unfoldable pub print_at : ℕ → List ℕ → Buffer → Option Buffer
print_at layer s b = if layer == no_layer then some b else append b s

infixl 30 ◌>>=◌
unfoldable pub ◌>>=◌ : Option Buffer → (Buffer → Option Buffer) → Option Buffer
none >>= f = none
some b >>= f = f b

-- buffer[0] = 0
abbrev pub empty_buffer : Buffer
empty_buffer = record { text = []; length = 0 }

-- The port of SCTP under M3UA is read at `layer`, which has gone down to 255 if nothing is there.
unfoldable pub print_sctp : Parts → List ℕ → Buffer → Option Buffer
print_sctp p s b =
    if p.m3ua_layer == no_layer then some b else if p.layer == no_layer then none else append b s

abbrev pub print_src_parts : Memory → Details → Parts → Option Buffer
print_src_parts m d p =
    print_at p.ip4_layer (ip_text (load32 m (place d p.ip4_layer))) empty_buffer
    >>= print_at p.mtp_layer (decimal (opc (load32 m (place d p.mtp_layer))))
    >>= print_at p.tcp_layer (port_text (load16 m (place d p.tcp_layer)))
    >>= print_sctp p (port_text (load16 m (place d p.layer)))

abbrev pub print_dst_parts : Memory → Details → Parts → Option Buffer
print_dst_parts m d p =
    print_at p.ip4_layer (ip_text (load32 m (place d p.ip4_layer + 4))) empty_buffer
    >>= print_at p.mtp_layer (decimal (dpc (load32 m (place d p.mtp_layer))))
    >>= print_at p.tcp_layer (port_text (load16 m (place d p.tcp_layer + 2)))
    >>= print_sctp p (port_text (load16 m (place d p.layer + 2)))

-- `layer` is the 8 bits of layersCnt - 1.
unfoldable pub print_src_addr : Memory → Details → Option Buffer
print_src_addr m d =
    let layer = lower d.layers_cnt in
    if layer == no_layer then some empty_buffer else print_src_parts m d (find_parts d layer)

unfoldable pub print_dst_addr : Memory → Details → Option Buffer
print_dst_addr m d =
    let layer = lower d.layers_cnt in
    if layer == no_layer then some empty_buffer else print_dst_parts m d (find_parts d layer)

-- The tests of printSlsCic: of the last layer, and of the one below.
abbrev pub last_isup : ℕ → Parts → Parts
last_isup type p =
    if type == 10 then record p { isup_layer = p.layer; layer = lower p.layer } else p

abbrev pub next_mtp : ℕ → Parts → Parts
next_mtp type p =
    if type == 9
    then record p { layer = lower p.layer }
    else if type == 7
    then record p { mtp_layer = p.layer }
    else p

abbrev pub next_mtps : Details → Parts → Parts
next_mtps d p = if p.layer == no_layer then p else next_mtp (get_type (d.layers p.layer)) p

unfoldable pub find_ss7 : Details → ℕ → Parts
find_ss7 d layer = next_mtps d (last_isup (get_type (d.layers layer)) (parts_at layer))

abbrev pub print_ss7 : Memory → Details → Parts → Option Buffer
print_ss7 m d p =
    print_at p.mtp_layer (decimal (sls (load32 m (place d p.mtp_layer)))) empty_buffer
    >>= print_at p.isup_layer (b':' ∷ decimal (cic (load16 m (place d p.isup_layer))))

unfoldable pub print_sls_cic : Memory → Details → Option Buffer
print_sls_cic m d =
    let layer = lower d.layers_cnt in
    if layer == no_layer then some empty_buffer else print_ss7 m d (find_ss7 d layer)
