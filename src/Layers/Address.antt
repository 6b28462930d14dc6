-- ===== src/Layers/Address.antt =====
-- PacketDetails: the functions that read a packet's addresses layer by layer, from the last one
-- to the first. A result of none is a failed assertion.
pub mod Compare
pub mod Key
pub mod Match
pub mod Buffer
pub mod Symmetry
mod Tests
use Prim.Native.Nat.{bit_and}
use mediaroom.Prelude.{
  ℕ, zero, suc, ◌+◌, ◌-◌, ◌*◌, ◌/◌, ◌%◌, ◌^◌, Bool, true, false, not, ◌&&◌, ◌||◌, Option, none,
  some, List, [], ◌∷◌, ltb, leb, ◌==◌, if◌then◌else◌,
}
use mediaroom.Bytes.{Memory, memcpy, bytes, store8, load32}
use mediaroom.Layers.{
  Details, Limits, get_type, get_mix, get_offset, unset_mix, type_length, type_mask, no_layer,
}
use mediaroom.Layers.Push.{set_layer}

-- CONFIG_FLOWADDR_SIZE
abbrev pub flowaddr_size : ℕ
flowaddr_size = 32

-- The last IP layer is unmarked on the way.
pub layers_count : Limits → Details → Option (ℕ × Details)
layers_count l d =
    let unmarked = record d {
      layers = set_layer d.layers d.last_ip_layer (unset_mix (d.layers d.last_ip_layer));
    } in
    if leb d.layers2_cnt l.layers2 && leb d.layers3_cnt l.layers3 && leb d.layers4_cnt l.layers4
    then some (
      (d.layers2_cnt + d.layers3_cnt + d.layers4_cnt) % 256,
      if d.last_ip_layer == no_layer then d else unmarked,
    )
    else none

-- What getLayerAddr returns: the offset of the address in the packet, and its out parameters.
pub record Layer : Type 0 where
  pub addr : ℕ
  pub len : ℕ
  pub type : ℕ
  pub mask : ℕ
  pub mix : Bool

abbrev make_layer : ℕ → Option ℕ → Option ℕ → Option Layer
make_layer v none mask = none
make_layer v (some len) none = none
make_layer v (some len) (some mask) =
    some
      (record { addr = get_offset v; len = len; type = get_type v; mask = mask; mix = get_mix v })

unfoldable pub layer_addr : Details → ℕ → Option Layer
layer_addr d i =
    let v = d.layers i in
    if ltb i (d.layers2_cnt + d.layers3_cnt + d.layers4_cnt)
    then make_layer v (type_length (get_type v)) (type_mask (get_type v))
    else none

-- __builtin_ffs(mask) - 1: the trailing zeros of a word that is not 0.
trailing_zeros : ℕ → ℕ → ℕ
trailing_zeros zero mask = 0
trailing_zeros (suc bits) mask = elim (mask % 2 == 1) [
  | true ↦ 0
  | false ↦ suc (trailing_zeros bits (mask / 2))
]

-- 32 - __builtin_clz(mask): the length of the word in bits.
bit_length : ℕ → ℕ → ℕ
bit_length zero mask = 0
bit_length (suc bits) mask = elim (mask == 0) [
  | true ↦ 0
  | false ↦ suc (bit_length bits (mask / 2))
]

pub bit_scan_forward : ℕ → ℕ
unfolding trailing_zeros
bit_scan_forward mask = trailing_zeros 32 mask

pub bit_scan_reverse : ℕ → ℕ
unfolding bit_length
bit_scan_reverse mask = bit_length 32 mask

abbrev shifted_mask : ℕ → ℕ
shifted_mask mask = mask / 2 ^ bit_scan_forward mask

-- The two addresses that share a word.
pub masked_src : Memory → Layer → ℕ
masked_src packet a =
    bit_and (load32 packet a.addr / 2 ^ bit_scan_forward a.mask) (shifted_mask a.mask)

pub masked_dst : Memory → Layer → ℕ
masked_dst packet a =
    bit_and (load32 packet a.addr / 2 ^ bit_scan_reverse a.mask) (shifted_mask a.mask)

-- The sign of a memcmp.
pub data Sign : Type 0 where
  lower same higher : Sign

pub order : ℕ → ℕ → Sign
order a b = if ltb a b then Sign.lower else if ltb b a then Sign.higher else Sign.same

-- memcmp
pub order_bytes : List ℕ → List ℕ → Sign
unfolding order
order_bytes (x ∷ xs) (y ∷ ys) =
    let rest = order_bytes xs ys in
    elim (order x y) [ Sign.lower ↦ Sign.lower | Sign.higher ↦ Sign.higher | Sign.same ↦ rest ]
order_bytes _ _ = Sign.same

-- How the source of a layer compares with its destination; none where the assertion on the
-- length of an unmasked address fails.
pub compare_layer : Memory → Layer → Option Sign
compare_layer packet a =
    if a.mask == 0
    then if a.len == 1 || (a.len % 2 == 0)
      then some (
          order_bytes (bytes packet a.addr (a.len / 2))
            (bytes packet (a.addr + a.len / 2) (a.len / 2)))
      else none
    else some (order (masked_src packet a) (masked_dst packet a))

-- A layer that the loops look at: not mixed, and with an address for each direction where
-- `both_ways` asks for it (`type > _Bidir`).
abbrev looked_at : Bool → Layer → Bool
looked_at both_ways a = not a.mix && (not both_ways || ltb 2 a.type)

-- The loop of calcSide and isSrcLowerAddr over the layers below `i`: the first difference, or
-- `same` at the end and where the addresses do not fit.
pub first_difference : Bool → Memory → Details → ℕ → ℕ → Option Sign
first_difference both_ways packet d zero pos = some Sign.same
first_difference both_ways packet d (suc i) pos =
    let skip = first_difference both_ways packet d i pos in
    elim (layer_addr d i) [
      | none ↦ none
      | some a ↦
          let next = first_difference both_ways packet d i (pos + a.len) in
          elim (looked_at both_ways a) [
            | false ↦ skip
            | true ↦ elim (ltb (flowaddr_size - 1) (pos + a.len)) [
              | true ↦ some Sign.same
              | false ↦ elim (compare_layer packet a) [
                | none ↦ none
                | some Sign.same ↦ next
                | some s ↦ some s
              ]
            ]
          ]
    ]

abbrev is_higher : Sign → Bool
is_higher Sign.higher = true
is_higher _ = false

abbrev is_lower : Sign → Bool
is_lower Sign.lower = true
is_lower _ = false

abbrev map_sign : (Sign → Bool) → Option Sign → Option Bool
map_sign f none = none
map_sign f (some s) = some (f s)

pub calc_side : Limits → Memory → Details → Option Bool
unfolding first_difference
calc_side l packet d = elim (layers_count l d) [
  | none ↦ none
  | some (n, d') ↦ map_sign is_higher (first_difference false packet d' n 0)
]

pub is_src_lower_addr : Limits → Memory → Details → Option Bool
unfolding first_difference
is_src_lower_addr l packet d = elim (layers_count l d) [
  | none ↦ none
  | some (n, d') ↦ map_sign is_lower (first_difference true packet d' n 0)
]

-- The first `n` bytes of a number in memory.
pub number_bytes : ℕ → ℕ → List ℕ
number_bytes zero v = []
number_bytes (suc n) v = v % 256 ∷ number_bytes n (v / 256)

-- What fillAddresses copies of a layer.
pub fill_layer : Memory → Layer → Bool → ℕ → Memory → Option Memory
fill_layer packet a side pos addresses =
    let half = a.len / 2 in
    let src = number_bytes half (masked_src packet a) in
    let dst = number_bytes half (masked_dst packet a) in
    if a.mask == 0
    then if a.len == 1 || (a.len % 2 == 0)
      then some (
          if side || a.len == 1
          then memcpy addresses pos (bytes packet a.addr a.len)
          else memcpy (memcpy addresses pos (bytes packet (a.addr + half) half)) (pos + half)
              (bytes packet a.addr half))
      else none
    else some (
        if side
        then memcpy (memcpy addresses pos src) (pos + half) dst
        else memcpy (memcpy addresses pos dst) (pos + half) src)

-- The loop of fillAddresses: the addresses and `pos`.
pub fill_loop : Memory → Bool → Details → ℕ → ℕ → Memory → Option (ℕ × Memory)
unfolding fill_layer
fill_loop packet side d zero pos addresses = some (pos, addresses)
fill_loop packet side d (suc i) pos addresses =
    let skip = fill_loop packet side d i pos addresses in
    elim (layer_addr d i) [
      | none ↦ none
      | some a ↦ elim a.mix [
        | true ↦ skip
        | false ↦ elim (ltb (flowaddr_size - 1) (pos + a.len)) [
          | true ↦ some (pos, addresses)
          | false ↦ elim (fill_layer packet a side pos addresses) [
            | none ↦ none
            | some filled ↦ fill_loop packet side d i (pos + a.len) filled
          ]
        ]
      ]
    ]

-- The last byte of the buffer holds the length.
pub fill_addresses : Limits → Memory → Details → Bool → Memory → Option (ℕ × Memory)
unfolding fill_loop
fill_addresses l packet d side addresses = elim (layers_count l d) [
  | none ↦ none
  | some (n, d') ↦ elim (fill_loop packet side d' n 0 addresses) [
    | none ↦ none
    | some (pos, filled) ↦ some (pos, store8 filled (flowaddr_size - 1) pos)
  ]
]
