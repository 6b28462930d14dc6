-- ===== src/Layers/Address/Key.antt =====
-- The flow key that fillAddresses writes, as a list of bytes.
use mediaroom.Prelude.{
  ℕ, zero, suc, ◌+◌, ◌-◌, ◌/◌, ◌≡◌, ◌⊎◌, refl, ap, Bool, true, false, ◌||◌, Option, none, some,
  List, [], ◌++◌, arith, ltb, ◌==◌, if◌then◌else◌, length, length-append,
}
use mediaroom.Bytes.{Memory, memcpy, bytes, length-bytes, memcpy-append}
use mediaroom.Layers.{Details}
use mediaroom.Layers.Address.{
  Layer, flowaddr_size, layer_addr, masked_src, masked_dst, number_bytes, fill_layer,
}

-- The bytes of one layer: source first if `side` is true, destination first otherwise.
unfoldable pub layer_key : Memory → Layer → Bool → List ℕ
layer_key packet a side =
    let half = a.len / 2 in
    let src = number_bytes half (masked_src packet a) in
    let dst = number_bytes half (masked_dst packet a) in
    if a.mask == 0
    then if side || a.len == 1
      then bytes packet a.addr a.len
      else bytes packet (a.addr + half) half ++ bytes packet a.addr half
    else if side
    then src ++ dst
    else dst ++ src

-- The keys of the layers below `i`, the last one first, as far as they fit behind `pos`.
unfoldable pub key_loop : Memory → Bool → Details → ℕ → ℕ → Option (List ℕ)
key_loop packet side d zero pos = some []
key_loop packet side d (suc i) pos =
    let skip = key_loop packet side d i pos in
    elim (layer_addr d i) [
      | none ↦ none
      | some a ↦
          let next = key_loop packet side d i (pos + a.len) in
          elim a.mix [
            | true ↦ skip
            | false ↦ elim (ltb (flowaddr_size - 1) (pos + a.len)) [
              | true ↦ some []
              | false ↦ elim next [ none ↦ none | some k ↦ some (layer_key packet a side ++ k) ]
            ]
          ]
    ]

-- The assertion of the loops holds, and an address pair that shares a word has an even length.
pub record Even (a : Layer) : Type 0 where
  pub whole : (a.len ≡ 1) ⊎ (a.len ≡ a.len / 2 + a.len / 2)
  pub masked : (a.mask ≡ 0) ⊎ (a.len ≡ a.len / 2 + a.len / 2)

pub layer_addr-Even : (d : Details) (i : ℕ) {a : Layer} → layer_addr d i ≡ some a → Even a
unfolding layer_addr
layer_addr-Even d i {a} e = ground arith

pub length-number_bytes : (n v : ℕ) → length (number_bytes n v) ≡ n
unfolding number_bytes
length-number_bytes zero v = refl
length-number_bytes (suc n) v = ap suc (length-number_bytes n (v / 256))

pub length-layer_key :
    (packet : Memory) (a : Layer) (side : Bool) → Even a → length (layer_key packet a side) ≡ a.len
unfolding layer_key
length-layer_key packet a side even =
    let half = a.len / 2 in
    let src = number_bytes half (masked_src packet a) in
    let dst = number_bytes half (masked_dst packet a) in
    ground (
      arith,
      even,
      length-bytes packet a.addr a.len,
      length-bytes packet (a.addr + half) half,
      length-bytes packet a.addr half,
      length-number_bytes half (masked_src packet a),
      length-number_bytes half (masked_dst packet a),
      length-append (bytes packet (a.addr + half) half) (bytes packet a.addr half),
      length-append src dst,
      length-append dst src,
    )

pub fill_layer-key :
    (packet : Memory) (a : Layer) (side : Bool) (pos : ℕ) (addresses : Memory)
    → Even a
    → fill_layer packet a side pos addresses ≡ some (memcpy addresses pos (layer_key packet a side))
unfolding fill_layer layer_key
fill_layer-key packet a side pos addresses even =
    let half = a.len / 2 in
    let src = number_bytes half (masked_src packet a) in
    let dst = number_bytes half (masked_dst packet a) in
    ground (
      arith,
      even,
      length-bytes packet (a.addr + half) half,
      length-number_bytes half (masked_src packet a),
      length-number_bytes half (masked_dst packet a),
      memcpy-append addresses pos (bytes packet (a.addr + half) half) (bytes packet a.addr half),
      memcpy-append addresses pos src dst,
      memcpy-append addresses pos dst src,
    )
