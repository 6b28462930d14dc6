-- ===== src/Layers/Address/Compare.antt =====
-- PacketDetails::cmpAddresses: whether a packet has the addresses of a buffer.
use mediaroom.Prelude.{
  ℕ, zero, suc, ◌+◌, ◌-◌, ◌/◌, ◌%◌, Bool, true, false, ◌&&◌, ◌||◌, Option, none, some, List, ◌∷◌,
  ltb, ◌==◌, if◌then◌else◌,
}
use mediaroom.Bytes.{Memory, bytes}
use mediaroom.Layers.{Details, Limits}
use mediaroom.Layers.Address.{
  Layer, flowaddr_size, layers_count, layer_addr, masked_src, masked_dst, number_bytes,
}

-- memcmp(a, b, n) == 0
unfoldable pub same_bytes : List ℕ → List ℕ → Bool
same_bytes (x ∷ xs) (y ∷ ys) = x == y && same_bytes xs ys
same_bytes _ _ = true

-- The comparisons of one layer; none where its assertion fails.
unfoldable pub cmp_layer : Memory → Layer → Bool → ℕ → Memory → Option Bool
unfolding same_bytes
cmp_layer packet a side pos addresses =
    let half = a.len / 2 in
    let first = bytes addresses pos half in
    let second = bytes addresses (pos + half) half in
    let src = number_bytes half (masked_src packet a) in
    let dst = number_bytes half (masked_dst packet a) in
    if a.mask == 0
    then if a.len == 1 || (a.len % 2 == 0)
      then some (
          if side || a.len == 1
          then same_bytes (bytes addresses pos a.len) (bytes packet a.addr a.len)
          else same_bytes first (bytes packet (a.addr + half) half)
            && same_bytes second (bytes packet a.addr half))
      else none
    else some (
        if side
        then same_bytes first src && same_bytes second dst
        else same_bytes first dst && same_bytes second src)

-- The loop: some none for `return false`, and otherwise the final `pos`.
unfoldable pub cmp_loop : Memory → Bool → Details → Memory → ℕ → ℕ → Option (Option ℕ)
unfolding cmp_layer
cmp_loop packet side d addresses zero pos = some (some pos)
cmp_loop packet side d addresses (suc i) pos =
    let skip = cmp_loop packet side d addresses i pos in
    elim (layer_addr d i) [
      | none ↦ none
      | some a ↦
          let next = cmp_loop packet side d addresses i (pos + a.len) in
          elim a.mix [
            | true ↦ skip
            | false ↦ elim (ltb (flowaddr_size - 1) (pos + a.len)) [
              | true ↦ some (some pos)
              | false ↦ elim (cmp_layer packet a side pos addresses) [
                | none ↦ none
                | some true ↦ next
                | some false ↦ some none
              ]
            ]
          ]
    ]

unfoldable pub cmp_addresses : Limits → Memory → Details → Bool → Memory → Option Bool
unfolding cmp_loop
cmp_addresses l packet d side addresses = elim (layers_count l d) [
  | none ↦ none
  | some (n, d') ↦ elim (cmp_loop packet side d' addresses n 0) [
    | none ↦ none
    | some none ↦ some false
    | some (some pos) ↦ some (addresses (flowaddr_size - 1) == pos)
  ]
]
