-- ===== src/Layers/Address/Match.antt =====
-- fillAddresses and cmpAddresses against the flow key.
use mediaroom.Prelude.{
  ℕ, zero, suc, ◌+◌, ◌-◌, ◌/◌, ◌≤◌, ◌<◌, ◌≡◌, ◌↔◌, ◌⊎◌, inl, inr, refl, Bool, true, false, ◌&&◌,
  none, some, List, [], ◌∷◌, ◌++◌, arith, ltb, if◌then◌else◌, length, length-append, Option-cases,
  Bool-cases,
}
use mediaroom.Bytes.{Memory, memcpy, bytes, length-bytes, memcpy-append, bytes-append, memcpy-nil}
use mediaroom.Layers.{Details}
use mediaroom.Layers.Address.{
  Layer, flowaddr_size, layer_addr, masked_src, masked_dst, number_bytes, fill_loop,
}
use mediaroom.Layers.Address.Compare.{same_bytes, cmp_layer, cmp_loop}
use mediaroom.Layers.Address.Key.{
  layer_key, key_loop, Even, layer_addr-Even, length-layer_key, length-number_bytes, fill_layer-key,
}

pub same_bytes_iff :
    (xs ys : List ℕ) → length xs ≡ length ys → (same_bytes xs ys ≡ true) ↔ (xs ≡ ys)
unfolding same_bytes
same_bytes_iff [] [] h = (λ _. refl, λ _. refl)
same_bytes_iff [] (y ∷ ys) h = absurd (omega arith)
same_bytes_iff (x ∷ xs) [] h = absurd (omega arith)
same_bytes_iff (x ∷ xs) (y ∷ ys) h =
    let (f, g) = same_bytes_iff xs ys (omega arith) in (ground (arith, f), ground (arith, g))

same_bytes-append :
    (xs ys us vs : List ℕ)
    → length xs ≡ length us
    → same_bytes (xs ++ ys) (us ++ vs) ≡ (same_bytes xs us && same_bytes ys vs)
unfolding same_bytes
same_bytes-append [] ys [] vs h = refl
same_bytes-append [] ys (u ∷ us) vs h = absurd (omega arith)
same_bytes-append (x ∷ xs) ys [] vs h = absurd (omega arith)
same_bytes-append (x ∷ xs) ys (u ∷ us) vs h =
    ground (arith, same_bytes-append xs ys us vs (omega arith))

same_bytes-nil : (xs : List ℕ) → same_bytes xs [] ≡ true
unfolding same_bytes
same_bytes-nil [] = refl
same_bytes-nil (x ∷ xs) = refl

key_loop-zero :
    (packet : Memory) (side : Bool) (d : Details) (pos : ℕ) {k : List ℕ}
    → key_loop packet side d zero pos ≡ some k
    → k ≡ []
unfolding key_loop
key_loop-zero packet side d pos e = ground arith

-- What the key of the layers below `suc i` is made of.
abbrev Layered : Memory → Bool → Details → ℕ → ℕ → List ℕ → Layer → Type 0
Layered packet side d i pos k a =
    (layer_addr d i ≡ some a)
    × (((a.mix ≡ true) × (key_loop packet side d i pos ≡ some k))
        ⊎ ((a.mix ≡ false) × (flowaddr_size ≤ pos + a.len) × (k ≡ []))
        ⊎ ((a.mix ≡ false)
            × (pos + a.len < flowaddr_size)
            × (rest : List ℕ) × (key_loop packet side d i (pos + a.len) ≡ some rest)
            × (k ≡ layer_key packet a side ++ rest)))

key_loop_cases :
    (packet : Memory) (side : Bool) (d : Details) (i pos : ℕ) {k : List ℕ}
    → key_loop packet side d (suc i) pos ≡ some k
    → (a : Layer) × Layered packet side d i pos k a
unfolding key_loop
key_loop_cases packet side d i pos {k} e = elim (Option-cases (layer_addr d i)) [
  | inl la ↦ absurd (ground arith)
  | inr (a, la) ↦ (
    a,
    (
      la,
      elim (Bool-cases a.mix) [
        | inl mixed ↦ inl (mixed, ground arith)
        | inr plain ↦ elim (Bool-cases (ltb (flowaddr_size - 1) (pos + a.len))) [
          | inl long ↦ inr (inl (plain, ground arith, ground arith))
          | inr fits ↦ elim (Option-cases (key_loop packet side d i (pos + a.len))) [
            | inl f ↦ absurd (ground arith)
            | inr (rest, r) ↦ inr (inr (plain, ground arith, rest, r, ground arith))
          ]
        ]
      ],
    ),
  )
]

-- The key ends before the byte that holds its length.
pub key_loop-fits :
    (packet : Memory) (side : Bool) (d : Details) (i pos : ℕ) {k : List ℕ}
    → pos < flowaddr_size
    → key_loop packet side d i pos ≡ some k
    → pos + length k < flowaddr_size
unfolding key_loop
key_loop-fits packet side d zero pos h e = ground arith
key_loop-fits packet side d (suc i) pos h e =
    let (a, (la, c)) = key_loop_cases packet side d i pos e in
    elim c [
      | inl (_, r) ↦ key_loop-fits packet side d i pos h r
      | inr (inl (_, _, is)) ↦ rw is (omega arith)
      | inr (inr (_, fits, rest, r, is)) ↦ rw is (
          omega (
            arith,
            key_loop-fits packet side d i (pos + a.len) fits r,
            length-append (layer_key packet a side) rest,
            length-layer_key packet a side (layer_addr-Even d i la),
          ))
    ]

-- The loop of fillAddresses writes the key behind `pos`.
pub fill_loop-key :
    (packet : Memory) (side : Bool) (d : Details) (i pos : ℕ) (addresses : Memory) {k : List ℕ}
    → key_loop packet side d i pos ≡ some k
    → fill_loop packet side d i pos addresses ≡ some (pos + length k, memcpy addresses pos k)
unfolding fill_loop
fill_loop-key packet side d zero pos addresses e =
    rw (key_loop-zero packet side d pos e, memcpy-nil) (ground arith)
fill_loop-key packet side d (suc i) pos addresses {k} e =
    let (a, (la, c)) = key_loop_cases packet side d i pos e in
    let even = layer_addr-Even d i la in
    elim c [
      | inl (mixed, r) ↦ ground (arith, fill_loop-key packet side d i pos addresses r)
      | inr (inl (plain, long, is)) ↦ ground (arith, memcpy-nil addresses pos)
      | inr (inr (plain, fits, rest, r, is)) ↦
          let key = layer_key packet a side in
          ground (
            arith,
            fill_layer-key packet a side pos addresses even,
            fill_loop-key packet side d i (pos + a.len) (memcpy addresses pos key) r,
            length-append key rest,
            length-layer_key packet a side even,
            memcpy-append addresses pos key rest,
          )
    ]

cmp_layer-key :
    (packet : Memory) (a : Layer) (side : Bool) (pos : ℕ) (addresses : Memory)
    → Even a
    → cmp_layer packet a side pos addresses
      ≡ some (same_bytes (bytes addresses pos a.len) (layer_key packet a side))
unfolding cmp_layer layer_key
cmp_layer-key packet a side pos addresses even =
    let half = a.len / 2 in
    let src = number_bytes half (masked_src packet a) in
    let dst = number_bytes half (masked_dst packet a) in
    let first = bytes addresses pos half in
    let second = bytes addresses (pos + half) half in
    ground (
      arith,
      even,
      bytes-append addresses pos half half,
      length-bytes addresses pos half,
      length-bytes packet (a.addr + half) half,
      length-number_bytes half (masked_src packet a),
      length-number_bytes half (masked_dst packet a),
      same_bytes-append first second (bytes packet (a.addr + half) half) (bytes packet a.addr half),
      same_bytes-append first second src dst,
      same_bytes-append first second dst src,
    )

-- The loop of cmpAddresses compares with the key from `pos` on.
pub cmp_loop-key :
    (packet : Memory) (side : Bool) (d : Details) (addresses : Memory) (i pos : ℕ) {k : List ℕ}
    → key_loop packet side d i pos ≡ some k
    → cmp_loop packet side d addresses i pos
      ≡ some (if same_bytes (bytes addresses pos (length k)) k then some (pos + length k) else none)
unfolding cmp_loop
cmp_loop-key packet side d addresses zero pos e =
    rw (key_loop-zero packet side d pos e, same_bytes-nil) (ground arith)
cmp_loop-key packet side d addresses (suc i) pos {k} e =
    let (a, (la, c)) = key_loop_cases packet side d i pos e in
    let even = layer_addr-Even d i la in
    elim c [
      | inl (mixed, r) ↦ ground (arith, cmp_loop-key packet side d addresses i pos r)
      | inr (inl (plain, long, is)) ↦ rw (is, same_bytes-nil) (ground arith)
      | inr (inr (plain, fits, rest, r, is)) ↦
          let key = layer_key packet a side in
          ground (
            arith,
            cmp_layer-key packet a side pos addresses even,
            cmp_loop-key packet side d addresses i (pos + a.len) r,
            length-append key rest,
            length-layer_key packet a side even,
            length-bytes addresses pos a.len,
            bytes-append addresses pos a.len (length rest),
            same_bytes-append (bytes addresses pos a.len)
                (bytes addresses (pos + a.len) (length rest)) key rest,
          )
    ]
