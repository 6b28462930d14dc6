-- ===== src/Layers/Address/Symmetry.antt =====
-- The flow key of the two directions of a flow.
use mediaroom.Prelude.{
  ℕ, zero, suc, ◌+◌, ◌/◌, ◌<◌, ◌≡◌, ◌≢◌, ◌⊎◌, inl, inr, refl, Bool, true, false, not, Option, none,
  some, List, [], ◌∷◌, arith, length, Option-cases, Bool-cases,
}
use mediaroom.Bytes.{Memory, bytes, bytes-append, length-bytes}
use mediaroom.Layers.{Details, Limits}
use mediaroom.Layers.Address.{
  Layer, Sign, layers_count, layer_addr, masked_src, masked_dst, order, order_bytes, compare_layer,
  first_difference, calc_side,
}
use mediaroom.Layers.Address.Key.{layer_key, key_loop, Even, layer_addr-Even}
use mediaroom.Layers.Address.Buffer.{flow_key}

-- A layer has its two addresses the other way round in the packet `q`; a single byte is the same.
abbrev pub Opposite : Memory → Memory → Layer → Type 0
Opposite p q a =
    let half = a.len / 2 in
    ((a.mask ≡ 0) × (a.len ≡ 1) × (bytes p a.addr 1 ≡ bytes q a.addr 1))
    ⊎ ((a.mask ≡ 0)
        × (a.len ≢ 1)
        × (bytes p a.addr half ≡ bytes q (a.addr + half) half)
        × (bytes p (a.addr + half) half ≡ bytes q a.addr half))
    ⊎ ((a.mask ≢ 0) × (masked_src p a ≡ masked_dst q a) × (masked_dst p a ≡ masked_src q a))

-- All the layers that are not mixed, below `n`, are the other way round.
abbrev pub Reversed : Memory → Memory → Details → ℕ → Type 0
Reversed p q d n =
    (i : ℕ) → i < n → (a : Layer) → layer_addr d i ≡ some a → a.mix ≡ false → Opposite p q a

flip : Sign → Sign
flip Sign.lower = Sign.higher
flip Sign.same = Sign.same
flip Sign.higher = Sign.lower

abbrev map_flip : Option Sign → Option Sign
map_flip none = none
map_flip (some s) = some (flip s)

order-flip : (a b : ℕ) → order b a ≡ flip (order a b)
unfolding order flip
order-flip a b = ground arith

order_bytes-flip : (xs ys : List ℕ) → order_bytes ys xs ≡ flip (order_bytes xs ys)
unfolding order_bytes flip order
order_bytes-flip [] [] = refl
order_bytes-flip [] (y ∷ ys) = refl
order_bytes-flip (x ∷ xs) [] = refl
order_bytes-flip (x ∷ xs) (y ∷ ys) = ground (arith, order_bytes-flip xs ys)

order_bytes-nil : (xs ys : List ℕ) → length xs ≡ 0 → order_bytes xs ys ≡ Sign.same
unfolding order_bytes
order_bytes-nil [] ys h = refl
order_bytes-nil (x ∷ xs) ys h = absurd (omega arith)

order-same : (a b : ℕ) → order a b ≡ Sign.same → a ≡ b
unfolding order
order-same a b h = ground arith

order_bytes-same :
    (xs ys : List ℕ) → length xs ≡ length ys → order_bytes xs ys ≡ Sign.same → xs ≡ ys
unfolding order_bytes order
order_bytes-same [] [] l h = refl
order_bytes-same [] (y ∷ ys) l h = absurd (omega arith)
order_bytes-same (x ∷ xs) [] l h = absurd (omega arith)
order_bytes-same (x ∷ xs) (y ∷ ys) l h = ground (arith, order_bytes-same xs ys (omega arith))

compare_layer-Opposite :
    (p q : Memory) (a : Layer)
    → Even a
    → Opposite p q a
    → (s : Sign) × (compare_layer p a ≡ some s) × (compare_layer q a ≡ some (flip s))
unfolding compare_layer flip
compare_layer-Opposite p q a even (inl (m, one, e)) =
    let half = a.len / 2 in
    (
      Sign.same,
      ground (
        arith,
        length-bytes p a.addr half,
        order_bytes-nil (bytes p a.addr half) (bytes p (a.addr + half) half),
      ),
      ground (
        arith,
        length-bytes q a.addr half,
        order_bytes-nil (bytes q a.addr half) (bytes q (a.addr + half) half),
      ),
    )
compare_layer-Opposite p q a even (inr (inl (m, ne, e, f))) =
    let half = a.len / 2 in
    let src = bytes p a.addr half in
    let dst = bytes p (a.addr + half) half in
    (order_bytes src dst, ground arith, ground (arith, order_bytes-flip src dst))
compare_layer-Opposite p q a even (inr (inr (m, e, f))) = (
  order (masked_src p a) (masked_dst p a),
  ground arith,
  ground (arith, order-flip (masked_src p a) (masked_dst p a)),
)

layer_key-Opposite :
    (p q : Memory) (a : Layer) (s : Bool)
    → Even a
    → Opposite p q a
    → layer_key p a s ≡ layer_key q a (not s)
unfolding layer_key
layer_key-Opposite p q a s even (inl (m, one, e)) = ground arith
layer_key-Opposite p q a s even (inr (inl (m, ne, e, f))) =
    let half = a.len / 2 in
    ground (arith, bytes-append p a.addr half half, bytes-append q a.addr half half)
layer_key-Opposite p q a s even (inr (inr (m, e, f))) = ground arith

layer_key-same :
    (p : Memory) (a : Layer) (s t : Bool)
    → Even a
    → compare_layer p a ≡ some Sign.same
    → layer_key p a s ≡ layer_key p a t
unfolding layer_key compare_layer
layer_key-same p a s t even e =
    let half = a.len / 2 in
    let src = bytes p a.addr half in
    let dst = bytes p (a.addr + half) half in
    ground (
      arith,
      bytes-append p a.addr half half,
      order_bytes-same src dst,
      length-bytes p a.addr half,
      length-bytes p (a.addr + half) half,
      order-same (masked_src p a) (masked_dst p a),
    )

module _ (p q : Memory) (d : Details) where
  -- The first difference is the other way round in the other direction.
  first_difference-Reversed :
      (i pos : ℕ)
      → Reversed p q d i
      → first_difference false q d i pos ≡ map_flip (first_difference false p d i pos)
  unfolding first_difference flip
  first_difference-Reversed zero pos rev = refl
  first_difference-Reversed (suc i) pos rev = elim (Option-cases (layer_addr d i)) [
    | inl la ↦ ground arith
    | inr (a, la) ↦
        let skip = first_difference-Reversed i pos (λ j h. rev j (omega arith)) in
        let next = first_difference-Reversed i (pos + a.len) (λ j h. rev j (omega arith)) in
        elim (Bool-cases a.mix) [
          | inl mixed ↦ ground (arith, skip)
          | inr plain ↦
              let (s, f, g) =
                compare_layer-Opposite p q a (layer_addr-Even d i la)
                  (rev i (omega arith) a la plain) in
              ground (arith, next, f, g)
        ]
  ]

  key_loop-Reversed :
      (s : Bool) (i pos : ℕ) → Reversed p q d i → key_loop p s d i pos ≡ key_loop q (not s) d i pos
  unfolding key_loop
  key_loop-Reversed s zero pos rev = refl
  key_loop-Reversed s (suc i) pos rev = elim (Option-cases (layer_addr d i)) [
    | inl la ↦ ground arith
    | inr (a, la) ↦
        let skip = key_loop-Reversed s i pos (λ j h. rev j (omega arith)) in
        let next = key_loop-Reversed s i (pos + a.len) (λ j h. rev j (omega arith)) in
        elim (Bool-cases a.mix) [
          | inl mixed ↦ ground (arith, skip)
          | inr plain ↦
              let key =
                layer_key-Opposite p q a s (layer_addr-Even d i la)
                  (rev i (omega arith) a la plain) in
              ground (arith, next, key)
        ]
  ]

  -- Where no layer differs, the sides have one key.
  key_loop-same :
      (s t : Bool) (i pos : ℕ)
      → first_difference false p d i pos ≡ some Sign.same
      → key_loop p s d i pos ≡ key_loop p t d i pos
  unfolding key_loop first_difference
  key_loop-same s t zero pos e = refl
  key_loop-same s t (suc i) pos e = elim (Option-cases (layer_addr d i)) [
    | inl la ↦ ground arith
    | inr (a, la) ↦
        let skip = key_loop-same s t i pos in
        let next = key_loop-same s t i (pos + a.len) in
        let key = layer_key-same p a s t (layer_addr-Even d i la) in ground (arith, skip, next, key)
  ]

-- Both directions of a flow have one flow key: each packet seen from the side that calcSide gives
-- it. The packets have their layers at the same places, with the two addresses of each layer that
-- is not mixed the other way round, and calcSide answers for the first one.
pub flow_key-Reversed :
    (l : Limits) (p q : Memory) (d : Details) {n : ℕ} {d' : Details} {s : Bool}
    → layers_count l d ≡ some (n, d')
    → Reversed p q d' n
    → calc_side l p d ≡ some s
    → (t : Bool) × (calc_side l q d ≡ some t) × (flow_key l p d s ≡ flow_key l q d t)
unfolding calc_side flow_key flip
flow_key-Reversed l p q d {n} {d'} {s} c rev e =
    elim (Option-cases (first_difference false p d' n 0)) [
      | inl f ↦ absurd (ground arith)
      | inr (Sign.same, f) ↦ (
        false,
        ground (arith, first_difference-Reversed p q d' n 0 rev),
        ground (arith, key_loop-same p q d' s true n 0 f, key_loop-Reversed p q d' true n 0 rev),
      )
      | inr (Sign.lower, f) ↦ (
        true,
        ground (arith, first_difference-Reversed p q d' n 0 rev),
        ground (arith, key_loop-Reversed p q d' false n 0 rev),
      )
      | inr (Sign.higher, f) ↦ (
        false,
        ground (arith, first_difference-Reversed p q d' n 0 rev),
        ground (arith, key_loop-Reversed p q d' true n 0 rev),
      )
    ]
