-- ===== src/Layers/Address/Buffer.antt =====
-- The address buffer of a flow: what fillAddresses leaves there, and which packets match it.
use mediaroom.Prelude.{
  ℕ, ◌-◌, ◌<◌, ◌≡◌, ◌↔◌, inl, inr, sym, ap, ◌∙◌, Bool, true, Option, none, some, List, arith,
  length, Option-cases,
}
use mediaroom.Bytes.{Memory, memcpy, bytes, store8, length-bytes, bytes-memcpy, bytes_agree}
use mediaroom.Layers.{Details, Limits}
use mediaroom.Layers.Address.{flowaddr_size, layers_count, fill_addresses}
use mediaroom.Layers.Address.Compare.{cmp_addresses}
use mediaroom.Layers.Address.Key.{key_loop}
use mediaroom.Layers.Address.Match.{fill_loop-key, cmp_loop-key, key_loop-fits, same_bytes_iff}

-- The flow key of a packet seen from a side; none where an assertion fails.
unfoldable pub flow_key : Limits → Memory → Details → Bool → Option (List ℕ)
flow_key l packet d side = elim (layers_count l d) [
  | none ↦ none
  | some (n, d') ↦ key_loop packet side d' n 0
]

module _ (l : Limits) (packet : Memory) (d : Details) (side : Bool) {k : List ℕ} where
  flow_key_loop :
      flow_key l packet d side ≡ some k
      → (n : ℕ) × (d' : Details) × (layers_count l d ≡ some (n, d'))
        × (key_loop packet side d' n 0 ≡ some k)
  unfolding flow_key
  flow_key_loop e = elim (Option-cases (layers_count l d)) [
    | inl c ↦ absurd (ground arith)
    | inr ((n, d'), c) ↦ (n, d', c, ground arith)
  ]

  pub flow_key-fits : flow_key l packet d side ≡ some k → length k < flowaddr_size
  flow_key-fits e =
      let (n, d', c, r) = flow_key_loop e in
      omega (arith, key_loop-fits packet side d' n 0 (omega arith) r)

  -- fillAddresses returns the length of the key, and leaves the key at the start of the buffer
  -- and its length in the last byte.
  pub fill_addresses-key :
      (addresses : Memory)
      → flow_key l packet d side ≡ some k
      → (filled : Memory) × (fill_addresses l packet d side addresses ≡ some (length k, filled))
        × (bytes filled 0 (length k) ≡ k)
        × (filled (flowaddr_size - 1) ≡ length k)
  unfolding fill_addresses
  fill_addresses-key addresses e =
      let (n, d', c, r) = flow_key_loop e in
      let short = flow_key-fits e in
      let copied = memcpy addresses 0 k in
      (
        store8 copied (flowaddr_size - 1) (length k),
        ground (arith, fill_loop-key packet side d' n 0 addresses r),
        bytes_agree copied _ 0 (length k) (λ q a b. ground arith) ∙ bytes-memcpy addresses 0 k,
        ground arith,
      )

  -- cmpAddresses holds exactly when the buffer has the packet's key and its length.
  pub cmp_addresses-key :
      (addresses : Memory)
      → flow_key l packet d side ≡ some k
      → (cmp_addresses l packet d side addresses ≡ some true)
        ↔ ((bytes addresses 0 (length k) ≡ k) × (addresses (flowaddr_size - 1) ≡ length k))
  unfolding cmp_addresses
  cmp_addresses-key addresses e =
      let (n, d', c, r) = flow_key_loop e in
      let same =
        same_bytes_iff (bytes addresses 0 (length k)) k (length-bytes addresses 0 (length k)) in
      (
        λ h. (
          ground (arith, cmp_loop-key packet side d' addresses n 0 r, same),
          ground (arith, cmp_loop-key packet side d' addresses n 0 r, same),
        ),
        λ h. ground (arith, cmp_loop-key packet side d' addresses n 0 r, same),
      )

-- A packet matches the buffer that another packet has filled exactly when the two have one key.
pub cmp_addresses-fill_addresses :
    (l : Limits) (p q : Memory) (d e : Details) (s t : Bool) (addresses : Memory) {k k' : List ℕ}
    {n : ℕ} {filled : Memory}
    → flow_key l p d s ≡ some k
    → flow_key l q e t ≡ some k'
    → fill_addresses l p d s addresses ≡ some (n, filled)
    → (cmp_addresses l q e t filled ≡ some true) ↔ (k ≡ k')
cmp_addresses-fill_addresses l p q d e s t addresses {k} {k'} {n} {filled} a b f =
    let (m, r, content, size) = fill_addresses-key l p d s addresses a in
    let is : m ≡ filled = ground arith in
    let (forth, back) = cmp_addresses-key l q e t filled b in
    (
      λ h.
          let (x, y) = forth h in
          let long : length k ≡ length k' = ground arith in
          sym content ∙ ap (λ m. bytes m 0 (length k)) is ∙ ap (λ n. bytes filled 0 n) long ∙ x,
      λ h. back (
        ap (λ n. bytes filled 0 n) (ap length (sym h))
            ∙ ap (λ m. bytes m 0 (length k)) (sym is)
            ∙ content
            ∙ h,
        ground (arith, ap length h),
      ),
    )
