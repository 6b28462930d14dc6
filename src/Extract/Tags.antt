-- ===== src/Extract/Tags.antt =====
-- Which packet the extractors of Ethernet and MPLS hand out for a frame with tags.
use mediaroom.Prelude.{
  ℕ, zero, suc, ◌+◌, ◌-◌, ◌*◌, ◌≤◌, ◌<◌, ◌≡◌, refl, ap, ◌∙◌, ◌⊎◌, inl, inr, none, arith,
}
use mathlib.Core.Path.{subst}
use mediaroom.Bytes.{Memory, load16}
use mediaroom.View.{Base, get_offset, get_length, new_base, enter, make}
use mediaroom.Extract.{
  got, ip4, Parent, ntohs, type_ip4, type_vlan, type_mpls_u, type_mpls_m, extract_mpls,
  extract_vlan2, extract_vlan1, extract_eth,
}
use mediaroom.Extract.Labels.{
  Labels, SkipsAll, ip4_at, rebase-make_ip4, tag_at, make-tag_at, extract_mpls-Labels, after_stack,
}

-- At `t` there is a type field, and behind it come as many VLAN tags and MPLS labels, and an IPv4
-- header.
abbrev pub Tagged : Memory → ℕ → (vlans labels : ℕ) → Type 0
Tagged m t zero zero = load16 m t ≡ type_ip4
Tagged m t zero (suc k) =
    ((load16 m t ≡ type_mpls_u) ⊎ (load16 m t ≡ type_mpls_m)) × Labels m (t + 2) k
Tagged m t (suc v) k = (load16 m t ≡ type_vlan) × Tagged m (t + 4) v k

extract_vlan2-Tagged :
    (parent : Parent) (m : Memory) (b : Base) (n k : ℕ)
    → SkipsAll parent
    → k ≤ 3
    → n < 59000
    → Tagged m (get_offset b + n + 2) 0 k
    → extract_vlan2 parent m (tag_at b n) ≡ got ip4 (ip4_at m b (n + 4 + 4 * k))
unfolding extract_vlan2
extract_vlan2-Tagged parent m b n zero (skip, s) few small type =
    rw (skip (get_offset b + n), type)
      (ap (got ip4) (rebase-make_ip4 m (tag_at b n) (n + 4 + 4 * 0) (omega arith)))
extract_vlan2-Tagged parent m b n (suc k) (skip, s) few small (type, labels) =
    let behind =
      after_stack parent m b n k (skip, s) (omega arith) small
        (subst (λ p. Labels m p k) (omega arith) labels) in
    elim type [
      | inl e ↦
          rw (skip (get_offset b + n), e) (behind ∙ ap (λ i. got ip4 (ip4_at m b i)) (omega arith))
      | inr e ↦
          rw (skip (get_offset b + n), e) (behind ∙ ap (λ i. got ip4 (ip4_at m b i)) (omega arith))
    ]

extract_vlan1-Tagged :
    (parent : Parent) (m : Memory) (b : Base) (n v k : ℕ)
    → SkipsAll parent
    → v ≤ 1
    → k ≤ 3
    → n < 50000
    → Tagged m (get_offset b + n + 2) v k
    → extract_vlan1 parent m (tag_at b n) ≡ got ip4 (ip4_at m b (n + 4 + 4 * v + 4 * k))
unfolding extract_vlan1
extract_vlan1-Tagged parent m b n zero zero (skip, s) one few small type =
    rw (skip (get_offset b + n), type)
      (ap (got ip4) (rebase-make_ip4 m (tag_at b n) (n + 4 + 4 * 0 + 4 * 0) (omega arith)))
extract_vlan1-Tagged parent m b n zero (suc k) (skip, s) one few small (type, labels) =
    let behind =
      after_stack parent m b n k (skip, s) (omega arith) (omega arith)
        (subst (λ p. Labels m p k) (omega arith) labels) in
    elim type [
      | inl e ↦
          rw (skip (get_offset b + n), e) (behind ∙ ap (λ i. got ip4 (ip4_at m b i)) (omega arith))
      | inr e ↦
          rw (skip (get_offset b + n), e) (behind ∙ ap (λ i. got ip4 (ip4_at m b i)) (omega arith))
    ]
extract_vlan1-Tagged parent m b n (suc zero) k (skip, s) one few small (type, rest) =
    rw (skip (get_offset b + n), type)
      (ap (extract_vlan2 parent m) (make-tag_at b n (omega arith))
        ∙ extract_vlan2-Tagged parent m b (n + 4) k (skip, s) few (omega arith)
            (subst (λ t. Tagged m t 0 k) (omega arith) rest)
        ∙ ap (λ i. got ip4 (ip4_at m b i)) (omega arith))
extract_vlan1-Tagged parent m b n (suc (suc v)) k skips one few small tags = absurd (omega arith)

add_zero : (n : ℕ) → n + 0 ≡ n
add_zero n = omega arith

make-enter : (b : Base) → make (enter b 14) 4 ≡ tag_at b 14
make-enter b = refl

extract_eth-ip4_at :
    (parent : Parent) (m : Memory) (b : Base) (v k : ℕ)
    → SkipsAll parent
    → v ≤ 2
    → k ≤ 3
    → Tagged m (get_offset b + 12) v k
    → extract_eth parent m b ≡ got ip4 (ip4_at m b (14 + 4 * v + 4 * k))
unfolding extract_eth
extract_eth-ip4_at parent m b zero zero (skip, s) two few type =
    rw (add_zero (get_offset b), type)
      (ap (got ip4) (rebase-make_ip4 m (enter b 14) (14 + 4 * 0 + 4 * 0) refl))
extract_eth-ip4_at parent m b zero (suc k) (skip, s) two few (type, labels) =
    let behind =
      ap (extract_mpls parent m) (make-enter b)
      ∙ extract_mpls-Labels parent m b 14 k (skip, s) (omega arith) (omega arith)
          (subst (λ p. Labels m p k) (omega arith) labels)
      ∙ ap (λ i. got ip4 (ip4_at m b i)) (omega arith) in
    elim type [
      | inl e ↦ rw (add_zero (get_offset b), e) behind
      | inr e ↦ rw (add_zero (get_offset b), e) behind
    ]
extract_eth-ip4_at parent m b (suc v) k (skip, s) two few (type, rest) =
    rw (add_zero (get_offset b), type)
      (ap (extract_vlan1 parent m) (make-enter b)
        ∙ extract_vlan1-Tagged parent m b 14 v k (skip, s) (omega arith) few (omega arith)
            (subst (λ t. Tagged m t v k) (omega arith) rest)
        ∙ ap (λ i. got ip4 (ip4_at m b i)) (omega arith))

-- A frame with up to two VLAN tags and then up to three MPLS labels, of which the last has the
-- bottom of stack bit, in front of an IPv4 header: if no tag is refused, gotIp4 gets a pointer to
-- that header. Its length is the total length of the IPv4 header less the sizes of the tags and of
-- the Ethernet header, though these do not count towards that total. The pointer is a PacketPtr,
-- and the total is not smaller than these sizes.
pub extract_eth-Tagged :
    (parent : Parent) (m : Memory) (b : Base) (v k : ℕ)
    → SkipsAll parent
    → v ≤ 2
    → k ≤ 3
    → Tagged m (get_offset b + 12) v k
    → b.own ≡ none
    → get_offset b + 14 + 4 * v + 4 * k < 65536
    → 14 + 4 * v + 4 * k ≤ ntohs m (get_offset b + (14 + 4 * v + 4 * k) + 2)
    → ntohs m (get_offset b + (14 + 4 * v + 4 * k) + 2) < 65536
    → (b' : Base) × (extract_eth parent m b ≡ got ip4 b')
      × (get_offset b' ≡ get_offset b + 14 + 4 * v + 4 * k)
      × (get_length b' ≡ ntohs m (get_offset b' + 2) - (14 + 4 * v + 4 * k))
unfolding new_base
extract_eth-Tagged parent m b v k skips two few tags pointer inside more total =
    let n : ℕ = 14 + 4 * v + 4 * k in
    let at : get_offset (ip4_at m b n) ≡ get_offset b + n = ground arith in
    (
      ip4_at m b n,
      extract_eth-ip4_at parent m b v k skips two few tags,
      at ∙ omega arith,
      rw (at) (ground arith),
    )
