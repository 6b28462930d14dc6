-- ===== src/Layers/Push/Counts.antt =====
-- The layer counters of PacketDetails under the push functions.
use mediaroom.Prelude.{
  ℕ, ◌+◌, ◌≤◌, ◌<◌, ◌≡◌, ◌≢◌, inl, inr, refl, sym, ◌∙◌, Bool, true, false, Option, some, none, List,
  [], ◌∷◌, arith, Option-cases, not, ◌==◌, if◌then◌else◌,
}
use native.Mathlib.Decide.{ℕ_discrete}
use mathlib.Core.Path.{subst}
use mediaroom.Bytes.{Memory}
use mediaroom.Layers.{Details, Limits, LayerType, init, encode}
use mediaroom.Layers.Push.{
  Header, Every, append_layer, replace_layer, push, push_all, count2, count3, count4, more2, more3,
  more4, hash,
}

-- The limits leave room in the counter, and each lets one layer in.
pub record Fair (l : Limits) : Type 0 where
  pub sum : l.layers2 + l.layers3 + l.layers4 ≤ 255
  pub some3 : 0 < l.layers3
  pub some4 : 0 < l.layers4

-- Each counter is within its limit, and together they count the layers.
pub record Counted (l : Limits) (d : Details) : Type 0 where
  pub in2 : d.layers2_cnt ≤ l.layers2
  pub in3 : d.layers3_cnt ≤ l.layers3
  pub in4 : d.layers4_cnt ≤ l.layers4
  pub sum : d.layers_cnt ≡ d.layers2_cnt + d.layers3_cnt + d.layers4_cnt

-- The header's address stands within the largest packet, so that its offset can be encoded.
abbrev pub Encodable : Header → Type 0
Encodable (Header.eth o _) = o + 6 ≤ 0x3FFF
Encodable (Header.vlan o _) = o ≤ 0x3FFF
Encodable (Header.mpls o _) = o ≤ 0x3FFF
Encodable (Header.ip4 o _) = o + 12 ≤ 0x3FFF
Encodable (Header.mtp o) = o + 4 ≤ 0x3FFF
Encodable (Header.mtp3 o) = o + 1 ≤ 0x3FFF
Encodable (Header.isup o) = o ≤ 0x3FFF
Encodable (Header.tcp o) = o ≤ 0x3FFF
Encodable (Header.udp o) = o ≤ 0x3FFF
Encodable (Header.sctp o) = o ≤ 0x3FFF
Encodable (Header.sctp_chunk o) = o ≤ 0x3FFF
Encodable (Header.m2ua o) = o ≤ 0x3FFF
Encodable (Header.m3ua _ o opc) = o + opc ≤ 0x3FFF

-- The push function of the header counts the layer that it adds.
abbrev pub Counts : Header → Type 0
Counts (Header.sctp_chunk _) = ⊥
Counts (Header.m2ua _) = ⊥
Counts _ = Unit {0}

-- A push function does not fail, and leaves counted layers.
abbrev pub Pushed : Limits → Option Details → Type 0
Pushed l none = ⊥
Pushed l (some d) = Counted l d

module _ (l : Limits) (fair : Fair l) where
  append2 :
      (type : LayerType) (o : ℕ) (mix : Bool) (d : Details)
      → o ≤ 0x3FFF
      → Counted l d
      → d.layers2_cnt ≢ l.layers2
      → Pushed l (count2 (append_layer type o mix d))
  unfolding append_layer encode
  append2 type o mix d h c ne = ground arith

  append3 :
      (type : LayerType) (o : ℕ) (mix : Bool) (d : Details)
      → o ≤ 0x3FFF
      → Counted l d
      → d.layers3_cnt ≢ l.layers3
      → Pushed l (count3 (append_layer type o mix d))
  unfolding append_layer encode
  append3 type o mix d h c ne = ground arith

  append4 :
      (type : LayerType) (o : ℕ) (mix : Bool) (d : Details)
      → o ≤ 0x3FFF
      → Counted l d
      → d.layers4_cnt ≢ l.layers4
      → Pushed l (count4 (append_layer type o mix d))
  unfolding append_layer encode
  append4 type o mix d h c ne = ground arith

  replace3 :
      (type : LayerType) (o : ℕ) (d : Details)
      → o ≤ 0x3FFF
      → Counted l d
      → d.layers3_cnt ≡ l.layers3
      → Pushed l (more3 (replace_layer type o d))
  unfolding replace_layer encode
  replace3 type o d h c full = ground arith

  replace4 :
      (type : LayerType) (o : ℕ) (d : Details)
      → o ≤ 0x3FFF
      → Counted l d
      → d.layers4_cnt ≡ l.layers4
      → Pushed l (more4 (replace_layer type o d))
  unfolding replace_layer encode
  replace4 type o d h c full = ground arith

  -- The shapes of the push functions, over the details `e` that they hash into.
  layer2 :
      (type : LayerType) (o : ℕ) (mix : Bool) (d e : Details)
      → o ≤ 0x3FFF
      → Counted l d
      → Counted l e
      → e.layers2_cnt ≡ d.layers2_cnt
      → Pushed l (
          if not (d.layers2_cnt == l.layers2)
          then count2 (append_layer type o mix e)
          else some (more2 d))
  layer2 type o mix d e h c c' same = elim (ℕ_discrete d.layers2_cnt l.layers2) [
    | yes full ↦ ground arith
    | no ne ↦ ground (arith, append2 type o mix e h c' (λ q. ne (sym same ∙ q)))
  ]

  layer3 :
      (type : LayerType) (o : ℕ) (mix : Bool) (d e f : Details)
      → o ≤ 0x3FFF
      → Counted l e
      → Counted l f
      → e.layers3_cnt ≡ d.layers3_cnt
      → f.layers3_cnt ≡ d.layers3_cnt
      → Pushed l (
          if not (d.layers3_cnt == l.layers3)
          then count3 (append_layer type o mix e)
          else more3 (replace_layer type o f))
  layer3 type o mix d e f h c c' se sf = elim (ℕ_discrete d.layers3_cnt l.layers3) [
    | yes full ↦ ground (arith, replace3 type o f h c' (sf ∙ full))
    | no ne ↦ ground (arith, append3 type o mix e h c (λ q. ne (sym se ∙ q)))
  ]

  layer4 :
      (type : LayerType) (o : ℕ) (d e : Details)
      → o ≤ 0x3FFF
      → Counted l e
      → e.layers4_cnt ≡ d.layers4_cnt
      → Pushed l (
          if not (d.layers4_cnt == l.layers4)
          then count4 (append_layer type o false e)
          else more4 (replace_layer type o e))
  layer4 type o d e h c se = elim (ℕ_discrete d.layers4_cnt l.layers4) [
    | yes full ↦ ground (arith, replace4 type o e h c (se ∙ full))
    | no ne ↦ ground (arith, append4 type o false e h c (λ q. ne (sym se ∙ q)))
  ]

  layer_m3ua :
      (o : ℕ) (d e : Details)
      → o ≤ 0x3FFF
      → Counted l e
      → e.layers4_cnt ≡ d.layers4_cnt
      → Pushed l (
          if not (d.layers4_cnt == l.layers4)
          then count4 (append_layer LayerType.m3ua o false e)
          else some e)
  layer_m3ua o d e h c se = elim (ℕ_discrete d.layers4_cnt l.layers4) [
    | yes full ↦ ground arith
    | no ne ↦ ground (arith, append4 LayerType.m3ua o false e h c (λ q. ne (sym se ∙ q)))
  ]

  hashed_or :
      (mix : Bool) (v w : ℕ) (d : Details)
      → Counted l d
      → Counted l (if mix then d else hash v (hash w d))
  hashed_or true v w d c = c
  hashed_or false v w d c = omega arith

  -- Each push function but those of SCTP chunks and M2UA keeps the layers counted.
  pub push-Pushed :
      (p : Memory) (h : Header) (d : Details)
      → Encodable h
      → Counts h
      → Counted l d
      → Pushed l (push l p h d)
  unfolding push
  push-Pushed p (Header.eth o mix) d h k c =
      layer2 LayerType.eth (o + 6) mix d _ h c (hashed_or mix _ _ d c) (ground arith)
  push-Pushed p (Header.vlan o mix) d h k c =
      layer2 LayerType.vlan o mix d _ h c (hashed_or mix _ _ d c) (ground arith)
  push-Pushed p (Header.mpls o mix) d h k c =
      layer2 LayerType.mpls o mix d _ h c (hashed_or mix _ _ d c) (ground arith)
  push-Pushed p (Header.ip4 o true) d h k c =
      layer3 LayerType.ip4 (o + 12) true d _ _ h (omega arith) (omega arith) refl refl
  push-Pushed p (Header.ip4 o false) d h k c =
      layer3 LayerType.ip4 (o + 12) false d _ _ h (omega arith) (omega arith) refl refl
  push-Pushed p (Header.mtp o) d h k c =
      layer3 LayerType.mtp (o + 4) false d _ _ h (omega arith) (omega arith) refl refl
  push-Pushed p (Header.mtp3 o) d h k c =
      layer3 LayerType.mtp3 (o + 1) false d _ _ h (omega arith) (omega arith) refl refl
  push-Pushed p (Header.isup o) d h k c = layer4 LayerType.isup o d _ h (omega arith) refl
  push-Pushed p (Header.tcp o) d h k c = layer4 LayerType.tcp o d _ h (omega arith) refl
  push-Pushed p (Header.udp o) d h k c = layer4 LayerType.udp o d _ h (omega arith) refl
  push-Pushed p (Header.sctp o) d h k c = layer4 LayerType.sctp o d _ h (omega arith) refl
  push-Pushed p (Header.sctp_chunk o) d h k c = absurd k
  push-Pushed p (Header.m2ua o) d h k c = absurd k
  push-Pushed p (Header.m3ua base o opc) d h k c =
      layer_m3ua (o + opc) d _ h (ground arith) (ground arith)

  -- Under limits that add up to at most 255 and let in one layer of the third and of the fourth
  -- kind, and from counted layers, as `init` leaves them: any headers that are pushed, other than
  -- SCTP chunks and M2UA, with all addresses at most 0x3FFF bytes into the packet, are pushed
  -- without a failure. Each counter stays within its limit, and the counter of all layers is the
  -- sum of the three.
  pub push_all-Counted :
      (p : Memory) (hs : List Header) (d : Details)
      → Every Encodable hs
      → Every Counts hs
      → Counted l d
      → (d' : Details) × (push_all l p hs d ≡ some d') × Counted l d'
  unfolding push_all
  push_all-Counted p [] d h k c = (d, refl, c)
  push_all-Counted p (x ∷ hs) d (h, more) (k, ks) c = elim (Option-cases (push l p x d)) [
    | inl e ↦ absurd (subst (Pushed l) e (push-Pushed p x d h k c))
    | inr (d₁, e) ↦
        let (d', r, c') =
          push_all-Counted p hs d₁ more ks (subst (Pushed l) e (push-Pushed p x d h k c)) in
        (d', rw (e, push_all) r, c')
  ]

  pub init-Counted : (d : Details) → Counted l (init d)
  unfolding init
  init-Counted d = omega arith
