-- ===== src/Layers/Push/Uncounted.antt =====
-- SCTP chunks: pushSctpChunk adds a layer without counting it.
use mediaroom.Prelude.{
  ℕ, suc, ◌+◌, ◌%◌, ◌≤◌, ◌<◌, ◌≡◌, ◌≢◌, ◌∙◌, inl, inr, sym, Option, some, none, List, [], ◌∷◌,
  arith, map, length, Option-cases,
}
use mathlib.Core.Path.{subst}
use mediaroom.Bytes.{Memory}
use mediaroom.Layers.{Details, Limits, encode}
use mediaroom.Layers.Push.{Header, push_all, push, append_layer}

abbrev pub Within : ℕ → List ℕ → Type 0
Within n [] = Unit {0}
Within n (o ∷ os) = (o ≤ n) × Within n os

-- What is the same, and how `layersCnt` moves, after `n` chunks.
pub record Grown (n : ℕ) (d d' : Details) : Type 0 where
  pub cnt : d'.layers_cnt ≡ (d.layers_cnt + n) % 256
  pub same2 : d'.layers2_cnt ≡ d.layers2_cnt
  pub same3 : d'.layers3_cnt ≡ d.layers3_cnt
  pub same4 : d'.layers4_cnt ≡ d.layers4_cnt
  pub same_more4 : d'.more4_layers ≡ d.more4_layers

abbrev pub Grew : ℕ → Details → Option Details → Type 0
Grew n d none = ⊥
Grew n d (some d') = Grown n d d'

after :
    (n : ℕ) (d d₁ : Details) (r : Option Details) → Grown 1 d d₁ → Grew n d₁ r → Grew (suc n) d r
after n d d₁ none g h = h
after n d d₁ (some d') g h = ground arith

chunk-Grew :
    (l : Limits) (p : Memory) (o : ℕ) (d : Details)
    → o ≤ 0x3FFF
    → d.layers4_cnt ≢ l.layers4
    → Grew 1 d (push l p (Header.sctp_chunk o) d)
unfolding push append_layer encode
chunk-Grew l p o d h ne = ground arith

-- However many chunks a packet has, each is added as one more layer, while the counters that
-- getLayersCnt adds up stay as they were, and nothing marks that layers are left out.
pub chunks-Grew :
    (l : Limits) (p : Memory) (os : List ℕ) (d : Details)
    → Within 0x3FFF os
    → d.layers_cnt < 256
    → d.layers4_cnt ≢ l.layers4
    → Grew (length os) d (push_all l p (map Header.sctp_chunk os) d)
unfolding push_all
chunks-Grew l p [] d h b ne = ground arith
chunks-Grew l p (o ∷ os) d (h, hs) b ne = elim (Option-cases (push l p (Header.sctp_chunk o) d)) [
  | inl e ↦ absurd (subst (Grew 1 d) e (chunk-Grew l p o d h ne))
  | inr (d₁, e) ↦
      let g = subst (Grew 1 d) e (chunk-Grew l p o d h ne) in
      rw (e, push_all)
        (after (length os) d d₁ _ g
          (chunks-Grew l p os d₁ hs (ground arith) (λ q. ne (sym g.same4 ∙ q))))
]
