-- ===== src/Extract/Labels.antt =====
-- MPLS labels in front of an IPv4 header.
use mediaroom.Prelude.{ℕ, zero, suc, ◌+◌, ◌-◌, ◌*◌, ◌<◌, ◌≡◌, refl, ap, ◌∙◌, true, arith}
use mathlib.Core.Path.{subst}
use mediaroom.Bytes.{Memory}
use mediaroom.View.{Base, get_offset, get_length, new_base, Layer, make, hdr, full_size, rebase}
use mediaroom.Extract.{
  Outcome, got, ip4, eth, Parent, ntohs, make_ip4, get_bs, mpls_level, extract_mpls3, extract_mpls2,
  extract_mpls,
}

-- At `p` there is a label and `more` others behind it, the last one with the bottom of stack bit.
abbrev pub Labels : Memory → ℕ → ℕ → Type 0
Labels m p zero = get_bs m p ≡ 1
Labels m p (suc more) = (get_bs m p ≡ 0) × Labels m (p + 4) more

abbrev pub SkipsAll : Parent → Type 0
SkipsAll parent = ((p : ℕ) → parent.skip_vlan p ≡ true) × ((p : ℕ) → parent.skip_mpls p ≡ true)

-- The pointer to an IPv4 header, `n` bytes behind the one of `b`.
abbrev pub ip4_at : Memory → Base → ℕ → Base
ip4_at m b n = new_base b (ntohs m (get_offset b + n + 2) + 65536 - n) (get_offset b + n)

pub rebase-make_ip4 :
    (m : Memory) (l : Layer) (n : ℕ) → full_size l ≡ n → rebase (make_ip4 m l) ≡ ip4_at m l.base n
unfolding rebase
rebase-make_ip4 m l n e = rw (e) refl

-- The last label.
mpls_level-last :
    (parent : Parent) (m : Memory) (more : Layer → Outcome) (l : Layer) (n : ℕ)
    → SkipsAll parent
    → get_bs m (hdr l) ≡ 1
    → full_size l ≡ n
    → mpls_level parent m more l ≡ got ip4 (ip4_at m l.base n)
unfolding mpls_level
mpls_level-last parent m more l n (_, skip) last e =
    rw (skip (hdr l), last) (ap (got ip4) (rebase-make_ip4 m l n e))

mpls_level-more :
    (parent : Parent) (m : Memory) (more : Layer → Outcome) (l : Layer)
    → SkipsAll parent
    → get_bs m (hdr l) ≡ 0
    → mpls_level parent m more l ≡ more l
unfolding mpls_level
mpls_level-more parent m more l (_, skip) bs = rw (skip (hdr l), bs) refl

-- The layer of a tag that stands `n` bytes behind the pointer.
abbrev pub tag_at : Base → ℕ → Layer
tag_at b n = record { base = b; below = n; size = 4; len = get_length b }

pub make-tag_at : (b : Base) (n : ℕ) → n < 65000 → make (tag_at b n) 4 ≡ tag_at b (n + 4)
make-tag_at b n small = ap (tag_at b) (omega arith)

extract_mpls3-Labels :
    (parent : Parent) (m : Memory) (b : Base) (n : ℕ)
    → SkipsAll parent
    → n < 65000
    → Labels m (get_offset b + n) 0
    → extract_mpls3 parent m (tag_at b n) ≡ got ip4 (ip4_at m b (n + 4))
unfolding extract_mpls3
extract_mpls3-Labels parent m b n skips small last =
    mpls_level-last parent m (λ l. got eth (rebase (make l 14))) (tag_at b n) (n + 4) skips last
      (omega arith)

extract_mpls2-Labels :
    (parent : Parent) (m : Memory) (b : Base) (n k : ℕ)
    → SkipsAll parent
    → k < 2
    → n < 64000
    → Labels m (get_offset b + n) k
    → extract_mpls2 parent m (tag_at b n) ≡ got ip4 (ip4_at m b (n + 4 * (k + 1)))
unfolding extract_mpls2
extract_mpls2-Labels parent m b n zero skips few small last =
    mpls_level-last parent m (λ l. extract_mpls3 parent m (make l 4)) (tag_at b n) (n + 4 * 1) skips
      last (omega arith)
extract_mpls2-Labels parent m b n (suc zero) skips few small (first, last) =
    mpls_level-more parent m (λ l. extract_mpls3 parent m (make l 4)) (tag_at b n) skips first
    ∙ ap (extract_mpls3 parent m) (make-tag_at b n (omega arith))
    ∙ extract_mpls3-Labels parent m b (n + 4) skips (omega arith)
        (subst (λ p. Labels m p 0) (omega arith) last)
    ∙ ap (λ i. got ip4 (ip4_at m b i)) (omega arith)
extract_mpls2-Labels parent m b n (suc (suc k)) skips few small labels = absurd (omega arith)

pub extract_mpls-Labels :
    (parent : Parent) (m : Memory) (b : Base) (n k : ℕ)
    → SkipsAll parent
    → k < 3
    → n < 60000
    → Labels m (get_offset b + n) k
    → extract_mpls parent m (tag_at b n) ≡ got ip4 (ip4_at m b (n + 4 * (k + 1)))
unfolding extract_mpls
extract_mpls-Labels parent m b n zero skips few small last =
    mpls_level-last parent m (λ l. extract_mpls2 parent m (make l 4)) (tag_at b n) (n + 4 * 1) skips
      last (omega arith)
extract_mpls-Labels parent m b n (suc k) skips few small (first, labels) =
    mpls_level-more parent m (λ l. extract_mpls2 parent m (make l 4)) (tag_at b n) skips first
    ∙ ap (extract_mpls2 parent m) (make-tag_at b n (omega arith))
    ∙ extract_mpls2-Labels parent m b (n + 4) k skips (omega arith) (omega arith)
        (subst (λ p. Labels m p k) (omega arith) labels)
    ∙ ap (λ i. got ip4 (ip4_at m b i)) (omega arith)

-- MPLS labels behind a tag that stands at `n`.
pub after_stack :
    (parent : Parent) (m : Memory) (b : Base) (n k : ℕ)
    → SkipsAll parent
    → k < 3
    → n < 59000
    → Labels m (get_offset b + n + 4) k
    → extract_mpls parent m (make (tag_at b n) 4) ≡ got ip4 (ip4_at m b (n + 4 + 4 * (k + 1)))
after_stack parent m b n k skips few small labels =
    ap (extract_mpls parent m) (make-tag_at b n (omega arith))
    ∙ extract_mpls-Labels parent m b (n + 4) k skips few (omega arith)
        (subst (λ p. Labels m p k) (omega arith) labels)
