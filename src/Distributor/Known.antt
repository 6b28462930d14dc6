-- ===== src/Distributor/Known.antt =====
-- SharedFlowHandler::push and the map of the distributor: who knows a flow.
use mediaroom.Prelude.{
  ℕ, ◌<◌, ◌≡◌, refl, sym, ap, ◌∙◌, inl, inr, Bool, true, false, ◌||◌, ◌&&◌, Option, none, some,
  List, [], ◌∷◌, ◌++◌, ◌==◌, if◌then◌else◌, arith, Bool-cases,
}
use mathlib.Core.Path.{subst, ap₂}
use mediaroom.Block.{Block}
use mediaroom.FlowKey.{get_flow_idx}
use mediaroom.Distributor.{Context, Handler, lookup, new_context, push_found, push, set_handler}

abbrev pub is_some {ℓ} : {A : Type ℓ} → Option A → Bool
is_some none = false
is_some (some a) = true

abbrev pub is_at : ℕ → Option ℕ → Bool
is_at i none = false
is_at i (some j) = j == i

abbrev or_else {ℓ} : {A : Type ℓ} → Option A → Option A → Option A
or_else none o = o
or_else (some a) o = some a

lookup-append :
    {A : Type 0} (k idx : ℕ) (a : A) (m : List (ℕ × A))
    → lookup k (m ++ ((idx, a) ∷ [])) ≡ or_else (lookup k m) (if idx == k then some a else none)
unfolding lookup
lookup-append k idx a [] = refl
lookup-append k idx a ((j, c) ∷ m) = elim (Bool-cases (j == k)) [
  | inl e ↦ rw (e) refl
  | inr e ↦ rw (e) (lookup-append k idx a m)
]

or-false : (b : Bool) → (b || false) ≡ b
or-false true = refl
or-false false = refl

or-true : (b : Bool) → (b || true) ≡ true
or-true true = refl
or-true false = refl

same : (a b : ℕ) → (a == b) ≡ true → a ≡ b
same a b h = ground arith

added :
    (o : Option Context) (t : Bool) (c : Context)
    → is_some (or_else o (if t then some c else none)) ≡ (is_some o || t)
added (some a) t c = refl
added none true c = refl
added none false c = refl

-- A handler that is given a flow knows it, and the flows that it knew.
push_found-known :
    (now idx k : ℕ) (b : Block) (found : Option Context) (h : Handler)
    → found ≡ lookup idx h
    → is_some (lookup k (push_found now idx b found h)) ≡ (is_some (lookup k h) || (idx == k))
push_found-known now idx k b (some c) h e = elim (Bool-cases (idx == k)) [
  | inl t ↦
      let knows : is_some (lookup k h) ≡ true =
        ap (λ n. is_some (lookup n h)) (sym (same idx k t)) ∙ ap is_some (sym e) in
      rw (t, knows) refl
  | inr t ↦ rw (t) (sym (or-false (is_some (lookup k h))))
]
push_found-known now idx k b none h e =
    ap is_some (lookup-append k idx (new_context now b.type) h)
    ∙ added (lookup k h) (idx == k) (new_context now b.type)

push-known :
    (now key k : ℕ) (b : Block) (h : Handler)
    → is_some (lookup k (push now key b h)) ≡ (is_some (lookup k h) || (get_flow_idx key == k))
unfolding push
push-known now key k b h =
    push_found-known now (get_flow_idx key) k b (lookup (get_flow_idx key) h) h refl

-- The flow of `key` is pushed to the handler `i`, and `assigned'` says so.
module _ (now key i n : ℕ) (b : Block) (handlers : ℕ → Handler) (assigned assigned' : List (ℕ × ℕ))
    (known : (j k : ℕ) → j < n → is_some (lookup k (handlers j)) ≡ is_at j (lookup k assigned))
    (more : (j k : ℕ)
      → is_at j (lookup k assigned')
        ≡ (is_at j (lookup k assigned) || ((i == j) && (get_flow_idx key == k)))) where
  pub known-push :
      (j k : ℕ)
      → j < n
      → is_some (lookup k (set_handler handlers i (push now key b (handlers i)) j))
        ≡ is_at j (lookup k assigned')
  known-push j k h = elim (Bool-cases (i == j)) [
    | inl t ↦ rw (t) (
        push-known now key k b (handlers i)
        ∙ ap₂ (λ x y. x || y) (ap (λ m. is_some (lookup k (handlers m))) (same i j t) ∙ known j k h)
            refl
        ∙ sym (more j k ∙ rw (t) refl))
    | inr t ↦
        rw (t) (known j k h ∙ sym (more j k ∙ rw (t) (or-false (is_at j (lookup k assigned)))))
  ]

never : (x y : Bool) → x ≡ (x || (y && false))
never true y = refl
never false true = refl
never false false = refl

again : (y : Bool) → y ≡ (y || (y && true))
again true = refl
again false = refl

only : (y : Bool) → y ≡ (y && true)
only true = refl
only false = refl

nothing_more : (j : ℕ) (o : Option ℕ) → is_at j (or_else o none) ≡ is_at j o
nothing_more j none = refl
nothing_more j (some i) = refl

-- A flow that has its handler.
pub more-found :
    (idx i : ℕ) (assigned : List (ℕ × ℕ))
    → lookup idx assigned ≡ some i
    → (j k : ℕ)
    → is_at j (lookup k assigned) ≡ (is_at j (lookup k assigned) || ((i == j) && (idx == k)))
more-found idx i assigned e j k = elim (Bool-cases (idx == k)) [
  | inr t ↦ rw (t) (never (is_at j (lookup k assigned)) (i == j))
  | inl t ↦
      let here : lookup k assigned ≡ some i =
        ap (λ n. lookup n assigned) (sym (same idx k t)) ∙ e in
      rw (t, here) (again (i == j))
]

-- A flow that gets one.
pub more-next :
    (idx i : ℕ) (assigned : List (ℕ × ℕ))
    → lookup idx assigned ≡ none
    → (j k : ℕ)
    → is_at j (lookup k (assigned ++ ((idx, i) ∷ [])))
      ≡ (is_at j (lookup k assigned) || ((i == j) && (idx == k)))
more-next idx i assigned e j k = elim (Bool-cases (idx == k)) [
  | inl t ↦
      let here : lookup k assigned ≡ none = ap (λ n. lookup n assigned) (sym (same idx k t)) ∙ e in
      ap (is_at j) (lookup-append k idx i assigned) ∙ rw (t, here) (only (i == j))
  | inr t ↦
      ap (is_at j) (lookup-append k idx i assigned)
      ∙ rw (t) (nothing_more j (lookup k assigned) ∙ never (is_at j (lookup k assigned)) (i == j))
]

or_zero : Option ℕ → ℕ
or_zero none = 0
or_zero (some j) = j

none-some : (j : ℕ) → none ≡ some j → ⊥
none-some j e = subst (λ (o : Option ℕ). elim o [ none ↦ Unit {0} | some _ ↦ ⊥ ]) e tt

pub placed-next :
    (idx i n : ℕ) (assigned : List (ℕ × ℕ))
    → i < n
    → ((k j : ℕ) → lookup k assigned ≡ some j → j < n)
    → (k j : ℕ) → lookup k (assigned ++ ((idx, i) ∷ [])) ≡ some j
    → j < n
unfolding or_zero
placed-next idx i n assigned h placed k j e =
    placed-cases k j (lookup k assigned) refl (sym (lookup-append k idx i assigned) ∙ e)
  where
    placed-cases :
        (k j : ℕ) (o : Option ℕ)
        → o ≡ lookup k assigned
        → or_else o (if idx == k then some i else none) ≡ some j
        → j < n
    placed-cases k j (some a) f g = placed k j (sym f ∙ g)
    placed-cases k j none f g = elim (Bool-cases (idx == k)) [
      | inl t ↦ subst (λ m. m < n) (ap or_zero (rw (t) at g)) h
      | inr t ↦ absurd (none-some j (rw (t) at g))
    ]
