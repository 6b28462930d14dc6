-- ===== src/Client/Writes.antt =====
-- What SharedSocket::write sends, and what the calls of a client answer.
use mediaroom.Prelude.{
  ℕ, zero, suc, ◌≡◌, ◌≢◌, refl, ap, ◌∙◌, inl, inr, false, Option, none, some, List, [], ◌∷◌, ◌++◌,
  arith, ltb, ◌==◌, Bool-cases, length, take,
}
use mathlib.Core.List.{append_assoc}
use mediaroom.Client.{
  Sent, failed, took, Written, error, wrote, blocks, drop_sent, write_loop, write, to_bool,
}

-- What was sent is the beginning of the data, and all of them where a number is returned, which is
-- not zero.
abbrev pub Delivered : List ℕ → Written × List ℕ → Type 0
Delivered xs (error, out) = (rest : List ℕ) × (out ++ rest ≡ xs)
Delivered xs (blocks, out) = (rest : List ℕ) × (out ++ rest ≡ xs)
Delivered xs (wrote n, out) = (out ≡ xs) × (n ≢ 0)

take-drop_sent : (n : ℕ) (xs : List ℕ) → take n xs ++ drop_sent n xs ≡ xs
take-drop_sent zero xs = refl
take-drop_sent (suc n) [] = refl
take-drop_sent (suc n) (x ∷ xs) = ap (λ ys. x ∷ ys) (take-drop_sent n xs)

Delivered-later :
    (n : ℕ) (xs : List ℕ) (r : Written × List ℕ)
    → Delivered (drop_sent n xs) r
    → Delivered xs (r.0, take n xs ++ r.1)
Delivered-later n xs (error, out) (rest, e) =
    (rest, append_assoc (take n xs) out rest ∙ ap (λ ys. take n xs ++ ys) e ∙ take-drop_sent n xs)
Delivered-later n xs (blocks, out) (rest, e) =
    (rest, append_assoc (take n xs) out rest ∙ ap (λ ys. take n xs ++ ys) e ∙ take-drop_sent n xs)
Delivered-later n xs (wrote k, out) (e, ne) =
    (ap (λ ys. take n xs ++ ys) e ∙ take-drop_sent n xs, ne)

write_loop-Delivered : (xs : List ℕ) (rs : List Sent) → Delivered xs (write_loop xs rs)
unfolding write_loop
write_loop-Delivered xs [] = elim (Bool-cases (length xs == 0)) [
  | inl e ↦ rw (e) (xs, refl)
  | inr e ↦ rw (e) (xs, refl)
]
write_loop-Delivered xs (failed ∷ rs) = (xs, refl)
write_loop-Delivered xs (took n ∷ rs) =
    let later =
      Delivered-later n xs (write_loop (drop_sent n xs) rs)
        (write_loop-Delivered (drop_sent n xs) rs) in
    let passed = write_loop-Delivered xs rs in
    elim (Bool-cases (length xs == 0)) [
      | inl e ↦ rw (e) (xs, refl)
      | inr e ↦ elim (Bool-cases (n == length xs)) [
        | inl f ↦ rw (e, f) (refl, ground arith)
        | inr f ↦ elim (Bool-cases (ltb n (length xs))) [
          | inl g ↦ rw (e, f, g) later
          | inr g ↦ rw (e, f, g) passed
        ]
      ]
    ]

not_false : (xs : List ℕ) (r : Written × List ℕ) → Delivered xs r → to_bool r.0 ≢ some false
unfolding to_bool
not_false xs (error, out) d e = cc
not_false xs (blocks, out) d e = cc
not_false xs (wrote n, out) (d, ne) e = ground arith

-- However send splits the bytes, what SharedSocket::write has sent is the beginning of the data in
-- their order, and where it returns a number, which is not zero, all of them. A call of a client
-- that returns this as a bool says true whenever it returns: also where nothing was sent.
pub write-Delivered :
    (sock : Option ℕ) (xs : List ℕ) (rs : List Sent)
    → Delivered xs (write sock xs rs) × (to_bool (write sock xs rs).0 ≢ some false)
unfolding write to_bool
write-Delivered none xs rs = ((xs, refl), λ e. cc)
write-Delivered (some sock) xs rs =
    (write_loop-Delivered xs rs, not_false xs (write_loop xs rs) (write_loop-Delivered xs rs))
