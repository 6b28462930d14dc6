-- ===== src/Layers/Print/Numbers.antt =====
-- PacketDetails: the numbers of a printed address, read again.
use mediaroom.Prelude.{
  append_assoc, append-nil, ℕ, zero, suc, ◌+◌, ◌-◌, ◌*◌, ◌/◌, ◌%◌, ◌^◌, ◌≤◌, ◌<◌, ◌≡◌, inl, inr,
  refl, sym, ap, ◌∙◌, true, false, ◌&&◌, List, [], ◌∷◌, ◌++◌, ltb, leb, ltb→lt, Bool-cases, arith,
}
use mediaroom.Layers.Print.{digits, decimal, ip_text, swap16, port_text}

-- The numbers of a text, each ended by one character that is no digit; `n` is what was read of
-- the first.
unfoldable pub numbers : ℕ → List ℕ → List ℕ
numbers n [] = n ∷ []
numbers n (c ∷ cs) = elim (leb 48 c && leb c 57) [
  | true ↦ numbers (n * 10 + (c - 48)) cs
  | false ↦ n ∷ numbers 0 cs
]

numbers-digit :
    (n c : ℕ) (cs : List ℕ) → c < 10 → numbers n ((48 + c) ∷ cs) ≡ numbers (n * 10 + c) cs
unfolding numbers
numbers-digit n c cs h = ground arith

digits-small : (fuel n : ℕ) → n < 10 → digits (suc fuel) n ≡ (48 + n) ∷ []
unfolding digits
digits-small fuel n h = ground arith

digits-large :
    (fuel n : ℕ) → 10 ≤ n → digits (suc fuel) n ≡ digits fuel (n / 10) ++ ((48 + n % 10) ∷ [])
unfolding digits
digits-large fuel n h = ground arith

pub numbers-digits :
    (fuel n : ℕ) (s : List ℕ)
    → n < 10 ^ suc fuel
    → numbers 0 (digits (suc fuel) n ++ s) ≡ numbers n s
numbers-digits zero n s h =
    ap (λ t. numbers 0 (t ++ s)) (digits-small 0 n (omega arith))
    ∙ numbers-digit 0 n s (omega arith)
    ∙ ap (λ k. numbers k s) (omega arith)
numbers-digits (suc fuel) n s h = elim (Bool-cases (ltb n 10)) [
  | inl e ↦
      ap (λ t. numbers 0 (t ++ s)) (digits-small (suc fuel) n (ltb→lt n 10 e))
      ∙ numbers-digit 0 n s (ltb→lt n 10 e)
      ∙ ap (λ k. numbers k s) (omega arith)
  | inr e ↦
      ap (λ t. numbers 0 (t ++ s)) (digits-large (suc fuel) n (ground arith))
      ∙ ap (numbers 0) (append_assoc (digits (suc fuel) (n / 10)) ((48 + n % 10) ∷ []) s)
      ∙ numbers-digits fuel (n / 10) ((48 + n % 10) ∷ s) (omega arith)
      ∙ numbers-digit (n / 10) (n % 10) s (omega arith)
      ∙ ap (λ k. numbers k s) (omega arith)
]

numbers-decimal : (n : ℕ) (s : List ℕ) → n < 10 ^ 10 → numbers 0 (decimal n ++ s) ≡ numbers n s
numbers-decimal n s h = numbers-digits 9 n s h

-- A separator ends the number.
numbers-stop :
    (n c : ℕ) (s : List ℕ) → (leb 48 c && leb c 57) ≡ false → numbers n (c ∷ s) ≡ n ∷ numbers 0 s
unfolding numbers
numbers-stop n c s h = rw (h, numbers) refl

numbers-part :
    (n c : ℕ) (t r : List ℕ)
    → n < 10 ^ 10
    → (leb 48 c && leb c 57) ≡ false
    → numbers 0 ((decimal n ++ (c ∷ t)) ++ r) ≡ n ∷ numbers 0 (t ++ r)
numbers-part n c t r h k =
    ap (numbers 0) (append_assoc (decimal n) (c ∷ t) r)
    ∙ numbers-decimal n (c ∷ (t ++ r)) h
    ∙ numbers-stop n c (t ++ r) k

numbers-last : (n : ℕ) → n < 10 ^ 10 → numbers 0 (decimal n) ≡ n ∷ []
unfolding numbers
numbers-last n h = ap (numbers 0) (sym (append-nil (decimal n))) ∙ numbers-decimal n [] h

-- The text of an address and of a port, read again.
pub numbers-address :
    (ip port : ℕ)
    → numbers 0 (ip_text ip ++ port_text port)
      ≡ (ip % 2 ^ 8)
        ∷ (ip % 2 ^ 16 / 2 ^ 8)
        ∷ (ip % 2 ^ 24 / 2 ^ 16)
        ∷ (ip % 2 ^ 32 / 2 ^ 24)
        ∷ swap16 port
        ∷ []
numbers-address ip port =
    let a : ℕ = ip % 2 ^ 8 in
    let b : ℕ = ip % 2 ^ 16 / 2 ^ 8 in
    let c : ℕ = ip % 2 ^ 24 / 2 ^ 16 in
    let d : ℕ = ip % 2 ^ 32 / 2 ^ 24 in
    let r : List ℕ = port_text port in
    numbers-part a b'.' (decimal b ++ (b'.' ∷ (decimal c ++ (b'.' ∷ decimal d)))) r (omega arith)
      refl
    ∙ ap (λ l. a ∷ l)
        (numbers-part b b'.' (decimal c ++ (b'.' ∷ decimal d)) r (omega arith) refl
          ∙ ap (λ l. b ∷ l)
              (numbers-part c b'.' (decimal d) r (omega arith) refl
                ∙ ap (λ l. c ∷ l)
                    (numbers-decimal d r (omega arith)
                      ∙ numbers-stop d b':' (decimal (swap16 port)) refl
                      ∙ ap (λ l. d ∷ l) (numbers-last (swap16 port) (omega arith)))))
