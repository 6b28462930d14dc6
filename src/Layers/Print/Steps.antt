-- ===== src/Layers/Print/Steps.antt =====
-- PacketDetails: what the steps of a print function add to the buffer.
use mediaroom.Prelude.{
  take-more, ℕ, zero, suc, ◌+◌, ◌-◌, ◌/◌, ◌%◌, ◌^◌, ◌≤◌, ◌<◌, ◌≡◌, inl, inr, sym, ap, Option, none,
  some, List, [], ◌∷◌, ◌++◌, ltb, ltb→lt, Bool-cases, ◌==◌, length, length-append, arith,
}
use mathlib.Core.Path.{subst}
use mediaroom.Layers.{no_layer}
use mediaroom.Layers.Print.{
  Buffer, buffer_size, digits, decimal, append, ip_text, swap16, port_text, print_at, ◌>>=◌,
}

length-digits-small : (fuel n : ℕ) → n < 10 → length (digits (suc fuel) n) ≡ 1
unfolding digits
length-digits-small fuel n h = ground arith

length-digits-large :
    (fuel n : ℕ) → 10 ≤ n → length (digits (suc fuel) n) ≡ length (digits fuel (n / 10)) + 1
unfolding digits
length-digits-large fuel n h =
    ground (arith, length-append (digits fuel (n / 10)) ((48 + n % 10) ∷ []))

digits-none : (n k : ℕ) → length (digits zero n) ≤ suc k
unfolding digits
digits-none n k = omega arith

-- A number below 10 ^ (k + 1) has at most k + 1 digits.
pub length-digits : (fuel k n : ℕ) → n < 10 ^ suc k → length (digits fuel n) ≤ suc k
length-digits zero k n h = digits-none n k
length-digits (suc fuel) zero n h = ground (arith, length-digits-small fuel n (omega arith))
length-digits (suc fuel) (suc k) n h = elim (Bool-cases (ltb n 10)) [
  | inl e ↦ ground (arith, length-digits-small fuel n (ltb→lt n 10 e))
  | inr e ↦ ground (
    arith,
    length-digits-large fuel n (ground arith),
    length-digits fuel k (n / 10) (omega arith),
  )
]

-- The text of a buffer stands whole in it, and is at most `k` long.
abbrev pub Whole : ℕ → Option Buffer → Type 0
Whole k none = ⊥
Whole k (some b) = (b.length ≡ length b.text) × (b.length ≤ k)

-- Where the whole text fits, it is there.
pub append_fits :
    (b : Buffer) (s : List ℕ)
    → b.length + length s < buffer_size
    → append b s ≡ some (record { text = b.text ++ s; length = b.length + length s })
unfolding append
append_fits b s k = elim (Bool-cases (ltb b.length buffer_size)) [
  | inl e ↦ rw (e) (
      ap (λ t. some (record { text = b.text ++ t; length = b.length + length s }))
        (take-more (buffer_size - 1 - b.length) s (omega arith)))
  | inr e ↦ absurd (ground arith)
]

pub append-Whole :
    (k j : ℕ) (b : Buffer) (s : List ℕ)
    → Whole k (some b)
    → length s ≤ j
    → k + j < buffer_size
    → Whole (k + j) (append b s)
append-Whole k j b s (e, f) h i =
    subst (Whole (k + j)) (sym (append_fits b s (omega arith)))
      (omega (arith, length-append b.text s), omega arith)

pub print_at-Whole :
    (k j layer : ℕ) (b : Buffer) (s : List ℕ)
    → Whole k (some b)
    → length s ≤ j
    → k + j < buffer_size
    → Whole (k + j) (print_at layer s b)
unfolding print_at
print_at-Whole k j layer b s (e, f) h i = elim (Bool-cases (layer == no_layer)) [
  | inl t ↦ rw (t) (e, omega arith)
  | inr t ↦ rw (t) (append-Whole k j b s (e, f) h i)
]

pub bind-Whole :
    (k j : ℕ) (o : Option Buffer) (f : Buffer → Option Buffer)
    → Whole k o
    → ((b : Buffer) → Whole k (some b) → Whole j (f b))
    → Whole j (o >>= f)
unfolding ◌>>=◌
bind-Whole k j none f h g = absurd h
bind-Whole k j (some b) f h g = g b h

byte-Room : (n : ℕ) → n < 256 → length (decimal n) ≤ 3
byte-Room n h = length-digits 10 2 n (omega arith)

pub ip_text-Room : (ip : ℕ) → length (ip_text ip) ≤ 15
ip_text-Room ip =
    let a : List ℕ = decimal (ip % 2 ^ 8) in
    let b : List ℕ = decimal (ip % 2 ^ 16 / 2 ^ 8) in
    let c : List ℕ = decimal (ip % 2 ^ 24 / 2 ^ 16) in
    let d : List ℕ = decimal (ip % 2 ^ 32 / 2 ^ 24) in
    let ra : length a ≤ 3 = byte-Room (ip % 2 ^ 8) (omega arith) in
    let rb : length b ≤ 3 = byte-Room (ip % 2 ^ 16 / 2 ^ 8) (omega arith) in
    let rc : length c ≤ 3 = byte-Room (ip % 2 ^ 24 / 2 ^ 16) (omega arith) in
    let rd : length d ≤ 3 = byte-Room (ip % 2 ^ 32 / 2 ^ 24) (omega arith) in
    omega (
      arith,
      length-append a (b'.' ∷ (b ++ (b'.' ∷ (c ++ (b'.' ∷ d))))),
      length-append b (b'.' ∷ (c ++ (b'.' ∷ d))),
      length-append c (b'.' ∷ d),
    )

pub port_text-Room : (port : ℕ) → length (port_text port) ≤ 6
port_text-Room port =
    let r : length (decimal (swap16 port)) ≤ 5 = length-digits 10 4 (swap16 port) (omega arith) in
    omega arith
