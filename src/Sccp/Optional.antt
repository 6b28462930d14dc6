-- ===== src/Sccp/Optional.antt =====
-- The walk over the optional parameters of an SCCP message.
use mediaroom.Prelude.{
  ℕ, zero, suc, ◌+◌, ◌<◌, ◌≡◌, ◌≢◌, refl, ap, ◌∙◌, false, List, [], ◌∷◌, ◌++◌, arith, ◌==◌, length,
  length-append,
}
use mathlib.Core.Path.{subst}
use mediaroom.Bytes.{Memory, HasBytes, HasBytes-right}
use mediaroom.View.{Base, get_offset}
use mediaroom.Sccp.{ok, endless, byte_at, add16, optional_loop}

-- Parameters with their names and values, and the mark behind them.
abbrev pub encode_parameters : List (ℕ × List ℕ) → List ℕ
encode_parameters [] = 0 ∷ []
encode_parameters ((name, value) ∷ ps) = name ∷ length value ∷ value ++ encode_parameters ps

-- No name is the one of the mark.
abbrev pub Named : List (ℕ × List ℕ) → Type 0
Named [] = Unit {0}
Named ((name, value) ∷ ps) = (name ≢ 0) × Named ps

-- The walk over the optional parameters of a message finds the mark of their end and stops, if no
-- name is the one of the mark and the parameters with the mark end less than `2 ^ 16 - 1` bytes
-- behind the start of the message. It takes one round for each parameter and one for the mark.
-- Where it goes on is not right behind the mark but one byte further.
pub optional_loop-encode_parameters :
    (fuel : ℕ) (m : Memory) (b : Base) (ps : List (ℕ × List ℕ)) (offset : ℕ)
    → length ps < fuel
    → Named ps
    → HasBytes m (get_offset b + offset) (encode_parameters ps)
    → offset + length (encode_parameters ps) < 65535
    → optional_loop fuel m b (byte_at m b offset) (add16 offset 1)
      ≡ ok (offset + length (encode_parameters ps) + 1)
unfolding optional_loop
optional_loop-encode_parameters zero m b ps offset enough named has inside = absurd (omega arith)
optional_loop-encode_parameters (suc fuel) m b [] offset enough named (e, _) inside =
    rw (e) (ground arith)
optional_loop-encode_parameters (suc fuel) m b ((name, value) ∷ ps) offset enough (ne, named)
      (e, (l, has)) inside =
    let next : ℕ = offset + 2 + length value in
    let len : length (encode_parameters ((name, value) ∷ ps))
        ≡ 2 + length value + length (encode_parameters ps) =
      omega (arith, length-append value (encode_parameters ps)) in
    let rest = HasBytes-right m (get_offset b + offset + 1 + 1) value (encode_parameters ps) has in
    let behind =
      optional_loop-encode_parameters fuel m b ps next (omega arith) named
        (subst (λ p. HasBytes m p (encode_parameters ps)) (omega arith) rest) (omega arith) in
    let one : add16 offset 1 ≡ offset + 1 = omega arith in
    let size : byte_at m b (add16 offset 1) ≡ length value = ap m (omega arith) ∙ l in
    let value_end : add16 (add16 (add16 offset 1) 1) (byte_at m b (add16 offset 1)) ≡ next =
      rw (size) (omega arith) in
    let more : (byte_at m b offset == 0) ≡ false = ground arith in
    rw (more) (
      ap (λ k. optional_loop fuel m b (byte_at m b k) (add16 k 1)) value_end
      ∙ behind
      ∙ ap ok (omega arith))

-- If no byte that the message's offset can reach is zero, the walk does not end.
pub optional_loop-endless :
    (fuel : ℕ) (m : Memory) (b : Base) (name offset : ℕ)
    → ((p : ℕ) → p < 65536 → byte_at m b p ≢ 0)
    → name ≢ 0
    → optional_loop fuel m b name offset ≡ endless
unfolding optional_loop
optional_loop-endless zero m b name offset full ne = refl
optional_loop-endless (suc fuel) m b name offset full ne =
    let value = add16 (add16 offset 1) (byte_at m b offset) in
    let more : (name == 0) ≡ false = ground arith in
    rw (more) (
      optional_loop-endless fuel m b (byte_at m b value) (add16 value 1) full
        (full value (omega arith)))
