-- ===== src/PacketAccum/Tests.antt =====
-- An accumulator whose block is full takes an eighth packet.
use mediaroom.Prelude.{ℕ, ◌+◌, ◌≡◌, refl, true, false, none, some, List, [], ◌∷◌, ◌++◌, arith}
use mediaroom.PacketAccum.{packet, Accum, Entries, put}
use mediaroom.PacketAccum.Put.{accum, Holds, put-Holds}

-- The block 10 has the packets 100 to 106.
abbrev entries : Entries
entries b i = packet (100 + i)

abbrev seven : List ℕ
seven = 100 ∷ 101 ∷ 102 ∷ 103 ∷ 104 ∷ 105 ∷ 106 ∷ []

abbrev full : Accum
full = accum 10 10 7 7 entries

full-Holds : Holds full (10 ∷ []) seven
full-Holds = (
  10,
  refl,
  refl,
  omega arith,
  omega arith,
  refl,
  (tt, tt),
  (refl, refl, (refl, (refl, (refl, (refl, (refl, (refl, (refl, tt)))))))),
)

put-Holds_example :
    (s' : Accum) × (put (some 20) 107 full ≡ some (true, s'))
    × Holds s' (10 ∷ 20 ∷ []) (seven ++ (107 ∷ []))
put-Holds_example =
    put-Holds full (10 ∷ []) seven 107 20 full-Holds ((λ e. omega arith), tt) (omega arith)

-- Without memory for another block the packet is refused.
refused : put none 107 full ≡ some (false, full)
unfolding put
refused = refl
