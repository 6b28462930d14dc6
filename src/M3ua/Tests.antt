-- ===== src/M3ua/Tests.antt =====
-- The theorems on M3UA at small messages.
use mediaroom.Prelude.{ℕ, ◌≡◌, refl, none, List, [], ◌∷◌, arith}
use mediaroom.Bytes.{Memory, HasBytes, holding}
use mediaroom.View.{Base, get_offset}
use mediaroom.View.Moves.{Shows}
use mediaroom.Extract.{got, sccp}
use mediaroom.Sccp.{ok, endless}
use mediaroom.M3ua.{extract_m3ua}
use mediaroom.M3ua.Parameters.{Parameter, extract_m3ua-sccp, extract_m3ua_endless}

abbrev packet : Base
packet = record { length = 100; offset = 48; own = none }

-- A routing context in front of the protocol data.
abbrev routing : List Parameter
routing = record { high = 0; low = 6; value = 0 ∷ 0 ∷ 0 ∷ 9 ∷ [] } ∷ []

abbrev label : List ℕ
label = 0 ∷ 0 ∷ 0 ∷ 1 ∷ 0 ∷ 0 ∷ 0 ∷ 2 ∷ []

abbrev message : Memory
message = holding 48 (
    1 ∷ 0 ∷ 1 ∷ 1 ∷ 0 ∷ 0 ∷ 0 ∷ 34 ∷ 0 ∷ 6 ∷ 0 ∷ 8 ∷ 0 ∷ 0 ∷ 0 ∷ 9 ∷ 2 ∷ 16 ∷ 0 ∷ 18 ∷ 0 ∷ 0 ∷ 0 ∷ 1
    ∷ 0 ∷ 0 ∷ 0 ∷ 2 ∷ 3 ∷ 2 ∷ 0 ∷ 5 ∷ 9 ∷ 1 ∷ [])

extract_m3ua-sccp_example :
    (b' : Base) × (extract_m3ua 2 message packet ≡ ok (20, got sccp b'))
    × Shows b' 80 68
    × HasBytes message (get_offset b') (9 ∷ 1 ∷ [])
extract_m3ua-sccp_example =
    extract_m3ua-sccp 2 message packet routing 0 18 label 2 0 5 (9 ∷ 1 ∷ []) (omega arith)
      (omega arith) refl (omega arith) (omega arith) (omega arith) (omega arith) (omega arith)

-- The parameter at byte 56 claims a length of zero.
abbrev without_length : Memory
without_length = holding 48 (1 ∷ 0 ∷ 1 ∷ 1 ∷ 0 ∷ 0 ∷ 0 ∷ 16 ∷ 0 ∷ 6 ∷ 0 ∷ 0 ∷ [])

without_length_run : extract_m3ua 1000 without_length packet ≡ endless
without_length_run =
    extract_m3ua_endless 1000 without_length packet (omega arith) (omega arith) refl
