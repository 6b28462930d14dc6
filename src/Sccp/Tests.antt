-- ===== src/Sccp/Tests.antt =====
-- The theorems on SCCP at small messages, and runs.
use mediaroom.Prelude.{ℕ, ◌≡◌, refl, inl, inr, none, List, [], ◌∷◌, arith}
use mediaroom.Bytes.{Memory, holding}
use mediaroom.View.{Base}
use mediaroom.Extract.{left}
use mediaroom.Sccp.{ok, crash, byte_at, add16, optional_loop, extract_sccp}
use mediaroom.Sccp.Optional.{encode_parameters, optional_loop-encode_parameters}
use mediaroom.Sccp.Parties.{full, UnitData, encode_unit_data}
use mediaroom.Sccp.UnitData.{Hands, extract_sccp-Hands}

abbrev packet : Base
packet = record { length = 100; offset = 48; own = none }

-- A hop counter and two bytes of data.
abbrev parameters : List (ℕ × List ℕ)
parameters = (0x11, 15 ∷ []) ∷ (0x0f, 7 ∷ 8 ∷ []) ∷ []

abbrev optional : Memory
optional = holding 48 (encode_parameters parameters)

optional_loop-encode_parameters_example :
    optional_loop 3 optional packet (byte_at optional packet 0) (add16 0 1) ≡ ok 9
optional_loop-encode_parameters_example =
    optional_loop-encode_parameters 3 optional packet parameters 0 (omega arith) (omega arith)
      (omega arith) (omega arith)

-- An extended unitdata message.
abbrev message : UnitData
message = record {
  mt = 0x12;
  class = 1;
  hop = 15;
  ptr1 = 4;
  ptr2 = 7;
  ptr3 = 11;
  optional = 0;
  called = 0x42 ∷ 6 ∷ [];
  calling = full 16 1 2 8 [];
  user = 0x62 ∷ 0x49 ∷ [];
}

extract_sccp-Hands_example :
    Hands
      (holding 48 (encode_unit_data message))
      packet
      (0x62 ∷ 0x49 ∷ [])
      16
      (extract_sccp 5 (holding 48 (encode_unit_data message)) packet)
extract_sccp-Hands_example =
    extract_sccp-Hands 5 (holding 48 (encode_unit_data message)) packet message
      (inr (inl refl), omega arith, omega arith, omega arith, omega arith) (omega arith)
      (omega arith) (omega arith) (omega arith)

-- A connection request of protocol class 1 fails the assertion, and one of class 2 without
-- optional parameters is returned.
class_one :
    extract_sccp 5 (holding 48 (1 ∷ 0 ∷ 0 ∷ 1 ∷ 1 ∷ 2 ∷ 0 ∷ 2 ∷ 0x42 ∷ 6 ∷ [])) packet ≡ crash
unfolding extract_sccp
class_one = refl

class_two :
    extract_sccp 5 (holding 48 (1 ∷ 0 ∷ 0 ∷ 1 ∷ 2 ∷ 2 ∷ 0 ∷ 2 ∷ 0x42 ∷ 6 ∷ [])) packet
    ≡ ok (left packet)
unfolding extract_sccp
class_two = refl
