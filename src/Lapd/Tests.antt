-- ===== src/Lapd/Tests.antt =====
-- The theorems on LAPD at single channels, and runs.
use mediaroom.Prelude.{◌≡◌, refl, true, false}
use mediaroom.Lapd.{is_q931, is_x25, tei, get_opc, get_dpc}

stray_origin : get_opc 32256 ≡ get_dpc 64512
unfolding get_opc get_dpc
stray_origin = refl

-- The address of an X.25 frame to the terminal 3.
x25_address : (is_x25 64 ≡ true) × (is_q931 64 ≡ false) × (tei 7 ≡ 3)
unfolding is_x25 is_q931 tei
x25_address = (refl, refl, refl)
