-- ===== src/Capture/Tests.antt =====
-- Two capture files and a device that another thread has locked.
use mediaroom.Prelude.{
  ℕ, ◌≤◌, ◌≡◌, refl, Bool, true, false, Option, none, some, List, [], ◌∷◌, length, take,
  length-take, arith,
}
use mathlib.Core.Path.{subst}
use mediaroom.Pcap.{Frame, dlt_other}
use mediaroom.Pcap.Bulk.{Handle, Device}
use mediaroom.Capture.{all_finished}
use mediaroom.Capture.Pcap.{pcap_ops}

abbrev frame : Frame
frame = record { ts = record { tv_sec = 1; tv_usec = 0 }; caplen = 2; content = 1 ∷ 2 ∷ [] }

abbrev three : List Frame
three = frame ∷ frame ∷ frame ∷ []

abbrev Short : ℕ → Option (List Frame) → Type 0
Short cnt none = Unit {0}
Short cnt (some fs) = length fs ≤ cnt

-- A handle that has three frames.
abbrev handle : Handle
handle = record {
  dispatch = λ cnt. some (take cnt three);
  asked_for = λ cnt fs h e. subst (Short cnt) e (omega (arith, length-take cnt three));
}

abbrev device : Bool → Device
device offline = record {
  driver = record {
    datalink = dlt_other;
    offline = offline;
    finished = false;
    rx_bytes = 0;
    rx_packs = 0;
    waiting = record { pkt = none; pkt_time = 0; pkt_sent = 0 };
  };
  handle = handle;
  now = 1000000;
}

abbrev devices : List (Bool × Device)
devices = (true, device true) ∷ (false, device false) ∷ (true, device false) ∷ []

still_capturing : all_finished pcap_ops (device true ∷ []) ≡ false
unfolding all_finished
still_capturing = refl
