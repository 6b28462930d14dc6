-- ===== src/Pcap/Tests.antt =====
-- A file of three frames, and the calls that play it.
use mediaroom.Prelude.{ℕ, ◌≡◌, refl, false, none, some, List, [], ◌∷◌, arith}
use mediaroom.Time.{timeval_to_usecs}
use mediaroom.Pcap.{
  Frame, Captured, dlt_lapd, packet_of, get_packets, get_held, handle_all, pcap_handler, keep,
  offline_process, offline_handle, schedule, mark_finished,
}
use mediaroom.Pcap.Pace.{Played, play, driver, Replays}
use mediaroom.Pcap.Replay.{play-Paced}

abbrev frame : ℕ → ℕ → Frame
frame usec caplen = record {
  ts = record { tv_sec = 1; tv_usec = usec };
  caplen = caplen;
  content = 1 ∷ 2 ∷ 3 ∷ [];
}

abbrev file : List Frame
file = frame 40 2 ∷ frame 45 3 ∷ []

play-Paced_example : Replays dlt_lapd 100 1000000 (frame 0 1 ∷ file) (
    play
      (100 ∷ 130 ∷ 141 ∷ 150 ∷ [])
      (frame 0 1 ∷ file)
      (driver dlt_lapd 100 1000000 false 0 0 none 0 0))
unfolding timeval_to_usecs
play-Paced_example =
    play-Paced dlt_lapd 100 (130 ∷ 141 ∷ 150 ∷ []) (frame 0 1) file false 0 0 (omega arith)
      (omega arith)
      ((
        omega arith,
        omega arith,
        omega arith,
        (omega arith, omega arith, omega arith, (omega arith, omega arith, omega arith, tt)),
      ))

abbrev handed_out : Played → List (Captured × ℕ)
handed_out none = []
handed_out (some (outs, rest)) = outs

-- The second frame waits from 130 to 141, and the third one is read at 150, when it is late.
played :
    handed_out (
      play
        (100 ∷ 130 ∷ 141 ∷ 150 ∷ [])
        (frame 0 1 ∷ file)
        (driver dlt_lapd 100 1000000 false 0 0 none 0 0))
    ≡ (packet_of dlt_lapd (frame 0 1), 100)
      ∷ (packet_of dlt_lapd (frame 40 2), 141)
      ∷ (packet_of dlt_lapd (frame 45 3), 150)
      ∷ []
unfolding play timeval_to_usecs get_packets get_held handle_all pcap_handler keep offline_process
    offline_handle schedule mark_finished packet_of
played = refl
