-- ===== src/Pcap/Pace.antt =====
-- The calls of getPackets on a capture file, and what it is to hand out its packets at their pace.
use mediaroom.Prelude.{
  ℕ, ◌+◌, ◌-◌, ◌%◌, ◌^◌, ◌≤◌, ◌<◌, ◌≡◌, refl, ap, ◌∙◌, inl, inr, Bool, true, false, Option, none,
  some, List, [], ◌∷◌, ◌++◌, arith, ltb, leb, ◌==◌, if◌then◌else◌, Bool-cases,
}
use mediaroom.Time.{timeval_to_usecs}
use mediaroom.Pcap.{
  Frame, Captured, Datalink, Driver, packet_of, pkt_diff, schedule, offline_process, offline_handle,
  keep, pcap_handler, handle_all, mark_finished, get_held, get_packets,
}

-- pcap_dispatch reads one frame of the file, if no packet waits.
abbrev pub read_file : Option Captured → List Frame → List Frame × List Frame
read_file (some c) file = ([], file)
read_file none [] = ([], [])
read_file none (f ∷ fs) = (f ∷ [], fs)

abbrev pub Played : Type 0
Played = Option (List (Captured × ℕ) × (List Frame × Driver))

abbrev pub stamped : ℕ → List Captured → List (Captured × ℕ)
stamped now [] = []
stamped now (c ∷ cs) = (c, now) ∷ stamped now cs

abbrev pub add_outs : ℕ → List Captured → Played → Played
add_outs now cs none = none
add_outs now cs (some (outs, r)) = some (stamped now cs ++ outs, r)

-- Calls of getPackets at the times given: what each hands out with its time, and what is left.
unfoldable pub play : List ℕ → List Frame → Driver → Played
play [] file d = some ([], (file, d))
play (now ∷ nows) file d = elim (get_packets now (some (read_file d.waiting.pkt file).0) d) [
  | none ↦ none
  | some (cs, d') ↦ add_outs now cs (play nows (read_file d.waiting.pkt file).1 d')
]

abbrev pub usecs : Frame → ℕ
usecs f = timeval_to_usecs f.ts

module _ (dl : Datalink) (start t0 : ℕ) where
  -- When a frame is due: as much behind the start as it was captured behind the first one.
  abbrev pub due : Frame → ℕ
  due f = start + (usecs f - t0)

  -- The frames of the file are in the order of their times, and of less than 65536 bytes.
  abbrev pub Ordered : ℕ → List Frame → Type 0
  Ordered time [] = Unit {0}
  Ordered time (f ∷ fs) =
      (time ≤ usecs f) × (due f < 2 ^ 64) × (f.caplen < 65536) × Ordered (usecs f) fs

  -- What is handed out are the packets of the frames in their order, none before it is due, up to
  -- those that are left.
  abbrev pub Paced : List Frame → List (Captured × ℕ) → List Frame → Type 0
  Paced fs [] left = fs ≡ left
  Paced [] (o ∷ os) left = ⊥
  Paced (f ∷ fs) ((c, at) ∷ os) left = (c ≡ packet_of dl f) × (due f ≤ at) × Paced fs os left

  -- The frames that are left are the one that waits and those of the file.
  abbrev pub Left : Option Captured → List Frame → List Frame → Type 0
  Left none rest left = rest ≡ left
  Left (some c) rest left = (h : Frame) × (c ≡ packet_of dl h) × (h ∷ rest ≡ left)

  abbrev pub Replays : List Frame → Played → Type 0
  Replays fs none = ⊥
  Replays fs (some (outs, (rest, d))) =
      (left : List Frame) × Left d.waiting.pkt rest left × Paced fs outs left

  pub Replays-nothing :
      (now : ℕ) (fs : List Frame) (r : Played) → Replays fs r → Replays fs (add_outs now [] r)
  Replays-nothing now fs none h = h
  Replays-nothing now fs (some (outs, r)) h = h

  pub Replays-packet :
      (now : ℕ) (f : Frame) (fs : List Frame) (r : Played)
      → due f ≤ now
      → Replays fs r
      → Replays (f ∷ fs) (add_outs now (packet_of dl f ∷ []) r)
  Replays-packet now f fs none late h = h
  Replays-packet now f fs (some (outs, (rest, d))) late (left, l, p) = (left, l, (refl, late, p))

  -- A driver of a file.
  abbrev pub driver : Bool → ℕ → ℕ → Option Captured → ℕ → ℕ → Driver
  driver finished rx_bytes rx_packs pkt pkt_time pkt_sent = record {
    datalink = dl;
    offline = true;
    finished = finished;
    rx_bytes = rx_bytes;
    rx_packs = rx_packs;
    waiting = record { pkt = pkt; pkt_time = pkt_time; pkt_sent = pkt_sent };
  }

  -- The driver once it has read a frame at the time `now`.
  abbrev pub after_read : ℕ → Frame → Bool → ℕ → ℕ → Driver
  after_read now f finished rx_bytes rx_packs =
      driver finished ((rx_bytes + f.caplen % 65536) % 2 ^ 64) ((rx_packs + 1) % 2 ^ 64)
        (if ltb now (due f) then some (packet_of dl f) else none) (usecs f) (due f)

  schedule-due :
      (now time : ℕ) (f : Frame) (c : Captured)
      → 0 < time
      → 0 < start
      → t0 ≤ time
      → time ≤ usecs f
      → due f < 2 ^ 64
      → schedule now c
          (usecs f)
          (record { pkt = none; pkt_time = time; pkt_sent = start + (time - t0) })
        ≡ (
          ltb now (due f),
          record {
            pkt = if ltb now (due f) then some c else none;
            pkt_time = usecs f;
            pkt_sent = due f;
          },
        )
  unfolding schedule
  schedule-due now time f c a b k le small =
      let total : (start + (time - t0) + pkt_diff time (usecs f)) % 2 ^ 64 ≡ due f = ground arith in
      let some_time : (due f == 0) ≡ false = ground arith in rw (total, some_time) refl

  pcap_handler-read :
      (now time : ℕ) (f : Frame) (fin : Bool) (rb rp : ℕ)
      → 0 < time
      → 0 < start
      → t0 ≤ time
      → time ≤ usecs f
      → due f < 2 ^ 64
      → f.caplen < 65536
      → pcap_handler now f [] (driver fin rb rp none time (start + (time - t0)))
        ≡ some (if ltb now (due f) then [] else packet_of dl f ∷ [], after_read now f fin rb rp)
  unfolding pcap_handler offline_process keep
  pcap_handler-read now time f fin rb rp a b k le small short =
      let fits : leb 65536 f.caplen ≡ false = ground arith in
      let c = packet_of dl f in
      let d =
        driver fin ((rb + f.caplen % 65536) % 2 ^ 64) ((rp + 1) % 2 ^ 64) none time
          (start + (time - t0)) in
      let handled : pcap_handler now f [] (driver fin rb rp none time (start + (time - t0)))
          ≡ keep [] c d (offline_process now c f.ts d.waiting) =
        rw (pcap_handler, fits) refl in
      handled ∙ ap (λ r. keep [] c d (some r)) (schedule-due now time f c a b k le small)

  -- A call that reads a frame makes it wait, or hands it out.
  pub get_packets-read :
      (now time : ℕ) (f : Frame) (fin : Bool) (rb rp : ℕ)
      → 0 < time
      → 0 < start
      → t0 ≤ time
      → time ≤ usecs f
      → due f < 2 ^ 64
      → f.caplen < 65536
      → get_packets now (some (f ∷ [])) (driver fin rb rp none time (start + (time - t0)))
        ≡ some (if ltb now (due f) then [] else packet_of dl f ∷ [], after_read now f fin rb rp)
  unfolding get_packets get_held handle_all mark_finished
  get_packets-read now time f fin rb rp a b k le small short =
      let read = pcap_handler-read now time f fin rb rp a b k le small short in
      elim (Bool-cases (ltb now (due f))) [
        | inl e ↦ rw (get_packets, get_held, handle_all, read, e) refl
        | inr e ↦ rw (get_packets, get_held, handle_all, read, e) refl
      ]

  -- A call while a packet waits hands it out if it is due, and keeps it else.
  pub get_packets-held :
      (now time sent : ℕ) (c : Captured) (fin : Bool) (rb rp : ℕ)
      → get_packets now (some []) (driver fin rb rp (some c) time sent)
        ≡ some (
          if leb sent now then c ∷ [] else [],
          driver fin rb rp (if leb sent now then none else some c) time sent,
        )
  unfolding get_packets get_held offline_handle
  get_packets-held now time sent c fin rb rp = elim (Bool-cases (leb sent now)) [
    | inl e ↦ rw (get_packets, get_held, offline_handle, e) refl
    | inr e ↦ rw (get_packets, get_held, offline_handle, e) refl
  ]

  -- A call at the end of the file.
  pub get_packets-end :
      (now time sent : ℕ) (fin : Bool) (rb rp : ℕ)
      → get_packets now (some []) (driver fin rb rp none time sent)
        ≡ some ([], driver true rb rp none time sent)
  unfolding get_packets get_held handle_all mark_finished
  get_packets-end now time sent fin rb rp = refl

  -- One call and the calls behind it.
  pub play-call :
      (now : ℕ) (nows : List ℕ) (file : List Frame) (d d' : Driver) (cs : List Captured)
      → get_packets now (some (read_file d.waiting.pkt file).0) d ≡ some (cs, d')
      → play (now ∷ nows) file d ≡ add_outs now cs (play nows (read_file d.waiting.pkt file).1 d')
  unfolding play
  play-call now nows file d d' cs e = rw (play, e) refl
