-- ===== src/Pcap/Replay.antt =====
-- A capture file is played: which packets the calls of getPackets hand out, and when.
use mediaroom.Prelude.{
  ℕ, ◌+◌, ◌-◌, ◌%◌, ◌^◌, ◌≤◌, ◌<◌, ◌≡◌, refl, sym, inl, inr, Bool, true, false, none, some, List,
  [], ◌∷◌, arith, ltb, leb, if◌then◌else◌, Bool-cases,
}
use mathlib.Core.Path.{subst}
use mediaroom.Pcap.{
  Frame, Datalink, Driver, packet_of, schedule, offline_process, keep, pcap_handler, handle_all,
  mark_finished, get_held, get_packets,
}
use mediaroom.Pcap.Pace.{
  play, usecs, due, Ordered, Replays, driver, after_read, Replays-nothing, Replays-packet,
  get_packets-read, get_packets-held, get_packets-end, play-call,
}

module _ (dl : Datalink) (start t0 : ℕ) where
  -- A driver with no packet waiting, and one with one, after a frame of the time `time`.
  abbrev Plays : List ℕ → Type 0
  Plays nows =
      ((file : List Frame) (fin : Bool) (rb rp time : ℕ)
        → 0 < time
        → t0 ≤ time
        → Ordered dl start t0 time file
        → Replays dl start t0 file
            (play nows file (driver dl start t0 fin rb rp none time (start + (time - t0)))))
      × ((h : Frame) (file : List Frame) (fin : Bool) (rb rp : ℕ)
          → 0 < usecs h
          → t0 ≤ usecs h
          → Ordered dl start t0 (usecs h) file
          → Replays dl start t0 (h ∷ file) (
              play nows file (
                driver dl start t0 fin rb rp (some (packet_of dl h)) (usecs h)
                  (due dl start t0 h))))

  Plays-end : Plays []
  unfolding play
  Plays-end = (
    λ file fin rb rp time a k ord. (file, refl, refl),
    λ h file fin rb rp a k ord. (h ∷ file, (h, refl, refl), refl),
  )

  Plays-nothing :
      (now : ℕ) (nows : List ℕ) (fin : Bool) (rb rp time : ℕ)
      → Plays nows
      → 0 < time
      → t0 ≤ time
      → Replays dl start t0 []
          (play (now ∷ nows) [] (driver dl start t0 fin rb rp none time (start + (time - t0))))
  Plays-nothing now nows fin rb rp time (free, held) a k =
      let d = driver dl start t0 fin rb rp none time (start + (time - t0)) in
      let call =
        play-call dl start t0 now nows [] d
          (driver dl start t0 true rb rp none time (start + (time - t0))) []
          (get_packets-end dl start t0 now time (start + (time - t0)) fin rb rp) in
      subst (Replays dl start t0 []) (sym call)
        (Replays-nothing dl start t0 now [] _ (free [] true rb rp time a k tt))

  Plays-read :
      (now : ℕ) (nows : List ℕ) (f : Frame) (fs : List Frame) (fin : Bool) (rb rp time : ℕ)
      → Plays nows
      → 0 < start
      → 0 < time
      → t0 ≤ time
      → Ordered dl start t0 time (f ∷ fs)
      → Replays dl start t0 (f ∷ fs) (
          play (now ∷ nows) (f ∷ fs) (driver dl start t0 fin rb rp none time (start + (time - t0))))
  Plays-read now nows f fs fin rb rp time (free, held) s a k (le, small, short, ord) =
      let b = (rb + f.caplen % 65536) % 2 ^ 64 in
      let p = (rp + 1) % 2 ^ 64 in
      let d = driver dl start t0 fin rb rp none time (start + (time - t0)) in
      let call =
        play-call dl start t0 now nows (f ∷ fs) d (after_read dl start t0 now f fin rb rp)
          (if ltb now (due dl start t0 f) then [] else packet_of dl f ∷ [])
          (get_packets-read dl start t0 now time f fin rb rp a s k le small short) in
      subst (Replays dl start t0 (f ∷ fs)) (sym call)
        (elim (Bool-cases (ltb now (due dl start t0 f))) [
          | inl e ↦ rw (e) (
              Replays-nothing dl start t0 now (f ∷ fs) _
                (held f fs fin b p (omega arith) (omega arith) ord))
          | inr e ↦ rw (e) (
              Replays-packet dl start t0 now f fs _ (ground arith)
                (free fs fin b p (usecs f) (omega arith) (omega arith) ord))
        ])

  Plays-held :
      (now : ℕ) (nows : List ℕ) (h : Frame) (file : List Frame) (fin : Bool) (rb rp : ℕ)
      → Plays nows
      → 0 < usecs h
      → t0 ≤ usecs h
      → Ordered dl start t0 (usecs h) file
      → Replays dl start t0 (h ∷ file) (
          play
            (now ∷ nows)
            file
            (driver dl start t0 fin rb rp (some (packet_of dl h)) (usecs h) (due dl start t0 h)))
  Plays-held now nows h file fin rb rp (free, held) a k ord =
      let c = packet_of dl h in
      let d = driver dl start t0 fin rb rp (some c) (usecs h) (due dl start t0 h) in
      let call =
        play-call dl start t0 now nows file d
          (driver dl start t0 fin rb rp (if leb (due dl start t0 h) now then none else some c)
            (usecs h) (due dl start t0 h))
          (if leb (due dl start t0 h) now then c ∷ [] else [])
          (get_packets-held dl start t0 now (usecs h) (due dl start t0 h) c fin rb rp) in
      subst (Replays dl start t0 (h ∷ file)) (sym call)
        (elim (Bool-cases (leb (due dl start t0 h) now)) [
          | inl e ↦ rw (e) (
              Replays-packet dl start t0 now h file _ (ground arith)
                (free file fin rb rp (usecs h) a k ord))
          | inr e ↦
              rw (e) (Replays-nothing dl start t0 now (h ∷ file) _ (held h file fin rb rp a k ord))
        ])

  Plays-free :
      (now : ℕ) (nows : List ℕ) (file : List Frame) (fin : Bool) (rb rp time : ℕ)
      → Plays nows
      → 0 < start
      → 0 < time
      → t0 ≤ time
      → Ordered dl start t0 time file
      → Replays dl start t0 file
          (play (now ∷ nows) file (driver dl start t0 fin rb rp none time (start + (time - t0))))
  Plays-free now nows [] fin rb rp time plays s a k ord =
      Plays-nothing now nows fin rb rp time plays a k
  Plays-free now nows (f ∷ fs) fin rb rp time plays s a k ord =
      Plays-read now nows f fs fin rb rp time plays s a k ord

  Plays-all : (nows : List ℕ) → 0 < start → Plays nows
  Plays-all [] s = Plays-end
  Plays-all (now ∷ nows) s =
      let plays = Plays-all nows s in
      (
        λ file fin rb rp time a k ord. Plays-free now nows file fin rb rp time plays s a k ord,
        λ h file fin rb rp a k ord. Plays-held now nows h file fin rb rp plays a k ord,
      )

-- The first frame is handed out at once.
get_packets-first :
    (dl : Datalink) (now : ℕ) (f : Frame) (fin : Bool) (rb rp : ℕ)
    → 0 < now
    → f.caplen < 65536
    → get_packets now (some (f ∷ [])) (driver dl now (usecs f) fin rb rp none 0 0)
      ≡ some (
        packet_of dl f ∷ [],
        driver dl now
            (usecs f)
            fin
            ((rb + f.caplen % 65536) % 2 ^ 64)
            ((rp + 1) % 2 ^ 64)
            none
            (usecs f)
            now,
      )
unfolding get_packets get_held handle_all pcap_handler keep offline_process schedule mark_finished
get_packets-first dl now f fin rb rp a short =
    let fits : leb 65536 f.caplen ≡ false = ground arith in
    let at_once : ltb now now ≡ false = ground arith in
    let d =
      driver dl now (usecs f) fin ((rb + f.caplen % 65536) % 2 ^ 64) ((rp + 1) % 2 ^ 64) none 0 0 in
    let handled : pcap_handler now f [] (driver dl now (usecs f) fin rb rp none 0 0)
        ≡ keep [] (packet_of dl f) d (offline_process now (packet_of dl f) f.ts d.waiting) =
      rw (pcap_handler, fits) refl in
    rw (get_packets, get_held, handle_all, handled, at_once) refl

-- A capture file is played at its own pace. The calls of getPackets fail no assertion; what they
-- hand out are the packets of the file's frames in their order, each once; and a packet is handed
-- out no sooner after the first one than it was captured after that. What is left is the packet
-- that waits and the rest of the file. This holds from a new driver on, whenever the calls come,
-- where the file's times do not go back, begin behind 0 and end below `2 ^ 64` at its pace, no
-- frame has 65536 bytes or more, and each call of pcap_dispatch reads one frame.
pub play-Paced :
    (dl : Datalink) (now : ℕ) (nows : List ℕ) (f : Frame) (fs : List Frame) (fin : Bool) (rb rp : ℕ)
    → 0 < now
    → 0 < usecs f
    → Ordered dl now (usecs f) (usecs f) (f ∷ fs)
    → Replays dl now
        (usecs f)
        (f ∷ fs)
        (play (now ∷ nows) (f ∷ fs) (driver dl now (usecs f) fin rb rp none 0 0))
play-Paced dl now nows f fs fin rb rp a b (_, small, short, ord) =
    let t = usecs f in
    let rb' = (rb + f.caplen % 65536) % 2 ^ 64 in
    let rp' = (rp + 1) % 2 ^ 64 in
    let call =
      play-call dl now t now nows (f ∷ fs) (driver dl now t fin rb rp none 0 0)
        (driver dl now t fin rb' rp' none t now) (packet_of dl f ∷ [])
        (get_packets-first dl now f fin rb rp a short) in
    let same : now + (t - t) ≡ now = omega arith in
    let later = (Plays-all dl now t nows a).0 fs fin rb' rp' t b (omega arith) ord in
    subst (Replays dl now t (f ∷ fs)) (sym call) (
      Replays-packet dl now t now f fs (play nows fs (driver dl now t fin rb' rp' none t now))
        (omega arith)
        (subst
          (λ sent. Replays dl now t fs (play nows fs (driver dl now t fin rb' rp' none t sent)))
          same later))

-- A frame of 65536 bytes or more is passed over, and taken for the end of the file.
pub get_packets_oversized :
    (now : ℕ) (f : Frame) (d : Driver)
    → d.offline ≡ true
    → d.waiting.pkt ≡ none
    → 65536 ≤ f.caplen
    → get_packets now (some (f ∷ [])) d ≡ some ([], record d { finished = true })
unfolding get_packets get_held handle_all pcap_handler mark_finished
get_packets_oversized now f d o e large =
    let big : leb 65536 f.caplen ≡ true = ground arith in
    rw (get_packets, e) (rw (get_held, handle_all, pcap_handler, big) (rw (mark_finished, o) refl))
