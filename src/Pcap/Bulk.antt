-- ===== src/Pcap/Bulk.antt =====
-- DriverPcap::getPackets with its limit, for a pcap_dispatch that hands out no more frames than it
-- is asked for.
use mediaroom.Prelude.{
  ℕ, suc, ◌+◌, ◌%◌, ◌^◌, ◌≤◌, ◌<◌, ◌≡◌, refl, inl, inr, Bool, true, false, Option, none, some, List,
  [], ◌∷◌, leb, if◌then◌else◌, length, length-append, arith, Bool-cases, Option-cases,
}
use mathlib.Core.Path.{subst}
use mediaroom.Pcap.{
  Frame, Captured, Driver, Waiting, offline_process, offline_handle, packet_of, keep, pcap_handler,
  handle_all, get_held, get_packets,
}

-- The capture handle: pcap_dispatch hands out at most as many frames as it is asked for, where
-- that is not 0, and none is an error.
pub record Handle : Type 0 where
  pub dispatch : ℕ → Option (List Frame)
  pub asked_for : (cnt : ℕ) (fs : List Frame) → 0 < cnt → dispatch cnt ≡ some fs → length fs ≤ cnt

-- A driver at a time, with its handle.
pub record Device : Type 0 where
  pub driver : Driver
  pub handle : Handle
  pub now : ℕ

-- What getPackets leaves at most.
abbrev AtMost : ℕ → Option (List Captured × Driver) → Type 0
AtMost n none = Unit {0}
AtMost n (some (ps, d)) = length ps ≤ n

keep-AtMost :
    (bulk : List Captured) (c : Captured) (d : Driver) (o : Option (Bool × Waiting))
    → AtMost (length bulk + 1) (keep bulk c d o)
unfolding keep
keep-AtMost bulk c d none = tt
keep-AtMost bulk c d (some (true, w)) = omega arith
keep-AtMost bulk c d (some (false, w)) = omega (arith, length-append bulk (c ∷ []))

pcap_handler-AtMost :
    (now : ℕ) (f : Frame) (bulk : List Captured) (d : Driver)
    → AtMost (length bulk + 1) (pcap_handler now f bulk d)
unfolding pcap_handler
pcap_handler-AtMost now f bulk d = elim (Bool-cases (leb 65536 f.caplen)) [
  | inl e ↦ rw (e) (omega arith)
  | inr e ↦ elim (Bool-cases d.offline) [
    | inl o ↦
        rw (e, o)
          (keep-AtMost bulk (packet_of d.datalink f)
            (record d {
              offline = true;
              rx_bytes = (d.rx_bytes + f.caplen % 65536) % 2 ^ 64;
              rx_packs = (d.rx_packs + 1) % 2 ^ 64;
            })
            (offline_process now (packet_of d.datalink f) f.ts d.waiting))
    | inr o ↦ rw (e, o) (omega (arith, length-append bulk (packet_of d.datalink f ∷ [])))
  ]
]

AtMost-weaken : (n m : ℕ) (o : Option (List Captured × Driver)) → n ≤ m → AtMost n o → AtMost m o
AtMost-weaken n m none h k = tt
AtMost-weaken n m (some (ps, d)) h k = omega arith

handle_all-AtMost :
    (now : ℕ) (fs : List Frame) (bulk : List Captured) (d : Driver)
    → AtMost (length bulk + length fs) (handle_all now fs bulk d)
unfolding handle_all
handle_all-AtMost now [] bulk d = omega arith
handle_all-AtMost now (f ∷ fs) bulk d = elim (Option-cases (pcap_handler now f bulk d)) [
  | inl e ↦ rw (e, handle_all) tt
  | inr ((ps, d'), e) ↦
      let one : length ps ≤ length bulk + 1 =
        subst (AtMost (length bulk + 1)) e (pcap_handler-AtMost now f bulk d) in
      rw (e, handle_all)
        (AtMost-weaken (length ps + length fs) (length bulk + suc (length fs))
          (handle_all now fs ps d') (omega arith) (handle_all-AtMost now fs ps d'))
]

-- A packet that waits is one.
abbrev OneAtMost : Option (List Captured × Waiting) → Type 0
OneAtMost none = Unit {0}
OneAtMost (some (ps, w)) = length ps ≤ 1

offline_handle-One : (now : ℕ) (w : Waiting) → OneAtMost (offline_handle now w)
unfolding offline_handle
offline_handle-One now w = elim (Option-cases w.pkt) [
  | inl e ↦ rw (e, offline_handle) tt
  | inr (p, e) ↦ elim (Bool-cases (leb w.pkt_sent now)) [
    | inl t ↦ rw (e, offline_handle, t) (omega arith)
    | inr t ↦ rw (e, offline_handle, t) (omega arith)
  ]
]

get_held-AtMost :
    (held : Option Captured) (limit now : ℕ) (dispatched : Option (List Frame)) (d : Driver)
    → 0 < limit
    → ((fs : List Frame) → dispatched ≡ some fs → length fs ≤ limit)
    → AtMost limit (get_held held now dispatched d)
unfolding get_held
get_held-AtMost (some p) limit now dispatched d h k = elim (Bool-cases d.offline) [
  | inr o ↦ rw (o) tt
  | inl o ↦ elim (Option-cases (offline_handle now d.waiting)) [
    | inl e ↦ rw (o, e, get_held) tt
    | inr ((ps, w), e) ↦
        let one : length ps ≤ 1 = subst OneAtMost e (offline_handle-One now d.waiting) in
        rw (o, e, get_held) (omega arith)
  ]
]
get_held-AtMost none limit now none d h k = omega arith
get_held-AtMost none limit now (some fs) d h k = elim (Option-cases (handle_all now fs [] d)) [
  | inl e ↦ rw (e, get_held) tt
  | inr ((ps, d'), e) ↦
      let some_of : length ps ≤ 0 + length fs =
        subst (AtMost (0 + length fs)) e (handle_all-AtMost now fs [] d) in
      rw (e, get_held) (omega (arith, k fs refl))
]

-- _offline ? 1 : bulkLimit
abbrev pub asked : ℕ → Device → ℕ
asked limit d = if d.driver.offline then 1 else limit

abbrev with_driver : Device → Option (List Captured × Driver) → Option (List Captured × Device)
with_driver d none = none
with_driver d (some (ps, driver)) = some (ps, record d { driver = driver })

-- DriverPcap::getPackets, of at most `limit` packets.
abbrev pub device_packets : ℕ → Device → Option (List Captured × Device)
device_packets limit d =
    with_driver d (get_packets d.now (d.handle.dispatch (asked limit d)) d.driver)

abbrev DeviceAtMost : ℕ → Option (List Captured × Device) → Type 0
DeviceAtMost n none = Unit {0}
DeviceAtMost n (some (ps, d)) = length ps ≤ n

with_driver-AtMost :
    (n : ℕ) (d : Device) (o : Option (List Captured × Driver))
    → AtMost n o
    → DeviceAtMost n (with_driver d o)
with_driver-AtMost n d none h = tt
with_driver-AtMost n d (some (qs, driver)) h = h

asked-most : (limit : ℕ) (d : Device) → 0 < limit → (0 < asked limit d) × (asked limit d ≤ limit)
asked-most limit d h = elim (Bool-cases d.driver.offline) [
  | inl o ↦ rw (o) (omega arith, omega arith)
  | inr o ↦ rw (o) (h, omega arith)
]

device_packets-AtMost :
    (limit : ℕ) (d : Device) → 0 < limit → DeviceAtMost limit (device_packets limit d)
unfolding get_packets
device_packets-AtMost limit d h =
    let (some_asked, most) = asked-most limit d h in
    with_driver-AtMost limit d (get_packets d.now (d.handle.dispatch (asked limit d)) d.driver) (
      get_held-AtMost d.driver.waiting.pkt limit d.now (d.handle.dispatch (asked limit d)) d.driver
        h (λ fs e. omega (arith, most, d.handle.asked_for (asked limit d) fs some_asked e)))

-- DriverPcap returns no more packets than it may, from a file or from a device.
pub device_packets-bounded :
    (limit : ℕ) (d : Device) (ps : List Captured) (r : Device)
    → 0 < limit
    → device_packets limit d ≡ some (ps, r)
    → length ps ≤ limit
device_packets-bounded limit d ps r h e =
    subst (DeviceAtMost limit) e (device_packets-AtMost limit d h)
