-- ===== src/Capture.antt =====
-- src/drivers/Capture.h: the packets of all capture drivers, each locked while it is asked. What a
-- driver does is an interface, the virtual functions of Driver in src/drivers/Driver.h.
pub mod Bulk
pub mod Pcap
mod Tests
use mediaroom.Prelude.{
  ℕ, zero, suc, ◌+◌, ◌*◌, ◌/◌, ◌≤◌, ◌<◌, ◌≡◌, Bool, true, false, ◌&&◌, Option, none, some, List, [],
  ◌∷◌, ◌++◌, length,
}
use mediaroom.Pcap.{Captured}

-- Driver::getPackets and finished, with what Capture relies on: where a driver may return some
-- packets, it returns no more than it may. A result of none is a failed assertion.
pub record DriverOps (D : Type 0) : Type 0 where
  pub get_packets : ℕ → D → Option (List Captured × D)
  pub is_finished : D → Bool
  pub bounded :
      (limit : ℕ) (d : D) (ps : List Captured) (r : D)
      → 0 < limit
      → get_packets limit d ≡ some (ps, r)
      → length ps ≤ limit

module _ {D : Type 0} (ops : DriverOps D) where
  -- The packets of a driver in front of those of the drivers behind it.
  abbrev pub in_front :
      Option (List Captured × D) → Option (List Captured × List D) → Option (List Captured × List D)
  in_front none rest = none
  in_front (some (ps, d)) none = none
  in_front (some (ps, d)) (some (qs, ds)) = some (ps ++ qs, d ∷ ds)

  abbrev pub passed_over : D → Option (List Captured × List D) → Option (List Captured × List D)
  passed_over d none = none
  passed_over d (some (qs, ds)) = some (qs, d ∷ ds)

  -- The loop of getPackets, for the drivers with whether try_to_lock got the lock.
  unfoldable pub get_from : ℕ → List (Bool × D) → Option (List Captured × List D)
  get_from limit [] = some ([], [])
  get_from limit ((true, d) ∷ ds) = in_front (ops.get_packets limit d) (get_from limit ds)
  get_from limit ((false, d) ∷ ds) = passed_over d (get_from limit ds)

  -- Capture::getPackets; there is no driver only where the constructor has stopped the program.
  pub capture_packets : ℕ → List (Bool × D) → Option (List Captured × List D)
  unfolding get_from
  capture_packets bulk_limit [] = none
  capture_packets bulk_limit (d ∷ ds) = get_from (bulk_limit / length (d ∷ ds)) (d ∷ ds)

  -- Capture::finished
  pub all_finished : List D → Bool
  all_finished [] = true
  all_finished (d ∷ ds) = ops.is_finished d && all_finished ds
