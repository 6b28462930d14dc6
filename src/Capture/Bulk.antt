-- ===== src/Capture/Bulk.antt =====
-- Capture::getPackets: how many packets it returns, and which drivers it asks.
use mediaroom.Prelude.{
  ℕ, suc, ◌+◌, ◌*◌, ◌/◌, ◌≤◌, ◌<◌, ◌≡◌, refl, Bool, true, false, Option, none, some, List, [], ◌∷◌,
  ◌++◌, length, length-append, arith,
}
use mediaroom.Pcap.{Captured}
use mediaroom.Capture.{DriverOps, in_front, passed_over, get_from, capture_packets}

module _ {D : Type 0} (ops : DriverOps D) where
  -- What each driver gave: a free one its packets, in the order of the drivers, and one that
  -- another thread has locked nothing, and it is as it was.
  pub data Asked (limit : ℕ) : List (Bool × D) → List Captured → List D → Type 0 where
    nobody : Asked limit [] [] []
    asked :
        {d r : D} {ds : List (Bool × D)} {ps qs : List Captured} {rs : List D}
        → ops.get_packets limit d ≡ some (ps, r)
        → Asked limit ds qs rs
        → Asked limit ((true, d) ∷ ds) (ps ++ qs) (r ∷ rs)
    busy :
        {d : D} {ds : List (Bool × D)} {qs : List Captured} {rs : List D}
        → Asked limit ds qs rs
        → Asked limit ((false, d) ∷ ds) qs (d ∷ rs)

  -- An assertion of a free driver fails.
  pub data Failed (limit : ℕ) : List (Bool × D) → Type 0 where
    here :
        {d : D} {ds : List (Bool × D)}
        → ops.get_packets limit d ≡ none
        → Failed limit ((true, d) ∷ ds)
    behind : {x : Bool × D} {ds : List (Bool × D)} → Failed limit ds → Failed limit (x ∷ ds)

  abbrev AskedAll : ℕ → List (Bool × D) → Option (List Captured × List D) → Type 0
  AskedAll limit ds none = Failed limit ds
  AskedAll limit ds (some (ps, rs)) = Asked limit ds ps rs

  in_front-Asked :
      (limit : ℕ) (d : D) (ds : List (Bool × D)) (o : Option (List Captured × D))
      (rest : Option (List Captured × List D))
      → ops.get_packets limit d ≡ o
      → AskedAll limit ds rest
      → AskedAll limit ((true, d) ∷ ds) (in_front ops o rest)
  in_front-Asked limit d ds none rest e h = here e
  in_front-Asked limit d ds (some (ps, r)) none e h = behind h
  in_front-Asked limit d ds (some (ps, r)) (some (qs, rs)) e h = asked e h

  passed_over-Asked :
      (limit : ℕ) (d : D) (ds : List (Bool × D)) (rest : Option (List Captured × List D))
      → AskedAll limit ds rest
      → AskedAll limit ((false, d) ∷ ds) (passed_over ops d rest)
  passed_over-Asked limit d ds none h = behind h
  passed_over-Asked limit d ds (some (qs, rs)) h = busy h

  get_from-Asked : (limit : ℕ) (ds : List (Bool × D)) → AskedAll limit ds (get_from ops limit ds)
  unfolding get_from
  get_from-Asked limit [] = nobody
  get_from-Asked limit ((true, d) ∷ ds) =
      in_front-Asked limit d ds (ops.get_packets limit d) (get_from ops limit ds) refl
        (get_from-Asked limit ds)
  get_from-Asked limit ((false, d) ∷ ds) =
      passed_over-Asked limit d ds (get_from ops limit ds) (get_from-Asked limit ds)

  Asked-length :
      {limit : ℕ} {ds : List (Bool × D)} {ps : List Captured} {rs : List D}
      → 0 < limit
      → Asked limit ds ps rs
      → length ps ≤ length ds * limit
  Asked-length h nobody = omega arith
  Asked-length {limit} h (asked {d} {r} {ds} {ps} {qs} e t) =
      let n : suc (length ds) * limit ≡ length ds * limit + limit = ground arith in
      omega (arith, n, length-append ps qs, ops.bounded limit d ps r h e, Asked-length h t)
  Asked-length {limit} h (busy {d} {ds} {qs} {rs} t) =
      let n : suc (length ds) * limit ≡ length ds * limit + limit = ground arith in
      omega (arith, n, Asked-length h t)

  -- A bulk: what each driver gave, of its share, and no more together than there is room for.
  abbrev pub Bulked : ℕ → List (Bool × D) → Option (List Captured × List D) → Type 0
  Bulked bulk_limit ds none = Failed (bulk_limit / length ds) ds
  Bulked bulk_limit ds (some (ps, rs)) =
      Asked (bulk_limit / length ds) ds ps rs × (length ps ≤ bulk_limit)

  bulked :
      (bulk_limit : ℕ) (ds : List (Bool × D)) (o : Option (List Captured × List D))
      → 0 < length ds
      → length ds ≤ bulk_limit
      → AskedAll (bulk_limit / length ds) ds o
      → Bulked bulk_limit ds o
  bulked bulk_limit ds none h k a = a
  bulked bulk_limit ds (some (ps, rs)) h k a =
      let limit : ℕ = bulk_limit / length ds in
      let some_room : 0 < limit = ground arith in
      let share : length ds * limit ≤ bulk_limit = ground arith in
      (a, omega (arith, share, Asked-length some_room a))

  -- With one driver at least, and no more drivers than packets that there is room for: each driver
  -- whose lock is free is asked once, in their order, for its share, the others stay as they
  -- are, what is returned are the packets of the free ones in that order, and they are no more
  -- than there is room for. There is no result only where an assertion of a free driver fails.
  pub capture_packets-Bulked :
      (bulk_limit : ℕ) (ds : List (Bool × D))
      → 0 < length ds
      → length ds ≤ bulk_limit
      → Bulked bulk_limit ds (capture_packets ops bulk_limit ds)
  unfolding capture_packets
  capture_packets-Bulked bulk_limit [] h k = absurd (omega arith)
  capture_packets-Bulked bulk_limit (d ∷ ds) h k =
      bulked bulk_limit (d ∷ ds) (get_from ops (bulk_limit / length (d ∷ ds)) (d ∷ ds)) h k
        (get_from-Asked (bulk_limit / length (d ∷ ds)) (d ∷ ds))
