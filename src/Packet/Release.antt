-- ===== src/Packet/Release.antt =====
-- What Packet::free releases of a chain, and the clones of a packet.
use mediaroom.Prelude.{
  ℕ, zero, suc, ◌+◌, ◌-◌, ◌%◌, ◌<◌, ◌≡◌, ◌≢◌, refl, ap, ◌∙◌, false, Option, none, some, List, [],
  ◌∷◌, ◌++◌, arith, ◌==◌, length, All, Distinct, All-left, All-right,
}
use mathlib.Core.Path.{subst}
use mediaroom.Packet.{
  Packet, Heap, write, done, load, release, free, clone, offset_clone, packet_size,
}
use mediaroom.Packet.Chain.{Chain, Chain-write_ne}

-- Nobody else holds the packets `ps`.
abbrev pub Owned : Heap → List ℕ → Type 0
Owned h [] = Unit {0}
Owned h (p ∷ ps) = ((c : Packet) → h p ≡ some c → c.refcnt ≡ 1) × Owned h ps

-- The first packet, if there is one, is held by others too.
abbrev pub Shared : Heap → List ℕ → Type 0
Shared h [] = Unit {0}
Shared h (s ∷ ps) = (c : Packet) → h s ≡ some c → (1 < c.refcnt) × (c.refcnt < 65536)

-- It has lost one reference.
abbrev pub Dropped : Heap → Heap → List ℕ → Type 0
Dropped h h' [] = Unit {0}
Dropped h h' (s ∷ ps) =
    (c : Packet) → h s ≡ some c → h' s ≡ some (record c { refcnt = c.refcnt - 1 })

abbrev pub first : List ℕ → List ℕ
first [] = []
first (p ∷ ps) = p ∷ []

Owned-write_ne :
    (h : Heap) (q : ℕ) (c : Option Packet) (ps : List ℕ)
    → All (λ p. q ≢ p) ps
    → Owned h ps
    → Owned (write h q c) ps
Owned-write_ne h q c [] ne own = tt
Owned-write_ne h q c (p ∷ ps) (ne, nes) (one, own) =
    (λ d e. one d (ground arith), Owned-write_ne h q c ps nes own)

Shared-write_ne :
    (h : Heap) (q : ℕ) (c : Option Packet) (ps : List ℕ)
    → All (λ p. q ≢ p) ps
    → Shared h ps
    → Shared (write h q c) ps
Shared-write_ne h q c [] ne many = tt
Shared-write_ne h q c (p ∷ ps) (ne, nes) many = λ d e. many d (ground arith)

free-release :
    (fuel r : ℕ) (h : Heap) (p : ℕ) (c : Packet)
    → h p ≡ some c
    → (c.refcnt + 65535) % 65536 ≡ r
    → free (suc fuel) p h ≡ release (free fuel) p r c h
unfolding free
free-release fuel r h p c e count = rw (load, e) (ap (λ k. release (free fuel) p k c h) count)

pub free-shared :
    (fuel : ℕ) (h : Heap) (p : ℕ) (c : Packet)
    → h p ≡ some c
    → 1 < c.refcnt
    → c.refcnt < 65536
    → free (suc fuel) p h ≡ done (write h p (some (record c { refcnt = c.refcnt - 1 })))
unfolding release
free-shared fuel h p c e a b =
    let more : (c.refcnt - 1 == 0) ≡ false = ground arith in
    free-release fuel (c.refcnt - 1) h p c e (omega arith) ∙ rw (more) refl

-- The heap while the rest of the chain of `p` is released.
abbrev pub counted : Heap → ℕ → Packet → Heap
counted h p c = write h p (some (record c { refcnt = 0 }))

pub free-end :
    (fuel : ℕ) (h : Heap) (p : ℕ) (c : Packet)
    → h p ≡ some c
    → c.refcnt ≡ 1
    → c.next ≡ none
    → free (suc fuel) p h ≡ done (write (counted h p c) p none)
unfolding release
free-end fuel h p c e one end = free-release fuel 0 h p c e (omega arith) ∙ ground arith

free-further :
    (fuel : ℕ) (h h' : Heap) (p q : ℕ) (c : Packet)
    → h p ≡ some c
    → c.refcnt ≡ 1
    → c.next ≡ some q
    → free fuel q (counted h p c) ≡ done h'
    → free (suc fuel) p h ≡ done (write h' p none)
unfolding release
free-further fuel h h' p q c e one next rest =
    free-release fuel 0 h p c e (omega arith) ∙ ground arith

-- What `free` leaves of the chain of `ps` and then `qs`.
abbrev pub Released : Heap → List ℕ → List ℕ → Heap → Type 0
Released h ps qs h' =
    All (λ p. h' p ≡ none) ps
    × Dropped h h' qs
    × ((q : ℕ) → All (λ r. q ≢ r) (ps ++ first qs) → h' q ≡ h q)

None-write :
    (h : Heap) (p : ℕ) (ps : List ℕ)
    → All (λ q. h q ≡ none) ps
    → All (λ q. write h p none q ≡ none) ps
None-write h p [] gone = tt
None-write h p (q ∷ ps) (e, gone) = (ground arith, None-write h p ps gone)

Dropped-write :
    (h h' : Heap) (p : ℕ) (c : Packet) (ps qs : List ℕ)
    → All (λ r. p ≢ r) (ps ++ qs)
    → Dropped (counted h p c) h' qs
    → Dropped h (write h' p none) qs
Dropped-write h h' p c (r ∷ ps) qs (_, ne) dropped = Dropped-write h h' p c ps qs ne dropped
Dropped-write h h' p c [] [] ne dropped = tt
Dropped-write h h' p c [] (s ∷ qs) (ne, _) dropped =
    λ d e. let old = dropped d (ground arith) in ground arith

-- One packet more is released in front of the chain.
Released-cons :
    (h h' : Heap) (p : ℕ) (c : Packet) (ps qs : List ℕ)
    → All (λ r. p ≢ r) (ps ++ qs)
    → Released (counted h p c) ps qs h'
    → Released h (p ∷ ps) qs (write h' p none)
Released-cons h h' p c ps qs ne (gone, dropped, kept) = (
  (ground arith, None-write h' p ps gone),
  Dropped-write h h' p c ps qs ne dropped,
  λ q (nq, nqs). let old = kept q nqs in ground arith,
)

abbrev pub Frees : ℕ → Heap → List ℕ → List ℕ → ℕ → Type 0
Frees fuel h ps qs p = (h' : Heap) × (free fuel p h ≡ done h') × Released h ps qs h'

free-cons :
    (fuel : ℕ) (h : Heap) (p q : ℕ) (c : Packet) (ps qs : List ℕ)
    → h p ≡ some c
    → c.refcnt ≡ 1
    → c.next ≡ some q
    → All (λ r. p ≢ r) (ps ++ qs)
    → Frees fuel (counted h p c) ps qs q
    → Frees (suc fuel) h (p ∷ ps) qs p
free-cons fuel h p q c ps qs e one next ne (h', run, rest) = (
  write h' p none,
  free-further fuel h h' p q c e one next run,
  Released-cons h h' p c ps qs ne rest,
)

-- Packet::free releases a chain of distinct packets up to the first that others hold too: the
-- memory of the packets in front of that one is given back, that one loses one reference, and
-- nothing else changes, its successors included. One call for each packet is enough.
pub free-Released :
    (fuel : ℕ) (h : Heap) (p : ℕ) (ps qs : List ℕ)
    → length ps < fuel
    → Chain h (some p) (ps ++ qs)
    → Distinct (ps ++ qs)
    → Owned h ps
    → Shared h qs
    → Frees fuel h ps qs p
free-Released zero h p ps qs enough chain d own many = absurd (omega arith)
free-Released (suc fuel) h p [] [] enough chain d own many = cc
free-Released (suc fuel) h p [] (s ∷ qs) enough (e, c, f, chain) d own many =
    let (a, b) = many c f in
    let f' : h p ≡ some c = ground arith in
    (
      write h p (some (record c { refcnt = c.refcnt - 1 })),
      free-shared fuel h p c f' a b,
      (tt, λ c' e'. ground arith, λ q (nq, _). ground arith),
    )
free-Released (suc fuel) h p (r ∷ []) [] enough (e, c, f, end) d (one, own) many =
    let f' : h p ≡ some c = ground arith in
    (
      write (counted h p c) p none,
      free-end fuel h p c f' (one c f) end,
      ((ground arith, tt), tt, λ q (nq, _). ground arith),
    )
free-Released (suc fuel) h p (r ∷ []) (s ∷ qs) enough (e, c, f, (next, d', g, rest)) (d, ds)
      (one, own) many =
    subst (Frees (suc fuel) h (r ∷ []) (s ∷ qs)) (cc) (
      free-cons fuel h r s c [] (s ∷ qs) f (one c f) next d (
        free-Released fuel (counted h r c) s [] (s ∷ qs) (omega arith)
          (Chain-write_ne h r _ (some s) (s ∷ qs) d (refl, d', g, rest)) ds tt
          (Shared-write_ne h r _ (s ∷ qs) d many)))
free-Released (suc fuel) h p (r ∷ s ∷ ps) qs enough (e, c, f, (next, d', g, rest)) (d, ds)
      (one, own) many =
    subst (Frees (suc fuel) h (r ∷ s ∷ ps) qs) (cc) (
      free-cons fuel h r s c (s ∷ ps) qs f (one c f) next d (
        free-Released fuel (counted h r c) s (s ∷ ps) qs (omega arith)
          (Chain-write_ne h r _ (some s) (s ∷ ps ++ qs) d (refl, d', g, rest)) ds
          (Owned-write_ne h r _ (s ∷ ps) (All-left (λ y. r ≢ y) (s ∷ ps) qs d) own)
          (Shared-write_ne h r _ qs (All-right (λ y. r ≢ y) (s ∷ ps) qs d) many)))

-- A clone and its release leave the packet as it was but for the offset: Pkt::clone has set that
-- to the end of the header, also for the Pkt that was cloned. PktOffset::clone leaves it alone.
-- The packet is held, and by fewer than `2 ^ 16 - 1`.
pub clone-free :
    (fuel : ℕ) (h : Heap) (p : ℕ) (c : Packet)
    → h p ≡ some c
    → 0 < c.refcnt
    → c.refcnt < 65535
    → ((h' h'' : Heap) × (clone p h ≡ done h')
        × (free (suc fuel) p h' ≡ done h'')
        × (h'' p ≡ some (record c { offset = packet_size }))
        × ((q : ℕ) → q ≢ p → h'' q ≡ h q))
      × ((h' h'' : Heap) × (offset_clone p h ≡ done h')
          × (free (suc fuel) p h' ≡ done h'')
          × ((q : ℕ) → h'' q ≡ h q))
unfolding clone offset_clone
clone-free fuel h p c e a b =
    let n : ℕ = (c.refcnt + 1) % 65536 in
    let back : n - 1 ≡ c.refcnt = omega arith in
    let cloned = record c { refcnt = n; offset = packet_size } in
    let h' = write h p (some cloned) in
    let held = record c { refcnt = n } in
    let g' = write h p (some held) in
    (
      (
        h',
        write h' p (some (record cloned { refcnt = n - 1 })),
        rw (load, e) refl,
        free-shared fuel h' p cloned (ground arith) (omega arith) (omega arith),
        ground arith,
        λ q ne. ground arith,
      ),
      (
        g',
        write g' p (some (record held { refcnt = n - 1 })),
        rw (load, e) refl,
        free-shared fuel g' p held (ground arith) (omega arith) (omega arith),
        λ q. ground arith,
      ),
    )
