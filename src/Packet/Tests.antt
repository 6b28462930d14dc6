-- ===== src/Packet/Tests.antt =====
-- The theorems on packets at small heaps, and runs.
use mediaroom.Prelude.{ℕ, ◌≡◌, ◌≢◌, refl, Option, none, some, false, List, [], ◌∷◌, arith, All}
use mediaroom.Packet.Owners.{
  Use, Variables, pointer, set_pointer, use_variable, use_variables, AllowedAll,
}
use mediaroom.Packet.Owners.Counts.{owners, Counted}
use mediaroom.Packet.Owners.Uses.{use_variables-Counted}
use mediaroom.Packet.{
  Packet, Heap, write, done, fault, ◌>>=◌, add_packet, pkt_add_packet, chain_data_size, free,
  release, clone, offset_clone, alloc_packet,
}
use mediaroom.Packet.Chain.{Chain, add_packet-Chain}
use mediaroom.Packet.Release.{Released, free-Released, clone-free}

abbrev packet : ℕ → ℕ → Option ℕ → Packet
packet refcnt caplen next = record {
  refcnt = refcnt;
  caplen = caplen;
  length = caplen;
  offset = 48;
  payload_shift = 0;
  next = next;
}

-- The packets 1 and 2 make a chain, and 3 and 4 another one. 4 is held twice.
abbrev heap : Heap
heap =
    write
      (write (write (write (λ q. none) 1 (some (packet 1 60 (some 2)))) 2 (some (packet 1 70 none)))
        3 (some (packet 1 80 (some 4))))
      4 (some (packet 2 90 none))

add_packet-Chain_example :
    (h' : Heap) × (add_packet 2 1 (some 3) heap ≡ done h')
    × Chain h' (some 1) (1 ∷ 2 ∷ 3 ∷ 4 ∷ [])
    × ((q : ℕ) → All (λ r. q ≢ r) (1 ∷ 2 ∷ []) → h' q ≡ heap q)
add_packet-Chain_example =
    add_packet-Chain 2 heap 1 (some 3) (1 ∷ 2 ∷ []) (3 ∷ 4 ∷ []) (omega arith)
      (refl, packet 1 60 (some 2), refl, (refl, packet 1 70 none, refl, refl)) (omega arith)
      (refl, packet 1 80 (some 4), refl, (refl, packet 2 90 none, refl, refl)) (omega arith)

free-Released_example : (h' : Heap) × (free 2 3 heap ≡ done h') × Released heap (3 ∷ []) (4 ∷ []) h'
free-Released_example =
    free-Released 2 heap 3 (3 ∷ []) (4 ∷ []) (omega arith)
      (refl, packet 1 80 (some 4), refl, (refl, packet 2 90 none, refl, refl)) (omega arith)
      (λ c e. ground arith, tt) (λ c e. ground arith)

clone-free_example :
    ((h' h'' : Heap) × (clone 4 heap ≡ done h')
      × (free 1 4 h' ≡ done h'')
      × (h'' 4 ≡ some (packet 2 90 none))
      × ((q : ℕ) → q ≢ 4 → h'' q ≡ heap q))
    × ((h' h'' : Heap) × (offset_clone 4 heap ≡ done h')
        × (free 1 4 h' ≡ done h'')
        × ((q : ℕ) → h'' q ≡ heap q))
clone-free_example = clone-free 0 heap 4 (packet 2 90 none) refl (omega arith) (omega arith)

-- The null pointer takes over a packet, and three allocated packets make a chain.
three_allocated :
    (pkt_add_packet 4 none (some 7) heap >>= λ (p, h).
    pkt_add_packet 4 p (some 8) (alloc_packet 8 100 (alloc_packet 7 65600 h)) >>= λ (q, h').
    chain_data_size 4 7 h')
    ≡ done 164
unfolding pkt_add_packet add_packet alloc_packet chain_data_size
three_allocated = refl

-- A packet is not appended to itself.
appended_to_itself : add_packet 3 1 (some 2) heap ≡ fault
unfolding add_packet
appended_to_itself = refl

-- Two variables: a packet is allocated for the first and cloned to the second, which is assigned to
-- the first, and both are destroyed.
abbrev uses : List Use
uses =
    Use.allocated 0 7 100
    ∷ Use.cloned false 0 1
    ∷ Use.assigned 1 0
    ∷ Use.assigned 0 0
    ∷ Use.destroyed 0
    ∷ Use.destroyed 1
    ∷ []

abbrev unused : Variables
unused = record { pointers = none ∷ none ∷ []; heap = λ p. none }

unused-Counted : Counted unused
unfolding owners
unused-Counted = record { held = λ p. refl; few = omega arith }

uses_allowed : AllowedAll uses unused
unfolding AllowedAll use_variable pointer set_pointer clone offset_clone free release alloc_packet
uses_allowed = (
  (omega arith, refl, refl),
  (
    (omega arith, refl, 7, refl),
    ((omega arith, omega arith), ((omega arith, omega arith), (omega arith, (omega arith, tt)))),
  ),
)

use_variables-Counted_example : (r : Variables) × (use_variables uses unused ≡ done r) × Counted r
use_variables-Counted_example = use_variables-Counted uses unused unused-Counted uses_allowed

-- Nothing is left behind.
all_given_back : (use_variables uses unused >>= λ r. done (r.heap 7)) ≡ done none
unfolding use_variables use_variable pointer set_pointer clone offset_clone free release
    alloc_packet
all_given_back = refl
