-- ===== src/Layers/Push/Hash.antt =====
-- The flow hash of PacketDetails for the two directions of a flow.
use mediaroom.Prelude.{
  ℕ, ◌+◌, ◌%◌, ◌^◌, ◌≡◌, inl, inr, refl, ap, List, [], ◌∷◌, arith, Option-cases,
}
use mediaroom.Bytes.{Memory, load16, load32}
use mediaroom.Layers.{Details, Limits}
use mediaroom.Layers.Push.{Header, Every, push, push_all, dpc, opc, mac_hash, hash}

-- The header has the same addresses in both packets, the other way round.
abbrev pub Swapped : Memory → Memory → Header → Type 0
Swapped p q (Header.eth o mix) =
    (load32 p o ≡ load32 q (o + 6))
    × (load16 p (o + 4) ≡ load16 q (o + 6 + 4))
    × (load32 p (o + 6) ≡ load32 q o)
    × (load16 p (o + 6 + 4) ≡ load16 q (o + 4))
Swapped p q (Header.vlan o mix) = load16 p o ≡ load16 q o
Swapped p q (Header.mpls o mix) = (load16 p o ≡ load16 q o) × (load32 p o ≡ load32 q o)
Swapped p q (Header.ip4 o mix) =
    (load32 p (o + 12) ≡ load32 q (o + 16)) × (load32 p (o + 16) ≡ load32 q (o + 12))
Swapped p q (Header.mtp o) =
    (dpc (load32 p (o + 4)) ≡ opc (load32 q (o + 4)))
    × (opc (load32 p (o + 4)) ≡ dpc (load32 q (o + 4)))
Swapped p q (Header.mtp3 o) =
    (dpc (load32 p (o + 1)) ≡ opc (load32 q (o + 1)))
    × (opc (load32 p (o + 1)) ≡ dpc (load32 q (o + 1)))
Swapped p q (Header.isup o) = load16 p o ≡ load16 q o
Swapped p q (Header.tcp o) = (load16 p o ≡ load16 q (o + 2)) × (load16 p (o + 2) ≡ load16 q o)
Swapped p q (Header.udp o) = (load16 p o ≡ load16 q (o + 2)) × (load16 p (o + 2) ≡ load16 q o)
Swapped p q (Header.sctp o) = (load16 p o ≡ load16 q (o + 2)) × (load16 p (o + 2) ≡ load16 q o)
Swapped p q (Header.sctp_chunk o) = Unit {0}
Swapped p q (Header.m2ua o) = Unit {0}
Swapped p q (Header.m3ua base o at) =
    (load32 p (base + at) ≡ load32 q (base + (at + 4) % 2 ^ 16))
    × (load32 p (base + (at + 4) % 2 ^ 16) ≡ load32 q (base + at))

sum_comm : (f v w : ℕ) → ((f + v) % 2 ^ 64 + w) % 2 ^ 64 ≡ ((f + w) % 2 ^ 64 + v) % 2 ^ 64
sum_comm f v w = omega arith

-- Two numbers are hashed in either order.
hash_comm : (v w : ℕ) (d : Details) → hash v (hash w d) ≡ hash w (hash v d)
hash_comm v w d = ap (λ (k : ℕ). record d { flow_hash = k }) (sum_comm d.flow_hash w v)

push-Swapped :
    (l : Limits) (p q : Memory) (h : Header) (d : Details)
    → Swapped p q h
    → push l p h d ≡ push l q h d
unfolding push
push-Swapped l p q (Header.eth o mix) d (a, b, c, e) =
    rw (a, b, c, e, hash_comm (mac_hash q (o + 6)) (mac_hash q o) d)
push-Swapped l p q (Header.vlan o mix) d e = rw e
push-Swapped l p q (Header.mpls o mix) d (a, b) = rw (a, b)
push-Swapped l p q (Header.ip4 o mix) d (a, b) =
    rw (a, b, hash_comm (load32 q (o + 12)) (load32 q (o + 16)) d)
push-Swapped l p q (Header.mtp o) d (a, b) =
    rw (a, b, sum_comm d.flow_hash (dpc (load32 q (o + 4))) (opc (load32 q (o + 4))))
push-Swapped l p q (Header.mtp3 o) d (a, b) =
    rw (a, b, sum_comm d.flow_hash (dpc (load32 q (o + 1))) (opc (load32 q (o + 1))))
push-Swapped l p q (Header.isup o) d e = rw e
push-Swapped l p q (Header.tcp o) d (a, b) = rw (a, b, hash_comm (load16 q o) (load16 q (o + 2)) d)
push-Swapped l p q (Header.udp o) d (a, b) = rw (a, b, hash_comm (load16 q o) (load16 q (o + 2)) d)
push-Swapped l p q (Header.sctp o) d (a, b) = rw (a, b, hash_comm (load16 q o) (load16 q (o + 2)) d)
push-Swapped l p q (Header.sctp_chunk o) d h = refl
push-Swapped l p q (Header.m2ua o) d h = refl
push-Swapped l p q (Header.m3ua base o at) d (a, b) =
    rw (a, b, hash_comm (load32 q (base + at)) (load32 q (base + (at + 4) % 2 ^ 16)) d)

-- Both directions of a flow get the same hash, and the same layers at the same offsets: what is
-- pushed does not depend on which of the two addresses of each header comes first.
pub push_all-Swapped :
    (l : Limits) (p q : Memory) (hs : List Header) (d : Details)
    → Every (Swapped p q) hs
    → push_all l p hs d ≡ push_all l q hs d
unfolding push_all
push_all-Swapped l p q [] d s = refl
push_all-Swapped l p q (h ∷ hs) d (s, more) = elim (Option-cases (push l q h d)) [
  | inl e ↦ rw (push-Swapped l p q h d s, e, push_all)
  | inr (d', e) ↦ rw (push-Swapped l p q h d s, e, push_all) (push_all-Swapped l p q hs d' more)
]
