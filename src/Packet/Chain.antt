-- ===== src/Packet/Chain.antt =====
-- Chains of packets: what addPacket does to one, and what the two sizes measure.
use mediaroom.Prelude.{
  ℕ, zero, suc, ◌+◌, ◌^◌, ◌≤◌, ◌<◌, ◌≡◌, ◌≢◌, refl, ◌∙◌, false, Option, none, some, List, [], ◌∷◌,
  ◌++◌, arith, length, All, Distinct,
}
use mediaroom.Packet.{
  Packet, Heap, write, done, endless, same, load, add_packet, chain_size, chain_data_size,
}

-- The packets `ps` are linked one after another, from the pointer `o` to a null pointer.
abbrev pub Chain : Heap → Option ℕ → List ℕ → Type 0
Chain h o [] = o ≡ none
Chain h o (p ∷ ps) = (o ≡ some p) × (c : Packet) × (h p ≡ some c) × Chain h c.next ps

-- The packets have `d` as their data lengths.
abbrev pub total : Heap → List ℕ → ℕ
total h [] = 0
total h (p ∷ ps) = elim (h p) [ none ↦ 0 | some c ↦ c.caplen ] + total h ps

-- A packet that is not of the chain may change.
pub Chain-write_ne :
    (h : Heap) (q : ℕ) (c : Option Packet) (o : Option ℕ) (ps : List ℕ)
    → All (λ p. q ≢ p) ps
    → Chain h o ps
    → Chain (write h q c) o ps
Chain-write_ne h q c o [] ne chain = chain
Chain-write_ne h q c o (p ∷ ps) (ne, nes) (e, d, f, chain) =
    (e, d, ground arith, Chain-write_ne h q c d.next ps nes chain)

-- None of the packets `ps` is one of `qs`.
abbrev pub Apart : List ℕ → List ℕ → Type 0
Apart ps qs = All (λ p. All (λ q. p ≢ q) qs) ps

same-Chain :
    (h : Heap) (p : ℕ) (o : Option ℕ) (qs : List ℕ)
    → Chain h o qs
    → All (λ q. p ≢ q) qs
    → same p o ≡ false
same-Chain h p o [] chain ne = rw (chain) refl
same-Chain h p o (q ∷ qs) (e, _, _, _) (ne, _) = rw (e) (ground arith)

-- The last packet is linked to `o`.
add_packet-last :
    (fuel : ℕ) (h : Heap) (p : ℕ) (o : Option ℕ) (c : Packet)
    → same p o ≡ false
    → h p ≡ some c
    → c.next ≡ none
    → add_packet (suc fuel) p o h ≡ done (write h p (some (record c { next = o })))
unfolding add_packet
add_packet-last fuel h p o c ne e f = rw (ne, load, e, f) refl

add_packet-further :
    (fuel : ℕ) (h : Heap) (p q : ℕ) (o : Option ℕ) (c : Packet)
    → same p o ≡ false
    → h p ≡ some c
    → c.next ≡ some q
    → add_packet (suc fuel) p o h ≡ add_packet fuel q o h
unfolding add_packet
add_packet-further fuel h p q o c ne e f = rw (ne, load, e, f) refl

-- addPacket to a chain of distinct packets appends the other chain to it, if the two have no
-- packet in common: the packets are those of the first in their order and then those of the
-- second, and no packet outside of the first is written to. One call for each packet of the first
-- chain is enough.
pub add_packet-Chain :
    (fuel : ℕ) (h : Heap) (p : ℕ) (o : Option ℕ) (ps qs : List ℕ)
    → length ps ≤ fuel
    → Chain h (some p) ps
    → Distinct ps
    → Chain h o qs
    → Apart ps qs
    → (h' : Heap) × (add_packet fuel p o h ≡ done h')
      × Chain h' (some p) (ps ++ qs)
      × ((q : ℕ) → All (λ r. q ≢ r) ps → h' q ≡ h q)
add_packet-Chain zero h p o [] qs enough chain d other ne = cc
add_packet-Chain zero h p o (r ∷ ps) qs enough chain d other ne = absurd (omega arith)
add_packet-Chain (suc fuel) h p o [] qs enough chain d other ne = cc
add_packet-Chain (suc fuel) h p o (r ∷ []) qs enough (e, c, f, end) d other (ne, _) =
    let e' : p ≡ r = ground arith in
    let f' : h p ≡ some c = rw (e') f in
    let ne' : All (λ q. p ≢ q) qs = rw (e') ne in
    (
      write h p (some (record c { next = o })),
      add_packet-last fuel h p o c (same-Chain h p o qs other ne') f' end,
      (e, record c { next = o }, ground arith, Chain-write_ne h p _ o qs ne' other),
      λ q (nq, _). ground arith,
    )
add_packet-Chain (suc fuel) h p o (r ∷ s ∷ ps) qs enough (e, c, f, chain) (d, ds) other (ne, nes) =
    let e' : p ≡ r = ground arith in
    let f' : h p ≡ some c = rw (e') f in
    let ne' : All (λ q. p ≢ q) qs = rw (e') ne in
    let next : c.next ≡ some s = chain.0 in
    let rest : Chain h (some s) (s ∷ ps) = (refl, chain.1, chain.2, chain.3) in
    let (h', run, all, kept) =
      add_packet-Chain fuel h s o (s ∷ ps) qs (omega arith) rest ds other nes in
    (
      h',
      add_packet-further fuel h p s o c (same-Chain h p o qs other ne') f' next ∙ run,
      (e, c, kept r d ∙ f, rw (next) all),
      λ q (nq, nqs). kept q nqs,
    )

chain_size-Chain :
    (fuel : ℕ) (h : Heap) (p : ℕ) (ps : List ℕ)
    → length ps ≤ fuel
    → length ps < 2 ^ 64
    → Chain h (some p) ps
    → chain_size fuel p h ≡ done (length ps)
unfolding chain_size
chain_size-Chain fuel h p [] a b chain = cc
chain_size-Chain zero h p (r ∷ ps) a b chain = absurd (omega arith)
chain_size-Chain (suc fuel) h p (r ∷ []) a b (e, c, f, end) =
    let f' : h p ≡ some c = ground arith in rw (load, f', end) refl
chain_size-Chain (suc fuel) h p (r ∷ s ∷ ps) a b (e, c, f, (next, d, g, rest)) =
    let f' : h p ≡ some c = ground arith in
    rw (load, f', next)
      (rw (chain_size-Chain fuel h s (s ∷ ps) (omega arith) (omega arith) (refl, d, g, rest))
        (ground arith))

chain_data_size-Chain :
    (fuel : ℕ) (h : Heap) (p : ℕ) (ps : List ℕ)
    → length ps ≤ fuel
    → total h ps < 2 ^ 64
    → Chain h (some p) ps
    → chain_data_size fuel p h ≡ done (total h ps)
unfolding chain_data_size
chain_data_size-Chain fuel h p [] a b chain = cc
chain_data_size-Chain zero h p (r ∷ ps) a b chain = absurd (omega arith)
chain_data_size-Chain (suc fuel) h p (r ∷ []) a b (e, c, f, end) =
    let f' : h p ≡ some c = ground arith in rw (load, f', end) (rw (f) (ground arith))
chain_data_size-Chain (suc fuel) h p (r ∷ s ∷ ps) a b (e, c, f, (next, d, g, rest)) =
    let f' : h p ≡ some c = ground arith in
    let small : c.caplen + total h (s ∷ ps) < 2 ^ 64 = ground arith in
    rw (load, f', next)
      (rw
        (chain_data_size-Chain fuel h s (s ∷ ps) (omega arith) (omega arith) (refl, d, g, rest), f)
        (ground arith))

-- The two sizes of a chain are the number of its packets and the sum of their data lengths, where
-- these are below `2 ^ 64`. One call for each packet is enough.
pub both_sizes :
    (fuel : ℕ) (h : Heap) (p : ℕ) (ps : List ℕ)
    → length ps ≤ fuel
    → length ps < 2 ^ 64
    → total h ps < 2 ^ 64
    → Chain h (some p) ps
    → (chain_size fuel p h ≡ done (length ps)) × (chain_data_size fuel p h ≡ done (total h ps))
both_sizes fuel h p ps enough a b chain =
    (chain_size-Chain fuel h p ps enough a chain, chain_data_size-Chain fuel h p ps enough b chain)

-- `q` is linked to `p`, and `p` to `q`.
chain_size-loop :
    (fuel : ℕ) (h : Heap) (p q : ℕ) (c d : Packet)
    → h p ≡ some c
    → c.next ≡ some q
    → h q ≡ some d
    → d.next ≡ some p
    → (chain_size fuel p h ≡ endless) × (chain_size fuel q h ≡ endless)
unfolding chain_size
chain_size-loop zero h p q c d a b e f = (refl, refl)
chain_size-loop (suc fuel) h p q c d a b e f =
    let (at_p, at_q) = chain_size-loop fuel h p q c d a b e f in
    (rw (load, a, b) (rw (at_q) refl), rw (load, e, f) (rw (at_p) refl))

-- addPacket does not see that the packet which it appends to a single packet leads back to that
-- one: it closes a loop, and chain_size then has no end.
pub add_packet_loop :
    (fuel : ℕ) (h : Heap) (p q : ℕ) (c d : Packet)
    → h p ≡ some c
    → c.next ≡ none
    → h q ≡ some d
    → d.next ≡ some p
    → p ≢ q
    → (h' : Heap) × (add_packet (suc fuel) p (some q) h ≡ done h')
      × ((n : ℕ) → chain_size n p h' ≡ endless)
add_packet_loop fuel h p q c d a b e f ne =
    let linked = record c { next = some q } in
    let h' = write h p (some linked) in
    (
      h',
      add_packet-last fuel h p (some q) c (ground arith) a b,
      λ n. (chain_size-loop n h' p q linked d (ground arith) refl (ground arith) f).0,
    )
