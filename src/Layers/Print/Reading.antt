-- ===== src/Layers/Print/Reading.antt =====
-- PacketDetails: the printed address of an IPv4 header with TCP or UDP on it is read again.
use mediaroom.Prelude.{
  ℕ, suc, ◌+◌, ◌*◌, ◌<◌, ◌≡◌, ◌≢◌, ◌⊎◌, inl, inr, refl, sym, ap, ◌∙◌, false, Option, none, some,
  List, [], ◌∷◌, ◌++◌, Bool-cases, ◌==◌, length, arith,
}
use mathlib.Core.Path.{subst, ap₂}
use mediaroom.Layers.Print.Steps.{append_fits, ip_text-Room, port_text-Room}
use mediaroom.Bytes.{Memory, load16, load32}
use mediaroom.Layers.{Details, no_layer, get_type}
use mediaroom.Layers.Print.{
  Buffer, Parts, decimal, find_parts, next_parts, last_part, parts_at, lower, place, ip_text,
  port_text, print_at, ◌>>=◌, empty_buffer, print_sctp, dpc, opc, print_src_parts, print_dst_parts,
  print_src_addr, print_dst_addr,
}
use mediaroom.Layers.Print.Numbers.{numbers, numbers-address}

-- What an array of uint8_t holds.
abbrev pub IsBytes : Memory → Type 0
IsBytes m = (q : ℕ) → m q < 256

-- What is printed of an IPv4 header and of the ports on it.
abbrev pub Reads : Option Buffer → List ℕ → Type 0
Reads none l = ⊥
Reads (some b) l = numbers 0 b.text ≡ l

-- The bytes of the address and the port, in the order of the network.
abbrev pub address_at : Memory → ℕ → ℕ → List ℕ
address_at m ip port =
    m ip ∷ m (ip + 1) ∷ m (ip + 2) ∷ m (ip + 3) ∷ (256 * m port + m (port + 1)) ∷ []

abbrev found_parts : ℕ → Parts
found_parts n = record {
  tcp_layer = suc n;
  ip4_layer = n;
  mtp_layer = no_layer;
  m3ua_layer = no_layer;
  isup_layer = no_layer;
  layer = lower n;
}

last_part-ports :
    (n type : ℕ)
    → n < 254
    → ((type ≡ 5) ⊎ (type ≡ 6))
    → last_part type (parts_at (suc n)) ≡ record (parts_at n) { tcp_layer = suc n }
last_part-ports n type h k = ground arith

next_parts-ip4 :
    (d : Details) (n : ℕ)
    → n < 254
    → get_type (d.layers n) ≡ 4
    → next_parts d (record (parts_at n) { tcp_layer = suc n }) ≡ found_parts n
next_parts-ip4 d n h k = ground arith

find_parts-ports :
    (d : Details) (n : ℕ)
    → n < 254
    → ((get_type (d.layers (suc n)) ≡ 5) ⊎ (get_type (d.layers (suc n)) ≡ 6))
    → get_type (d.layers n) ≡ 4
    → find_parts d (suc n) ≡ found_parts n
unfolding find_parts
find_parts-ports d n h k i =
    ap (next_parts d) (last_part-ports n (get_type (d.layers (suc n))) h k) ∙ next_parts-ip4 d n h i

-- A layer that was found prints, and one that was not does not.
print_at_found :
    (layer : ℕ) (b : Buffer) (s : List ℕ)
    → layer ≢ no_layer
    → b.length + length s < 64
    → print_at layer s b ≡ some (record { text = b.text ++ s; length = b.length + length s })
unfolding print_at
print_at_found layer b s h k = elim (Bool-cases (layer == no_layer)) [
  | inl t ↦ absurd (ground arith)
  | inr t ↦ rw (t) (append_fits b s k)
]

-- M3UA was not found.
print_sctp_none :
    (n : ℕ) (sctp : List ℕ) (o : Option Buffer) → (o >>= print_sctp (found_parts n) sctp) ≡ o
unfolding ◌>>=◌ print_sctp
print_sctp_none n sctp none = refl
print_sctp_none n sctp (some b) = refl

print_ports :
    (n ip port : ℕ) (label sctp : List ℕ)
    → n < 254
    → (print_at n (ip_text ip) empty_buffer
        >>= print_at no_layer label
        >>= print_at (suc n) (port_text port)
        >>= print_sctp (found_parts n) sctp)
      ≡ some (record {
        text = ip_text ip ++ port_text port;
        length = length (ip_text ip) + length (port_text port);
      })
unfolding ◌>>=◌ print_at
print_ports n ip port label sctp h =
    let first : Buffer = record { text = ip_text ip; length = length (ip_text ip) } in
    ap
      (λ o.
        o
        >>= print_at no_layer label
        >>= print_at (suc n) (port_text port)
        >>= print_sctp (found_parts n) sctp)
      (print_at_found n empty_buffer (ip_text ip) (omega arith) (omega (arith, ip_text-Room ip))
        ∙ ap (λ k. some (record { text = ip_text ip; length = k })) (omega arith))
    ∙ print_sctp_none n sctp (print_at (suc n) (port_text port) first)
    ∙ (print_at_found (suc n) first (port_text port) (omega arith)
        (omega (arith, ip_text-Room ip, port_text-Room port)))

address-bytes :
    (m : Memory) (ip port : ℕ)
    → IsBytes m
    → numbers 0 (ip_text (load32 m ip) ++ port_text (load16 m port)) ≡ address_at m ip port
unfolding load32 load16
address-bytes m ip port h =
    let (a, b, c, d) : (m ip < 256) × (m (ip + 1) < 256) × (m (ip + 2) < 256) × (m (ip + 3) < 256) =
      (h ip, h (ip + 1), h (ip + 2), h (ip + 3)) in
    let (e, f) : (m port < 256) × (m (port + 1) < 256) = (h port, h (port + 1)) in
    let g : m (ip + 2 + 1) ≡ m (ip + 3) = ap m (omega arith) in
    numbers-address (load32 m ip) (load16 m port)
    ∙ ap₂ ◌∷◌ (omega arith) (
        ap₂ ◌∷◌ (omega arith)
          (ap₂ ◌∷◌ (omega arith) (ap₂ ◌∷◌ (omega arith) (ap (λ p. p ∷ []) (omega arith)))))

Reads-printed :
    (m : Memory) (o : Option Buffer) (ip port l : ℕ)
    → IsBytes m
    → o ≡ some (record { text = ip_text (load32 m ip) ++ port_text (load16 m port); length = l })
    → Reads o (address_at m ip port)
Reads-printed m o ip port l h e =
    subst (λ p. Reads p (address_at m ip port)) (sym e) (address-bytes m ip port h)

src-parts :
    (m : Memory) (d : Details) (n : ℕ)
    → n < 254
    → d.layers_cnt ≡ n + 2
    → find_parts d (suc n) ≡ found_parts n
    → print_src_addr m d ≡ print_src_parts m d (found_parts n)
unfolding print_src_addr
src-parts m d n h c e =
    let l : lower d.layers_cnt ≡ suc n = omega arith in
    let s : (suc n == no_layer) ≡ false = ground arith in rw (l, s, e) refl

dst-parts :
    (m : Memory) (d : Details) (n : ℕ)
    → n < 254
    → d.layers_cnt ≡ n + 2
    → find_parts d (suc n) ≡ found_parts n
    → print_dst_addr m d ≡ print_dst_parts m d (found_parts n)
unfolding print_dst_addr
dst-parts m d n h c e =
    let l : lower d.layers_cnt ≡ suc n = omega arith in
    let s : (suc n == no_layer) ≡ false = ground arith in rw (l, s, e) refl

-- For a packet whose last layer is TCP or UDP, with IPv4 below it: printSrcAddr and printDstAddr
-- succeed, and the numbers of their texts are the four bytes of the source (destination) address
-- and the port of that side, each as the packet has it on the wire.
pub print_addr-numbers :
    (m : Memory) (d : Details) (n : ℕ)
    → IsBytes m
    → n < 254
    → d.layers_cnt ≡ n + 2
    → ((get_type (d.layers (suc n)) ≡ 5) ⊎ (get_type (d.layers (suc n)) ≡ 6))
    → get_type (d.layers n) ≡ 4
    → Reads (print_src_addr m d) (address_at m (place d n) (place d (suc n)))
      × Reads (print_dst_addr m d) (address_at m (place d n + 4) (place d (suc n) + 2))
print_addr-numbers m d n w h c k i =
    let e : find_parts d (suc n) ≡ found_parts n = find_parts-ports d n h k i in
    let ip : ℕ = place d n in
    let port : ℕ = place d (suc n) in
    let src : ℕ = load32 m ip in
    let dst : ℕ = load32 m (ip + 4) in
    let rl : ℕ = load32 m (place d no_layer) in
    let sctp : ℕ = place d (lower n) in
    (
      Reads-printed m (print_src_addr m d) ip port
          (length (ip_text src) + length (port_text (load16 m port))) w
          (src-parts m d n h c e
            ∙ print_ports n src (load16 m port) (decimal (opc rl)) (port_text (load16 m sctp)) h),
      Reads-printed m (print_dst_addr m d) (ip + 4) (port + 2)
          (length (ip_text dst) + length (port_text (load16 m (port + 2)))) w
          (dst-parts m d n h c e
            ∙ print_ports n dst (load16 m (port + 2)) (decimal (dpc rl))
                (port_text (load16 m (sctp + 2))) h),
    )
