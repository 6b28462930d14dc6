-- ===== src/Layers/Print/Room.antt =====
-- PacketDetails: the room in the buffer of 64 characters that an address is printed to.
use mediaroom.Prelude.{
  ℕ, ◌+◌, ◌^◌, ◌≤◌, ◌<◌, ◌≡◌, ◌≢◌, ◌⊎◌, inl, inr, refl, sym, some, ◌∷◌, Bool-cases, ◌==◌, length,
  arith,
}
use mathlib.Core.Path.{subst}
use mediaroom.Bytes.{Memory, load16, load32}
use mediaroom.Layers.{Details, no_layer, get_type}
use mediaroom.Layers.Print.{
  Buffer, Parts, buffer_size, decimal, find_parts, next_part, next_parts, last_part, parts_at,
  lower, place, ip_text, port_text, print_at, ◌>>=◌, empty_buffer, print_sctp, sls, cic, opc, dpc,
  print_src_addr, print_dst_addr, print_sls_cic, find_ss7,
}
use mediaroom.Layers.Print.Steps.{
  Whole, length-digits, ip_text-Room, port_text-Room, append-Whole, print_at-Whole, bind-Whole,
}

-- Where M3UA is not the first layer, there is a layer below it to read the port of.
abbrev Below : Parts → Type 0
Below p = (p.m3ua_layer ≡ no_layer) ⊎ (p.layer ≢ no_layer)

print_sctp-Whole :
    (k : ℕ) (p : Parts) (b : Buffer) (port : ℕ)
    → Below p
    → Whole k (some b)
    → k + 6 < buffer_size
    → Whole (k + 6) (print_sctp p (port_text port) b)
unfolding print_sctp
print_sctp-Whole k p b port g (e, f) i = elim (Bool-cases (p.m3ua_layer == no_layer)) [
  | inl t ↦ rw (t) (e, omega arith)
  | inr t ↦ elim (Bool-cases (p.layer == no_layer)) [
    | inl u ↦ absurd (ground arith)
    | inr u ↦ rw (t, u) (append-Whole k 6 b (port_text port) (e, f) (port_text-Room port) i)
  ]
]

-- The four steps of printSrcAddr and printDstAddr.
steps-Whole :
    (p : Parts) (ip label port sctp : ℕ)
    → Below p
    → label < 2 ^ 14
    → Whole 32 (
        print_at p.ip4_layer (ip_text ip) empty_buffer
        >>= print_at p.mtp_layer (decimal label)
        >>= print_at p.tcp_layer (port_text port)
        >>= print_sctp p (port_text sctp))
steps-Whole p ip label port sctp g h =
    let first : Whole 15 (print_at p.ip4_layer (ip_text ip) empty_buffer) =
      print_at-Whole 0 15 p.ip4_layer empty_buffer (ip_text ip) (refl, omega arith)
        (ip_text-Room ip) (omega arith) in
    let label_room : length (decimal label) ≤ 5 = length-digits 10 4 label (omega arith) in
    bind-Whole 26 32
      (print_at p.ip4_layer (ip_text ip) empty_buffer
        >>= print_at p.mtp_layer (decimal label)
        >>= print_at p.tcp_layer (port_text port))
      (print_sctp p (port_text sctp))
      (bind-Whole 20 26
        (print_at p.ip4_layer (ip_text ip) empty_buffer >>= print_at p.mtp_layer (decimal label))
        (print_at p.tcp_layer (port_text port))
        (bind-Whole 15 20 (print_at p.ip4_layer (ip_text ip) empty_buffer)
          (print_at p.mtp_layer (decimal label)) first
          (λ b w. print_at-Whole 15 5 p.mtp_layer b (decimal label) w label_room (omega arith)))
        (λ b w.
          print_at-Whole 20 6 p.tcp_layer b (port_text port) w (port_text-Room port) (omega arith)))
      (λ b w. print_sctp-Whole 26 p b sctp g w (omega arith))

last_part-Below :
    (type layer : ℕ)
    → layer < 256
    → ((last_part type (parts_at layer)).m3ua_layer ≡ no_layer)
      × ((last_part type (parts_at layer)).layer < 256)
last_part-Below type layer h = ground arith

next_part-Below :
    (type : ℕ) (p : Parts)
    → (p.m3ua_layer ≡ no_layer)
    → (p.layer < 256)
    → ((p.layer ≡ 0) → type ≢ 14)
    → p.layer ≢ no_layer
    → Below (next_part type p)
next_part-Below type p e f h i = ground arith

next_parts-Below :
    (d : Details) (p : Parts)
    → p.m3ua_layer ≡ no_layer
    → p.layer < 256
    → get_type (d.layers 0) ≢ 14
    → Below (next_parts d p)
next_parts-Below d p e f h = elim (Bool-cases (p.layer == no_layer)) [
  | inl t ↦ rw (t) (inl e)
  | inr t ↦ rw (t) (
      next_part-Below (get_type (d.layers p.layer)) p e f
        (λ z. subst (λ l. get_type (d.layers l) ≢ 14) (sym z) h) (ground arith))
]

find_parts-Below :
    (d : Details) (layer : ℕ)
    → layer < 256
    → get_type (d.layers 0) ≢ 14
    → Below (find_parts d layer)
unfolding find_parts
find_parts-Below d layer h k =
    let (e, f) = last_part-Below (get_type (d.layers layer)) layer h in
    next_parts-Below d (last_part (get_type (d.layers layer)) (parts_at layer)) e f k

src-Whole : (m : Memory) (d : Details) → get_type (d.layers 0) ≢ 14 → Whole 32 (print_src_addr m d)
unfolding print_src_addr
src-Whole m d h =
    let layer : ℕ = lower d.layers_cnt in
    let p : Parts = find_parts d layer in
    elim (Bool-cases (layer == no_layer)) [
      | inl t ↦ rw (t) (refl, omega arith)
      | inr t ↦ rw (t) (
          steps-Whole p (load32 m (place d p.ip4_layer)) (opc (load32 m (place d p.mtp_layer)))
            (load16 m (place d p.tcp_layer)) (load16 m (place d p.layer))
            (find_parts-Below d layer (omega arith) h) (omega arith))
    ]

dst-Whole : (m : Memory) (d : Details) → get_type (d.layers 0) ≢ 14 → Whole 32 (print_dst_addr m d)
unfolding print_dst_addr
dst-Whole m d h =
    let layer : ℕ = lower d.layers_cnt in
    let p : Parts = find_parts d layer in
    elim (Bool-cases (layer == no_layer)) [
      | inl t ↦ rw (t) (refl, omega arith)
      | inr t ↦ rw (t) (
          steps-Whole p (load32 m (place d p.ip4_layer + 4)) (dpc (load32 m (place d p.mtp_layer)))
            (load16 m (place d p.tcp_layer + 2)) (load16 m (place d p.layer + 2))
            (find_parts-Below d layer (omega arith) h) (omega arith))
    ]

-- The two steps of printSlsCic.
ss7_steps-Whole :
    (mtp isup rl c : ℕ)
    → Whole 7
        (print_at mtp (decimal (sls rl)) empty_buffer >>= print_at isup (b':' ∷ decimal (cic c)))
ss7_steps-Whole mtp isup rl c =
    let r : length (decimal (sls rl)) ≤ 2 = length-digits 10 1 (sls rl) (omega arith) in
    let t : length (decimal (cic c)) ≤ 4 = length-digits 10 3 (cic c) (omega arith) in
    bind-Whole 2 7 (print_at mtp (decimal (sls rl)) empty_buffer)
      (print_at isup (b':' ∷ decimal (cic c)))
      (print_at-Whole 0 2 mtp empty_buffer (decimal (sls rl)) (refl, omega arith) r (omega arith))
      (λ b w. print_at-Whole 2 5 isup b (b':' ∷ decimal (cic c)) w (omega arith) (omega arith))

sls_cic-Whole : (m : Memory) (d : Details) → Whole 7 (print_sls_cic m d)
unfolding print_sls_cic
sls_cic-Whole m d =
    let layer : ℕ = lower d.layers_cnt in
    let p : Parts = find_ss7 d layer in
    elim (Bool-cases (layer == no_layer)) [
      | inl t ↦ rw (t) (refl, omega arith)
      | inr t ↦ rw (t) (
          ss7_steps-Whole p.mtp_layer p.isup_layer (load32 m (place d p.mtp_layer))
            (load16 m (place d p.isup_layer)))
    ]

-- Whatever the packet and the layers that were pushed for it, as long as the first is not M3UA:
-- printSrcAddr and printDstAddr return a text that is whole and has at most 32 characters, and
-- printSlsCic one of at most 7, so that the buffer of 64 cuts none of them off.
pub print-Whole :
    (m : Memory) (d : Details)
    → get_type (d.layers 0) ≢ 14
    → Whole 32 (print_src_addr m d) × Whole 32 (print_dst_addr m d) × Whole 7 (print_sls_cic m d)
print-Whole m d h = (src-Whole m d h, dst-Whole m d h, sls_cic-Whole m d)
