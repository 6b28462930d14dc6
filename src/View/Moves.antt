-- ===== src/View/Moves.antt =====
-- What a move of the pointer over the headers does to the bytes that it shows.
use mediaroom.Prelude.{
  if◌then◌else◌, none, ap, ◌∙◌, ℕ, ◌+◌, ◌-◌, ◌%◌, ◌≤◌, ◌<◌, ◌≡◌, refl, true, some, arith, leb,
  length,
}
use mediaroom.View.{
  add_payload_shift, shifted, shortened, tcp_payload, tcp_payload_length, Base, get_offset,
  get_length, new_base, Layer, full_size, push, payload, payload_length,
}

-- The offsets are those of a uint16_t.
abbrev pub IsBase : Base → Type 0
IsBase b = (get_offset b < 65536) × (b.offset < 65536) × (b.length < 65536)

-- The pointer shows `length` bytes from `offset` on.
abbrev pub Shows : Base → ℕ → ℕ → Type 0
Shows b offset length = (get_offset b ≡ offset) × (get_length b ≡ length)

-- A new base shows what it is asked to, where the end of the packet stays: also a
-- PacketOffsetPtr, which ignores the length.
pub new_base-Shows :
    (b : Base) (n : ℕ)
    → IsBase b
    → get_offset b + n < 65536
    → n ≤ get_length b
    → Shows
        (new_base b (get_length b + 65536 - n) (get_offset b + n))
        (get_offset b + n)
        (get_length b - n)
unfolding new_base
new_base-Shows b n (i, j, k) h short = ground arith

-- Where the headers fit into the packet, the pointer that HeaderIf::push makes shows the payload
-- of the layer: it is where payload() points, has the length of payloadLength(), and ends where
-- the old pointer ended. This holds for a PacketPtr, which writes the length and the offset into
-- the packet, and for a PacketOffsetPtr, which computes its length. The layer has the length of
-- its pointer, and the packet ends below `2 ^ 16`.
pub push-payload :
    (l : Layer)
    → IsBase l.base
    → l.len ≡ get_length l.base
    → l.size + l.below ≤ l.len
    → get_offset l.base + l.len < 65536
    → (payload l ≡ some (get_offset (push l)))
      × (payload_length l ≡ some (get_length (push l)))
      × (get_offset (push l) + get_length (push l) ≡ get_offset l.base + get_length l.base)
unfolding push payload payload_length
push-payload l base e fits inside =
    let full : full_size l ≡ l.size + l.below = ground arith in
    let (at, rest) = new_base-Shows l.base (full_size l) base (ground arith) (ground arith) in
    let whole : leb l.size l.len ≡ true = ground arith in
    (rw (whole, e, at) refl, rw (whole, e, rest) (ground arith), rw (e, at, rest) (ground arith))

-- The assertion of payloadLength looks at the layer's own header alone: a packet that is long
-- enough for that one, but not for it and the headers below it, passes, and is said to have a
-- payload of nearly `2 ^ 16` bytes.
pub payload_length_short :
    (l : Layer)
    → l.size ≤ l.len
    → l.len < l.size + l.below
    → l.size + l.below < 65536
    → payload_length l ≡ some (65536 - (l.size + l.below - l.len))
unfolding payload_length
payload_length_short l a b c =
    let whole : leb l.size l.len ≡ true = ground arith in rw (whole) (ground arith)

-- A PacketOffsetPtr `n` bytes further into the packet.
pub offset_ptr-Shows :
    (b : Base) (n : ℕ)
    → IsBase b
    → get_offset b + n < 65536
    → n ≤ get_length b
    → Shows
        (record b { own = some ((n + get_offset b) % 65536) })
        (get_offset b + n)
        (get_length b - n)
offset_ptr-Shows b n (i, j, k) h short = ground arith

-- What is taken of the payload of a Tcp is taken from its front: with `n` bytes more that are
-- there, the payload begins `n` bytes later, is `n` bytes shorter, and ends where it did; with more
-- than there are, the next call fails its assertion. The headers fit into the packet.
pub add_payload_shift-payload :
    (l : Layer) (payload_shift n : ℕ)
    → l.size + l.below ≤ l.len
    → l.len < 65536
    → payload_shift + l.size + l.below ≤ l.len
    → n < 65536 - payload_shift
    → let rest = l.len - (l.size + l.below) - payload_shift in
      (tcp_payload_length payload_shift l ≡ some rest)
      × (tcp_payload_length (add_payload_shift payload_shift n) l
          ≡ (if leb n rest then some (rest - n) else none))
      × (tcp_payload (add_payload_shift payload_shift n) l ≡ (
          if leb n rest
          then some (get_offset l.base + l.size + l.below + payload_shift + n)
          else none))
unfolding tcp_payload tcp_payload_length add_payload_shift payload payload_length
add_payload_shift-payload l payload_shift n fits small held more =
    let whole : leb l.size l.len ≡ true = ground arith in
    let full : full_size l ≡ l.size + l.below = omega arith in
    let len : payload_length l ≡ some (l.len - (l.size + l.below)) =
      rw (payload_length, whole, full) (ground arith) in
    let start : payload l ≡ some (get_offset l.base + (l.size + l.below)) =
      rw (payload, whole, full) refl in
    (
      ap (shortened payload_shift) len ∙ ground arith,
      ap (shortened ((payload_shift + n) % 65536)) len ∙ ground arith,
      ap (λ o. shifted ((payload_shift + n) % 65536) o (payload l)) len
          ∙ ap (shifted ((payload_shift + n) % 65536) (some (l.len - (l.size + l.below)))) start
          ∙ ground arith,
    )
