-- ===== src/View.antt =====
-- lib/libstack/PacketPtr.h and HeaderIf.h: where a pointer to a packet stands in it, and the
-- layers of headers on top of it; lib/libstack/Tcp.h: what is left of a payload. Positions are
-- counted from the packet's own address.
pub mod Moves
mod Tests
use mediaroom.Prelude.{
  ℕ, zero, suc, ◌+◌, ◌-◌, ◌*◌, ◌/◌, ◌%◌, ◌^◌, ◌≤◌, ◌<◌, ◌≡◌, ◌≢◌, refl, sym, ap, ◌∙◌, ◌↔◌, ◌⊎◌, inl,
  inr, Bool, true, false, not, ◌&&◌, ◌||◌, Option, none, some, List, [], ◌∷◌, ◌++◌, map, arith, ltb,
  leb, ◌==◌, if◌then◌else◌, ltb→lt, lt→ltb, leb→le, ==_iff, Bool-cases, Option-cases, length,
  get_elem?, take, replicate, length-append, All, Distinct, All-left, All-right,
}

-- What PacketPtr and PacketOffsetPtr know of a packet: the length and the offset in its header,
-- and for a PacketOffsetPtr the offset of its own.
pub record Base : Type 0 where
  pub length : ℕ
  pub offset : ℕ
  pub own : Option ℕ

abbrev pub get_offset : Base → ℕ
get_offset b = elim b.own [ none ↦ b.offset | some o ↦ o ]

-- In a PacketOffsetPtr what is left of the packet's length, as a uint16_t.
abbrev pub get_length : Base → ℕ
get_length b = elim b.own [ none ↦ b.length | some o ↦ (b.length + 65536 + b.offset - o) % 65536 ]

-- BaseType(move(ptr), length, offset): both are cut to 16 bits. A PacketOffsetPtr keeps the length.
unfoldable pub new_base : Base → ℕ → ℕ → Base
new_base b length offset = elim b.own [
  | none ↦ record b { length = length % 65536; offset = offset % 65536 }
  | some o ↦ record b { own = some (offset % 65536) }
]

-- A layer: `below` is the full size of the layers under it, `size` its own, and `len` is what its
-- getLength answers.
pub record Layer : Type 0 where
  pub base : Base
  pub below : ℕ
  pub size : ℕ
  pub len : ℕ

-- The first layer on a pointer, and the next one on a layer.
abbrev pub enter : Base → ℕ → Layer
enter b size = record { base = b; below = 0; size = size; len = get_length b }

abbrev pub full_size : Layer → ℕ
full_size l = (l.size + l.below) % 65536

abbrev pub make : Layer → ℕ → Layer
make l size = record l { below = full_size l; size = size }

-- HeaderIf::hdr
abbrev pub hdr : Layer → ℕ
hdr l = get_offset l.base + l.below

-- HeaderIf::push and rebase: a pointer behind the header of the layer, or to it.
pub push : Layer → Base
unfolding new_base
push l = new_base l.base (l.len + 65536 - full_size l) (get_offset l.base + full_size l)

unfoldable pub rebase : Layer → Base
unfolding new_base
rebase l = new_base l.base (l.len + 65536 - l.below) (get_offset l.base + l.below)

-- HeaderIf::payload and payloadLength: none where the assertion fails.
pub payload : Layer → Option ℕ
payload l = if leb l.size l.len then some (get_offset l.base + full_size l) else none

pub payload_length : Layer → Option ℕ
payload_length l = if leb l.size l.len then some ((l.len + 65536 - full_size l) % 65536) else none

-- Tcp on a packet, whose payload_shift counts what was taken of the payload.
pub add_payload_shift : ℕ → ℕ → ℕ
add_payload_shift payload_shift shift = (payload_shift + shift) % 65536

-- Tcp::payload and payloadLength on those of HeaderIf: none where an assertion fails.
abbrev pub shifted : ℕ → (length start : Option ℕ) → Option ℕ
shifted payload_shift none start = none
shifted payload_shift (some n) none = none
shifted payload_shift (some n) (some p) =
    if leb payload_shift n then some (p + payload_shift) else none

abbrev pub shortened : ℕ → Option ℕ → Option ℕ
shortened payload_shift none = none
shortened payload_shift (some n) = if leb payload_shift n then some (n - payload_shift) else none

pub tcp_payload : ℕ → Layer → Option ℕ
unfolding payload payload_length
tcp_payload payload_shift l = shifted payload_shift (payload_length l) (payload l)

pub tcp_payload_length : ℕ → Layer → Option ℕ
unfolding payload_length
tcp_payload_length payload_shift l = shortened payload_shift (payload_length l)
