-- ===== src/Packet.antt =====
-- src/core/Packet.h: packets on the heap, with a count of references and a link to the next
-- packet of a chain. A pointer is a number, and none is the null pointer.
pub mod Chain
pub mod Release
pub mod Owners
mod Tests
use mediaroom.Prelude.{
  ℕ, zero, suc, ◌+◌, ◌%◌, ◌^◌, Bool, true, false, Option, none, some, ◌==◌, if◌then◌else◌,
}

-- The fields of a Packet that its functions use. sizeof(Packet) is 48 on a 64-bit machine.
pub record Packet : Type 0 where
  pub refcnt : ℕ
  pub caplen : ℕ
  pub length : ℕ
  pub offset : ℕ
  pub payload_shift : ℕ
  pub next : Option ℕ

abbrev pub packet_size : ℕ
packet_size = 48

-- What each address holds: none is memory that is not allocated.
abbrev pub Heap : Type 0
Heap = ℕ → Option Packet

abbrev pub write : Heap → ℕ → Option Packet → Heap
write h p c q = if p == q then c else h q

-- A fault is a failed assertion or an access to memory that is not allocated. A recursion that
-- has no end is `endless` on any fuel.
pub data Run {ℓ} (A : Type ℓ) : Type ℓ where
  done : A → Run A
  fault : Run A
  endless : Run A

module _ {ℓ κ} {A : Type ℓ} {B : Type κ} where
  infixl 5 ◌>>=◌
  abbrev pub ◌>>=◌ : Run A → (A → Run B) → Run B
  done a >>= f = f a
  fault >>= f = fault
  endless >>= f = endless

-- packet == this
abbrev pub same : ℕ → Option ℕ → Bool
same this none = false
same this (some q) = this == q

abbrev pub load : Heap → ℕ → Run Packet
load h p = elim (h p) [ none ↦ fault | some c ↦ done c ]

-- Packet::addPacket: to the end of the chain, by a recursion on fuel.
pub add_packet : ℕ → (this : ℕ) → (packet : Option ℕ) → Heap → Run Heap
add_packet zero this packet h = endless
add_packet (suc fuel) this packet h =
    if same this packet
    then fault
    else load h this >>= λ c. elim c.next [
      | some q ↦ add_packet fuel q packet h
      | none ↦ done (write h this (some (record c { next = packet })))
    ]

-- Pkt::addPacket: the null pointer takes the packet over.
pub pkt_add_packet : ℕ → Option ℕ → Option ℕ → Heap → Run (Option ℕ × Heap)
unfolding add_packet
pkt_add_packet fuel none packet h = done (packet, h)
pkt_add_packet fuel (some p) packet h = add_packet fuel p packet h >>= λ h'. done (some p, h')

-- Packet::chain_size and Packet::chain_data_size, with the wrap-around of size_t.
pub chain_size : ℕ → ℕ → Heap → Run ℕ
chain_size zero p h = endless
chain_size (suc fuel) p h = load h p >>= λ c. elim c.next [
  | some q ↦ chain_size fuel q h >>= λ n. done ((1 + n) % 2 ^ 64)
  | none ↦ done 1
]

pub chain_data_size : ℕ → ℕ → Heap → Run ℕ
chain_data_size zero p h = endless
chain_data_size (suc fuel) p h = load h p >>= λ c. elim c.next [
  | some q ↦ chain_data_size fuel q h >>= λ n. done ((c.caplen + n) % 2 ^ 64)
  | none ↦ done c.caplen
]

-- What `free` does once it has counted down to `r`.
pub release : (ℕ → Heap → Run Heap) → ℕ → (r : ℕ) → Packet → Heap → Run Heap
release further p r c h =
    let counted = write h p (some (record c { refcnt = r })) in
    if r == 0
    then elim c.next [
      | some q ↦ further q counted >>= λ h'. done (write h' p none)
      | none ↦ done (write counted p none)
    ]
    else done counted

-- Packet::free: the count is a uint16_t. The next packet is let go of before the memory is.
pub free : ℕ → ℕ → Heap → Run Heap
unfolding release
free zero p h = endless
free (suc fuel) p h = load h p >>= λ c. release (free fuel) p ((c.refcnt + 65535) % 65536) c h

-- allocPacket, where `fresh` is what malloc returns: the length is cut to 16 bits.
pub alloc_packet : (fresh : ℕ) → (length : ℕ) → Heap → Heap
alloc_packet fresh length h = write h fresh (
    some (record {
      refcnt = 1;
      caplen = length % 65536;
      length = 0;
      offset = 0;
      payload_shift = 0;
      next = none;
    }))

-- Pkt::clone: one more reference. The new Pkt writes its offset into the packet.
pub clone : ℕ → Heap → Run Heap
clone p h = load h p >>= λ c.
    done (write h p (some (record c { refcnt = (c.refcnt + 1) % 65536; offset = packet_size })))

-- PktOffset::clone: the offset stays in the pointer.
pub offset_clone : ℕ → Heap → Run Heap
offset_clone p h =
    load h p >>= λ c. done (write h p (some (record c { refcnt = (c.refcnt + 1) % 65536 })))
