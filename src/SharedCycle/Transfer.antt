-- ===== src/SharedCycle/Transfer.antt =====
-- What goes through a shared buffer, and where its descriptor lies.
use mediaroom.Prelude.{
  ℕ, ◌+◌, ◌%◌, ◌^◌, ◌≤◌, ◌<◌, ◌≡◌, ◌⊎◌, inl, inr, refl, Bool, true, false, none, some, List, [],
  ◌∷◌, ◌++◌, arith, length, take, length-take,
}
use mediaroom.Cycle.{Cycle, set, clear, region_size}
use mediaroom.Cycle.Read.{read1-none}
use mediaroom.Cycle.Fifo.{Queues, write1-Queues, clear-Queues}
use mediaroom.SharedCycle.{SharedBuffer, returns, allocated, open_buffer, push, pop}

-- Whatever the buffer held, and whichever side opens it, it is empty then.
pub open_buffer_empty :
    (create : Bool) (length : ℕ) (mem : Cycle)
    → 136 < length
    → length ≤ 2 ^ 31
    → (s : SharedBuffer) × (open_buffer create length (some mem) ≡ returns s)
      × (pop s ≡ returns (none, s))
unfolding open_buffer pop
open_buffer_empty create length mem h k =
    let c = clear length (set mem) in
    let q = clear-Queues length (set mem) h k in
    (record { buffer = some c }, refl, rw (read1-none q.valid q.held))

-- The descriptor that the buffer finds at its end, and the last bytes of the message region,
-- lie behind the bytes that the creating side has asked for.
pub allocated-region_size :
    (length : ℕ) → 1024 ≤ length → length < 2 ^ 64 → allocated length + 888 ≡ region_size length
allocated-region_size length h k = omega arith

-- A push is refused and changes nothing, or queues the first `length % 65536` bytes.
pub push-Queues :
    {c : Cycle} {q : List (List ℕ)} (x : List ℕ)
    → Queues c q
    → (push (record { buffer = some c }) x ≡ returns (false, record { buffer = some c }))
      ⊎ ((c' : Cycle) × (push (record { buffer = some c }) x
            ≡ returns (true, record { buffer = some c' }))
          × Queues c' (q ++ take (length x % 2 ^ 16) x ∷ []))
unfolding push
push-Queues {c} x k =
    elim (write1-Queues (take (length x % 2 ^ 16) x) k
      (omega (arith, length-take (length x % 2 ^ 16) x))) [
        | inl e ↦ inl (rw e)
        | inr (c', e, k') ↦ inr (c', rw e, k')
      ]
