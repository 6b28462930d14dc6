-- ===== src/Server/Loop/Sends.antt =====
-- What SharedServer::send does with a packet of a flow.
use mediaroom.Prelude.{
  ℕ, ◌%◌, ◌^◌, ◌≡◌, ◌≢◌, ◌⊎◌, inl, inr, refl, Bool, true, false, none, some, List, [], ◌∷◌, ◌++◌,
  arith, length, take,
}
use mediaroom.Cycle.{Cycle}
use mediaroom.Cycle.Fifo.{Queues}
use mediaroom.SharedCycle.{SharedBuffer, returns}
use mediaroom.SharedCycle.Transfer.{push-Queues}
use mediaroom.Server.{State, Channel, Direction, find}
use mediaroom.Server.Loop.{Buffers, set_buffer, ctx_push, send}

-- The buffer of a channel, given its directory of buffers, after a message went to it or not.
abbrev pub Sent : Buffers → Channel → Cycle → List (List ℕ) → List ℕ → Bool → SharedBuffer → Type 0
Sent buffers c cycle q x done io =
    ((done ≡ false) × (io ≡ record { buffer = some cycle }))
    ⊎ ((cycle' : Cycle) × (done ≡ true)
        × (io ≡ record { buffer = some cycle' })
        × Queues cycle' (q ++ take (length x % 2 ^ 16) x ∷ []))

-- Of a packet of a flow that is bound to a channel of the server's to write, the first bytes, as
-- many as its length modulo `2 ^ 16`, go to the end of the queue of that channel, or it is refused
-- and the queue stays; no other channel's buffer changes.
pub send-Queues :
    (hash : ℕ) (x : List ℕ) (s : State) (buffers : Buffers) {c : Channel} {cycle : Cycle}
    {q : List (List ℕ)}
    → find hash s.hashes ≡ some c
    → c.dir ≡ Direction.write
    → buffers c.id ≡ record { buffer = some cycle }
    → Queues cycle q
    → (done : Bool) × (io : SharedBuffer) × (send hash x s buffers
        ≡ returns (done, set_buffer buffers c.id io))
      × Sent buffers c cycle q x done io
unfolding send ctx_push
send-Queues hash x s buffers {c} {cycle} found dir at k = elim (push-Queues x k) [
  | inl e ↦ (
    false,
    record { buffer = some cycle },
    rw (found, send, dir, ctx_push, dir, at, e) refl,
    inl (refl, refl),
  )
  | inr (cycle', e, k') ↦ (
    true,
    record { buffer = some cycle' },
    rw (found, send, dir, ctx_push, dir, at, e) refl,
    inr (cycle', refl, refl, k'),
  )
]

-- A flow that is bound to no channel, or to one that the server reads, is not sent.
pub send_refused :
    (hash : ℕ) (x : List ℕ) (s : State) (buffers : Buffers)
    → (find hash s.hashes ≡ none)
      ⊎ ((c : Channel) × (find hash s.hashes ≡ some c) × (c.dir ≢ Direction.write))
    → send hash x s buffers ≡ returns (false, buffers)
unfolding send
send_refused hash x s buffers (inl e) = rw (e, send) refl
send_refused hash x s buffers (inr (c, e, ne)) = rw (e, send) (ground arith)
