-- ===== src/SharedCycle/Tests.antt =====
-- The theorems on shared buffers at concrete inputs.
use mediaroom.Prelude.{ℕ, ◌≡◌, ◌⊎◌, true, false, some, List, [], ◌∷◌, arith, take}
use mediaroom.Cycle.{Cycle, clear}
use mediaroom.Cycle.Fifo.{Queues, clear-Queues}
use mediaroom.SharedCycle.{returns, push}
use mediaroom.SharedCycle.Transfer.{push-Queues}

abbrev segment : Cycle
segment = record { head = 7; tmp_head = 1; tail = 3; tmp_tail = 2; size = 3960; memory = λ p. 0 }

abbrev ring : Cycle
ring = clear 4096 segment

abbrev message : List ℕ
message = 1 ∷ 2 ∷ 3 ∷ []

push-Queues_example :
    (push (record { buffer = some ring }) message ≡ returns (false, record { buffer = some ring }))
    ⊎ ((c : Cycle) × (push (record { buffer = some ring }) message
          ≡ returns (true, record { buffer = some c }))
        × Queues c (take 3 message ∷ []))
push-Queues_example =
    push-Queues {c = ring} {q = []} message (clear-Queues 4096 segment (omega arith) (omega arith))
