-- ===== src/Cycle/Tests.antt =====
-- Runs of a CycleBuffer, and its theorems at concrete inputs.
use mediaroom.Prelude.{ℕ, ◌≡◌, refl, true, some, none, List, [], ◌∷◌, arith}
use mediaroom.Bytes.{bytes, store16, load16, memcpy}
use mediaroom.Cycle.{Cycle, clear, write1, read1, no_space, nothing_to_read}
use mediaroom.Cycle.Fifo.{
  Queues, Call, write, read, Reply, wrote, got, Replies, step, run, run-Replies, clear-Queues,
}

abbrev blank : Cycle
blank = record { head = 0; tmp_head = 0; tail = 0; tmp_tail = 0; size = 0; memory = λ p. 0 }

-- A buffer of 16 bytes and the descriptor.
abbrev ring : Cycle
ring = clear 152 blank

abbrev hello : List ℕ
hello = b'h' ∷ b'e' ∷ b'l' ∷ b'l' ∷ b'o' ∷ []

-- The third message starts again at the beginning of the region.
abbrev calls : List Call
calls =
    write hello ∷ write hello ∷ read ∷ read ∷ write hello ∷ write hello ∷ read ∷ read ∷ read ∷ []

ring-Queues : Queues ring []
ring-Queues = clear-Queues 152 blank (omega arith) (omega arith)

run-calls :
    run ring calls
    ≡ some (
        wrote true
        ∷ wrote true
        ∷ got (some hello)
        ∷ got (some hello)
        ∷ wrote true
        ∷ wrote true
        ∷ got (some hello)
        ∷ got (some hello)
        ∷ got none
        ∷ [])
unfolding run step write1 read1 no_space nothing_to_read clear store16 memcpy bytes load16
run-calls = refl

run-Replies_example : (rs : List Reply) × (run ring calls ≡ some rs) × Replies [] calls rs
run-Replies_example = run-Replies calls [] ring-Queues (omega arith)
