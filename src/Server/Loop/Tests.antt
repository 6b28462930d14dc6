-- ===== src/Server/Loop/Tests.antt =====
-- The loop of SharedServer at concrete inputs.
use mediaroom.Prelude.{
  ℕ, ◌<◌, ◌≡◌, refl, true, some, List, [], ◌∷◌, ◌++◌, ◌==◌, ◌||◌, arith, length, replicate,
}
use mediaroom.Cycle.{Cycle, clear}
use mediaroom.Server.{State, Env, Channel, Direction, SocketState, find, insert, assign}
use mediaroom.Server.Loop.{
  command_size, Received, would_block, got, accepted, accept_connections, take_command,
  handle_bytes, Buffers, handle_client, handle_read, read, take_command,
}
use mediaroom.Server.Loop.Frames.{assemble, concat, stream, Whole, assemble-stream}
use mediaroom.Server.Loop.Watched.{Watches}
use mediaroom.Server.Commands.Ids.{Ids, Absent}
use mediaroom.Server.Loop.History.{Sound, Turn, Rounds, Rounds-Sound}

abbrev env : Env
env = record { delivers = λ i sd. true; creates = λ name size. true }

abbrev channel : Channel
channel = record { name = []; id = 3; dir = Direction.write }

-- The server listens on 4 and has a client on 6, of whose command 100 bytes have come.
abbrev state : State
state = record {
  channels = (6, channel) ∷ [];
  bound = (3, 77 ∷ []) ∷ [];
  hashes = (77, channel) ∷ [];
  sockets = (6, SocketState.connected) ∷ [];
  partial = (6, replicate 100 0) ∷ [];
  main_set = λ sd. (sd == 4) || (sd == 6);
  max_sd = 6;
  next_id = 4;
  work = true;
  sent = [];
}

state-Watched : Watches 4 state
state-Watched = record { listens = refl; reached = refl; above = λ sd h. ground (arith, h) }

-- A command in three pieces, and the beginning of the next one.
abbrev rounds : List (List Received)
rounds =
    (got (replicate 100 1) ∷ would_block ∷ [])
    ∷ (got (replicate 20 2) ∷ got (replicate 24 3) ∷ [])
    ∷ (got (9 ∷ []) ∷ [])
    ∷ []

assemble-stream_example :
    (cs : List (List ℕ)) × (last : List ℕ) × (assemble [] rounds ≡ some (cs, last))
    × (concat cs ++ last ≡ stream rounds)
    × Whole cs
    × (length last < command_size)
unfolding take_command
assemble-stream_example = assemble-stream [] rounds (omega arith) (omega arith)

abbrev ring : Cycle
ring =
    clear 4096
      (record { head = 0; tmp_head = 0; tail = 0; tmp_tail = 0; size = 0; memory = λ p. 0 })

abbrev buffers : Buffers
buffers id = record { buffer = some ring }

state-Sound : Sound 4 state
unfolding Ids Absent
state-Sound = record { ids = omega arith; watched = state-Watched }

-- A second client comes, and the first one sends twenty bytes more.
abbrev later : State
later = record (accept_connections (accepted 9 ∷ []) state).1 {
  partial = (6, replicate 120 0) ∷ [];
}

twenty_bytes :
    handle_client env
      (λ n. [])
      6
      (got (replicate 20 0) ∷ [])
      (accept_connections (accepted 9 ∷ []) state).1
    ≡ some later
unfolding handle_client handle_read handle_bytes read take_command find insert assign
    accept_connections
twenty_bytes = refl

Rounds-Sound_example : Sound 4 later
unfolding accept_connections
Rounds-Sound_example =
    Rounds-Sound {env = env} {to_string = λ n. []}
      (Rounds.turn (Rounds.turn Rounds.start (Turn.accepts (accepted 9 ∷ [])))
        (Turn.serves 6 (got (replicate 20 0) ∷ []) (omega arith) (omega arith) twenty_bytes))
      state-Sound
