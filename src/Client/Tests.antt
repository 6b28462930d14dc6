-- ===== src/Client/Tests.antt =====
-- A client that writes in two parts, and its requests at a server that has let it in.
use mediaroom.Prelude.{
  ℕ, ◌+◌, ◌≡◌, ◌≢◌, refl, false, true, some, List, [], ◌∷◌, ◌++◌, arith, ◌==◌, replicate,
}
use mediaroom.Server.{State, Env, SocketState, find, bind_chan, close_chan, new_r_chan, new_w_chan}
use mediaroom.Server.Loop.{Received, got, take_command}
use mediaroom.Server.Loop.Frames.{assemble, concat}
use mediaroom.Client.{
  command_bytes, Sent, took, wrote, write, to_bool, new_r_chan_bytes, new_w_chan_bytes,
  bind_chan_bytes, close_chan_bytes,
}
use mediaroom.Client.Writes.{Delivered, write-Delivered}
use mediaroom.Client.Requests.{Asks, process_commands-Asks}
use mediaroom.Client.Stream.{Calls, requests, requests-Arrive}

abbrev data_bytes : List ℕ
data_bytes = 7 ∷ 8 ∷ 9 ∷ []

-- send takes two bytes, is interrupted, and takes the last one.
abbrev parts : List Sent
parts = took 2 ∷ took 0 ∷ took 1 ∷ []

write-Delivered_example :
    Delivered data_bytes (write (some 5) data_bytes parts)
    × (to_bool (write (some 5) data_bytes parts).0 ≢ some false)
write-Delivered_example = write-Delivered (some 5) data_bytes parts

-- What is returned is the length of the last part only.
last_part : write (some 5) data_bytes parts ≡ (wrote 1, data_bytes)
unfolding write
last_part = refl

abbrev env : Env
env = record { delivers = λ i sd. true; creates = λ name size. true }

abbrev digits : ℕ → List ℕ
digits n = (b'0' + n) ∷ []

abbrev state : State
state = record {
  channels = [];
  bound = [];
  hashes = [];
  sockets = (5, SocketState.inited) ∷ [];
  partial = [];
  main_set = λ sd. (sd == 5);
  max_sd = 5;
  next_id = 4;
  work = true;
  sent = [];
}

abbrev prefix : List ℕ
prefix = b'a' ∷ []

process_commands-Asks_example :
    Asks env digits 5
      (new_r_chan_bytes prefix 4096)
      state
      (new_r_chan env digits 5 prefix 4096 state)
    × Asks env digits 5
        (new_w_chan_bytes prefix 4096)
        state
        (new_w_chan env digits 5 prefix 4096 state)
    × Asks env digits 5 (bind_chan_bytes 4 77) state (some (bind_chan env 5 4 77 state).1)
    × Asks env digits 5 (close_chan_bytes 4) state (some (close_chan env 5 4 state))
unfolding find
process_commands-Asks_example =
    process_commands-Asks env digits 5 prefix 4096 4 77 state refl ((λ e. omega arith), tt)
      (omega arith) (omega arith) (omega arith)

-- A request to close channel 3 and the request to enter, sent in parts, and read in others.
abbrev two_calls : Calls
two_calls =
    (command_bytes 6 3 (replicate 128 0), took 100 ∷ took 44 ∷ [])
    ∷ (command_bytes 0 0 (replicate 128 7), took 144 ∷ [])
    ∷ []

abbrev two_rounds : List (List Received)
two_rounds =
    (got (6 ∷ replicate 7 0) ∷ got (3 ∷ replicate 135 0) ∷ []) ∷ (got (replicate 16 0) ∷ []) ∷ []

requests-Arrive_example :
    (cs later : List (List ℕ)) × (last : List ℕ) × (assemble [] two_rounds ≡ some (cs, last))
    × (cs ++ later ≡ requests two_calls)
    × (concat later ≡ last ++ replicate 128 7)
unfolding write command_bytes take_command
requests-Arrive_example =
    requests-Arrive (some 5) two_calls two_rounds (replicate 128 7) (refl, (refl, tt))
      (tt, (tt, tt)) (omega arith) refl
