-- ===== src/Server/Commands/Tests.antt =====
-- A dialogue of two clients with SharedServer, and the theorems on it at this input.
use mediaroom.Prelude.{ℕ, ◌+◌, ◌≡◌, refl, true, some, List, [], ◌∷◌, ◌==◌}
use mediaroom.Server.{
  State, Env, Channel, Direction, SocketState, Command, acked, find, find_channel, new_chan,
  new_r_chan, write_data, bind_chan,
}
use mediaroom.Server.Commands.{c_string, number, drop, dispatch, process_commands}
use mediaroom.Server.Commands.Bindings.{bind_chan-hashes}

abbrev env : Env
env = record { delivers = λ i sd. true; creates = λ name size. true }

abbrev digits : ℕ → List ℕ
digits n = (b'0' + n) ∷ []

abbrev channel : Channel
channel = record { name = b's' ∷ b'h' ∷ b'm' ∷ []; id = 3; dir = Direction.write }

-- Socket 5 has sent the keyword and owns channel 3; socket 6 was accepted only.
abbrev state : State
state = record {
  channels = (5, channel) ∷ [];
  bound = [];
  hashes = [];
  sockets = (5, SocketState.inited) ∷ (6, SocketState.connected) ∷ [];
  partial = [];
  main_set = λ sd. (sd == 5);
  max_sd = 6;
  next_id = 4;
  work = true;
  sent = [];
}

-- SS_NEWRCHAN with no size and the prefix "a".
abbrev new_channel : Command
new_channel = record { cmd = 3; id = 0; text = 0 ∷ 0 ∷ 0 ∷ 0 ∷ b'a' ∷ 0 ∷ [] }

bind_chan-hashes_example : find 77 (bind_chan env 5 3 77 state).1.hashes ≡ some channel
unfolding find find_channel
bind_chan-hashes_example = bind_chan-hashes env 5 3 77 77 state

abbrev name : List ℕ
name = b's' ∷ b'h' ∷ b'm' ∷ b'_' ∷ b'a' ∷ b'_' ∷ b'r' ∷ b'_' ∷ b'4' ∷ []

abbrev answered : State
answered = record state {
  channels = (5, channel) ∷ (5, record { name = name; id = 4; dir = Direction.write }) ∷ [];
  next_id = 5;
  sent = (5, acked 4 name) ∷ [];
}

new_channel_made : process_commands env digits 5 new_channel state ≡ some answered
unfolding process_commands dispatch find c_string number drop new_r_chan new_chan write_data
new_channel_made = refl
