-- ===== src/Server/Loop/Served.antt =====
-- The watched sockets while SharedServer serves a client.
use mediaroom.Prelude.{
  ℕ, ◌*◌, ◌≡◌, ◌≢◌, inl, inr, true, false, Option, none, some, List, [], ltb, ◌==◌, if◌then◌else◌,
  length, Option-cases, Bool-cases,
}
use mediaroom.Server.{
  State, Env, Channel, Direction, SocketState, Proto, Command, Answer, find, assign, no_channels,
  find_channel, write_data, bind_found, bind_chan, close_chan, new_chan, new_r_chan, new_w_chan,
}
use mediaroom.Server.Commands.{c_string, number, drop, is_keyword, dispatch, process_commands}
use mediaroom.Server.Loop.Watched.{Watches, close_connection-Watched}

-- What holds of a result, where there is one.
abbrev pub Keeps : ℕ → Option State → Type 0
Keeps sock none = Unit {0}
Keeps sock (some r) = Watches sock r

module _ (env : Env) (to_string : ℕ → List ℕ) (sock sd : ℕ) (ne : sd ≢ sock) where
  write_data-Watches :
      (a : Answer) (s : State) → Watches sock s → Watches sock (write_data env sd a s)
  unfolding write_data
  write_data-Watches a s w = elim (Bool-cases (env.delivers (length s.sent) sd)) [
    | inl e ↦ rw (e) w
    | inr e ↦ rw (e) (close_connection-Watched sock sd s ne w)
  ]

  new_chan-Keeps :
      (dir : Direction) (name : List ℕ) (size : ℕ) (s : State)
      → Watches sock s
      → Keeps sock (new_chan env sd dir name size s)
  unfolding new_chan
  new_chan-Keeps dir name size s w =
      elim (Bool-cases (env.creates name (if size == 0 then 1024 * 1024 * 100 else size))) [
        | inl e ↦ elim (Bool-cases (ltb (length name) 128)) [
          | inl short ↦ rw (e, short) (write_data-Watches (Answer.acked s.next_id name) _ w)
          | inr long ↦ rw (e, long) tt
        ]
        | inr e ↦ rw (e) (write_data-Watches (Answer.nacked 0) _ w)
      ]

  bind_found-Watches :
      (id hash : ℕ) (found : Option Channel) (s : State)
      → Watches sock s
      → Watches sock (bind_found env sd id hash found s).1
  unfolding bind_found
  bind_found-Watches id hash none s w = write_data-Watches (Answer.nacked 0) s w
  bind_found-Watches id hash (some c) s w = elim (Option-cases (find hash s.hashes)) [
    | inl e ↦ rw (e, bind_found) (write_data-Watches (Answer.acked id []) _ w)
    | inr (d, e) ↦ rw (e, bind_found) (write_data-Watches (Answer.nacked id) s w)
  ]

  bind_chan-Watches :
      (id hash : ℕ) (s : State) → Watches sock s → Watches sock (bind_chan env sd id hash s).1
  unfolding bind_chan
  bind_chan-Watches id hash s w = elim (Bool-cases (no_channels sd s.channels)) [
    | inl e ↦ rw (e) (
        bind_found-Watches id hash (find_channel sd id s.channels) _
          (write_data-Watches (Answer.nacked 0) s w))
    | inr e ↦ rw (e) (bind_found-Watches id hash (find_channel sd id s.channels) s w)
  ]

  close_chan-Watches : (id : ℕ) (s : State) → Watches sock s → Watches sock (close_chan env sd id s)
  unfolding close_chan
  close_chan-Watches id s w = write_data-Watches (Answer.acked id []) _ w

  dispatch-Keeps :
      (p : Proto) (c : Command) (s : State)
      → Watches sock s
      → Keeps sock (dispatch env to_string sd p c s)
  unfolding dispatch new_r_chan new_w_chan
  dispatch-Keeps Proto.init c s w = w
  dispatch-Keeps Proto.newrchan c s w = elim (Option-cases (c_string (drop 4 c.text))) [
    | inl e ↦ rw (e) tt
    | inr (prefix, e) ↦ rw (e) (new_chan-Keeps Direction.write _ (number 4 c.text) s w)
  ]
  dispatch-Keeps Proto.newwchan c s w = elim (Option-cases (c_string (drop 4 c.text))) [
    | inl e ↦ rw (e) tt
    | inr (prefix, e) ↦ rw (e) (new_chan-Keeps Direction.read _ (number 4 c.text) s w)
  ]
  dispatch-Keeps Proto.bindchan c s w = bind_chan-Watches c.id (number 8 c.text) s w
  dispatch-Keeps Proto.closechan c s w = close_chan-Watches c.id s w
  dispatch-Keeps Proto.ack c s w = close_connection-Watched sock sd s ne w
  dispatch-Keeps Proto.nack c s w = close_connection-Watched sock sd s ne w
  dispatch-Keeps (Proto.unknown n) c s w = close_connection-Watched sock sd s ne w

  serve-Keeps :
      (state : SocketState) (c : Command) (s : State)
      → Watches sock s
      → find sd s.sockets ≡ some state
      → (c.cmd == 0) ≡ false
      → Keeps sock (process_commands env to_string sd c s)
  unfolding process_commands
  serve-Keeps SocketState.disconnected c s w e more = rw (e, process_commands, more) w
  serve-Keeps SocketState.connected c s w e more = rw (e, process_commands, more) w
  serve-Keeps SocketState.inited c s w e more =
      rw (e, process_commands, more) (dispatch-Keeps _ c s w)

  init-Keeps :
      (c : Command) (s : State)
      → Watches sock s
      → (c.cmd == 0) ≡ true
      → Keeps sock (process_commands env to_string sd c s)
  unfolding process_commands
  init-Keeps c s w zero =
      let keyed = record s { sockets = assign sd SocketState.inited s.sockets } in
      elim (Option-cases (find sd s.sockets)) [
        | inl e ↦ elim (Bool-cases (is_keyword c.text)) [
          | inl k ↦ rw (e, process_commands, zero, k) tt
          | inr k ↦ rw (e, process_commands, zero, k) (close_connection-Watched sock sd s ne w)
        ]
        | inr (_, e) ↦ elim (Bool-cases (is_keyword c.text)) [
          | inl k ↦
              rw (e, process_commands, zero, k) (write_data-Watches (Answer.acked 0 []) keyed w)
          | inr k ↦ rw (e, process_commands, zero, k) (close_connection-Watched sock sd s ne w)
        ]
      ]

  pub process_commands-Keeps :
      (c : Command) (s : State)
      → Watches sock s
      → Keeps sock (process_commands env to_string sd c s)
  unfolding process_commands
  process_commands-Keeps c s w = elim (Bool-cases (c.cmd == 0)) [
    | inl zero ↦ init-Keeps c s w zero
    | inr more ↦ elim (Option-cases (find sd s.sockets)) [
      | inl e ↦ rw (e, process_commands, more) tt
      | inr (state, e) ↦ serve-Keeps state c s w e more
    ]
  ]
