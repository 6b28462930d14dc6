-- ===== src/Server/Loop.antt =====
-- SharedServer::start, acceptConnections and send, and SharedSocket::read: what the server does
-- when sockets are ready. The results of the system calls are arguments, in the order in which
-- the calls return them.
pub mod Frames
pub mod Watched
pub mod Sends
pub mod Served
pub mod Bytes
pub mod History
mod Tests
use mediaroom.Prelude.{
  ℕ, ◌+◌, ◌-◌, ◌*◌, ◌%◌, ◌^◌, Bool, true, false, Option, none, some, List, [], ◌∷◌, ◌++◌, ltb, ◌==◌,
  if◌then◌else◌, length,
}
use mediaroom.SharedCycle.{SharedBuffer, Outcome, returns, throws, faults, push, pop}
use mediaroom.Cycle.{Message}
use mediaroom.Server.{
  State, Env, Command, Channel, Direction, SocketState, find, insert, assign, fd_put,
  close_connection,
}
use mediaroom.Server.Commands.{process_commands, number, drop}

-- sizeof(ss_cmd)
abbrev pub command_size : ℕ
command_size = 144

-- What recv returns: an error, EWOULDBLOCK, the end of the stream, or bytes.
pub data Received : Type 0 where
  failed would_block ended : Received
  got : List ℕ → Received

-- SharedSocket::read of `want` bytes, of which `have` have come: none is SOCKET_ERROR. Behind the
-- results that are given, recv would block. More bytes than were asked for are passed over.
pub read : ℕ → List ℕ → List Received → Option (List ℕ)
read want have [] = some have
read want have (failed ∷ rs) = none
read want have (would_block ∷ rs) = some have
read want have (ended ∷ rs) = none
read want have (got xs ∷ rs) =
    let more = read (want - length xs) (have ++ xs) rs in
    let passed = read want have rs in
    if length xs == want then some (have ++ xs) else if ltb (length xs) want then more else passed

-- The bytes of a command that have come, and those that come now: a whole command, or nothing,
-- and what is kept.
unfoldable pub take_command : List ℕ → List ℕ → Option (List ℕ) × List ℕ
take_command have xs =
    if length have + length xs == command_size then (some (have ++ xs), []) else (none, have ++ xs)

-- *(struct ss_cmd *)
unfoldable pub to_command : List ℕ → Command
to_command bytes = record {
  cmd = number 8 bytes;
  id = number 8 (drop 8 bytes);
  text = drop 16 bytes;
}

-- What accept returns: an error, EWOULDBLOCK, or a socket.
pub data Accepted : Type 0 where
  failed would_block : Accepted
  accepted : ℕ → Accepted

unfoldable pub accept_connections : List Accepted → State → Bool × State
unfolding insert assign
accept_connections [] s = (true, s)
accept_connections (Accepted.failed ∷ rs) s = (false, s)
accept_connections (Accepted.would_block ∷ rs) s = (true, s)
accept_connections (accepted sd ∷ rs) s = accept_connections rs (record s {
  main_set = fd_put true sd s.main_set;
  max_sd = if ltb s.max_sd sd then sd else s.max_sd;
  sockets = assign sd SocketState.connected (insert sd SocketState.disconnected s.sockets);
})

abbrev pub buffered : Option (List ℕ) → List ℕ
buffered none = []
buffered (some have) = have

-- `it_pd` is the entry of the socket: where processCommands has closed the connection, it is
-- erased, and the write of 0 to its size goes to memory that is not there.
abbrev pub reset : ℕ → Option State → Option State
reset sd none = none
reset sd (some s) = elim (find sd s.partial) [
  | none ↦ none
  | some _ ↦ some (record s { partial = assign sd [] s.partial })
]

module _ (env : Env) (to_string : ℕ → List ℕ) where
  -- What is done with the bytes of a client.
  pub handle_bytes : ℕ → State → Option (List ℕ) × List ℕ → Option State
  unfolding find assign
  handle_bytes sd s (none, kept) = some (record s { partial = assign sd kept s.partial })
  handle_bytes sd s (some command, kept) =
      reset sd (process_commands env to_string sd (to_command command) s)

  -- What is done with what `read` returned, of a socket that has an entry in `partial`.
  pub handle_read : ℕ → State → List ℕ → Option (List ℕ) → Option State
  unfolding take_command handle_bytes
  handle_read sd s have none = some (close_connection sd s)
  handle_read sd s have (some xs) = handle_bytes sd s (take_command have xs)

  -- The body of the loop of `start` for the socket of a client.
  pub handle_client : ℕ → List Received → State → Option State
  unfolding read handle_read find insert
  handle_client sd rs s =
      let have = buffered (find sd s.partial) in
      handle_read sd (record s { partial = insert sd [] s.partial }) have
        (read (command_size - length have) [] rs)

-- SharedCtx::push and pop. `pop` writes the length to the low half of a size_t.
pub ctx_push : Channel → SharedBuffer → List ℕ → Outcome (Bool × SharedBuffer)
ctx_push c io message = elim c.dir [ Direction.write ↦ push io message | _ ↦ returns (false, io) ]

abbrev with_size :
    ℕ → Outcome (Option Message × SharedBuffer) → Outcome (ℕ × Option ℕ × SharedBuffer)
with_size size (throws t) = throws t
with_size size faults = faults
with_size size (returns (none, io)) = returns (size, none, io)
with_size size (returns (some (p, len), io)) = returns (size - size % 2 ^ 16 + len, some p, io)

pub ctx_pop : Channel → SharedBuffer → ℕ → Outcome (ℕ × Option ℕ × SharedBuffer)
ctx_pop c io size = elim c.dir [
  | Direction.read ↦ with_size size (pop io)
  | _ ↦ returns (0, none, io)
]

-- The buffer of each channel, by the id.
abbrev pub Buffers : Type 0
Buffers = ℕ → SharedBuffer

abbrev pub set_buffer : Buffers → ℕ → SharedBuffer → Buffers
set_buffer buffers id io j = if id == j then io else buffers j

abbrev stored : Buffers → ℕ → Outcome (Bool × SharedBuffer) → Outcome (Bool × Buffers)
stored buffers id (throws t) = throws t
stored buffers id faults = faults
stored buffers id (returns (done, io)) = returns (done, set_buffer buffers id io)

pub send : ℕ → List ℕ → State → Buffers → Outcome (Bool × Buffers)
unfolding find ctx_push
send hash message s buffers = elim (find hash s.hashes) [
  | none ↦ returns (false, buffers)
  | some c ↦ elim c.dir [
    | Direction.write ↦ stored buffers c.id (ctx_push c (buffers c.id) message)
    | _ ↦ returns (false, buffers)
  ]
]
