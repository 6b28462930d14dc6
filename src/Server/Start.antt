-- ===== src/Server/Start.antt =====
-- SharedServer::create, start and stop, and SharedSocket::closeSocket: the listening socket, and
-- the loop around select. What the system calls return is an argument.
pub mod Opening
pub mod Passes
pub mod Rounds
mod Tests
use mediaroom.Prelude.{
  ℕ, zero, suc, ◌+◌, ◌-◌, ◌≤◌, ◌<◌, ◌≡◌, Bool, true, false, not, ◌&&◌, Option, none, some, List, [],
  ◌∷◌, leb, ltb, ◌==◌, if◌then◌else◌,
}
use mediaroom.Server.{State, Env, fd_put}
use mediaroom.Server.Loop.{Received, Accepted, accept_connections, handle_client}

-- The server with `_sock`, none being SOCKET_ERROR, and the descriptors that are open in the
-- process. `started` says whether the thread runs.
pub record Server : Type 0 where
  pub sock : Option ℕ
  pub state : State
  pub opened : ℕ → Bool
  pub started : Bool

-- SharedSocket::closeSocket
abbrev pub close_socket : Server → Server
close_socket s = elim s.sock [
  | none ↦ s
  | some sd ↦ record s { sock = none; opened = fd_put false sd s.opened }
]

-- What socket, setsockopt, ioctl, bind and listen return; true where it is not below 0.
pub record Calls : Type 0 where
  pub socket : Option ℕ
  pub setsockopt : Bool
  pub ioctl : Bool
  pub bind : Bool
  pub listen : Bool

-- _sock = socket(...)
abbrev pub with_socket : Option ℕ → Server → Server
with_socket none s = record s { sock = none }
with_socket (some sd) s = record s { sock = some sd; opened = fd_put true sd s.opened }

-- FD_ZERO, FD_SET and the thread
abbrev pub listening : ℕ → Server → Server
listening sd s = record s {
  state = record s.state { main_set = fd_put true sd (λ i. false); max_sd = sd };
  started = true;
}

-- create behind the call of socket
abbrev pub prepare : Calls → Option ℕ → Server → Bool × Server
prepare c none s = (false, s)
prepare c (some sd) s =
    if not c.setsockopt
    then (false, close_socket s)
    else if not c.ioctl
    then (false, close_socket s)
    else if not c.bind
    then (false, close_socket s)
    else if not c.listen
    then (false, close_socket s)
    else (true, listening sd s)

pub create : Calls → Server → Bool × Server
create c s = prepare c c.socket (with_socket c.socket s)

abbrev pub stop : Server → Server
stop s = record s { state = record s.state { work = false } }

abbrev pub has_clients : Server → Bool
has_clients s = elim s.state.sockets [ [] ↦ false | _ ∷ _ ↦ true ]

-- i == _sock
abbrev pub is_listener : ℕ → Option ℕ → Bool
is_listener i none = false
is_listener i (some sock) = i == sock

-- What accept and recv return for the sockets of one pass.
pub record Answers : Type 0 where
  pub accepts : List Accepted
  pub receives : ℕ → List Received

-- How the body of the loop ends: with the next `i`, with `break`, or in memory that is not there.
pub data Body : Type 0 where
  next : ℕ → Server → Body
  broken : Server → Body
  undefined : Body

abbrev pub accepting : ℕ → Server → Bool × State → Body
accepting num s (true, state) = Body.next num (record s { state = state })
accepting num s (false, state) = Body.broken (stop (close_socket (record s { state = state })))

abbrev pub serving : ℕ → Server → Option State → Body
serving num s none = Body.undefined
serving num s (some state) = Body.next num (record s { state = state })

-- The descriptors that a set can hold, FD_SETSIZE.
abbrev pub fd_setsize : ℕ
fd_setsize = 1024

-- What select returns, with the answers of the calls behind it: an error, or how many
-- descriptors of the set are ready.
pub data Selected : Type 0 where
  failed : Selected
  ready : ℕ → (ℕ → Bool) → Answers → Selected

abbrev pub after_pass : Option Server → Option (Bool × Server)
after_pass none = none
after_pass (some s) = some (false, s)

module _ (env : Env) (to_string : ℕ → List ℕ) where
  -- The body of the loop over the descriptors, with `num` of num_of_ready_sd left.
  pub body : Answers → (ℕ → Bool) → ℕ → ℕ → Server → Body
  body a work_set i num s =
      if work_set i
      then (if is_listener i s.sock
          then accepting (num - 1) s (accept_connections a.accepts s.state)
          else serving (num - 1) s (handle_client env to_string i (a.receives i) s.state))
      else Body.next num s

  abbrev pub follow : (ℕ → Server → Option Server) → Body → Option Server
  follow go (Body.next num s) = go num s
  follow go (Body.broken s) = some s
  follow go Body.undefined = none

  -- for (i; i <= _max_sd && num_of_ready_sd > 0; i++), over at most `fuel` descriptors.
  pub pass : ℕ → Answers → (ℕ → Bool) → ℕ → ℕ → Server → Option Server
  unfolding body
  pass zero a work_set i num s = some s
  pass (suc fuel) a work_set i num s =
      let rest = follow (pass fuel a work_set (i + 1)) (body a work_set i num s) in
      if leb i s.state.max_sd && ltb 0 num then rest else some s

  -- One turn of the loop, with whether it breaks.
  abbrev pub turn : Selected → Server → Option (Bool × Server)
  turn failed s = some (true, close_socket s)
  turn (ready num work_set a) s = after_pass (pass fd_setsize a work_set 0 num s)

  abbrev pub continue : (Server → Option Server) → Option (Bool × Server) → Option Server
  continue go none = none
  continue go (some (breaks, s)) = if not breaks && s.state.work then go s else some s

  -- do { } while (_work), for the results that are given.
  pub turns : List Selected → Server → Option Server
  unfolding pass
  turns [] s = some s
  turns (r ∷ rs) s = continue (turns rs) (turn r s)

  pub start : List Selected → Server → Option Server
  unfolding turns
  start rs s = turns rs (record s { state = record s.state { work = true } })
