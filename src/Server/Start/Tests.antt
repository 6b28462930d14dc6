-- ===== src/Server/Start/Tests.antt =====
-- SharedServer from create to a turn of its loop, and the theorems at these inputs.
use mediaroom.Prelude.{
  ℕ, ◌≡◌, ◌⊎◌, refl, sym, Bool, true, false, none, some, List, [], ◌∷◌, ◌++◌, leb, ◌==◌, ◌||◌,
  arith, length,
}
use mediaroom.Server.{State, Env}
use mediaroom.Server.Loop.{Received, Accepted, accept_connections}
use mediaroom.Server.Loop.Watched.{Watches}
use mediaroom.Server.Start.{
  Server, Calls, Answers, create, close_socket, pass, body, fd_setsize, Selected, turns, start,
}
use mediaroom.Server.Start.Opening.{Opens, create-Opens}
use mediaroom.Server.Start.Passes.{ready_from, serve_all, pass-serve_all}
use mediaroom.Server.Start.Rounds.{Going, start-Lives}

abbrev env : Env
env = record { delivers = λ i sd. true; creates = λ name size. true }

abbrev to_string : ℕ → List ℕ
to_string n = b'0' ∷ []

abbrev fresh : State
fresh = record {
  channels = [];
  bound = [];
  hashes = [];
  sockets = [];
  partial = [];
  main_set = λ sd. false;
  max_sd = 0;
  next_id = 0;
  work = false;
  sent = [];
}

abbrev server : Server
server = record { sock = none; state = fresh; opened = λ sd. leb sd 2; started = false }

abbrev calls : Bool → Calls
calls bound = record {
  socket = some 4;
  setsockopt = true;
  ioctl = true;
  bind = bound;
  listen = true;
}

-- The port is taken.
create-Opens_example :
    Opens (some 4) server (create (calls false) server) × ((create (calls false) server).0 ≡ false)
create-Opens_example = create-Opens (calls false) server refl

-- The server that listens at 4, with a client at 6.
abbrev listens : Server
listens = record {
  sock = some 4;
  state = record fresh { main_set = λ sd. (sd == 4) || (sd == 6); max_sd = 6 };
  opened = λ sd. leb sd 2 || (sd == 4) || (sd == 6);
  started = true;
}

listens-Watched : Watches 4 listens.state
listens-Watched = record { listens = refl; reached = refl; above = λ sd h. ground (arith, h) }

-- Both are ready: a third socket is accepted, and the client has closed its end.
abbrev answers : Answers
answers = record {
  accepts = Accepted.accepted 7 ∷ Accepted.would_block ∷ [];
  receives = λ sd. Received.ended ∷ [];
}

abbrev both : ℕ → Bool
both sd = (sd == 4) || (sd == 6)

both-Watched : (j : ℕ) → both j ≡ true → Watches j listens.state
both-Watched j h = record { listens = h; reached = refl; above = λ sd k. ground (arith, k) }

ready_count : length (ready_from fd_setsize 0 both) ≡ 2
unfolding ready_from
ready_count = refl

pass-serve_all_example :
    pass env to_string fd_setsize answers both 0 2 listens
    ≡ serve_all env to_string answers (ready_from fd_setsize 0 both) listens
pass-serve_all_example =
    pass-serve_all env to_string answers 2 both listens both-Watched (sym ready_count)

-- Only the listening socket is ready, and a socket is accepted.
abbrev selected : List Selected
selected = Selected.ready 1 (λ sd. sd == 4) answers ∷ []

abbrev accepted : Server
accepted = record listens {
  state = (accept_connections answers.accepts (record listens.state { work = true })).1;
}

started : start env to_string selected listens ≡ some accepted
unfolding start turns pass body accept_connections
started = refl

start-Lives_example :
    Going 4 accepted
    ⊎ ((accepted.sock ≡ none)
        × (start env to_string (selected ++ (Selected.failed ∷ [])) listens ≡ some accepted))
start-Lives_example =
    start-Lives env to_string 4 selected (Selected.failed ∷ []) listens accepted
      (refl, listens-Watched) started

-- Where select fails, the socket is closed, and only that.
select_failed :
    start env to_string (Selected.failed ∷ selected) listens
    ≡ some (close_socket (record listens { state = record listens.state { work = true } }))
unfolding start turns
select_failed = refl
