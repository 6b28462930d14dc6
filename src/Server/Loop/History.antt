-- ===== src/Server/Loop/History.antt =====
-- Any history of SharedServer: connections that come, and bytes of clients.
use mediaroom.Prelude.{
  ℕ, ◌+◌, ◌^◌, ◌<◌, ◌≡◌, ◌≢◌, inl, inr, Option, none, some, List, [], ◌∷◌, Option-cases,
}
use mathlib.Core.Path.{subst}
use mediaroom.Server.{State, Env, find, close_connection}
use mediaroom.Server.Commands.{process_commands}
use mediaroom.Server.Commands.Ids.{Ids, process_commands-Ids}
use mediaroom.Server.Loop.{
  Received, Accepted, accept_connections, to_command, handle_bytes, handle_client, handle_read,
  reset, buffered,
}
use mediaroom.Server.Loop.Watched.{Watches, close_connection-Watched, accept_connections-Watched}
use mediaroom.Server.Loop.Served.{Keeps, process_commands-Keeps}

-- The ids of the channels are distinct and below the next one, and select covers the sockets.
pub record Sound (sock : ℕ) (s : State) : Type 0 where
  pub ids : Ids s.next_id s.channels
  pub watched : Watches sock s

-- One round of the loop for one ready socket, with fewer than 2^64 ids taken.
pub data Turn (env : Env) (to_string : ℕ → List ℕ) (sock : ℕ) (s : State) : State → Type 0 where
  accepts : (rs : List Accepted) → Turn env to_string sock s (accept_connections rs s).1
  serves :
      (sd : ℕ) (rs : List Received) {r : State}
      → sd ≢ sock
      → s.next_id + 1 < 2 ^ 64
      → handle_client env to_string sd rs s ≡ some r
      → Turn env to_string sock s r

pub data Rounds (env : Env) (to_string : ℕ → List ℕ) (sock : ℕ) (s : State) : State → Type 0 where
  start : Rounds env to_string sock s s
  turn :
      {r t : State}
      → Rounds env to_string sock s r
      → Turn env to_string sock r t
      → Rounds env to_string sock s t

accept_connections-Ids :
    (rs : List Accepted) (s : State)
    → Ids s.next_id s.channels
    → let r = (accept_connections rs s).1 in Ids r.next_id r.channels
unfolding accept_connections
accept_connections-Ids [] s h = h
accept_connections-Ids (Accepted.failed ∷ rs) s h = h
accept_connections-Ids (Accepted.would_block ∷ rs) s h = h
accept_connections-Ids (Accepted.accepted sd ∷ rs) s h = accept_connections-Ids rs _ h

abbrev Stays : ℕ → Option State → Type 0
Stays sock none = Unit {0}
Stays sock (some r) = Sound sock r

close_connection-Sound :
    (sock sd : ℕ) (s : State) → sd ≢ sock → Sound sock s → Sound sock (close_connection sd s)
unfolding close_connection
close_connection-Sound sock sd s ne h = record {
  ids = h.ids;
  watched = close_connection-Watched sock sd s ne h.watched;
}

module _ (env : Env) (to_string : ℕ → List ℕ) (sock sd : ℕ) (ne : sd ≢ sock) where
  handle_bytes-Stays :
      (s : State) (taken : Option (List ℕ)) (kept : List ℕ)
      → s.next_id + 1 < 2 ^ 64
      → Sound sock s
      → Stays sock (handle_bytes env to_string sd s (taken, kept))
  unfolding handle_bytes
  handle_bytes-Stays s none kept room h = record { ids = h.ids; watched = h.watched }
  handle_bytes-Stays s (some bytes) kept room h =
      elim (Option-cases (process_commands env to_string sd (to_command bytes) s)) [
        | inl e ↦ rw (e) tt
        | inr (r, e) ↦
            let ids = process_commands-Ids env to_string sd (to_command bytes) s room h.ids e in
            let watched =
              subst (Keeps sock) e
                (process_commands-Keeps env to_string sock sd ne (to_command bytes) s h.watched) in
            elim (Option-cases (find sd r.partial)) [
              | inl gone ↦ rw (e, reset, gone) tt
              | inr (_, there) ↦ rw (e, reset, there) (record { ids = ids; watched = watched })
            ]
      ]

  handle_read-Stays :
      (s : State) (have : List ℕ) (r : Option (List ℕ))
      → s.next_id + 1 < 2 ^ 64
      → Sound sock s
      → Stays sock (handle_read env to_string sd s have r)
  unfolding handle_read
  handle_read-Stays s have none room h = close_connection-Sound sock sd s ne h
  handle_read-Stays s have (some xs) room h = handle_bytes-Stays s _ _ room h

  handle_client-Stays :
      (rs : List Received) (s : State)
      → s.next_id + 1 < 2 ^ 64
      → Sound sock s
      → Stays sock (handle_client env to_string sd rs s)
  unfolding handle_client
  handle_client-Stays rs s room h =
      handle_read-Stays _ (buffered (find sd s.partial)) _ room
        (record { ids = h.ids; watched = h.watched })

Turn-Sound :
    {env : Env} {to_string : ℕ → List ℕ} {sock : ℕ} {s r : State}
    → Turn env to_string sock s r
    → Sound sock s
    → Sound sock r
Turn-Sound {sock = sock} {s = s} (accepts rs) h = record {
  ids = accept_connections-Ids rs s h.ids;
  watched = accept_connections-Watched sock rs s h.watched;
}
Turn-Sound {env} {to_string} {sock} {s} (serves sd rs ne room e) h =
    subst (Stays sock) e (handle_client-Stays env to_string sock sd ne rs s room h)

-- From a state where it holds, in any history of connections and of bytes that clients send,
-- whatever they are and however the sockets fail, the ids of the channels stay different from
-- each other and below the next one, the listening socket stays watched, and `_max_sd` is a
-- watched socket with none above it. The sockets that are served are not the listening one, and
-- fewer ids than `2 ^ 64` are given.
pub Rounds-Sound :
    {env : Env} {to_string : ℕ → List ℕ} {sock : ℕ} {s r : State}
    → Rounds env to_string sock s r
    → Sound sock s
    → Sound sock r
Rounds-Sound start h = h
Rounds-Sound (turn past t) h = Turn-Sound t (Rounds-Sound past h)
