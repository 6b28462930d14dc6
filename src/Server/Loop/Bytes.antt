-- ===== src/Server/Loop/Bytes.antt =====
-- SharedServer::start: what is done for one client keeps every other socket watched.
use mediaroom.Prelude.{ℕ, ◌≢◌, inl, inr, Option, none, some, List, Option-cases}
use mathlib.Core.Path.{subst}
use mediaroom.Server.{State, Env, find}
use mediaroom.Server.Commands.{process_commands}
use mediaroom.Server.Loop.{
  Received, to_command, handle_bytes, handle_client, handle_read, reset, buffered,
}
use mediaroom.Server.Loop.Watched.{Watches, close_connection-Watched}
use mediaroom.Server.Loop.Served.{Keeps, process_commands-Keeps}

module _ (env : Env) (to_string : ℕ → List ℕ) (sock sd : ℕ) (ne : sd ≢ sock) where
  handle_bytes-Keeps :
      (s : State) (taken : Option (List ℕ)) (kept : List ℕ)
      → Watches sock s
      → Keeps sock (handle_bytes env to_string sd s (taken, kept))
  unfolding handle_bytes
  handle_bytes-Keeps s none kept w = w
  handle_bytes-Keeps s (some bytes) kept w =
      elim (Option-cases (process_commands env to_string sd (to_command bytes) s)) [
        | inl e ↦ rw (e) tt
        | inr (r, e) ↦
            let watched : Watches sock r =
              subst (Keeps sock) e
                (process_commands-Keeps env to_string sock sd ne (to_command bytes) s w) in
            elim (Option-cases (find sd r.partial)) [
              | inl gone ↦ rw (e, reset, gone) tt
              | inr (_, there) ↦ rw (e, reset, there) watched
            ]
      ]

  handle_read-Keeps :
      (s : State) (have : List ℕ) (r : Option (List ℕ))
      → Watches sock s
      → Keeps sock (handle_read env to_string sd s have r)
  unfolding handle_read
  handle_read-Keeps s have none w = close_connection-Watched sock sd s ne w
  handle_read-Keeps s have (some xs) w = handle_bytes-Keeps s _ _ w

  pub handle_client-Keeps :
      (rs : List Received) (s : State)
      → Watches sock s
      → Keeps sock (handle_client env to_string sd rs s)
  unfolding handle_client
  handle_client-Keeps rs s w = handle_read-Keeps _ (buffered (find sd s.partial)) _ w
