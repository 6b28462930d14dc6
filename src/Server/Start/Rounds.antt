-- ===== src/Server/Start/Rounds.antt =====
-- SharedServer::start: the listening socket over any number of turns of the loop.
use mediaroom.Prelude.{
  ℕ, zero, suc, ◌+◌, ◌-◌, ◌≡◌, ◌≢◌, refl, sym, ap, ◌∙◌, inl, inr, ◌⊎◌, Bool, true, false, ◌&&◌,
  Option, none, some, List, [], ◌∷◌, ◌++◌, leb, ltb, ◌==◌, if◌then◌else◌, arith, Bool-cases,
  Option-cases,
}
use mathlib.Core.Path.{subst}
use mediaroom.Server.{State, Env}
use mediaroom.Server.Loop.{accept_connections, handle_client}
use mediaroom.Server.Loop.Watched.{Watches, accept_connections-Watched}
use mediaroom.Server.Loop.Bytes.{handle_client-Keeps}
use mediaroom.Server.Loop.Served.{Keeps}
use mediaroom.Server.Start.{
  Server, Answers, Body, accepting, serving, is_listener, body, follow, pass, close_socket,
  fd_setsize, Selected, after_pass, turns, continue, start,
}

-- The server listens at `sock`, and select watches it with nothing above `_max_sd`.
abbrev pub Going : ℕ → Server → Type 0
Going sock s = (s.sock ≡ some sock) × Watches sock s.state

abbrev Stopped : Server → Type 0
Stopped s = (s.sock ≡ none) × (s.state.work ≡ false)

abbrev After : ℕ → Body → Type 0
After sock (Body.next num s) = Going sock s
After sock (Body.broken s) = Stopped s
After sock Body.undefined = Unit {0}

abbrev Passed : ℕ → Option Server → Type 0
Passed sock none = Unit {0}
Passed sock (some s) = Going sock s ⊎ Stopped s

close_socket-none : (sock : ℕ) (s : Server) → s.sock ≡ some sock → (close_socket s).sock ≡ none
close_socket-none sock s h = rw (h) refl

accepting-After :
    (sock num : ℕ) (s : Server) (r : Bool × State)
    → s.sock ≡ some sock
    → Watches sock r.1
    → After sock (accepting num s r)
accepting-After sock num s (true, state) h w = (h, w)
accepting-After sock num s (false, state) h w =
    (close_socket-none sock (record s { state = state }) h, refl)

serving-After :
    (sock num : ℕ) (s : Server) (r : Option State)
    → s.sock ≡ some sock
    → Keeps sock r
    → After sock (serving num s r)
serving-After sock num s none h w = tt
serving-After sock num s (some state) h w = (h, w)

listener-other :
    (i sock : ℕ) (s : Server) → s.sock ≡ some sock → is_listener i s.sock ≡ false → i ≢ sock
listener-other i sock s h e q =
    let t : (i == sock) ≡ false = subst (λ o. is_listener i o ≡ false) h e in ground arith

module _ (env : Env) (to_string : ℕ → List ℕ) (sock : ℕ) where
  body-After :
      (a : Answers) (set : ℕ → Bool) (i num : ℕ) (s : Server)
      → Going sock s
      → After sock (body env to_string a set i num s)
  unfolding body
  body-After a set i num s (h, w) = elim (Bool-cases (set i)) [
    | inr e ↦ rw (e) (h, w)
    | inl e ↦ elim (Bool-cases (is_listener i s.sock)) [
      | inl f ↦
          rw (e, f)
            (accepting-After sock (num - 1) s (accept_connections a.accepts s.state) h
              (accept_connections-Watched sock a.accepts s.state w))
      | inr f ↦
          rw (e, f)
            (serving-After sock (num - 1) s (handle_client env to_string i (a.receives i) s.state) h
              (handle_client-Keeps env to_string sock i (listener-other i sock s h f) (a.receives i)
                s.state w))
    ]
  ]

  follow-Passed :
      (go : ℕ → Server → Option Server) (b : Body)
      → After sock b
      → ((num : ℕ) (s : Server) → Going sock s → Passed sock (go num s))
      → Passed sock (follow env to_string go b)
  follow-Passed go (Body.next num s) h k = k num s h
  follow-Passed go (Body.broken s) h k = inr h
  follow-Passed go Body.undefined h k = tt

  pass-Passed :
      (fuel : ℕ) (a : Answers) (set : ℕ → Bool) (i num : ℕ) (s : Server)
      → Going sock s
      → Passed sock (pass env to_string fuel a set i num s)
  unfolding pass
  pass-Passed zero a set i num s h = inl h
  pass-Passed (suc fuel) a set i num s h = elim (Bool-cases (leb i s.state.max_sd && ltb 0 num)) [
    | inl e ↦ rw (e) (
        follow-Passed (pass env to_string fuel a set (i + 1)) (body env to_string a set i num s)
          (body-After a set i num s h) (λ n r k. pass-Passed fuel a set (i + 1) n r k))
    | inr e ↦ rw (e) (inl h)
  ]

  -- After these results: the server listens still, or it does not and has left the loop.
  abbrev pub Lives : List Selected → Server → Option Server → Type 0
  Lives rest s none = Unit {0}
  Lives rest s (some r) = Going sock r ⊎ ((r.sock ≡ none) × (turns env to_string rest s ≡ some r))

  turns-nil : (s : Server) → turns env to_string [] s ≡ some s
  unfolding turns
  turns-nil s = refl

  turns-failed :
      (rs : List Selected) (s : Server)
      → turns env to_string (Selected.failed ∷ rs) s ≡ some (close_socket s)
  unfolding turns
  turns-failed rs s = refl

  turns-passed :
      (rs : List Selected) (num : ℕ) (set : ℕ → Bool) (a : Answers) (s r : Server)
      → pass env to_string fd_setsize a set 0 num s ≡ some r
      → turns env to_string (Selected.ready num set a ∷ rs) s
        ≡ (if r.state.work then turns env to_string rs r else some r)
  unfolding turns
  turns-passed rs num set a s r e =
      ap (λ o. continue env to_string (turns env to_string rs) (after_pass o)) e

  turns-crashed :
      (rs : List Selected) (num : ℕ) (set : ℕ → Bool) (a : Answers) (s : Server)
      → pass env to_string fd_setsize a set 0 num s ≡ none
      → turns env to_string (Selected.ready num set a ∷ rs) s ≡ none
  unfolding turns
  turns-crashed rs num set a s e =
      ap (λ o. continue env to_string (turns env to_string rs) (after_pass o)) e

  Lives-same :
      (rest rest' : List Selected) (s s' : Server) (r : Option Server)
      → turns env to_string rest' s' ≡ turns env to_string rest s
      → Lives rest s r
      → Lives rest' s' r
  Lives-same rest rest' s s' none e h = tt
  Lives-same rest rest' s s' (some r) e (inl h) = inl h
  Lives-same rest rest' s s' (some r) e (inr (h, k)) = inr (h, e ∙ k)

  -- while (_work), behind a pass
  branch-Lives :
      (works : Bool) (rs rest all : List Selected) (s r : Server)
      → r.state.work ≡ works
      → turns env to_string all s ≡ (if works then turns env to_string (rs ++ rest) r else some r)
      → Going sock r ⊎ Stopped r
      → (Going sock r → Lives (rs ++ rest) r (turns env to_string rs r))
      → Lives all s (if works then turns env to_string rs r else some r)
  branch-Lives true rs rest all s r w e (inl going) next =
      Lives-same (rs ++ rest) all r s (turns env to_string rs r) e (next going)
  branch-Lives true rs rest all s r w e (inr (gone, stopped)) next =
      absurd (ground (arith, w, stopped))
  branch-Lives false rs rest all s r w e (inl going) next = inl going
  branch-Lives false rs rest all s r w e (inr (gone, stopped)) next = inr (gone, e)

  turns-Lives :
      (rs rest : List Selected) (s : Server)
      → Going sock s
      → Lives (rs ++ rest) s (turns env to_string rs s)
  turns-Lives [] rest s h = subst (Lives rest s) (sym (turns-nil s)) (inl h)
  turns-Lives (Selected.failed ∷ rs) rest s h =
      subst (Lives (Selected.failed ∷ (rs ++ rest)) s) (sym (turns-failed rs s))
        (inr (close_socket-none sock s h.0, turns-failed (rs ++ rest) s))
  turns-Lives (Selected.ready num set a ∷ rs) rest s h =
      let all : List Selected = Selected.ready num set a ∷ (rs ++ rest) in
      elim (Option-cases (pass env to_string fd_setsize a set 0 num s)) [
        | inl e ↦ subst (Lives all s) (sym (turns-crashed rs num set a s e)) tt
        | inr (r, e) ↦
            let passed : Going sock r ⊎ Stopped r =
              subst (Passed sock) e (pass-Passed fd_setsize a set 0 num s h) in
            subst (Lives all s) (sym (turns-passed rs num set a s r e)) (
              branch-Lives r.state.work rs rest all s r refl
                (turns-passed (rs ++ rest) num set a s r e) passed (turns-Lives rs rest r))
      ]

  -- For any results of select, accept and recv: where the server that listens comes to a state,
  -- it listens at the same socket, which select watches with nothing above the number that it is
  -- given; or the socket is closed and the server has left the loop, whatever results `rest`
  -- were still to come.
  pub start-Lives :
      (rs rest : List Selected) (s r : Server)
      → Going sock s
      → start env to_string rs s ≡ some r
      → Going sock r ⊎ ((r.sock ≡ none) × (start env to_string (rs ++ rest) s ≡ some r))
  unfolding start
  start-Lives rs rest s r h e =
      subst (Lives (rs ++ rest) (record s { state = record s.state { work = true } })) e
        (turns-Lives rs rest (record s { state = record s.state { work = true } }) h)
