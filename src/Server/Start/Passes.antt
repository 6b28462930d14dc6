-- ===== src/Server/Start/Passes.antt =====
-- SharedServer::start: one pass over the descriptors that select reports.
use mediaroom.Prelude.{
  ℕ, zero, suc, ◌+◌, ◌-◌, ◌≤◌, ◌<◌, ◌≡◌, refl, sym, ap, ◌∙◌, inl, inr, Bool, true, false, Option,
  none, some, List, [], ◌∷◌, leb, ltb, ◌==◌, if◌then◌else◌, length, arith, Bool-cases,
}
use mediaroom.Server.{State, Env}
use mediaroom.Server.Loop.{accept_connections, handle_client}
use mediaroom.Server.Loop.Watched.{Watches, accept_connections-Watched}
use mediaroom.Server.Loop.Bytes.{handle_client-Keeps}
use mediaroom.Server.Loop.Served.{Keeps}
use mediaroom.Server.Start.{
  Server, Answers, Body, accepting, serving, is_listener, body, follow, pass, fd_setsize,
}

-- The descriptors of a set from `i` on, in their order.
unfoldable pub ready_from : ℕ → ℕ → (ℕ → Bool) → List ℕ
ready_from zero i set = []
ready_from (suc n) i set =
    let later = ready_from n (i + 1) set in if set i then i ∷ later else later

-- Every ready descriptor that is still to come is watched.
abbrev pub Ready : (ℕ → Bool) → ℕ → Server → Type 0
Ready set i s = (j : ℕ) → set j ≡ true → i ≤ j → Watches j s.state

ready_from-some :
    (n i : ℕ) (set : ℕ → Bool)
    → 0 < length (ready_from n i set)
    → (j : ℕ) × (set j ≡ true) × (i ≤ j)
unfolding ready_from
ready_from-some zero i set h = absurd (omega arith)
ready_from-some (suc n) i set h = elim (Bool-cases (set i)) [
  | inl e ↦ (i, e, omega arith)
  | inr e ↦ let (j, f, g) = ready_from-some n (i + 1) set (rw (e) at h) in (j, f, omega arith)
]

module _ (env : Env) (to_string : ℕ → List ℕ) (a : Answers) where
  -- What the loop does for one ready descriptor, whatever is left.
  pub served : ℕ → ℕ → Server → Body
  unfolding body
  served num i s =
      if is_listener i s.sock
      then accepting num s (accept_connections a.accepts s.state)
      else serving num s (handle_client env to_string i (a.receives i) s.state)

  -- One after the other, until the listening socket is given up.
  pub serve_all : List ℕ → Server → Option Server
  unfolding served
  serve_all [] s = some s
  serve_all (i ∷ is) s = follow env to_string (λ num. serve_all is) (served 0 i s)

  module _ (set : ℕ → Bool) (i num : ℕ) (s : Server) (go : ℕ → Server → Option Server)
      (other : Server → Option Server)
      (same : (r : Server) → Ready set (i + 1) r → go num r ≡ other r) where
    accepting-same :
        (r : Bool × State)
        → ((j : ℕ) → set j ≡ true → i + 1 ≤ j → Watches j r.1)
        → follow env to_string go (accepting num s r)
          ≡ follow env to_string (λ n. other) (accepting 0 s r)
    accepting-same (true, state) h = same (record s { state = state }) h
    accepting-same (false, state) h = refl

    serving-same :
        (r : Option State)
        → ((j : ℕ) → set j ≡ true → i + 1 ≤ j → Keeps j r)
        → follow env to_string go (serving num s r)
          ≡ follow env to_string (λ n. other) (serving 0 s r)
    serving-same none h = refl
    serving-same (some state) h = same (record s { state = state }) h

    served-same :
        Ready set i s
        → follow env to_string go (served num i s)
          ≡ follow env to_string (λ n. other) (served 0 i s)
    unfolding served
    served-same ready = elim (Bool-cases (is_listener i s.sock)) [
      | inl e ↦ rw (e) (
          accepting-same (accept_connections a.accepts s.state)
            (λ j h le. accept_connections-Watched j a.accepts s.state (ready j h (omega arith))))
      | inr e ↦ rw (e) (
          serving-same (handle_client env to_string i (a.receives i) s.state) (λ j h le.
            handle_client-Keeps env to_string j i (λ q. omega arith) (a.receives i) s.state
              (ready j h (omega arith))))
    ]

  -- A pass with no descriptor left, and with one more.
  pass-none :
      (fuel i : ℕ) (set : ℕ → Bool) (s : Server) → pass env to_string fuel a set i 0 s ≡ some s
  unfolding pass
  pass-none zero i set s = refl
  pass-none (suc fuel) i set s = elim (Bool-cases (leb i s.state.max_sd)) [
    | inl e ↦ rw (e) refl
    | inr e ↦ rw (e) refl
  ]

  pass-more :
      (fuel i num : ℕ) (set : ℕ → Bool) (s : Server)
      → 0 < num
      → i ≤ s.state.max_sd
      → pass env to_string (suc fuel) a set i num s
        ≡ follow env to_string
            (pass env to_string fuel a set (i + 1))
            (body env to_string a set i num s)
  unfolding pass
  pass-more fuel i num set s h le =
      let t : leb i s.state.max_sd ≡ true = ground arith in
      let u : ltb 0 num ≡ true = ground arith in rw (t, u) refl

  body-ready :
      (i num : ℕ) (set : ℕ → Bool) (s : Server)
      → set i ≡ true
      → body env to_string a set i num s ≡ served (num - 1) i s
  unfolding body served
  body-ready i num set s e = rw (e) refl

  body-other :
      (i num : ℕ) (set : ℕ → Bool) (s : Server)
      → set i ≡ false
      → body env to_string a set i num s ≡ Body.next num s
  unfolding body
  body-other i num set s e = rw (e) refl

  ready_from-here :
      (fuel i : ℕ) (set : ℕ → Bool)
      → set i ≡ true
      → ready_from (suc fuel) i set ≡ i ∷ ready_from fuel (i + 1) set
  unfolding ready_from
  ready_from-here fuel i set e = rw (e) refl

  ready_from-later :
      (fuel i : ℕ) (set : ℕ → Bool)
      → set i ≡ false
      → ready_from (suc fuel) i set ≡ ready_from fuel (i + 1) set
  unfolding ready_from
  ready_from-later fuel i set e = rw (e) refl

  serve_all-cons :
      (i : ℕ) (is : List ℕ) (s : Server)
      → serve_all (i ∷ is) s ≡ follow env to_string (λ num. serve_all is) (served 0 i s)
  unfolding serve_all
  serve_all-cons i is s = refl

  serve_all-none : (is : List ℕ) (s : Server) → length is ≡ 0 → serve_all is s ≡ some s
  unfolding serve_all
  serve_all-none [] s h = refl
  serve_all-none (i ∷ is) s h = absurd (omega arith)

  pass-zero :
      (i num : ℕ) (set : ℕ → Bool) (s : Server)
      → pass env to_string zero a set i num s ≡ serve_all (ready_from zero i set) s
  unfolding ready_from serve_all pass
  pass-zero i num set s = refl

  pass-served :
      (fuel i num : ℕ) (set : ℕ → Bool) (s : Server)
      → Ready set i s
      → num ≡ length (ready_from fuel i set)
      → pass env to_string fuel a set i num s ≡ serve_all (ready_from fuel i set) s
  pass-served zero i num set s ready e = pass-zero i num set s
  pass-served (suc fuel) i num set s ready e = elim (Bool-cases (set i)) [
    | inl here ↦
        let later : List ℕ = ready_from fuel (i + 1) set in
        let n : num ≡ suc (length later) = e ∙ ap length (ready_from-here fuel i set here) in
        let w : Watches i s.state = ready i here (omega arith) in
        pass-more fuel i num set s (omega arith) (w.above i w.listens)
        ∙ ap (follow env to_string (pass env to_string fuel a set (i + 1)))
            (body-ready i num set s here)
        ∙ served-same set i (num - 1) s (pass env to_string fuel a set (i + 1)) (serve_all later)
            (λ r h. pass-served fuel (i + 1) (num - 1) set r h (omega arith)) ready
        ∙ sym
            (ap (λ is. serve_all is s) (ready_from-here fuel i set here) ∙ serve_all-cons i later s)
    | inr other ↦
        let later : List ℕ = ready_from fuel (i + 1) set in
        let n : num ≡ length later = e ∙ ap length (ready_from-later fuel i set other) in
        elim (Bool-cases (num == 0)) [
          | inl gone ↦
              ap (λ k. pass env to_string (suc fuel) a set i k s) (ground arith)
              ∙ pass-none (suc fuel) i set s
              ∙ sym (serve_all-none (ready_from (suc fuel) i set) s (ground arith))
          | inr more ↦
              let (j, f, g) = ready_from-some (suc fuel) i set (ground arith) in
              let w : Watches j s.state = ready j f g in
              pass-more fuel i num set s (ground arith) (omega (arith, g, w.above j w.listens))
              ∙ ap (follow env to_string (pass env to_string fuel a set (i + 1)))
                  (body-other i num set s other)
              ∙ pass-served fuel (i + 1) num set s (λ k h le. ready k h (omega arith)) n
              ∙ sym (ap (λ is. serve_all is s) (ready_from-later fuel i set other))
        ]
  ]

  -- For what select reports: some of the watched descriptors, below 1024, with their number. The
  -- pass serves each of them once, in ascending order, and nothing else, until accept fails;
  -- connections that are closed or accepted on the way do not make it miss one.
  pub pass-serve_all :
      (num : ℕ) (set : ℕ → Bool) (s : Server)
      → ((j : ℕ) → set j ≡ true → Watches j s.state)
      → num ≡ length (ready_from fd_setsize 0 set)
      → pass env to_string fd_setsize a set 0 num s ≡ serve_all (ready_from fd_setsize 0 set) s
  pass-serve_all num set s ready e = pass-served fd_setsize 0 num set s (λ j h le. ready j h) e
