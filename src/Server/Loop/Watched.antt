-- ===== src/Server/Loop/Watched.antt =====
-- The sockets that `select` watches, and the number that it is given.
use mediaroom.Prelude.{
  ℕ, zero, suc, ◌≤◌, ◌≡◌, ◌≢◌, inl, inr, Bool, true, false, List, [], ◌∷◌, ◌==◌, arith, Bool-cases,
}
use mathlib.Core.Path.{subst}
use mediaroom.Server.{State, fd_put, lower_max, close_connection}
use mediaroom.Server.Loop.{Accepted, accepted, accept_connections}

-- The listening socket is watched, and `max_sd` is the largest socket that is.
pub record Watched (sock : ℕ) (main_set : ℕ → Bool) (max_sd : ℕ) : Type 0 where
  pub listens : main_set sock ≡ true
  pub reached : main_set max_sd ≡ true
  pub above : (sd : ℕ) → main_set sd ≡ true → sd ≤ max_sd

abbrev pub Watches : ℕ → State → Type 0
Watches sock s = Watched sock s.main_set s.max_sd

below : (set : ℕ → Bool) (sd n : ℕ) → set sd ≡ true → sd ≤ suc n → set (suc n) ≡ false → sd ≤ n
below set sd n h le e = let ne : sd ≢ suc n = λ q. cc in omega (arith, le, ne)

lower_max-reached :
    (set : ℕ → Bool) (sock n : ℕ) → set sock ≡ true → sock ≤ n → set (lower_max set n) ≡ true
unfolding lower_max
lower_max-reached set sock zero h le = subst (λ (k : ℕ). set k ≡ true) (omega arith) h
lower_max-reached set sock (suc n) h le = elim (Bool-cases (set (suc n))) [
  | inl e ↦ rw (e, lower_max) e
  | inr e ↦ rw (e, lower_max) (lower_max-reached set sock n h (below set sock n h le e))
]

lower_max-above : (set : ℕ → Bool) (sd n : ℕ) → set sd ≡ true → sd ≤ n → sd ≤ lower_max set n
unfolding lower_max
lower_max-above set sd zero h le = le
lower_max-above set sd (suc n) h le = elim (Bool-cases (set (suc n))) [
  | inl e ↦ rw (e, lower_max) le
  | inr e ↦ rw (e, lower_max) (lower_max-above set sd n h (below set sd n h le e))
]

-- When the connection of a socket other than the listening one is closed, the search downwards
-- for a watched socket ends at one, and no watched socket is above it.
pub close_connection-Watched :
    (sock sd : ℕ) (s : State) → sd ≢ sock → Watches sock s → Watches sock (close_connection sd s)
unfolding close_connection
close_connection-Watched sock sd s ne w =
    let set = fd_put false sd s.main_set in
    let listens : set sock ≡ true = ground (arith, w.listens) in
    let was : (i : ℕ) → set i ≡ true → s.main_set i ≡ true = λ i h. ground (arith, h) in
    elim (Bool-cases (sd == s.max_sd)) [
      | inl e ↦ record {
        listens = listens;
        reached = rw (e) (lower_max-reached set sock s.max_sd listens (w.above sock w.listens));
        above = λ i h. rw (e) (lower_max-above set i s.max_sd h (w.above i (was i h)));
      }
      | inr e ↦ record {
        listens = listens;
        reached = rw (e) (rw (e) w.reached);
        above = λ i h. rw (e) (w.above i (was i h));
      }
    ]

-- Whatever connections are accepted, and also when accept fails, every socket that is watched is
-- covered, and the number stays that of a watched socket.
pub accept_connections-Watched :
    (sock : ℕ) (rs : List Accepted) (s : State)
    → Watches sock s
    → Watches sock (accept_connections rs s).1
unfolding accept_connections
accept_connections-Watched sock [] s w = w
accept_connections-Watched sock (Accepted.failed ∷ rs) s w = w
accept_connections-Watched sock (Accepted.would_block ∷ rs) s w = w
accept_connections-Watched sock (accepted sd ∷ rs) s w =
    accept_connections-Watched sock rs _ (record {
      listens = ground (arith, w.listens);
      reached = ground (arith, w.reached);
      above = λ i h. ground (arith, w.above i, h);
    })
