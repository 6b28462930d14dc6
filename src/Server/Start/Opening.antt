-- ===== src/Server/Start/Opening.antt =====
-- SharedServer::create: what is open after it.
use mediaroom.Prelude.{
  ℕ, ◌≡◌, refl, sym, ap, ◌∙◌, Bool, true, false, ◌&&◌, Option, none, some, ◌==◌, if◌then◌else◌,
  arith, Bool-cases, inl, inr,
}
use mediaroom.Server.{fd_put}
use mediaroom.Server.Loop.Watched.{Watches}
use mediaroom.Server.Start.{Server, Calls, create, prepare, with_socket, listening, close_socket}

-- The server listens at `sd`, the only socket that it watches and the only one that it opened.
abbrev Listens : ℕ → Server → Server → Type 0
Listens sd s r =
    (r.sock ≡ some sd)
    × (r.started ≡ true)
    × Watches sd r.state
    × ((i : ℕ) → r.state.main_set i ≡ true → i ≡ sd)
    × ((i : ℕ) → r.opened i ≡ (if sd == i then true else s.opened i))

-- No socket is kept, nothing runs, and the same descriptors are open as before.
abbrev GivesUp : Server → Server → Type 0
GivesUp s r = (r.sock ≡ none) × (r.started ≡ s.started) × ((i : ℕ) → r.opened i ≡ s.opened i)

-- The outcome of create, by the result.
abbrev pub Opens : Option ℕ → Server → Bool × Server → Type 0
Opens none s (done, r) = (done ≡ false) × GivesUp s r
Opens (some sd) s (true, r) = Listens sd s r
Opens (some sd) s (false, r) = GivesUp s r

-- What is opened and closed again was not open.
closed :
    (sd : ℕ) (set : ℕ → Bool)
    → set sd ≡ false
    → (i : ℕ) → fd_put false sd (fd_put true sd set) i ≡ set i
closed sd set h i = elim (Bool-cases (sd == i)) [
  | inl e ↦ rw (e) (sym h ∙ ap set (ground arith))
  | inr e ↦ rw (e) refl
]

close-GivesUp :
    (sd : ℕ) (s : Server) → s.opened sd ≡ false → GivesUp s (close_socket (with_socket (some sd) s))
close-GivesUp sd s h = (refl, refl, closed sd s.opened h)

listening-Listens : (sd : ℕ) (s : Server) → Listens sd s (listening sd (with_socket (some sd) s))
listening-Listens sd s = (
  refl,
  refl,
  record { listens = ground arith; reached = ground arith; above = λ i h. ground (arith, h) },
  λ i h. ground (arith, h),
  λ i. refl,
)

abbrev pub succeeds : Calls → Option ℕ → Bool
succeeds c none = false
succeeds c (some sd) = c.setsockopt && c.ioctl && c.bind && c.listen

-- The kernel hands out a descriptor that is not open.
abbrev pub Fresh : Option ℕ → Server → Type 0
Fresh none s = Unit {0}
Fresh (some sd) s = s.opened sd ≡ false

prepare-some :
    (c : Calls) (sd : ℕ) (s : Server)
    → s.opened sd ≡ false
    → Opens (some sd) s (prepare c (some sd) (with_socket (some sd) s))
      × ((prepare c (some sd) (with_socket (some sd) s)).0 ≡ succeeds c (some sd))
prepare-some c sd s h =
    let up = close-GivesUp sd s h in
    elim (Bool-cases c.setsockopt) [
      | inr e ↦ rw (e) (up, refl)
      | inl e ↦ elim (Bool-cases c.ioctl) [
        | inr f ↦ rw (e, f) (up, refl)
        | inl f ↦ elim (Bool-cases c.bind) [
          | inr g ↦ rw (e, f, g) (up, refl)
          | inl g ↦ elim (Bool-cases c.listen) [
            | inr k ↦ rw (e, f, g, k) (up, refl)
            | inl k ↦ rw (e, f, g, k) (listening-Listens sd s, refl)
          ]
        ]
      ]
    ]

opens :
    (c : Calls) (socket : Option ℕ) (s : Server)
    → Fresh socket s
    → Opens socket s (prepare c socket (with_socket socket s))
      × ((prepare c socket (with_socket socket s)).0 ≡ succeeds c socket)
opens c none s h = ((refl, (refl, refl, λ i. refl)), refl)
opens c (some sd) s h = prepare-some c sd s h

-- Whatever the system calls return, for a new descriptor: create returns true just where every
-- call succeeds. Then the server listens at the new socket, its thread was started, and select
-- watches this socket only; on each of the other paths the server has no socket, no thread was
-- started, and the same descriptors are open as before.
pub create-Opens :
    (c : Calls) (s : Server)
    → Fresh c.socket s
    → Opens c.socket s (create c s) × ((create c s).0 ≡ succeeds c c.socket)
unfolding create
create-Opens c s h = opens c c.socket s h
