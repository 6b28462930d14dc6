-- ===== src/Server/Commands/Ids.antt =====
-- The ids that SharedServer gives to channels.
use mediaroom.Prelude.{
  ℕ, ◌+◌, ◌*◌, ◌%◌, ◌^◌, ◌≡◌, ◌≢◌, ◌<◌, refl, true, false, ◌&&◌, Option, none, some, List, [], ◌∷◌,
  ◌++◌, arith, ◌==◌, ltb, if◌then◌else◌, inl, inr, length, Option-cases, Bool-cases,
}
use mathlib.Core.Path.{subst}
use mediaroom.Server.{
  State, Env, Channel, Direction, SocketState, Proto, Command, Answer, find, assign, erase_channel,
  find_channel, no_channels, close_connection, write_data, bind_found, bind_chan, close_chan,
  new_chan, new_r_chan, new_w_chan,
}
use mediaroom.Server.Commands.{c_string, number, drop, is_keyword, dispatch, process_commands}
use mediaroom.Server.Commands.Access.{
  SameChannels, write_data-SameChannels, close_connection-SameChannels,
}

unfoldable pub Absent : ℕ → List (ℕ × Channel) → Type 0
Absent id [] = Unit
Absent id ((s, c) ∷ cs) = (c.id ≢ id) × Absent id cs

-- The ids of the channels are different from each other, and below `n`.
unfoldable pub Ids : ℕ → List (ℕ × Channel) → Type 0
unfolding Absent
Ids n [] = Unit
Ids n ((s, c) ∷ cs) = (c.id < n) × Absent c.id cs × Ids n cs

Absent-append :
    (id sd : ℕ) (d : Channel) (cs : List (ℕ × Channel))
    → Absent id cs
    → d.id ≢ id
    → Absent id (cs ++ (sd, d) ∷ [])
unfolding Absent
Absent-append id sd d [] a ne = (ne, tt)
Absent-append id sd d ((s, c) ∷ cs) (h, a) ne = (h, Absent-append id sd d cs a ne)

Ids-append :
    (n sd : ℕ) (d : Channel) (cs : List (ℕ × Channel))
    → Ids n cs
    → d.id ≡ n
    → Ids (n + 1) (cs ++ (sd, d) ∷ [])
unfolding Ids
Ids-append n sd d [] h e = (omega (arith, e), tt, tt)
Ids-append n sd d ((s, c) ∷ cs) (lt, a, h) e = (
  omega arith,
  Absent-append c.id sd d cs a (λ same. omega (arith, e, lt, same)),
  Ids-append n sd d cs h e,
)

Absent-erase_channel :
    (q sd id : ℕ) (cs : List (ℕ × Channel)) → Absent q cs → Absent q (erase_channel sd id cs)
unfolding Absent erase_channel
Absent-erase_channel q sd id [] a = tt
Absent-erase_channel q sd id ((s, c) ∷ cs) (h, a) = elim (Bool-cases ((s == sd) && (c.id == id))) [
  | inl e ↦ rw (e) a
  | inr e ↦ rw (e) (h, Absent-erase_channel q sd id cs a)
]

Ids-erase_channel :
    (n sd id : ℕ) (cs : List (ℕ × Channel)) → Ids n cs → Ids n (erase_channel sd id cs)
unfolding Ids erase_channel
Ids-erase_channel n sd id [] h = tt
Ids-erase_channel n sd id ((s, c) ∷ cs) (lt, a, h) = elim (Bool-cases ((s == sd) && (c.id == id))) [
  | inl e ↦ rw (e) h
  | inr e ↦ rw (e) (lt, Absent-erase_channel c.id sd id cs a, Ids-erase_channel n sd id cs h)
]

-- What holds of a result, where there is one.
Registered : Option State → Type 0
Registered none = Unit
Registered (some r) = Ids r.next_id r.channels

SameChannels-Registered :
    (s r : State) → SameChannels s r → Ids s.next_id s.channels → Ids r.next_id r.channels
SameChannels-Registered s r k h = rw (k.next_id, k.channels) h

write_data-Registered :
    (env : Env) (sd : ℕ) (a : Answer) (s : State)
    → Ids s.next_id s.channels
    → let r = write_data env sd a s in Ids r.next_id r.channels
write_data-Registered env sd a s h =
    SameChannels-Registered s (write_data env sd a s) (write_data-SameChannels env sd a s) h

Ids-suc : (n : ℕ) (cs : List (ℕ × Channel)) → Ids n cs → Ids (n + 1) cs
unfolding Ids
Ids-suc n [] h = tt
Ids-suc n ((s, c) ∷ cs) (lt, a, h) = (omega arith, a, Ids-suc n cs h)

new_chan-Registered :
    (env : Env) (sd : ℕ) (dir : Direction) (name : List ℕ) (size : ℕ) (s : State)
    → s.next_id + 1 < 2 ^ 64
    → Ids s.next_id s.channels
    → Registered (new_chan env sd dir name size s)
unfolding new_chan Registered
new_chan-Registered env sd dir name size s room h =
    let small : (s.next_id + 1) % 2 ^ 64 ≡ s.next_id + 1 = omega arith in
    elim (Bool-cases (env.creates name (if size == 0 then 1024 * 1024 * 100 else size))) [
      | inl e ↦ elim (Bool-cases (ltb (length name) 128)) [
        | inl short ↦
            rw (e, short)
              (write_data-Registered env sd (Answer.acked s.next_id name) _
                (rw (small) (Ids-append s.next_id sd _ s.channels h refl)))
        | inr long ↦ rw (e, long) tt
      ]
      | inr e ↦ rw (e) (
          write_data-Registered env sd (Answer.nacked 0) _
            (rw (small) (Ids-suc s.next_id s.channels h)))
    ]

bind_found-Registered :
    (env : Env) (sd id hash : ℕ) (found : Option Channel) (s : State)
    → Ids s.next_id s.channels
    → let r = (bind_found env sd id hash found s).1 in Ids r.next_id r.channels
unfolding bind_found
bind_found-Registered env sd id hash none s h = write_data-Registered env sd (Answer.nacked 0) s h
bind_found-Registered env sd id hash (some c) s h = elim (Option-cases (find hash s.hashes)) [
  | inl e ↦ rw (e, bind_found) (write_data-Registered env sd (Answer.acked id []) _ h)
  | inr (d, e) ↦ rw (e, bind_found) (write_data-Registered env sd (Answer.nacked id) s h)
]

bind_chan-Registered :
    (env : Env) (sd id hash : ℕ) (s : State)
    → Ids s.next_id s.channels
    → let r = (bind_chan env sd id hash s).1 in Ids r.next_id r.channels
unfolding bind_chan
bind_chan-Registered env sd id hash s h = elim (Bool-cases (no_channels sd s.channels)) [
  | inl e ↦ rw (e) (
      bind_found-Registered env sd id hash (find_channel sd id s.channels) _
        (write_data-Registered env sd (Answer.nacked 0) s h))
  | inr e ↦ rw (e) (bind_found-Registered env sd id hash (find_channel sd id s.channels) s h)
]

close_chan-Registered :
    (env : Env) (sd id : ℕ) (s : State)
    → Ids s.next_id s.channels
    → let r = close_chan env sd id s in Ids r.next_id r.channels
unfolding close_chan
close_chan-Registered env sd id s h =
    write_data-Registered env sd (Answer.acked id []) _
      (Ids-erase_channel s.next_id sd id s.channels h)

closed :
    (sd : ℕ) (s : State)
    → Ids s.next_id s.channels
    → let r = close_connection sd s in Ids r.next_id r.channels
closed sd s h =
    SameChannels-Registered s (close_connection sd s) (close_connection-SameChannels sd s) h

module _ (env : Env) (to_string : ℕ → List ℕ) (sd : ℕ) where
  dispatch-Registered :
      (p : Proto) (c : Command) (s : State)
      → s.next_id + 1 < 2 ^ 64
      → Ids s.next_id s.channels
      → Registered (dispatch env to_string sd p c s)
  unfolding dispatch Registered new_r_chan new_w_chan
  dispatch-Registered Proto.init c s room h = h
  dispatch-Registered Proto.newrchan c s room h = elim (Option-cases (c_string (drop 4 c.text))) [
    | inl e ↦ rw (e) tt
    | inr (prefix, e) ↦
        rw (e) (new_chan-Registered env sd Direction.write _ (number 4 c.text) s room h)
  ]
  dispatch-Registered Proto.newwchan c s room h = elim (Option-cases (c_string (drop 4 c.text))) [
    | inl e ↦ rw (e) tt
    | inr (prefix, e) ↦
        rw (e) (new_chan-Registered env sd Direction.read _ (number 4 c.text) s room h)
  ]
  dispatch-Registered Proto.bindchan c s room h =
      bind_chan-Registered env sd c.id (number 8 c.text) s h
  dispatch-Registered Proto.closechan c s room h = close_chan-Registered env sd c.id s h
  dispatch-Registered Proto.ack c s room h = closed sd s h
  dispatch-Registered Proto.nack c s room h = closed sd s h
  dispatch-Registered (Proto.unknown n) c s room h = closed sd s h

  serve-Registered :
      (state : SocketState) (c : Command) (s : State)
      → s.next_id + 1 < 2 ^ 64
      → Ids s.next_id s.channels
      → find sd s.sockets ≡ some state
      → (c.cmd == 0) ≡ false
      → Registered (process_commands env to_string sd c s)
  unfolding process_commands Registered
  serve-Registered SocketState.disconnected c s room h e more = rw (e, process_commands, more) h
  serve-Registered SocketState.connected c s room h e more = rw (e, process_commands, more) h
  serve-Registered SocketState.inited c s room h e more =
      rw (e, process_commands, more) (dispatch-Registered _ c s room h)

  init-Registered :
      (c : Command) (s : State)
      → Ids s.next_id s.channels
      → (c.cmd == 0) ≡ true
      → Registered (process_commands env to_string sd c s)
  unfolding process_commands Registered
  init-Registered c s h zero =
      let keyed = record s { sockets = assign sd SocketState.inited s.sockets } in
      elim (Option-cases (find sd s.sockets)) [
        | inl e ↦ elim (Bool-cases (is_keyword c.text)) [
          | inl k ↦ rw (e, process_commands, zero, k) tt
          | inr k ↦ rw (e, process_commands, zero, k) (closed sd s h)
        ]
        | inr (_, e) ↦ elim (Bool-cases (is_keyword c.text)) [
          | inl k ↦
              rw (e, process_commands, zero, k)
                (write_data-Registered env sd (Answer.acked 0 []) keyed h)
          | inr k ↦ rw (e, process_commands, zero, k) (closed sd s h)
        ]
      ]

  process_commands-Registered :
      (c : Command) (s : State)
      → s.next_id + 1 < 2 ^ 64
      → Ids s.next_id s.channels
      → Registered (process_commands env to_string sd c s)
  unfolding process_commands Registered
  process_commands-Registered c s room h = elim (Bool-cases (c.cmd == 0)) [
    | inl zero ↦ init-Registered c s h zero
    | inr more ↦ elim (Option-cases (find sd s.sockets)) [
      | inl e ↦ rw (e, process_commands, more) tt
      | inr (state, e) ↦ serve-Registered state c s room h e more
    ]
  ]

  -- Every command keeps the ids of the channels different from each other and below the next id,
  -- as long as fewer than 2^64 ids have been taken.
  pub process_commands-Ids :
      (c : Command) (s : State) {r : State}
      → s.next_id + 1 < 2 ^ 64
      → Ids s.next_id s.channels
      → process_commands env to_string sd c s ≡ some r
      → Ids r.next_id r.channels
  unfolding Registered
  process_commands-Ids c s room h e = subst Registered e (process_commands-Registered c s room h)
