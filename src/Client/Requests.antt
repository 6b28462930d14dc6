-- ===== src/Client/Requests.antt =====
-- What the server does with the commands that a client writes.
use mediaroom.Prelude.{
  ℕ, zero, suc, ◌-◌, ◌%◌, ◌^◌, ◌<◌, ◌≡◌, ◌≢◌, refl, sym, ap, ◌∙◌, true, false, Option, some, List,
  [], ◌∷◌, ◌++◌, arith, leb, ◌==◌, length, replicate, length-append,
}
use mathlib.Core.Path.{subst}
use mediaroom.Server.{
  Answer, assign, write_data, State, Env, Command, Proto, SocketState, proto, find, bind_chan,
  close_chan, new_r_chan, new_w_chan,
}
use mediaroom.Server.Commands.{is_keyword, c_string, number, drop, dispatch, process_commands}
use mediaroom.Server.Loop.{command_size, to_command}
use mediaroom.Client.{
  le_bytes, fill_text, command_bytes, command_of, init_bytes, new_r_chan_bytes, new_w_chan_bytes,
  bind_chan_bytes, close_chan_bytes,
}

length-replicate : (n x : ℕ) → length (replicate n x) ≡ n
length-replicate zero x = refl
length-replicate (suc n) x = ap suc (length-replicate n x)

number-le_bytes8 : (v : ℕ) (xs : List ℕ) → v < 2 ^ 64 → number 8 (le_bytes 8 v ++ xs) ≡ v
unfolding number
number-le_bytes8 v xs h = omega arith

number-le_bytes4 : (v : ℕ) (xs : List ℕ) → number 4 (le_bytes 4 v ++ xs) ≡ v % 2 ^ 32
unfolding number
number-le_bytes4 v xs = omega arith

drop-le_bytes8 : (v : ℕ) (xs : List ℕ) → drop 8 (le_bytes 8 v ++ xs) ≡ xs
unfolding drop
drop-le_bytes8 v xs = refl

drop-le_bytes4 : (v : ℕ) (xs : List ℕ) → drop 4 (le_bytes 4 v ++ xs) ≡ xs
unfolding drop
drop-le_bytes4 v xs = refl

-- The server reads back what makes up a command.
to_command-command_bytes :
    (cmd id : ℕ) (text : List ℕ)
    → cmd < 2 ^ 64
    → id < 2 ^ 64
    → to_command (command_bytes cmd id text) ≡ record { cmd = cmd; id = id; text = text }
unfolding to_command command_bytes drop
to_command-command_bytes cmd id text a b =
    let c : number 8 (command_bytes cmd id text) ≡ cmd = number-le_bytes8 cmd _ a in
    let i : number 8 (drop 8 (command_bytes cmd id text)) ≡ id = number-le_bytes8 id text b in
    rw (c, i) refl

-- The bytes of a string have no zero.
abbrev pub NoZero : List ℕ → Type 0
NoZero [] = Unit {0}
NoZero (x ∷ xs) = (x ≢ 0) × NoZero xs

c_string-zeros : (xs : List ℕ) (n : ℕ) → NoZero xs → c_string (xs ++ replicate (suc n) 0) ≡ some xs
unfolding c_string
c_string-zeros [] n h = refl
c_string-zeros (x ∷ xs) n (h, k) = ground (arith, c_string-zeros xs n k)

-- What stands in the text behind the size.
fill_text-prefix :
    (size : ℕ) (prefix : List ℕ)
    → length prefix < 124
    → (n : ℕ) × (fill_text (le_bytes 4 size ++ prefix)
        ≡ some (le_bytes 4 size ++ (prefix ++ replicate (suc n) 0)))
      × (length (le_bytes 4 size ++ (prefix ++ replicate (suc n) 0)) ≡ 128)
unfolding fill_text
fill_text-prefix size prefix short =
    let n : ℕ = 123 - length prefix in
    let fits : leb (length (le_bytes 4 size ++ prefix)) 128 ≡ true = ground arith in
    let zeros : 128 - length (le_bytes 4 size ++ prefix) ≡ suc n = omega arith in
    (
      n,
      rw (fits, zeros) refl,
      omega (arith, length-append prefix (replicate (suc n) 0), length-replicate n 0),
    )

abbrev command : ℕ → ℕ → List ℕ → Command
command cmd id text = record { cmd = cmd; id = id; text = text }

module _ (env : Env) (to_string : ℕ → List ℕ) (sd : ℕ) where
  -- The bytes are those of a command, and the server answers them by `result`.
  abbrev pub Asks : Option (List ℕ) → State → Option State → Type 0
  Asks request s result =
      (bytes : List ℕ) × (request ≡ some bytes)
      × (length bytes ≡ command_size)
      × (process_commands env to_string sd (to_command bytes) s ≡ result)

  -- A command of a socket that is inited goes to the switch.
  process_commands-inited :
      (c : Command) (s : State)
      → find sd s.sockets ≡ some SocketState.inited
      → c.cmd ≢ 0
      → process_commands env to_string sd c s ≡ dispatch env to_string sd (proto c.cmd) c s
  unfolding process_commands
  process_commands-inited c s e ne =
      let other : (c.cmd == 0) ≡ false = ground arith in rw (process_commands, e, other) refl

  Asks-command :
      (cmd id : ℕ) (text : List ℕ) (s : State) (result : Option State)
      → find sd s.sockets ≡ some SocketState.inited
      → cmd ≢ 0
      → cmd < 2 ^ 64
      → id < 2 ^ 64
      → length text ≡ 128
      → dispatch env to_string sd (proto cmd) (record { cmd = cmd; id = id; text = text }) s
        ≡ result
      → Asks (some (command_bytes cmd id text)) s result
  unfolding command_bytes
  Asks-command cmd id text s result e ne a b long run = (
    command_bytes cmd id text,
    refl,
    ground arith,
    rw (to_command-command_bytes cmd id text a b)
        (process_commands-inited (record { cmd = cmd; id = id; text = text }) s e ne ∙ run),
  )

  dispatch-newrchan :
      (c : Command) (size n : ℕ) (prefix : List ℕ) (s : State)
      → c.text ≡ le_bytes 4 size ++ (prefix ++ replicate (suc n) 0)
      → NoZero prefix
      → dispatch env to_string sd Proto.newrchan c s
        ≡ new_r_chan env to_string sd prefix (size % 2 ^ 32) s
  unfolding dispatch drop
  dispatch-newrchan c size n prefix s e clean = rw (e) (
      rw (c_string-zeros prefix n clean) (
        ap (λ k. new_r_chan env to_string sd prefix k s)
          (number-le_bytes4 size (prefix ++ replicate (suc n) 0))))

  dispatch-newwchan :
      (c : Command) (size n : ℕ) (prefix : List ℕ) (s : State)
      → c.text ≡ le_bytes 4 size ++ (prefix ++ replicate (suc n) 0)
      → NoZero prefix
      → dispatch env to_string sd Proto.newwchan c s
        ≡ new_w_chan env to_string sd prefix (size % 2 ^ 32) s
  unfolding dispatch drop
  dispatch-newwchan c size n prefix s e clean = rw (e) (
      rw (c_string-zeros prefix n clean) (
        ap (λ k. new_w_chan env to_string sd prefix k s)
          (number-le_bytes4 size (prefix ++ replicate (suc n) 0))))

  dispatch-bindchan :
      (c : Command) (hash : ℕ) (s : State)
      → c.text ≡ le_bytes 8 hash ++ replicate 120 0
      → hash < 2 ^ 64
      → dispatch env to_string sd Proto.bindchan c s ≡ some (bind_chan env sd c.id hash s).1
  unfolding dispatch
  dispatch-bindchan c hash s e small =
      rw (e) (
        ap (λ k. some (bind_chan env sd c.id k s).1)
          (number-le_bytes8 hash (replicate 120 0) small))

  dispatch-closechan :
      (c : Command) (s : State)
      → dispatch env to_string sd Proto.closechan c s ≡ some (close_chan env sd c.id s)
  unfolding dispatch
  dispatch-closechan c s = refl

  -- A client that is inited gets what it asks for: the server takes the commands that newRChan,
  -- newWChan, bindChan and closeChan write for calls with the same arguments, but for the size of
  -- the memory, of which 32 bits are sent. The prefix has less than 124 bytes, none of them zero,
  -- and the numbers have 64 bits.
  pub process_commands-Asks :
      (prefix : List ℕ) (size id hash : ℕ) (s : State)
      → find sd s.sockets ≡ some SocketState.inited
      → NoZero prefix
      → length prefix < 124
      → id < 2 ^ 64
      → hash < 2 ^ 64
      → Asks (new_r_chan_bytes prefix size) s (new_r_chan env to_string sd prefix (size % 2 ^ 32) s)
        × Asks
            (new_w_chan_bytes prefix size)
            s
            (new_w_chan env to_string sd prefix (size % 2 ^ 32) s)
        × Asks (bind_chan_bytes id hash) s (some (bind_chan env sd id hash s).1)
        × Asks (close_chan_bytes id) s (some (close_chan env sd id s))
  unfolding new_r_chan_bytes new_w_chan_bytes bind_chan_bytes close_chan_bytes
  process_commands-Asks prefix size id hash s e clean short a b =
      let (n, fill, long) = fill_text-prefix size prefix short in
      let text = le_bytes 4 size ++ (prefix ++ replicate (suc n) 0) in
      let r =
        Asks-command 3 0 text s _ e (omega arith) (omega arith) (omega arith) long
          (dispatch-newrchan (command 3 0 text) size n prefix s refl clean) in
      let w =
        Asks-command 4 0 text s _ e (omega arith) (omega arith) (omega arith) long
          (dispatch-newwchan (command 4 0 text) size n prefix s refl clean) in
      let bound = le_bytes 8 hash ++ replicate 120 0 in
      (
        subst
            (λ o. Asks (command_of 3 0 o) s (new_r_chan env to_string sd prefix (size % 2 ^ 32) s))
            (sym fill) r,
        subst
            (λ o. Asks (command_of 4 0 o) s (new_w_chan env to_string sd prefix (size % 2 ^ 32) s))
            (sym fill) w,
        Asks-command 5 id bound s _ e (omega arith) (omega arith) a refl
            (dispatch-bindchan (command 5 id bound) hash s refl b),
        Asks-command 6 id (replicate 128 0) s _ e (omega arith) (omega arith) a refl
            (dispatch-closechan (command 6 id (replicate 128 0)) s),
      )

  -- The command of `init` lets a socket that was accepted in, and is answered by SS_ACK with the
  -- id 0, whatever state the socket was in; its 144 bytes are those that the client writes.
  pub process_commands-init_bytes :
      (s : State) (state : SocketState)
      → find sd s.sockets ≡ some state
      → Asks init_bytes s (
          some (
            write_data env sd
              (Answer.acked 0 [])
              (record s { sockets = assign sd SocketState.inited s.sockets })))
  unfolding init_bytes fill_text command_bytes process_commands to_command drop number is_keyword
  process_commands-init_bytes s state e = (
    command_bytes 0 0 (b'h' ∷ b'i' ∷ b'!' ∷ 0 ∷ replicate 124 0),
    refl,
    refl,
    rw (process_commands, e) refl,
  )
