-- ===== src/Server/Commands.antt =====
-- SharedServer::processCommands: what a client may ask for, and when.
pub mod Access
pub mod Bindings
pub mod Ids
mod Tests
use mediaroom.Prelude.{
  ℕ, zero, suc, ◌+◌, ◌*◌, ◌%◌, ◌^◌, Bool, true, false, ◌&&◌, Option, none, some, List, [], ◌∷◌,
  ◌++◌, ◌==◌, if◌then◌else◌, length, get_elem?,
}
use mediaroom.Server.{
  State, Env, Command, Proto, SocketState, Answer, proto, find, assign, close_connection,
  write_data, bind_chan, close_chan, new_r_chan, new_w_chan,
}

-- A C string in `text`; none if no end is met in its 128 bytes, where the code reads on.
unfoldable pub c_string : List ℕ → Option (List ℕ)
c_string [] = none
c_string (x ∷ xs) =
    let rest = c_string xs in
    elim (x == 0) [ true ↦ some [] | false ↦ elim rest [ none ↦ none | some r ↦ some (x ∷ r) ] ]

-- A little-endian number of the first `n` bytes: *(uint32_t*)text, or memcpy to a hash_t.
unfoldable pub number : ℕ → List ℕ → ℕ
number zero xs = 0
number (suc n) [] = 0
number (suc n) (x ∷ xs) = x + 256 * number n xs

unfoldable pub drop : ℕ → List ℕ → List ℕ
drop zero xs = xs
drop (suc n) [] = []
drop (suc n) (x ∷ xs) = drop n xs

-- strcmp(text, "hi!") == 0
unfoldable pub is_keyword : List ℕ → Bool
is_keyword (a ∷ b ∷ c ∷ d ∷ _) = (a == b'h') && (b == b'i') && (c == b'!') && (d == 0)
is_keyword _ = false

abbrev with_prefix : Option (List ℕ) → (List ℕ → Option State) → Option State
with_prefix none f = none
with_prefix (some prefix) f = f prefix

module _ (env : Env) (to_string : ℕ → List ℕ) (sd : ℕ) where
  -- The switch.
  unfoldable pub dispatch : Proto → Command → State → Option State
  unfolding c_string number drop
  dispatch Proto.init c s = some s
  dispatch Proto.newrchan c s =
      with_prefix (c_string (drop 4 c.text))
        (λ prefix. new_r_chan env to_string sd prefix (number 4 c.text) s)
  dispatch Proto.newwchan c s =
      with_prefix (c_string (drop 4 c.text))
        (λ prefix. new_w_chan env to_string sd prefix (number 4 c.text) s)
  dispatch Proto.bindchan c s = some (bind_chan env sd c.id (number 8 c.text) s).1
  dispatch Proto.closechan c s = some (close_chan env sd c.id s)
  dispatch Proto.ack c s = some (close_connection sd s)
  dispatch Proto.nack c s = some (close_connection sd s)
  dispatch (Proto.unknown n) c s = some (close_connection sd s)

  -- A socket that was never accepted has no entry to go to: none.
  unfoldable pub process_commands : Command → State → Option State
  unfolding dispatch is_keyword
  process_commands c s =
      let keyed = record s { sockets = assign sd SocketState.inited s.sockets } in
      elim (find sd s.sockets) [
        | none ↦
            if (c.cmd == 0) && is_keyword c.text
            then none
            else if c.cmd == 0
            then some (close_connection sd s)
            else none
        | some state ↦
            if c.cmd == 0
            then some (
                if is_keyword c.text
                then write_data env sd (Answer.acked 0 []) keyed
                else close_connection sd s)
            else elim state [ SocketState.inited ↦ dispatch (proto c.cmd) c s | _ ↦ some s ]
      ]
