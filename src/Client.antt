-- ===== src/Client.antt =====
-- lib/libshared/SharedClient.h and SharedClient.cpp: the commands that a client writes, and
-- SharedSocket::write. What send and connect return is an argument.
pub mod Requests
pub mod Stream
mod Tests
pub mod Writes
use mediaroom.Prelude.{
  ℕ, zero, suc, ◌+◌, ◌-◌, ◌*◌, ◌/◌, ◌%◌, ◌^◌, ◌≤◌, ◌<◌, ◌≡◌, ◌≢◌, refl, sym, ap, ◌∙◌, ◌↔◌, ◌⊎◌, inl,
  inr, Bool, true, false, not, ◌&&◌, ◌||◌, Option, none, some, List, [], ◌∷◌, ◌++◌, map, arith, ltb,
  leb, ◌==◌, if◌then◌else◌, ltb→lt, lt→ltb, leb→le, ==_iff, Bool-cases, Option-cases, length,
  get_elem?, take, replicate, length-append, All, Distinct, All-left, All-right,
}
use mediaroom.Server.{Command}
use mediaroom.Server.Loop.{Received, command_size, to_command, read}

-- What send returns: an error, or how many bytes it has taken.
pub data Sent : Type 0 where
  failed : Sent
  took : ℕ → Sent

-- What SharedSocket::write returns: SOCKET_ERROR or a number of bytes. Behind the results that
-- are given, send blocks.
pub data Written : Type 0 where
  error : Written
  wrote : ℕ → Written
  blocks : Written

abbrev pub drop_sent : ℕ → List ℕ → List ℕ
drop_sent zero xs = xs
drop_sent (suc n) [] = []
drop_sent (suc n) (x ∷ xs) = drop_sent n xs

-- The loop of SharedSocket::write over the bytes that are left, with those that were taken. A
-- number of bytes that is more than was given to send is passed over.
pub write_loop : List ℕ → List Sent → Written × List ℕ
write_loop xs [] = (if length xs == 0 then error else blocks, [])
write_loop xs (failed ∷ rs) = (error, [])
write_loop xs (took n ∷ rs) =
    let (result, later) = write_loop (drop_sent n xs) rs in
    let (passed, same) = write_loop xs rs in
    if length xs == 0
    then (error, [])
    else if n == length xs
    then (wrote n, xs)
    else if ltb n (length xs)
    then (result, take n xs ++ later)
    else (passed, same)

-- SharedSocket::write: none is the descriptor SOCKET_ERROR.
pub write : Option ℕ → List ℕ → List Sent → Written × List ℕ
unfolding write_loop
write none xs rs = (error, [])
write (some sock) xs rs = write_loop xs rs

-- The result of SharedSocket::write as the bool that the calls of SharedClient return; none where
-- the call does not return.
pub to_bool : Written → Option Bool
to_bool error = some true
to_bool (wrote n) = some (not (n == 0))
to_bool blocks = none

-- The `n` bytes of a little-endian number.
abbrev pub le_bytes : ℕ → ℕ → List ℕ
le_bytes zero v = []
le_bytes (suc n) v = v % 256 ∷ le_bytes n (v / 256)

-- A copy to the start of `text`, which was zero: none where it is longer.
pub fill_text : List ℕ → Option (List ℕ)
fill_text xs = if leb (length xs) 128 then some (xs ++ replicate (128 - length xs) 0) else none

-- The bytes of an ss_cmd.
pub command_bytes : ℕ → ℕ → List ℕ → List ℕ
command_bytes cmd id text = le_bytes 8 cmd ++ (le_bytes 8 id ++ text)

abbrev pub command_of : ℕ → ℕ → Option (List ℕ) → Option (List ℕ)
command_of cmd id none = none
command_of cmd id (some text) = some (command_bytes cmd id text)

-- What init, newRChan, newWChan, bindChan and closeChan write.
pub init_bytes : Option (List ℕ)
unfolding fill_text command_bytes
init_bytes = command_of 0 0 (fill_text (b'h' ∷ b'i' ∷ b'!' ∷ 0 ∷ []))

pub new_r_chan_bytes : List ℕ → ℕ → Option (List ℕ)
unfolding fill_text command_bytes
new_r_chan_bytes prefix shm_size = command_of 3 0 (fill_text (le_bytes 4 shm_size ++ prefix))

pub new_w_chan_bytes : List ℕ → ℕ → Option (List ℕ)
unfolding fill_text command_bytes
new_w_chan_bytes prefix shm_size = command_of 4 0 (fill_text (le_bytes 4 shm_size ++ prefix))

pub bind_chan_bytes : ℕ → ℕ → Option (List ℕ)
unfolding fill_text command_bytes
bind_chan_bytes id hash = command_of 5 id (fill_text (le_bytes 8 hash))

pub close_chan_bytes : ℕ → Option (List ℕ)
unfolding fill_text command_bytes
close_chan_bytes id = command_of 6 id (fill_text [])

-- waitAck: the command that was read, and whether the socket stays open. The socket of a client
-- blocks, so that a read without a result does not return.
pub wait_ack : List Received → Option Command
wait_ack rs = elim (read command_size [] rs) [
  | none ↦ none
  | some xs ↦ if length xs == command_size then some (to_command xs) else none
]
