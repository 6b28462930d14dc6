-- ===== src/Server.antt =====
-- lib/libshared/SharedServer.h and SharedServer.cpp: the server that hands shared buffers to its
-- clients over control sockets. Sockets, shared memory and the clock of the system are not
-- modelled: an `Env` says whether each write is delivered and each buffer is created.
pub mod Commands
pub mod Loop
pub mod Start
use mediaroom.Prelude.{
  ℕ, zero, suc, ◌+◌, ◌*◌, ◌%◌, ◌^◌, Bool, true, false, not, ◌&&◌, Option, none, some, List, [], ◌∷◌,
  ◌++◌, ltb, ◌==◌, if◌then◌else◌, length,
}

-- ss_direction
pub data Direction : Type 0 where
  undefined read write : Direction

-- SharedCtx: the channel with its name; its buffer is created by the constructor.
pub record Channel : Type 0 where
  pub name : List ℕ
  pub id : ℕ
  pub dir : Direction

-- SocketCtx::ss_state
pub data SocketState : Type 0 where
  disconnected connected inited : SocketState

-- ss_proto
pub data Proto : Type 0 where
  init ack nack newrchan newwchan bindchan closechan : Proto
  unknown : ℕ → Proto

-- ss_cmd: the number `cmd`, and the 128 bytes of `text`.
pub record Command : Type 0 where
  pub cmd : ℕ
  pub id : ℕ
  pub text : List ℕ

abbrev pub proto : ℕ → Proto
proto n =
    if n == 0
    then Proto.init
    else if n == 1
    then Proto.ack
    else if n == 2
    then Proto.nack
    else if n == 3
    then Proto.newrchan
    else if n == 4
    then Proto.newwchan
    else if n == 5
    then Proto.bindchan
    else if n == 6
    then Proto.closechan
    else Proto.unknown n

-- What the server writes: SS_ACK with an id and a text, or SS_NACK with an id.
pub data Answer : Type 0 where
  acked : ℕ → List ℕ → Answer
  nacked : ℕ → Answer

-- The maps of SharedServer. `channels` is `_ctx_map_sock`, in the order of insertion; `hashes` is
-- `_ctx_map_hash`, and `bound` is `_shmid_hash_map`. `partial` is `_partial_data`: the bytes of a
-- command that have come. `sent` is what was written so far.
pub record State : Type 0 where
  pub channels : List (ℕ × Channel)
  pub bound : List (ℕ × List ℕ)
  pub hashes : List (ℕ × Channel)
  pub sockets : List (ℕ × SocketState)
  pub partial : List (ℕ × List ℕ)
  pub main_set : ℕ → Bool
  pub max_sd : ℕ
  pub next_id : ℕ
  pub work : Bool
  pub sent : List (ℕ × Answer)

pub record Env : Type 0 where
  pub delivers : ℕ → ℕ → Bool
  pub creates : List ℕ → ℕ → Bool

-- A map with distinct keys as an association list.
module _ {ℓ} {A : Type ℓ} where
  unfoldable pub find : ℕ → List (ℕ × A) → Option A
  find k [] = none
  find k ((j, a) ∷ m) = if j == k then some a else find k m

  -- insert and emplace: an entry that is there stays.
  pub insert : ℕ → A → List (ℕ × A) → List (ℕ × A)
  insert k a [] = (k, a) ∷ []
  insert k a ((j, b) ∷ m) = if j == k then (j, b) ∷ m else (j, b) ∷ insert k a m

  -- it->second = a, where the entry is there
  pub assign : ℕ → A → List (ℕ × A) → List (ℕ × A)
  assign k a [] = []
  assign k a ((j, b) ∷ m) = if j == k then (j, a) ∷ m else (j, b) ∷ assign k a m

  pub erase : ℕ → List (ℕ × A) → List (ℕ × A)
  erase k [] = []
  erase k ((j, b) ∷ m) = if j == k then m else (j, b) ∷ erase k m

-- The first channel of the socket with the id: the loops over equal_range.
pub find_channel : ℕ → ℕ → List (ℕ × Channel) → Option Channel
find_channel sd id [] = none
find_channel sd id ((s, c) ∷ cs) =
    if (s == sd) && (c.id == id) then some c else find_channel sd id cs

pub erase_channel : ℕ → ℕ → List (ℕ × Channel) → List (ℕ × Channel)
erase_channel sd id [] = []
erase_channel sd id ((s, c) ∷ cs) =
    if (s == sd) && (c.id == id) then cs else (s, c) ∷ erase_channel sd id cs

-- equal_range is empty
pub no_channels : ℕ → List (ℕ × Channel) → Bool
no_channels sd [] = true
no_channels sd ((s, c) ∷ cs) = not (s == sd) && no_channels sd cs

abbrev pub fd_put : Bool → ℕ → (ℕ → Bool) → ℕ → Bool
fd_put b sd set i = if sd == i then b else set i

-- while (!FD_ISSET(_max_sd, &_main_set)) _max_sd--;
pub lower_max : (ℕ → Bool) → ℕ → ℕ
lower_max set zero = zero
lower_max set (suc n) = elim (set (suc n)) [ true ↦ suc n | false ↦ lower_max set n ]

pub close_connection : ℕ → State → State
unfolding erase lower_max
close_connection sd s =
    let set = fd_put false sd s.main_set in
    record s {
      sockets = erase sd s.sockets;
      partial = erase sd s.partial;
      main_set = set;
      max_sd = if sd == s.max_sd then lower_max set s.max_sd else s.max_sd;
    }

-- A write that fails closes the connection.
pub write_data : Env → ℕ → Answer → State → State
unfolding close_connection
write_data env sd answer s =
    let told = record s { sent = s.sent ++ (sd, answer) ∷ [] } in
    if env.delivers (length s.sent) sd then told else close_connection sd s

pub erase_all : List ℕ → List (ℕ × Channel) → List (ℕ × Channel)
unfolding erase
erase_all [] m = m
erase_all (h ∷ hs) m = erase_all hs (erase h m)

-- getShmemIndex
abbrev pub take_id : State → State
take_id s = record s { next_id = (s.next_id + 1) % 2 ^ 64 }

-- The body of the loop where a channel of that id is found, and the answer where none is.
pub bind_found : Env → ℕ → ℕ → ℕ → Option Channel → State → Bool × State
unfolding find insert write_data
bind_found env sd id hash none s = (false, write_data env sd (nacked 0) s)
bind_found env sd id hash (some c) s = elim (find hash s.hashes) [
  | none ↦ (
    true,
    write_data env sd (acked id [])
        (record s { hashes = insert hash c s.hashes; bound = insert id (hash ∷ []) s.bound }),
  )
  | some _ ↦ (true, write_data env sd (nacked id) s)
]

pub bind_chan : Env → ℕ → ℕ → ℕ → State → Bool × State
unfolding find_channel no_channels write_data bind_found
bind_chan env sd id hash s =
    bind_found env sd id hash (find_channel sd id s.channels)
      (if no_channels sd s.channels then write_data env sd (nacked 0) s else s)

pub close_chan : Env → ℕ → ℕ → State → State
unfolding find erase erase_channel erase_all write_data
close_chan env sd id s =
    let hashes : List (ℕ × Channel) = elim (find id s.bound) [
      | none ↦ s.hashes
      | some hs ↦ erase_all hs s.hashes
    ] in
    write_data env sd (acked id []) (record s {
      channels = erase_channel sd id s.channels;
      hashes = hashes;
      bound = erase id s.bound;
    })

-- The body of newRChan and newWChan. `ack.text` has room for 127 bytes and their end: a longer
-- name is written over the stack, and the result is none.
new_chan : Env → ℕ → Direction → List ℕ → ℕ → State → Option State
unfolding write_data
new_chan env sd dir name shm_size s =
    let id = s.next_id in
    let s₁ = take_id s in
    let size = if shm_size == 0 then 1024 * 1024 * 100 else shm_size in
    if env.creates name size
    then (if ltb (length name) 128
        then some (
            write_data env sd (acked id name) (record s₁ {
              channels = s₁.channels ++ (sd, record { name = name; id = id; dir = dir }) ∷ [];
            }))
        else none)
    else some (write_data env sd (nacked 0) s₁)

-- std::to_string is a parameter: the digits of a number.
pub new_r_chan : Env → (ℕ → List ℕ) → ℕ → List ℕ → ℕ → State → Option State
unfolding new_chan
new_r_chan env to_string sd prefix shm_size s =
    new_chan env sd Direction.write
      (b's' ∷ b'h' ∷ b'm' ∷ b'_' ∷ (prefix ++ b'_' ∷ b'r' ∷ b'_' ∷ to_string s.next_id)) shm_size s

pub new_w_chan : Env → (ℕ → List ℕ) → ℕ → List ℕ → ℕ → State → Option State
unfolding new_chan
new_w_chan env to_string sd prefix shm_size s =
    new_chan env sd Direction.read
      (b'/'
        ∷ b'd'
        ∷ b'e'
        ∷ b'v'
        ∷ b'/'
        ∷ b's'
        ∷ b'h'
        ∷ b'm'
        ∷ b'/'
        ∷ (prefix ++ b'_' ∷ b'w' ∷ b'_' ∷ to_string s.next_id))
      shm_size s
