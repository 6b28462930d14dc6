-- ===== src/Block.antt =====
-- lib/libstack/Block.h: a block of messages of one flow, and BlockL4Wrapper, which adds the data
-- of a TCP packet to it. The wrapper's header lies over the first eight bytes of the block, so
-- its two numbers are the fields `type` and `block_size`. The time comes from a parameter.
pub mod Store
mod Tests
use mediaroom.Prelude.{
  ℕ, zero, suc, ◌+◌, ◌-◌, ◌*◌, ◌/◌, ◌%◌, ◌^◌, Bool, true, false, not, ◌&&◌, ◌||◌, Option, none,
  some, List, [], ◌∷◌, ltb, leb, ◌==◌, if◌then◌else◌, length,
}
use mediaroom.Bytes.{Memory, memcpy}

-- `contents` is `data`, of MAX_DATA_SIZE bytes.
pub record Block : Type 0 where
  pub type : ℕ
  pub block_size : ℕ
  pub is_complete : Bool
  pub update_timestamp : ℕ
  pub contents : Memory
  pub data_len : ℕ

abbrev pub max_data_size : ℕ
max_data_size = 256 * 32

abbrev pub expiration : ℕ
expiration = 100

-- The constructor: the data are left as the memory was.
pub new_block : ℕ → Memory → Block
new_block type memory = record {
  type = type;
  block_size = 0;
  is_complete = false;
  update_timestamp = 0;
  contents = memory;
  data_len = 0;
}

pub has_space : ℕ → Block → Bool
has_space size b = ltb max_data_size (b.data_len + size + size)

pub expired : ℕ → Block → Bool
expired now b =
    if b.update_timestamp == 0
    then false
    else ltb expiration ((now + 2 ^ 64 - b.update_timestamp) % 2 ^ 64)

-- The four bytes of a uint32_t.
abbrev pub size_bytes : ℕ → List ℕ
size_bytes n = n % 256 ∷ n / 256 % 256 ∷ n / 2 ^ 16 % 256 ∷ n / 2 ^ 24 % 256 ∷ []

-- Block::push; none where it writes behind `data`.
pub push_data : ℕ → List ℕ → Block → Option Block
push_data now new_data b =
    let size = length new_data in
    let end = b.data_len + 4 + size in
    if leb end max_data_size
    then some (record b {
      contents = memcpy (memcpy b.contents b.data_len (size_bytes size)) (b.data_len + 4) new_data;
      data_len = end;
      update_timestamp = now;
    })
    else none

pub reset : Block → Block
reset b = record b { data_len = 0; is_complete = false; update_timestamp = 0 }

pub is_empty : Block → Bool
is_empty b = b.data_len == 0

pub data Code : Type 0 where
  ok no_block no_space inconsistent_seq block_closed push_error : Code

-- The constructor of BlockL4Wrapper on a block that is there.
pub wrap : ℕ → Bool → ℕ → Block → Block
wrap curr_seq create isn b = if create then record b { type = isn; block_size = 0 } else b

abbrev coded : ℕ → Option Block → Option (Code × Block)
coded seq none = none
coded seq (some b) = some (Code.ok, record b { block_size = seq })

-- BlockL4Wrapper::push, on uint32_t numbers.
pub l4_push : ℕ → List ℕ → ℕ → Block → Option (Code × Block)
l4_push now new_data new_seq b =
    let last = b.block_size in
    let pushed = coded new_seq (push_data now new_data b) in
    if b.is_complete
    then some (Code.block_closed, b)
    else if not (has_space (length new_data) b)
    then some (Code.no_space, record b { is_complete = true; update_timestamp = now })
    else if is_empty b || ltb ((last + 1) % 2 ^ 32) new_seq || (new_seq == 0 && last == 2 ^ 32 - 1)
    then pushed
    else some (Code.push_error, b)
