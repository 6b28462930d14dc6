-- ===== src/Block/Store.antt =====
-- What BlockL4Wrapper::push stores in a block.
use mediaroom.Prelude.{
  ℕ, ◌+◌, ◌-◌, ◌*◌, ◌%◌, ◌^◌, ◌≤◌, ◌<◌, ◌≡◌, ◌⊎◌, refl, Bool, true, false, ◌&&◌, ◌||◌, none, some,
  List, ltb, ◌==◌, arith, length,
}
use mediaroom.Bytes.{Memory, bytes}
use mediaroom.Block.{
  Block, max_data_size, size_bytes, has_space, push_data, is_empty, Code, l4_push, new_block,
}

-- A new block takes no data that fill less than half of it: it is closed instead, and keeps
-- nothing.
pub l4_push-new_block :
    (now seq type : ℕ) (memory : Memory) (xs : List ℕ)
    → 2 * length xs ≤ max_data_size
    → (b : Block) × (l4_push now xs seq (new_block type memory) ≡ some (Code.no_space, b))
      × (b.is_complete ≡ true)
      × (b.data_len ≡ 0)
      × (l4_push now xs seq b ≡ some (Code.block_closed, b))
unfolding l4_push new_block has_space is_empty
l4_push-new_block now seq type memory xs h = (
  record (new_block type memory) { is_complete = true; update_timestamp = now },
  ground arith,
  refl,
  refl,
  refl,
)

-- What is stored of a packet: the block has its length and its data behind what it had, and its
-- sequence number.
pub record Stored (xs : List ℕ) (seq : ℕ) (b b' : Block) : Type 0 where
  pub end : b'.data_len ≡ b.data_len + 4 + length xs
  pub fits : b'.data_len ≤ max_data_size
  pub before : bytes b'.contents 0 b.data_len ≡ bytes b.contents 0 b.data_len
  pub size : bytes b'.contents b.data_len 4 ≡ size_bytes (length xs)
  pub message : bytes b'.contents (b.data_len + 4) (length xs) ≡ xs
  pub last : b'.block_size ≡ seq
  pub open_still : b'.is_complete ≡ b.is_complete

-- The block takes packets, and the packet and its size once more fill more than `data`, as
-- hasSpace asks.
pub record Takes (xs : List ℕ) (b : Block) : Type 0 where
  pub unclosed : b.is_complete ≡ false
  pub space : max_data_size < b.data_len + 2 * length xs

-- The sequence number is behind the one that follows the last, or starts again at 0 after the
-- largest, or the block has nothing yet.
abbrev pub Follows : ℕ → Block → Type 0
Follows seq b =
    (b.data_len ≡ 0)
    ⊎ ((b.block_size + 1) % 2 ^ 32 < seq)
    ⊎ ((seq ≡ 0) × (b.block_size ≡ 2 ^ 32 - 1))

-- The four answers of `push`, each with its condition, of which no two hold at once.
abbrev pub Answered : ℕ → ℕ → List ℕ → Block → Type 0
Answered now seq xs b =
    ((b.is_complete ≡ true) × (l4_push now xs seq b ≡ some (Code.block_closed, b)))
    ⊎ ((b.is_complete ≡ false)
        × (b.data_len + 2 * length xs ≤ max_data_size)
        × (l4_push now xs seq b
            ≡ some (Code.no_space, record b { is_complete = true; update_timestamp = now })))
    ⊎ (Takes xs b × (¬ Follows seq b) × (l4_push now xs seq b ≡ some (Code.push_error, b)))
    ⊎ (Takes xs b
        × Follows seq b
        × (b' : Block) × (l4_push now xs seq b ≡ some (Code.ok, b'))
        × Stored xs seq b b')

follows_test : ℕ → Block → Bool
follows_test seq b =
    is_empty b || ltb ((b.block_size + 1) % 2 ^ 32) seq || (seq == 0 && b.block_size == 2 ^ 32 - 1)

-- A packet of at least four bytes with a later number that does not fit behind the data of an
-- open block is written there all the same, and behind the end of `data`.
pub l4_push_overflow :
    (now seq : ℕ) (xs : List ℕ) (b : Block)
    → b.is_complete ≡ false
    → 4 ≤ length xs
    → max_data_size < b.data_len + 4 + length xs
    → (b.block_size + 1) % 2 ^ 32 < seq
    → l4_push now xs seq b ≡ none
unfolding l4_push has_space push_data
l4_push_overflow now seq xs b more size over later = ground arith
