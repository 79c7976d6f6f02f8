-- ===== src/Arena.antt =====
-- src/memory/arena.c and src/util/align.h: the bump allocator that the compiler takes its memory from.
--
-- The chain of blocks is split at the current block: the blocks before it, nearest first, and those
-- after it. A block is named by a number that stands for its memory; `malloc` gives a number that no
-- block had, and does not fail, as the source aborts where it does. Poisoning freed bytes changes no
-- field of the arena.
pub mod Alloc
pub mod Given
pub mod Grown
pub mod Rewind
mod Tests
use gab.Prelude.{
  ℕ, zero, suc, ◌+◌, ◌-◌, ◌*◌, ◌/◌, ◌%◌, ◌^◌, Bool, true, false, not, ◌&&◌, Option, none, some,
  List, [], ◌∷◌, ◌==◌, leb, ltb, if◌then◌else◌,
}

pub record ArenaBlock : Type 0 where
  pub memory : ℕ
  pub capacity : ℕ
  pub offset : ℕ
  pub dedicated : Bool

pub record Arena : Type 0 where
  pub passed : List ArenaBlock
  pub current : ArenaBlock
  pub rest : List ArenaBlock
  pub block_size : ℕ
  pub fresh : ℕ

pub record Pointer : Type 0 where
  pub block : ℕ
  pub at : ℕ

-- A `size_t`, of 64 bits.
abbrev pub as_size : ℕ → ℕ
as_size n = n % 2 ^ 64

-- With a power of two, masking the low bits off is rounding down.
abbrev pub align_up : ℕ → ℕ → ℕ
align_up offset alignment = as_size (offset + (alignment - 1)) / alignment * alignment

abbrev pub arena_alignment : ℕ
arena_alignment = 8

abbrev pub create_block : ℕ → ℕ → ArenaBlock
create_block memory size = record {
  memory = memory;
  capacity = size;
  offset = 0;
  dedicated = false;
}

-- `arena_create`, where `malloc` gives the number 0.
unfoldable pub arena_create : ℕ → Arena
arena_create block_size = record {
  passed = [];
  current = create_block 0 block_size;
  rest = [];
  block_size = block_size;
  fresh = 1;
}

abbrev pub keep_block : ArenaBlock → Option (ℕ × List ArenaBlock) → Option (ℕ × List ArenaBlock)
keep_block b none = none
keep_block b (some (memory, bs)) = some (memory, b ∷ bs)

-- The loop of `arena_alloc_oversized`, with the block it takes and the chain after that.
unfoldable pub reuse_dedicated : List ArenaBlock → ℕ → Option (ℕ × List ArenaBlock)
reuse_dedicated [] size = none
reuse_dedicated (b ∷ bs) size =
    let later = reuse_dedicated bs size in
    if b.dedicated && (b.offset == 0 && leb size b.capacity)
    then some (b.memory, record b { offset = size } ∷ bs)
    else keep_block b later

-- The block that was found, or else a new one after the current block.
abbrev pub oversized_from : Arena → ℕ → Option (ℕ × List ArenaBlock) → Pointer × Arena
oversized_from arena size (some (memory, rest)) =
    (record { block = memory; at = 0 }, record arena { rest = rest })
oversized_from arena size none = (
  record { block = arena.fresh; at = 0 },
  record arena {
    rest =
        record { memory = arena.fresh; capacity = size; offset = size; dedicated = true }
        ∷ arena.rest;
    fresh = suc arena.fresh;
  },
)

-- `arena_alloc_oversized`.
unfoldable pub alloc_oversized : Arena → ℕ → Pointer × Arena
unfolding reuse_dedicated
alloc_oversized arena size = oversized_from arena size (reuse_dedicated arena.rest size)

-- The loop of `arena_grow`: the blocks it passed, the one it takes and those after it.
unfoldable pub reuse_block :
    List ArenaBlock → List ArenaBlock → ℕ → Option (List ArenaBlock × ArenaBlock × List ArenaBlock)
reuse_block passed [] size = none
reuse_block passed (b ∷ bs) size =
    let later = reuse_block (b ∷ passed) bs size in
    if not b.dedicated && leb size b.capacity then some (passed, b, bs) else later

abbrev pub grown_from : Arena → Option (List ArenaBlock × ArenaBlock × List ArenaBlock) → Arena
grown_from arena (some (passed, b, rest)) = record arena {
  passed = passed;
  current = b;
  rest = rest;
}
grown_from arena none = record arena {
  passed = arena.current ∷ arena.passed;
  current = create_block arena.fresh arena.block_size;
  fresh = suc arena.fresh;
}

-- `arena_grow`.
unfoldable pub arena_grow : Arena → ℕ → Arena
unfolding reuse_block
arena_grow arena size =
    grown_from arena (reuse_block (arena.current ∷ arena.passed) arena.rest size)

-- The end of `arena_alloc`, on the current block.
unfoldable pub bump : Arena → ℕ → Pointer × Arena
bump arena size =
    let offset = align_up arena.current.offset arena_alignment in
    (
      record { block = arena.current.memory; at = offset },
      record arena { current = record arena.current { offset = as_size (offset + size) } },
    )

-- `arena_alloc`.
unfoldable pub arena_alloc : Arena → ℕ → Pointer × Arena
unfolding alloc_oversized arena_grow bump
arena_alloc arena size =
    if ltb arena.current.capacity (as_size (align_up arena.current.offset arena_alignment + size))
    then if ltb arena.block_size size
      then alloc_oversized arena size
      else bump (arena_grow arena size) size
    else bump arena size

unfoldable pub reset_blocks : List ArenaBlock → List ArenaBlock
reset_blocks [] = []
reset_blocks (b ∷ bs) = record b { offset = 0 } ∷ reset_blocks bs

-- The chain from its first block on, with the blocks before the current one given back.
unfoldable pub unwind :
    List ArenaBlock → ArenaBlock → List ArenaBlock → ArenaBlock × List ArenaBlock
unwind [] b rest = (b, rest)
unwind (p ∷ passed) b rest = unwind passed p (b ∷ rest)

-- `arena_reset`.
unfoldable pub arena_reset : Arena → Arena
unfolding reset_blocks unwind
arena_reset arena =
    let (first, rest) = unwind arena.passed arena.current arena.rest in
    record arena { passed = []; current = record first { offset = 0 }; rest = reset_blocks rest }
