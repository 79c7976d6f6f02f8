-- ===== src/Arena/Alloc.antt =====
-- What `arena_alloc` gives lies in one block, aligned, past what the block held, and the other blocks
-- stay as they were.
use gab.Prelude.{
  ℕ, ◌+◌, ◌%◌, ◌^◌, ◌≤◌, ◌<◌, ◌≡◌, refl, inl, inr, Bool, true, false, not, ◌&&◌, Option, none, some,
  List, [], ◌∷◌, arith, Bool-cases, sym, ◌∙◌, subst, leb, ltb, if◌then◌else◌,
}
use gab.Arena.{
  ArenaBlock, Arena, Pointer, as_size, align_up, arena_alignment, grown_from, reuse_dedicated,
  alloc_oversized, reuse_block, arena_grow, bump, arena_alloc,
}
use gab.Arena.Given.{
  spine, chain, Takes, IsNew, OneTakes, taken, added, further, AllReset, IsGiven, FitsSize,
  spine-OneTakes, oversized-IsGiven, reuse-OnReuse,
}

not_above : (m n : ℕ) → ltb m n ≡ false → n ≤ m
not_above m n h = ground arith

small_size : (n : ℕ) → n < 2 ^ 64 → as_size n ≡ n
small_size n h = omega (arith, h)

past_offset : (n : ℕ) → n + 7 < 2 ^ 64 → n ≤ align_up n arena_alignment
past_offset n h = omega (arith, h)

aligned : (n : ℕ) → align_up n arena_alignment % arena_alignment ≡ 0
aligned n = omega arith

-- In the current block.
bump-Takes :
    (arena : Arena) (size : ℕ)
    → arena.current.offset + size + 40 < 2 ^ 64
    → as_size (align_up arena.current.offset arena_alignment + size) ≤ arena.current.capacity
    → Takes (bump arena size).0 size arena.current (bump arena size).1.current
unfolding bump
bump-Takes arena size room fits = record {
  here = refl;
  free = past_offset arena.current.offset (omega (arith, room));
  top = small_size (align_up arena.current.offset arena_alignment + size) (omega (arith, room));
  inside = fits;
  same_memory = refl;
  same_capacity = refl;
  same_use = refl;
}

bump-aligned : (arena : Arena) (size : ℕ) → (bump arena size).0.at % arena_alignment ≡ 0
unfolding bump
bump-aligned arena size = aligned arena.current.offset

bump-OneTakes :
    (fresh : ℕ) (arena : Arena) (size : ℕ)
    → Takes (bump arena size).0 size arena.current (bump arena size).1.current
    → OneTakes fresh (bump arena size).0 size (chain arena) (chain (bump arena size).1)
unfolding bump
bump-OneTakes fresh arena size h = spine-OneTakes arena.passed _ _ (taken h)

-- The blocks that the loop of `arena_grow` passes, the block it takes and those after it are the blocks
-- it went over, and the block it takes holds nothing and has room.
OnBlock : List ArenaBlock → ℕ → Option (List ArenaBlock × ArenaBlock × List ArenaBlock) → Type 0
OnBlock blocks size none = Unit
OnBlock blocks size (some (passed, b, bs)) =
    (b.offset ≡ 0) × (size ≤ b.capacity) × (spine passed (b ∷ bs) ≡ blocks)

takes_test :
    (d : Bool) (size capacity : ℕ)
    → (not d && leb size capacity) ≡ true
    → (d ≡ false) × (size ≤ capacity)
takes_test d size capacity h = ground arith

reuse-OnBlock :
    (passed bs : List ArenaBlock) (size : ℕ)
    → AllReset bs
    → OnBlock (spine passed bs) size (reuse_block passed bs size)
unfolding reuse_block OnBlock
reuse-OnBlock passed [] size h = tt
reuse-OnBlock passed (b ∷ bs) size h = elim (Bool-cases (not b.dedicated && leb size b.capacity)) [
  | inl t ↦
      let (plain_block, fits) = takes_test b.dedicated size b.capacity t in
      rw t (
        (
          elim h.0 [ inl d ↦ absurd (cc (sym d ∙ plain_block)) | inr zero_offset ↦ zero_offset ],
          fits,
          refl,
        ))
  | inr nt ↦ rw nt (reuse-OnBlock (b ∷ passed) bs size h.1)
]

-- In a block that holds nothing.
empty-Takes :
    (arena : Arena) (size : ℕ)
    → arena.current.offset ≡ 0
    → size ≤ arena.current.capacity
    → size + 40 < 2 ^ 64
    → Takes (bump arena size).0 size arena.current (bump arena size).1.current
empty-Takes arena size start fits room =
    bump-Takes arena size (omega (arith, start, room)) (omega (arith, start, fits, room))

bump-IsNew :
    (arena : Arena) (size : ℕ)
    → size ≤ arena.block_size
    → size + 40 < 2 ^ 64
    → IsNew arena.fresh
        (bump (grown_from arena none) size).0
        size
        (bump (grown_from arena none) size).1.current
unfolding bump
bump-IsNew arena size fits room = record {
  new_memory = refl;
  here = refl;
  bottom = refl;
  top = omega (arith, room);
  inside = omega (arith, fits, room);
}

new_block :
    (arena : Arena) (size : ℕ)
    → size ≤ arena.block_size
    → size + 40 < 2 ^ 64
    → IsGiven arena size (bump (grown_from arena none) size)
unfolding bump
new_block arena size fits room = (
  omega arith,
  spine-OneTakes arena.passed _ _ (further (added (bump-IsNew arena size fits room))),
)

grown-IsGiven :
    (arena : Arena) (size : ℕ) (o : Option (List ArenaBlock × ArenaBlock × List ArenaBlock))
    → size ≤ arena.block_size
    → size + 40 < 2 ^ 64
    → OnBlock (chain arena) size o
    → IsGiven arena size (bump (grown_from arena o) size)
unfolding OnBlock
grown-IsGiven arena size none small room h = new_block arena size small room
grown-IsGiven arena size (some (passed, b, bs)) small room (start, fits, same) =
    let grown = grown_from arena (some (passed, b, bs)) in
    (
      bump-aligned grown size,
      subst
          (λ (blocks : List ArenaBlock).
            OneTakes arena.fresh (bump grown size).0 size blocks (chain (bump grown size).1))
          same (bump-OneTakes arena.fresh grown size (empty-Takes grown size start fits room)),
    )

choose :
    (arena : Arena) (size : ℕ) (full large : Bool) (oversized grown bumped : Pointer × Arena)
    → IsGiven arena size oversized
    → (large ≡ false → IsGiven arena size grown)
    → (full ≡ false → IsGiven arena size bumped)
    → IsGiven arena size (if full then if large then oversized else grown else bumped)
choose arena size true true oversized grown bumped h g f = h
choose arena size true false oversized grown bumped h g f = g refl
choose arena size false large oversized grown bumped h g f = f refl

-- Where no block after the current one holds anything but the dedicated ones, and what is asked for fits
-- in a `size_t` past what the current block holds and the record of a block, `arena_alloc` gives an
-- aligned pointer to as many bytes of one block as were asked for: they start at or past what the block
-- held, end at its new offset, and lie inside its capacity. The block was in the arena or is new, and
-- all other blocks of the arena are as they were.
pub arena_alloc_lem :
    (arena : Arena) (size : ℕ)
    → AllReset arena.rest
    → FitsSize arena size
    → IsGiven arena size (arena_alloc arena size)
unfolding arena_alloc alloc_oversized arena_grow
arena_alloc_lem arena size reset room =
    choose arena size
      (ltb arena.current.capacity (as_size (align_up arena.current.offset arena_alignment + size)))
      (ltb arena.block_size size) (alloc_oversized arena size) (bump (arena_grow arena size) size)
      (bump arena size)
      (oversized-IsGiven arena size (reuse_dedicated arena.rest size)
        (reuse-OnReuse arena.fresh arena.rest size))
      (λ small.
        grown-IsGiven arena size (reuse_block (arena.current ∷ arena.passed) arena.rest size)
          (not_above arena.block_size size small) (omega (arith, room))
          (reuse-OnBlock (arena.current ∷ arena.passed) arena.rest size reset))
      (λ fits. (
        bump-aligned arena size,
        bump-OneTakes arena.fresh arena size
            (bump-Takes arena size room (not_above arena.current.capacity _ fits)),
      ))
