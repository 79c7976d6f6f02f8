-- ===== src/Arena/Rewind.antt =====
-- `arena_checkpoint` and `arena_rewind` of src/memory/arena.c.
--
-- A checkpoint names a block; the chain is searched for it from its first block on, where the source
-- holds a pointer to it.
use gab.Prelude.{
  ℕ, ◌≡◌, ◌≢◌, refl, sym, ap, ◌∙◌, inl, inr, true, false, Option, none, some, List, [], ◌∷◌, ◌++◌,
  ◌==◌, if◌then◌else◌, arith, subst,
}
use gab.Arena.{ArenaBlock, Arena, reset_blocks, unwind}
use gab.Arena.Grown.{allocs, Same, Grown, Same-refl, allocs-Grown}

pub record ArenaCheckpoint : Type 0 where
  pub block : ℕ
  pub offset : ℕ

unfoldable pub arena_checkpoint : Arena → ArenaCheckpoint
arena_checkpoint arena = record { block = arena.current.memory; offset = arena.current.offset }

-- The chain split at the block with this memory.
unfoldable pub split_at :
    List ArenaBlock
    → ArenaBlock
    → List ArenaBlock
    → ℕ
    → Option (List ArenaBlock × ArenaBlock × List ArenaBlock)
split_at passed b [] memory = if b.memory == memory then some (passed, b, []) else none
split_at passed b (next ∷ rest) memory =
    let later = split_at (b ∷ passed) next rest memory in
    if b.memory == memory then some (passed, b, next ∷ rest) else later

abbrev pub rewound : Arena → ℕ → Option (List ArenaBlock × ArenaBlock × List ArenaBlock) → Arena
rewound arena offset none = arena
rewound arena offset (some (passed, b, after)) = record arena {
  passed = passed;
  current = record b { offset = offset };
  rest = reset_blocks after;
}

-- `arena_rewind`. The checkpoint is one of this arena.
unfoldable pub arena_rewind : Arena → ArenaCheckpoint → Arena
unfolding split_at unwind reset_blocks
arena_rewind arena checkpoint =
    let (first, rest) = unwind arena.passed arena.current arena.rest in
    rewound arena checkpoint.offset (split_at [] first rest checkpoint.block)

-- None of the blocks has this memory.
abbrev pub NoneHas : ℕ → List ArenaBlock → Type 0
NoneHas memory [] = Unit
NoneHas memory (b ∷ bs) = (b.memory ≢ memory) × NoneHas memory bs

test_same : (a b : ℕ) → a ≡ b → (a == b) ≡ true
test_same a b h = ground (arith, h)

test_other : (a b : ℕ) → a ≢ b → (a == b) ≡ false
test_other a b h = ground (arith, h)

split-unwind :
    (passed : List ArenaBlock) (b : ArenaBlock) (rest : List ArenaBlock) (memory : ℕ)
    → NoneHas memory passed
    → split_at [] (unwind passed b rest).0 (unwind passed b rest).1 memory
      ≡ split_at passed b rest memory
unfolding split_at unwind
split-unwind [] b rest memory h = refl
split-unwind (q ∷ passed) b rest memory h =
    split-unwind passed q (b ∷ rest) memory h.1 ∙ rw (test_other q.memory memory h.0) refl

unwind_mids :
    (mids passed : List ArenaBlock) (b c : ArenaBlock) (rest : List ArenaBlock)
    → (others : List ArenaBlock) × (unwind (mids ++ (b ∷ passed)) c rest ≡ unwind passed b others)
unfolding unwind
unwind_mids [] passed b c rest = (c ∷ rest, refl)
unwind_mids (m ∷ mids) passed b c rest = unwind_mids mids passed b m (c ∷ rest)

split_here :
    (passed : List ArenaBlock) (b : ArenaBlock) (rest : List ArenaBlock) (memory : ℕ)
    → b.memory ≡ memory
    → split_at passed b rest memory ≡ some (passed, b, rest)
unfolding split_at
split_here passed b [] memory h = rw (test_same b.memory memory h) refl
split_here passed b (c ∷ rest) memory h = rw (test_same b.memory memory h) refl

-- Where an arena's current block is in the chain of one that came from it.
found_block :
    (from to : Arena)
    → Grown from to
    → NoneHas from.current.memory from.passed
    → (b : ArenaBlock) × (others : List ArenaBlock) × Same from.current b
      × (split_at []
            (unwind to.passed to.current to.rest).0
            (unwind to.passed to.current to.rest).1
            from.current.memory
          ≡ some (from.passed, b, others))
unfolding Grown
found_block from to (inl (passed, same)) apart =
    let m = from.current.memory in
    (
      to.current,
      to.rest,
      same,
      ap
            (λ (ps : List ArenaBlock).
              split_at [] (unwind ps to.current to.rest).0 (unwind ps to.current to.rest).1 m)
            passed
          ∙ split-unwind from.passed to.current to.rest m apart
          ∙ split_here from.passed to.current to.rest m same.memory,
    )
found_block from to (inr (mids, b, same, passed)) apart =
    let m = from.current.memory in
    let (others, unwound) = unwind_mids mids from.passed b to.current to.rest in
    (
      b,
      others,
      same,
      ap
            (λ (ps : List ArenaBlock).
              split_at [] (unwind ps to.current to.rest).0 (unwind ps to.current to.rest).1 m)
            passed
          ∙ ap (λ (r : ArenaBlock × List ArenaBlock). split_at [] r.0 r.1 m) unwound
          ∙ split-unwind from.passed b others m apart
          ∙ split_here from.passed b others m same.memory,
    )

-- No block holds anything.
abbrev pub Unused : List ArenaBlock → Type 0
Unused [] = Unit
Unused (b ∷ bs) = (b.offset ≡ 0) × Unused bs

reset_blocks-Unused : (bs : List ArenaBlock) → Unused (reset_blocks bs)
unfolding reset_blocks
reset_blocks-Unused [] = tt
reset_blocks-Unused (b ∷ bs) = (refl, reset_blocks-Unused bs)

Same-current : (a b : ArenaBlock) → Same a b → record b { offset = a.offset } ≡ a
Same-current a b s = rw (s.memory, s.capacity, s.dedicated) refl

abbrev pub Rewound : Arena → Arena → Type 0
Rewound arena after =
    (after.passed ≡ arena.passed) × (after.current ≡ arena.current) × Unused after.rest

-- Rewinding to a checkpoint after any allocations gives back the current block as it was, with what it
-- held, and the blocks before it, where none of those has its memory; the blocks after it, also those
-- that were there at the checkpoint, hold nothing.
pub arena_rewind_lem :
    (arena : Arena) (sizes : List ℕ)
    → NoneHas arena.current.memory arena.passed
    → Rewound arena (arena_rewind (allocs sizes arena) (arena_checkpoint arena))
unfolding arena_rewind arena_checkpoint Grown
arena_rewind_lem arena sizes apart =
    let to = allocs sizes arena in
    let (b, others, same, found) =
      found_block arena to (allocs-Grown arena arena sizes (inl (refl, Same-refl arena.current)))
        apart in
    subst
      (λ (o : Option (List ArenaBlock × ArenaBlock × List ArenaBlock)).
        Rewound arena (rewound to arena.current.offset o))
      (sym found) ((refl, Same-current arena.current b same, reset_blocks-Unused others))
