-- ===== src/Arena/Given.antt =====
-- What it means that `arena_alloc` gives bytes of one block, and the oversized blocks, which have them.
use gab.Prelude.{
  ℕ, ◌+◌, ◌%◌, ◌^◌, ◌≤◌, ◌<◌, ◌≡◌, ◌⊎◌, refl, inl, inr, Bool, true, ◌&&◌, Option, none, some, List,
  [], ◌∷◌, arith, Bool-cases, leb, ◌==◌,
}
use gab.Arena.{
  ArenaBlock, Arena, Pointer, arena_alignment, keep_block, oversized_from, reuse_dedicated,
}

-- All blocks, from the first one on: those passed, nearest first, and then the others.
abbrev pub spine : List ArenaBlock → List ArenaBlock → List ArenaBlock
spine [] blocks = blocks
spine (p ∷ passed) blocks = spine passed (p ∷ blocks)

abbrev pub chain : Arena → List ArenaBlock
chain arena = spine arena.passed (arena.current ∷ arena.rest)

-- The bytes from the pointer on were free in the block, and are the last that are taken now.
pub record Takes (p : Pointer) (size : ℕ) (before after : ArenaBlock) : Type 0 where
  pub here : before.memory ≡ p.block
  pub free : before.offset ≤ p.at
  pub top : after.offset ≡ p.at + size
  pub inside : after.offset ≤ after.capacity
  pub same_memory : after.memory ≡ before.memory
  pub same_capacity : after.capacity ≡ before.capacity
  pub same_use : after.dedicated ≡ before.dedicated

-- A new block, of which the bytes from the pointer on are the only ones that are taken.
pub record IsNew (fresh : ℕ) (p : Pointer) (size : ℕ) (b : ArenaBlock) : Type 0 where
  pub new_memory : b.memory ≡ fresh
  pub here : p.block ≡ fresh
  pub bottom : p.at ≡ 0
  pub top : b.offset ≡ size
  pub inside : b.offset ≤ b.capacity

-- The second chain is the first but for one block, in which the bytes are taken: it had them free, or
-- it is new.
pub data OneTakes (fresh : ℕ) (p : Pointer) (size : ℕ)
    : List ArenaBlock → List ArenaBlock → Type 0 where
  taken :
      {b b' : ArenaBlock} {bs : List ArenaBlock}
      → Takes p size b b'
      → OneTakes fresh p size (b ∷ bs) (b' ∷ bs)
  added :
      {b : ArenaBlock} {bs : List ArenaBlock}
      → IsNew fresh p size b
      → OneTakes fresh p size bs (b ∷ bs)
  further :
      {b : ArenaBlock} {bs bs' : List ArenaBlock}
      → OneTakes fresh p size bs bs'
      → OneTakes fresh p size (b ∷ bs) (b ∷ bs')

-- A block that is not dedicated holds nothing.
abbrev pub AllReset : List ArenaBlock → Type 0
AllReset [] = Unit
AllReset (b ∷ bs) = ((b.dedicated ≡ true) ⊎ (b.offset ≡ 0)) × AllReset bs

-- An aligned pointer, to bytes that one block of the arena has taken.
abbrev pub IsGiven : Arena → ℕ → Pointer × Arena → Type 0
IsGiven before size (p, after) =
    (p.at % arena_alignment ≡ 0) × OneTakes before.fresh p size (chain before) (chain after)

-- The bytes asked for, past what the current block holds, and the 40 bytes that a block's own record
-- takes, fit in a `size_t`.
abbrev pub FitsSize : Arena → ℕ → Type 0
FitsSize arena size = arena.current.offset + size + 40 < 2 ^ 64

pub spine-OneTakes :
    {fresh size : ℕ} {p : Pointer}
    → (passed bs bs' : List ArenaBlock) → OneTakes fresh p size bs bs'
    → OneTakes fresh p size (spine passed bs) (spine passed bs')
spine-OneTakes [] bs bs' h = h
spine-OneTakes (q ∷ passed) bs bs' h = spine-OneTakes passed (q ∷ bs) (q ∷ bs') (further h)

abbrev at_start : ℕ → Pointer
at_start memory = record { block = memory; at = 0 }

-- The oversized blocks.
pub OnReuse : ℕ → ℕ → List ArenaBlock → Option (ℕ × List ArenaBlock) → Type 0
OnReuse fresh size bs none = Unit
OnReuse fresh size bs (some (memory, bs')) = OneTakes fresh (at_start memory) size bs bs'

kept :
    (fresh size : ℕ) (b : ArenaBlock) (bs : List ArenaBlock) (o : Option (ℕ × List ArenaBlock))
    → OnReuse fresh size bs o
    → OnReuse fresh size (b ∷ bs) (keep_block b o)
unfolding OnReuse
kept fresh size b bs none h = tt
kept fresh size b bs (some (memory, bs')) h = further h

fits_test :
    (d : Bool) (offset size capacity : ℕ)
    → (d && (offset == 0 && leb size capacity)) ≡ true
    → (offset ≤ 0) × (size ≤ capacity)
fits_test d offset size capacity h = (ground (arith, h), ground (arith, h))

pub reuse-OnReuse :
    (fresh : ℕ) (bs : List ArenaBlock) (size : ℕ) → OnReuse fresh size bs (reuse_dedicated bs size)
unfolding reuse_dedicated OnReuse
reuse-OnReuse fresh [] size = tt
reuse-OnReuse fresh (b ∷ bs) size =
    elim (Bool-cases (b.dedicated && (b.offset == 0 && leb size b.capacity))) [
      | inl t ↦
          let (free, fits) = fits_test b.dedicated b.offset size b.capacity t in
          rw t (
            taken (record {
              here = refl;
              free = free;
              top = omega arith;
              inside = fits;
              same_memory = refl;
              same_capacity = refl;
              same_use = refl;
            }))
      | inr nt ↦
          rw nt (kept fresh size b bs (reuse_dedicated bs size) (reuse-OnReuse fresh bs size))
    ]

pub oversized-IsGiven :
    (arena : Arena) (size : ℕ) (o : Option (ℕ × List ArenaBlock))
    → OnReuse arena.fresh size arena.rest o
    → IsGiven arena size (oversized_from arena size o)
unfolding OnReuse
oversized-IsGiven arena size none h = (
  omega arith,
  spine-OneTakes arena.passed _ _ (
      further (
        added (record {
          new_memory = refl;
          here = refl;
          bottom = refl;
          top = refl;
          inside = omega arith;
        }))),
)
oversized-IsGiven arena size (some (memory, bs)) h =
    (omega arith, spine-OneTakes arena.passed _ _ (further h))
