-- ===== src/Arena/Grown.antt =====
-- Allocations leave the blocks that an arena has passed, and its current block but for its offset.
use gab.Prelude.{
  ℕ, ◌+◌, ◌≡◌, refl, sym, ap, ◌∙◌, ◌⊎◌, inl, inr, Option, none, some, List, [], ◌∷◌, ◌++◌, not,
  ◌&&◌, leb, ltb, Bool-cases,
}
use gab.Arena.{
  ArenaBlock, Arena, arena_alloc, bump, arena_grow, grown_from, reuse_block, alloc_oversized,
  oversized_from, reuse_dedicated, align_up, as_size, arena_alignment,
}

-- The allocations of these sizes, one after the other.
abbrev pub allocs : List ℕ → Arena → Arena
allocs [] arena = arena
allocs (size ∷ sizes) arena = allocs sizes (arena_alloc arena size).1

-- The same block, but for its offset.
pub record Same (a b : ArenaBlock) : Type 0 where
  pub memory : b.memory ≡ a.memory
  pub capacity : b.capacity ≡ a.capacity
  pub dedicated : b.dedicated ≡ a.dedicated

-- An arena that came from another by allocations: its chain still starts with what the other passed,
-- and the other's current block after that.
unfoldable pub Grown : Arena → Arena → Type 0
Grown from to =
    (to.passed ≡ from.passed) × Same from.current to.current
    ⊎ ((mids : List ArenaBlock) × (b : ArenaBlock) × Same from.current b
        × (to.passed ≡ mids ++ (b ∷ from.passed)))

append_assoc : (as' bs cs : List ArenaBlock) → (as' ++ bs) ++ cs ≡ as' ++ (bs ++ cs)
append_assoc [] bs cs = refl
append_assoc (a ∷ as') bs cs = ap (λ (xs : List ArenaBlock). a ∷ xs) (append_assoc as' bs cs)

-- What the loop of `arena_grow` passes stands before what was passed.
PassedAfter : List ArenaBlock → Option (List ArenaBlock × ArenaBlock × List ArenaBlock) → Type 0
PassedAfter passed none = Unit
PassedAfter passed (some (p, b, bs)) = (mids : List ArenaBlock) × (p ≡ mids ++ passed)

PassedAfter-cons :
    (b : ArenaBlock) (passed : List ArenaBlock)
    (o : Option (List ArenaBlock × ArenaBlock × List ArenaBlock))
    → PassedAfter (b ∷ passed) o
    → PassedAfter passed o
unfolding PassedAfter
PassedAfter-cons b passed none h = tt
PassedAfter-cons b passed (some (p, c, bs)) (mids, e) =
    (mids ++ (b ∷ []), e ∙ sym (append_assoc mids (b ∷ []) passed))

reuse_block-PassedAfter :
    (passed rest : List ArenaBlock) (size : ℕ) → PassedAfter passed (reuse_block passed rest size)
unfolding reuse_block PassedAfter
reuse_block-PassedAfter passed [] size = tt
reuse_block-PassedAfter passed (b ∷ bs) size =
    elim (Bool-cases (not b.dedicated && leb size b.capacity)) [
      | inl fits ↦ rw (PassedAfter, fits) (([], refl))
      | inr other ↦
          rw (PassedAfter, other)
            (PassedAfter-cons b passed (reuse_block (b ∷ passed) bs size)
              (reuse_block-PassedAfter (b ∷ passed) bs size))
    ]

pub Same-refl : (b : ArenaBlock) → Same b b
Same-refl b = record { memory = refl; capacity = refl; dedicated = refl }

-- Whatever stands before an arena's current block.
Grown-before :
    (from to next : Arena) (mids : List ArenaBlock)
    → Grown from to
    → next.passed ≡ mids ++ (to.current ∷ to.passed)
    → Grown from next
unfolding Grown
Grown-before from to next mids (inl (passed, same)) e =
    inr
      (mids, to.current, same, e ∙ ap (λ (xs : List ArenaBlock). mids ++ (to.current ∷ xs)) passed)
Grown-before from to next mids (inr (others, b, same, passed)) e = inr (
  mids ++ (to.current ∷ others),
  b,
  same,
  e
      ∙ ap (λ (xs : List ArenaBlock). mids ++ (to.current ∷ xs)) passed
      ∙ sym (append_assoc mids (to.current ∷ others) (b ∷ from.passed)),
)

grown_from-Grown :
    (from to : Arena) (o : Option (List ArenaBlock × ArenaBlock × List ArenaBlock))
    → PassedAfter (to.current ∷ to.passed) o
    → Grown from to
    → Grown from (grown_from to o)
unfolding PassedAfter
grown_from-Grown from to none h g = Grown-before from to (grown_from to none) [] g refl
grown_from-Grown from to (some (p, b, bs)) (mids, e) g =
    Grown-before from to (grown_from to (some (p, b, bs))) mids g e

arena_grow-Grown : (from to : Arena) (size : ℕ) → Grown from to → Grown from (arena_grow to size)
unfolding arena_grow
arena_grow-Grown from to size g =
    grown_from-Grown from to (reuse_block (to.current ∷ to.passed) to.rest size)
      (reuse_block-PassedAfter (to.current ∷ to.passed) to.rest size) g

bump-Grown : (from to : Arena) (size : ℕ) → Grown from to → Grown from (bump to size).1
unfolding bump Grown
bump-Grown from to size (inl (passed, same)) =
    inl (
      passed,
      record { memory = same.memory; capacity = same.capacity; dedicated = same.dedicated },
    )
bump-Grown from to size (inr later) = inr later

oversized_from-Grown :
    (from to : Arena) (size : ℕ) (o : Option (ℕ × List ArenaBlock))
    → Grown from to
    → Grown from (oversized_from to size o).1
unfolding Grown
oversized_from-Grown from to size none g = g
oversized_from-Grown from to size (some (memory, rest)) g = g

arena_alloc-Grown :
    (from to : Arena) (size : ℕ) → Grown from to → Grown from (arena_alloc to size).1
unfolding arena_alloc alloc_oversized
arena_alloc-Grown from to size g =
    elim (Bool-cases
      (ltb to.current.capacity (as_size (align_up to.current.offset arena_alignment + size)))) [
        | inl full ↦ elim (Bool-cases (ltb to.block_size size)) [
          | inl oversized ↦
              rw (full, oversized)
                (oversized_from-Grown from to size (reuse_dedicated to.rest size) g)
          | inr fits ↦
              rw (full, fits)
                (bump-Grown from (arena_grow to size) size (arena_grow-Grown from to size g))
        ]
        | inr fits ↦ rw fits (bump-Grown from to size g)
      ]

pub allocs-Grown : (from to : Arena) (sizes : List ℕ) → Grown from to → Grown from (allocs sizes to)
allocs-Grown from to [] g = g
allocs-Grown from to (size ∷ sizes) g =
    allocs-Grown from (arena_alloc to size).1 sizes (arena_alloc-Grown from to size g)
