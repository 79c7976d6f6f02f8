-- ===== src/Mir/Liveness/Paths.antt =====
-- The places that are live by the table of reads and writes that the code of mir_liveness.c follows.
use gab.Prelude.{
  ℕ, ◌<◌, ◌≡◌, refl, sym, ◌∙◌, ◌⊎◌, inl, inr, Bool, true, false, not, ◌&&◌, ◌||◌, some, List, [],
  ◌∷◌, length, arith,
}
use gab.Mir.{BlockId, Block, Inst, Function}
use gab.Mir.Build.{get_elem?, block_successors}
use gab.Mir.Liveness.{PlaceSet, Layout, set_test, steps_backwards}
use gab.Mir.Liveness.Uses.{uses, kills}
use gab.Mir.Liveness.Backwards.{step_backwards-bit}
use gab.Mir.Liveness.Sizes.{length-steps_backwards}

-- A place is tracked before the rest of the instructions of a block: the next one uses it, or does not
-- kill it and it is tracked after that; at the end of the block, it is tracked before a successor.
pub data Tracked (l : Layout) (ir : Function) (p : ℕ) : BlockId → List Inst → Type 0 where
  used :
      {b : BlockId} {inst : Inst} {rest : List Inst}
      → uses l inst p ≡ true
      → Tracked l ir p b (inst ∷ rest)
  kept :
      {b : BlockId} {inst : Inst} {rest : List Inst}
      → kills l inst p ≡ false
      → Tracked l ir p b rest
      → Tracked l ir p b (inst ∷ rest)
  onward :
      {b : BlockId} (block next : Block) (k : ℕ) (s : BlockId)
      → get_elem? ir.blocks b ≡ some block
      → get_elem? (block_successors block) k ≡ some s
      → get_elem? ir.blocks s ≡ some next
      → Tracked l ir p s next.insts
      → Tracked l ir p b []

pub or_true : (a b : Bool) → (a || b) ≡ true → (a ≡ true) ⊎ ((a ≡ false) × (b ≡ true))
or_true true b h = inl refl
or_true false b h = inr (refl, h)

pub and_not-true : (a b : Bool) → (not a && b) ≡ true → (a ≡ false) × (b ≡ true)
and_not-true true b h = absurd (cc h)
and_not-true false b h = (refl, h)

pub or_right : (a b : Bool) → b ≡ true → true ≡ (a || b)
or_right true b h = refl
or_right false b h = sym h

-- What the steps over instructions find is tracked, if what they start from is.
pub steps_backwards-Tracked :
    (l : Layout) (ir : Function) (p : ℕ) (b : BlockId) (insts : List Inst) (places : PlaceSet)
    → p < length places
    → (set_test places p ≡ true → Tracked l ir p b [])
    → set_test (steps_backwards l insts places) p ≡ true
    → Tracked l ir p b insts
unfolding steps_backwards
steps_backwards-Tracked l ir p b [] places h end t = end t
steps_backwards-Tracked l ir p b (inst ∷ insts) places h end t =
    let after = steps_backwards l insts places in
    let (len, bit) =
      step_backwards-bit l inst after p (omega (arith, h, length-steps_backwards l insts places)) in
    elim (or_true (uses l inst p) (not (kills l inst p) && set_test after p) (sym bit ∙ t)) [
      | inl read ↦ used read
      | inr (no_use, rest) ↦
          let (no_kill, later) = and_not-true (kills l inst p) (set_test after p) rest in
          kept no_kill (steps_backwards-Tracked l ir p b insts places h end later)
    ]
