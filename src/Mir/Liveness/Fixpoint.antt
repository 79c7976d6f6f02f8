-- ===== src/Mir/Liveness/Fixpoint.antt =====
-- The loop ends, and what it ends with is a fixed point: no block has anything to add.
use gab.Prelude.{
  ℕ, zero, suc, ◌+◌, ◌*◌, ◌≤◌, ◌<◌, ◌≡◌, refl, sym, ap, ◌∙◌, inl, inr, true, false, Option, none,
  some, List, [], ◌∷◌, length, get_or, replicate, length-replicate, arith, Bool-cases, subst,
}
use gab.Mir.{Block, Function}
use gab.Mir.Liveness.{PlaceSet, Layout, Sets, flow_blocks, settle, no_sets, turns, liveness_compute}
use gab.Mir.Liveness.Unions.{one, zeros}
use gab.Mir.Liveness.Settle.{all_zeros, left, Sized, Stable, Shape, Turn, flow_block-Turn}

-- All of these blocks, the first of which has number `i`, are stable.
abbrev pub AllStable : Layout → ℕ → List Block → Sets → Type 0
AllStable l i [] sets = Unit
AllStable l i (block ∷ blocks) sets = Stable l i block sets × AllStable l (suc i) blocks sets

pub flow_blocks-Turn :
    (l : Layout) (n i : ℕ) (blocks : List Block) (sets : Sets)
    → i + length blocks ≤ n
    → Shape l n sets
    → Turn l n sets (flow_blocks l i blocks sets) (AllStable l i blocks)
unfolding flow_blocks
flow_blocks-Turn l n i [] sets h shape = record {
  shape = shape;
  fewer = omega arith;
  same = λ c. (refl, tt);
}
flow_blocks-Turn l n i (block ∷ blocks) sets h shape =
    let inner = flow_blocks l (suc i) blocks sets in
    let rest = flow_blocks-Turn l n (suc i) blocks sets (omega (arith, h)) shape in
    let here = flow_block-Turn l n i block inner (omega (arith, h)) rest.shape in
    record {
      shape = here.shape;
      fewer = omega (arith, here.fewer, rest.fewer);
      same = λ c.
          let (same, stable) = here.same c in
          let (all_same, all_stable) = rest.same (ap (λ (s : Sets). s.changed) same ∙ c) in
          (all_same ∙ same, (subst (Stable l i block) (sym all_same) stable, all_stable));
    }

-- The loop has ended, with sets that have nothing to add.
abbrev pub Settled : Layout → List Block → (Sets → Type 0) → Option Sets → Type 0
Settled l blocks Kept none = ⊥
Settled l blocks Kept (some sets) =
    Shape l (length blocks) sets × AllStable l 0 blocks sets × Kept sets

-- What each turn of the loop keeps holds when it has ended.
pub settle-Settled :
    (l : Layout) (blocks : List Block) (Kept : Sets → Type 0)
    → ((sets : Sets) → Kept sets → Kept (flow_blocks l 0 blocks (record sets { changed = false })))
    → (fuel : ℕ) (sets : Sets) → left sets < fuel
    → Shape l (length blocks) sets
    → Kept sets
    → Settled l blocks Kept (settle l blocks fuel sets)
unfolding settle left
settle-Settled l blocks Kept keeps zero sets h shape kept = absurd (omega (arith, h))
settle-Settled l blocks Kept keeps (suc fuel) sets h shape kept =
    let n = length blocks in
    let before : Sets = record sets { changed = false } in
    let after = flow_blocks l 0 blocks before in
    let turn =
      flow_blocks-Turn l n 0 blocks before (omega arith)
        (record { entries = shape.entries; exits = shape.exits }) in
    elim (Bool-cases after.changed) [
      | inl changed ↦
          let one_more : one after.changed ≡ 1 = ap one changed in
          rw changed (
            settle-Settled l blocks Kept keeps fuel after (omega (arith, h, turn.fewer, one_more))
              turn.shape (keeps sets kept))
      | inr done ↦
          let (same, stable) = turn.same done in
          rw done ((turn.shape, subst (AllStable l 0 blocks) same stable, keeps sets kept))
    ]

zeros-replicate : (m : ℕ) → zeros (replicate m false) ≡ m
unfolding zeros
zeros-replicate zero = refl
zeros-replicate (suc m) = ap suc (zeros-replicate m)

all_zeros-replicate : (n m : ℕ) → all_zeros (replicate n (replicate m false)) ≡ n * m
unfolding all_zeros
all_zeros-replicate zero m = omega arith
all_zeros-replicate (suc n) m = omega (arith, all_zeros-replicate n m, zeros-replicate m)

pub Sized-replicate : (l : Layout) (n : ℕ) → Sized l n (replicate n (replicate l.place_count false))
Sized-replicate l n = record {
  count = length-replicate n (replicate l.place_count false);
  each = λ i h.
      ap (λ (xs : PlaceSet). length xs) (get_or-inside n (replicate l.place_count false) i h)
      ∙ length-replicate l.place_count false;
}
  where
    get_or-inside : (n : ℕ) (x : PlaceSet) (i : ℕ) → i < n → get_or (replicate n x) i [] ≡ x
    get_or-inside zero x i h = absurd (omega (arith, h))
    get_or-inside (suc n) x zero h = refl
    get_or-inside (suc n) x (suc i) h = get_or-inside n x i (omega (arith, h))

-- The loop of `mir_liveness_compute` ends within its bound, and what each turn keeps holds at its end.
pub liveness_compute-Settled :
    (l : Layout) (ir : Function) (Kept : Sets → Type 0)
    → ((sets : Sets)
        → Kept sets
        → Kept (flow_blocks l 0 ir.blocks (record sets { changed = false })))
    → Kept (record { entry = no_sets l ir; exit = no_sets l ir; changed = true })
    → Settled l ir.blocks Kept (liveness_compute l ir)
unfolding liveness_compute left
liveness_compute-Settled l ir Kept keeps kept =
    let n = length ir.blocks in
    let z = all_zeros-replicate n l.place_count in
    settle-Settled l ir.blocks Kept keeps (turns l ir)
      (record { entry = no_sets l ir; exit = no_sets l ir; changed = true }) (omega (arith, z))
      (record { entries = Sized-replicate l n; exits = Sized-replicate l n }) kept
