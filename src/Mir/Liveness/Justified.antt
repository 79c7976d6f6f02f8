-- ===== src/Mir/Liveness/Justified.antt =====
-- Each turn of the loop adds only tracked places.
use gab.Prelude.{
  ℕ, zero, suc, ◌+◌, ◌<◌, ◌≡◌, refl, sym, ap, ◌∙◌, inl, inr, true, some, List, [], ◌∷◌, length,
  get_or, set, get_or-set, arith, subst,
}
use gab.Mir.{BlockId, Block, Function}
use gab.Mir.Build.{get_elem?, block_successors}
use gab.Mir.Liveness.{
  PlaceSet, Layout, Sets, set_test, union_into, merge_successors, steps_backwards, flow_block,
  flow_blocks,
}
use gab.Mir.Liveness.Unions.{union_into-Union, merge_successors-Merged, any_entry}
use gab.Mir.Liveness.Settle.{Shape, flow_block-Turn}
use gab.Mir.Liveness.Paths.{Tracked, onward, or_true, steps_backwards-Tracked}

-- A place is tracked at the start of the block with a number.
abbrev pub AtStart : Layout → Function → ℕ → BlockId → Type 0
AtStart l ir p b =
    (block : Block) × (get_elem? ir.blocks b ≡ some block) × Tracked l ir p b block.insts

-- Every place of the sets is tracked.
pub record Justified (l : Layout) (ir : Function) (sets : Sets) : Type 0 where
  pub shape : Shape l (length ir.blocks) sets
  pub at_entry :
      (b p : ℕ) → p < l.place_count → set_test (get_or sets.entry b []) p ≡ true → AtStart l ir p b
  pub at_exit :
      (b p : ℕ)
      → p < l.place_count
      → set_test (get_or sets.exit b []) p ≡ true
      → Tracked l ir p b []

any_entry-true :
    (entry : List PlaceSet) (ss : List BlockId) (p : ℕ)
    → any_entry entry ss p ≡ true
    → (k : ℕ) × (s : BlockId) × (get_elem? ss k ≡ some s) × (set_test (get_or entry s []) p ≡ true)
unfolding any_entry get_elem?
any_entry-true entry [] p h = absurd (cc h)
any_entry-true entry (s ∷ ss) p h =
    elim (or_true (set_test (get_or entry s []) p) (any_entry entry ss p) h) [
      | inl here ↦ (0, s, refl, here)
      | inr (no_here, later) ↦
          let (k, t, at, bit) = any_entry-true entry ss p later in (suc k, t, at, bit)
    ]

pub inside :
    (blocks : List Block) (b : ℕ) (block : Block)
    → get_elem? blocks b ≡ some block
    → b < length blocks
unfolding get_elem?
inside [] b block h = absurd (cc h)
inside (x ∷ xs) zero block h = omega arith
inside (x ∷ xs) (suc b) block h = omega (arith, inside xs b block h)

-- A bit of a set that was replaced.
changed_bit :
    (xs : List PlaceSet) (i b p : ℕ) (v : PlaceSet) (Goal : ℕ → Type 0)
    → (set_test v p ≡ true → Goal i)
    → (set_test (get_or xs b []) p ≡ true → Goal b)
    → set_test (get_or (set xs i v) b []) p ≡ true
    → Goal b
changed_bit xs i b p v Goal new old t = elim (get_or-set xs i b v []) [
  | inl (same, here) ↦ subst Goal same (new (sym (ap (λ (ys : PlaceSet). set_test ys p) here) ∙ t))
  | inr other ↦ old (sym (ap (λ (ys : PlaceSet). set_test ys p) other) ∙ t)
]

flow_block-Justified :
    (l : Layout) (ir : Function) (i : ℕ) (block : Block) (sets : Sets)
    → get_elem? ir.blocks i ≡ some block
    → Justified l ir sets
    → Justified l ir (flow_block l i block sets)
unfolding flow_block
flow_block-Justified l ir i block sets here j =
    let n = length ir.blocks in
    let i_inside = inside ir.blocks i block here in
    let ss = block_successors block in
    let exit = get_or sets.exit i [] in
    let entry = get_or sets.entry i [] in
    let merged = merge_successors sets.entry ss (exit, sets.changed) in
    let m = merge_successors-Merged sets.entry ss exit sets.changed in
    let joined = union_into entry (steps_backwards l block.insts merged.0) in
    let u = union_into-Union entry (steps_backwards l block.insts merged.0) in
    let exit_size = j.shape.exits.each i i_inside in
    let entry_size = j.shape.entries.each i i_inside in
    let end : (p : ℕ) → p < l.place_count → set_test merged.0 p ≡ true → Tracked l ir p i [] =
      λ p h t.
        elim (or_true (set_test exit p) (any_entry sets.entry ss p)
          (sym (m.bit p (omega (arith, h, exit_size))) ∙ t)) [
            | inl old ↦ j.at_exit i p h old
            | inr (no_old, new) ↦
                let (k, s, at, bit) = any_entry-true sets.entry ss p new in
                let (next, there, live) = j.at_entry s p h bit in
                onward block next k s here at there live
          ] in
    let start : (p : ℕ) → p < l.place_count → set_test joined.0 p ≡ true → AtStart l ir p i =
      λ p h t.
        elim (or_true (set_test entry p) (set_test (steps_backwards l block.insts merged.0) p)
          (sym (u.bit p (omega (arith, h, entry_size))) ∙ t)) [
            | inl old ↦ j.at_entry i p h old
            | inr (no_old, new) ↦ (
              block,
              here,
              steps_backwards-Tracked l ir p i block.insts merged.0
                  (omega (arith, h, exit_size, m.size)) (end p h) new,
            )
          ] in
    record {
      shape = (flow_block-Turn l n i block sets i_inside j.shape).shape;
      at_entry = λ b p h t.
          changed_bit sets.entry i b p joined.0 (AtStart l ir p) (start p h) (j.at_entry b p h) t;
      at_exit = λ b p h t.
          changed_bit sets.exit i b p merged.0 (λ (b : ℕ). Tracked l ir p b []) (end p h)
            (j.at_exit b p h) t;
    }

pub flow_blocks-Justified :
    (l : Layout) (ir : Function) (i : ℕ) (blocks : List Block) (sets : Sets)
    → ((j : ℕ) (block : Block)
        → get_elem? blocks j ≡ some block
        → get_elem? ir.blocks (i + j) ≡ some block)
    → Justified l ir sets
    → Justified l ir (flow_blocks l i blocks sets)
unfolding flow_blocks get_elem?
flow_blocks-Justified l ir i [] sets at j = j
flow_blocks-Justified l ir i (block ∷ blocks) sets at j =
    let start : i + 0 ≡ i = omega arith in
    let first : get_elem? ir.blocks i ≡ some block =
      subst (λ (k : ℕ). get_elem? ir.blocks k ≡ some block) start (at 0 block refl) in
    flow_block-Justified l ir i block (flow_blocks l (suc i) blocks sets) first (
      flow_blocks-Justified l ir (suc i) blocks sets
        (λ k other h.
          let next : i + suc k ≡ suc i + k = omega arith in
          subst (λ (k : ℕ). get_elem? ir.blocks k ≡ some other) next (at (suc k) other h))
        j)
