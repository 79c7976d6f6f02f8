-- ===== src/Mir/Liveness/Settle.antt =====
-- One block in the loop: what it adds, and what it means that it adds nothing.
use gab.Prelude.{
  ℕ, zero, suc, ◌+◌, ◌≤◌, ◌<◌, ◌≡◌, refl, sym, ap, ◌∙◌, inl, inr, Bool, false, ◌||◌, List, [], ◌∷◌,
  length, get_or, set, length-set, get_or-set, arith,
}
use gab.Mir.{Block}
use gab.Mir.Build.{block_successors}
use gab.Mir.Liveness.{
  PlaceSet, Layout, Sets, set_test, union_into, merge_successors, steps_backwards, flow_block,
}
use gab.Mir.Liveness.Unions.{
  one, one_or, or_eq_false, zeros, union_into-Union, merge_successors-Merged, any_entry,
}

-- The bits that are left in all sets.
unfoldable pub all_zeros : List PlaceSet → ℕ
unfolding zeros
all_zeros [] = 0
all_zeros (x ∷ xs) = zeros x + all_zeros xs

unfoldable pub left : Sets → ℕ
unfolding all_zeros
left sets = all_zeros sets.entry + all_zeros sets.exit

all_zeros-set :
    (xs : List PlaceSet) (i : ℕ) (v : PlaceSet)
    → i < length xs
    → all_zeros (set xs i v) + zeros (get_or xs i []) ≡ all_zeros xs + zeros v
unfolding all_zeros
all_zeros-set [] i v h = absurd (omega (arith, h))
all_zeros-set (x ∷ xs) zero v h = omega arith
all_zeros-set (x ∷ xs) (suc i) v h = omega (arith, all_zeros-set xs i v (omega (arith, h)))

set-get_or : (xs : List PlaceSet) (i : ℕ) → set xs i (get_or xs i []) ≡ xs
set-get_or [] i = refl
set-get_or (x ∷ xs) zero = refl
set-get_or (x ∷ xs) (suc i) = ap (λ (ys : List PlaceSet). x ∷ ys) (set-get_or xs i)

-- There are `n` sets, each of as many bits as there are places.
pub record Sized (l : Layout) (n : ℕ) (xs : List PlaceSet) : Type 0 where
  pub count : length xs ≡ n
  pub each : (i : ℕ) → i < n → length (get_or xs i []) ≡ l.place_count

pub Sized-set :
    (l : Layout) (n i : ℕ) (xs : List PlaceSet) (v : PlaceSet)
    → Sized l n xs
    → length v ≡ l.place_count
    → Sized l n (set xs i v)
Sized-set l n i xs v s e = record {
  count = length-set xs i v ∙ s.count;
  each = λ j h. elim (get_or-set xs i j v []) [
    | inl (same, here) ↦ ap (λ (ys : PlaceSet). length ys) here ∙ e
    | inr other ↦ ap (λ (ys : PlaceSet). length ys) other ∙ s.each j h
  ];
}

-- Block `i` has nothing to add: its set at its end has what the sets of its successors have, and its
-- set at its entry has what the steps over its instructions leave of that.
pub record Stable (l : Layout) (i : ℕ) (block : Block) (sets : Sets) : Type 0 where
  pub end :
      (p : ℕ)
      → p < l.place_count
      → set_test (get_or sets.exit i []) p
        ≡ (set_test (get_or sets.exit i []) p || any_entry sets.entry (block_successors block) p)
  pub start :
      (p : ℕ)
      → p < l.place_count
      → set_test (get_or sets.entry i []) p ≡ (
          set_test (get_or sets.entry i []) p
          || set_test (steps_backwards l block.insts (get_or sets.exit i [])) p)

pub record Shape (l : Layout) (n : ℕ) (sets : Sets) : Type 0 where
  pub entries : Sized l n sets.entry
  pub exits : Sized l n sets.exit

-- What a part of the loop does: fewer bits are left if it has changed anything, and if not, all sets
-- are as they were and the blocks of the part are stable.
pub record Turn (l : Layout) (n : ℕ) (sets after : Sets) (Rest : Sets → Type 0) : Type 0 where
  pub shape : Shape l n after
  pub fewer : left after + one after.changed ≤ left sets + one sets.changed
  pub same : after.changed ≡ false → (sets ≡ after) × Rest sets

same_sets :
    (sets : Sets) (entry exit : List PlaceSet) (changed : Bool)
    → sets.entry ≡ entry
    → sets.exit ≡ exit
    → sets.changed ≡ changed
    → sets ≡ record { entry = entry; exit = exit; changed = changed }
same_sets sets entry exit changed e x c = rw (← e, ← x, ← c) refl

pub flow_block-Turn :
    (l : Layout) (n i : ℕ) (block : Block) (sets : Sets)
    → i < n
    → Shape l n sets
    → Turn l n sets (flow_block l i block sets) (Stable l i block)
unfolding flow_block left
flow_block-Turn l n i block sets h shape =
    let ss = block_successors block in
    let exit = get_or sets.exit i [] in
    let entry = get_or sets.entry i [] in
    let merged = merge_successors sets.entry ss (exit, sets.changed) in
    let m = merge_successors-Merged sets.entry ss exit sets.changed in
    let working = steps_backwards l block.insts merged.0 in
    let joined = union_into entry working in
    let u = union_into-Union entry working in
    let exit_size = shape.exits.each i h in
    let entry_size = shape.entries.each i h in
    record {
      shape = record {
        entries = Sized-set l n i sets.entry joined.0 shape.entries (u.size ∙ entry_size);
        exits = Sized-set l n i sets.exit merged.0 shape.exits (m.size ∙ exit_size);
      };
      fewer = omega (
        arith,
        u.left,
        m.left,
        one_or merged.1 joined.1,
        all_zeros-set sets.entry i joined.0 (omega (arith, h, shape.entries.count)),
        all_zeros-set sets.exit i merged.0 (omega (arith, h, shape.exits.count)),
      );
      same = λ c.
          let (merged_same, joined_same) = or_eq_false merged.1 joined.1 c in
          let (exit_same, before) = m.same merged_same in
          let entry_same = u.same joined_same in
          (
            same_sets sets (set sets.entry i joined.0) (set sets.exit i merged.0)
                (merged.1 || joined.1)
                (sym (ap (set sets.entry i) entry_same ∙ set-get_or sets.entry i))
                (sym (ap (set sets.exit i) exit_same ∙ set-get_or sets.exit i)) (before ∙ sym c),
            record {
              end = λ p k.
                  sym (ap (λ (xs : PlaceSet). set_test xs p) exit_same)
                  ∙ m.bit p (omega (arith, k, exit_size));
              start = λ p k.
                  sym (ap (λ (xs : PlaceSet). set_test xs p) entry_same)
                  ∙ u.bit p (omega (arith, k, entry_size))
                  ∙ ap
                      (λ (xs : PlaceSet).
                        set_test entry p || set_test (steps_backwards l block.insts xs) p)
                      exit_same;
            },
          );
    }
