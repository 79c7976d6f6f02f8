-- ===== src/Mir/Liveness/Sound.antt =====
-- A tracked place is in the sets that `mir_liveness_compute` ends with, and no other place is.
use gab.Prelude.{
  ℕ, zero, suc, ◌+◌, ◌<◌, ◌≡◌, ◌↔◌, refl, sym, ap, ap₂, ◌∙◌, Bool, true, false, not, ◌&&◌, ◌||◌,
  Option, none, some, List, [], ◌∷◌, length, get_or, replicate, get_or-replicate, arith, subst,
}
use gab.Mir.{BlockId, Block, Inst, Function}
use gab.Mir.Build.{get_elem?, block_successors}
use gab.Mir.Liveness.{PlaceSet, Layout, Sets, set_test, steps_backwards, liveness_compute, no_sets}
use gab.Mir.Liveness.Uses.{uses, kills}
use gab.Mir.Liveness.Backwards.{step_backwards-bit}
use gab.Mir.Liveness.Sizes.{length-steps_backwards}
use gab.Mir.Liveness.Unions.{any_entry}
use gab.Mir.Liveness.Settle.{Stable, Shape}
use gab.Mir.Liveness.Fixpoint.{AllStable, Settled, Sized-replicate, liveness_compute-Settled}
use gab.Mir.Liveness.Paths.{Tracked, used, kept, onward, or_right, steps_backwards-Tracked}
use gab.Mir.Liveness.Justified.{AtStart, Justified, inside, flow_blocks-Justified}

-- A tracked place is in the sets, once no block has anything to add.
AllStable-at :
    (l : Layout) (i : ℕ) (blocks : List Block) (sets : Sets) (j : ℕ) (block : Block)
    → AllStable l i blocks sets
    → get_elem? blocks j ≡ some block
    → Stable l (i + j) block sets
unfolding get_elem?
AllStable-at l i [] sets j block all h = absurd (cc h)
AllStable-at l i (x ∷ xs) sets zero block all h =
    let same : x ≡ block = cc h in
    let start : i ≡ i + 0 = omega arith in
    subst (λ (k : ℕ). Stable l k block sets) start
      (subst (λ (y : Block). Stable l i y sets) same all.0)
AllStable-at l i (x ∷ xs) sets (suc j) block all h =
    let next : suc i + j ≡ i + suc j = omega arith in
    subst (λ (k : ℕ). Stable l k block sets) next (AllStable-at l (suc i) xs sets j block all.1 h)

all_stable :
    (l : Layout) (blocks : List Block) (sets : Sets) (j : ℕ) (block : Block)
    → AllStable l 0 blocks sets
    → get_elem? blocks j ≡ some block
    → Stable l j block sets
all_stable l blocks sets j block all e =
    let start : 0 + j ≡ j = omega arith in
    subst (λ (k : ℕ). Stable l k block sets) start (AllStable-at l 0 blocks sets j block all e)

any_entry_at :
    (entry : List PlaceSet) (ss : List BlockId) (k s p : ℕ)
    → get_elem? ss k ≡ some s
    → set_test (get_or entry s []) p ≡ true
    → any_entry entry ss p ≡ true
unfolding any_entry get_elem?
any_entry_at entry [] k s p h t = absurd (cc h)
any_entry_at entry (x ∷ ss) zero s p h t =
    let same : x ≡ s = cc h in
    ap (λ (b : Bool). b || any_entry entry ss p)
      (ap (λ (y : ℕ). set_test (get_or entry y []) p) same ∙ t)
any_entry_at entry (x ∷ ss) (suc k) s p h t = sym (
    or_right (set_test (get_or entry x []) p) (any_entry entry ss p)
      (any_entry_at entry ss k s p h t))

Tracked-bit :
    (l : Layout) (ir : Function) (p : ℕ) (sets : Sets) {b : BlockId} {insts : List Inst}
    → Shape l (length ir.blocks) sets
    → AllStable l 0 ir.blocks sets
    → p < l.place_count
    → Tracked l ir p b insts
    → b < length ir.blocks
    → set_test (steps_backwards l insts (get_or sets.exit b [])) p ≡ true
unfolding steps_backwards
Tracked-bit l ir p sets {insts = inst ∷ rest} shape stable h (used read) at =
    let exit = get_or sets.exit _ [] in
    let after = steps_backwards l rest exit in
    let (len, bit) =
      step_backwards-bit l inst after p
        (omega (arith, h, length-steps_backwards l rest exit, shape.exits.each _ at)) in
    bit ∙ ap (λ (b : Bool). b || (not (kills l inst p) && set_test after p)) read
Tracked-bit l ir p sets {insts = inst ∷ rest} shape stable h (kept no_kill live) at =
    let exit = get_or sets.exit _ [] in
    let after = steps_backwards l rest exit in
    let (len, bit) =
      step_backwards-bit l inst after p
        (omega (arith, h, length-steps_backwards l rest exit, shape.exits.each _ at)) in
    let later = Tracked-bit l ir p sets shape stable h live at in
    bit
    ∙ sym (
        or_right (uses l inst p) (not (kills l inst p) && set_test after p)
          (ap₂ (λ (k b : Bool). not k && b) no_kill later))
Tracked-bit l ir p sets {b} shape stable h (onward block next k s here succ there live) at =
    let s_inside = inside ir.blocks s next there in
    let here_stable = all_stable l ir.blocks sets b block stable here in
    let next_stable = all_stable l ir.blocks sets s next stable there in
    let later = Tracked-bit l ir p sets shape stable h live s_inside in
    let entered =
      next_stable.start p h
      ∙ sym (
          or_right (set_test (get_or sets.entry s []) p)
            (set_test (steps_backwards l next.insts (get_or sets.exit s [])) p) later) in
    here_stable.end p h
    ∙ sym (
        or_right (set_test (get_or sets.exit b []) p)
          (any_entry sets.entry (block_successors block) p)
          (any_entry_at sets.entry (block_successors block) k s p succ entered))

no_bits : (n m b p : ℕ) → set_test (get_or (replicate n (replicate m false)) b []) p ≡ false
no_bits zero m b p = refl
no_bits (suc n) m zero p = get_or-replicate m false p
no_bits (suc n) m (suc b) p = no_bits n m b p

liveness_compute-Justified :
    (l : Layout) (ir : Function) → Settled l ir.blocks (Justified l ir) (liveness_compute l ir)
unfolding get_elem?
liveness_compute-Justified l ir =
    let n = length ir.blocks in
    let sized = Sized-replicate l n in
    let empty : (b p : ℕ) → set_test (get_or (no_sets l ir) b []) p ≡ false =
      λ b p. no_bits n l.place_count b p in
    liveness_compute-Settled l ir (Justified l ir)
      (λ sets j.
        flow_blocks-Justified l ir 0 ir.blocks (record sets { changed = false })
          (from_start ir.blocks)
          (record {
            shape = record { entries = j.shape.entries; exits = j.shape.exits };
            at_entry = j.at_entry;
            at_exit = j.at_exit;
          }))
      (record {
        shape = record { entries = sized; exits = sized };
        at_entry = λ b p h t. absurd (cc (t, empty b p));
        at_exit = λ b p h t. absurd (cc (t, empty b p));
      })
  where
    from_start :
        (blocks : List Block) (j : ℕ) (block : Block)
        → get_elem? blocks j ≡ some block
        → get_elem? blocks (0 + j) ≡ some block
    from_start blocks j block e =
        let same : j ≡ 0 + j = omega arith in
        subst (λ (k : ℕ). get_elem? blocks k ≡ some block) same e

-- `mir_liveness_compute` ends on every function.
pub liveness_compute_ends :
    (l : Layout) (ir : Function) → (sets : Sets) × (liveness_compute l ir ≡ some sets)
liveness_compute_ends l ir =
    by_result (liveness_compute l ir) refl (liveness_compute-Justified l ir)
  where
    by_result :
        (o : Option Sets)
        → liveness_compute l ir ≡ o
        → Settled l ir.blocks (Justified l ir) o
        → (sets : Sets) × (liveness_compute l ir ≡ some sets)
    by_result none e h = absurd h
    by_result (some sets) e h = (sets, e)

some-injective : (a b : Block) → some a ≡ some b → a ≡ b
some-injective a b h = cc h

-- The sets that `mir_liveness_compute` ends with hold exactly the tracked places, at the entry of a
-- block, and after the steps back from its exit.
pub liveness_compute-Tracked :
    (l : Layout) (ir : Function) (sets : Sets) (b : BlockId) (block : Block) (insts : List Inst)
    (p : ℕ)
    → liveness_compute l ir ≡ some sets
    → get_elem? ir.blocks b ≡ some block
    → p < l.place_count
    → ((set_test (get_or sets.entry b []) p ≡ true) ↔ Tracked l ir p b block.insts)
      × ((set_test (steps_backwards l insts (get_or sets.exit b [])) p ≡ true)
          ↔ Tracked l ir p b insts)
liveness_compute-Tracked l ir sets b block insts p e at h =
    let (shape, stable, j) : Settled l ir.blocks (Justified l ir) (some sets) =
      subst (Settled l ir.blocks (Justified l ir)) e (liveness_compute-Justified l ir) in
    let b_inside = inside ir.blocks b block at in
    let exit = get_or sets.exit b [] in
    let at_start : AtStart l ir p b → Tracked l ir p b block.insts = λ found.
      let same : found.0 ≡ block = some-injective found.0 block (sym found.1 ∙ at) in
      subst (λ (x : Block). Tracked l ir p b x.insts) same found.2 in
    (
      (
        (λ t. at_start (j.at_entry b p h t)),
        λ live.
            (all_stable l ir.blocks sets b block stable at).start p h
            ∙ sym (
                or_right (set_test (get_or sets.entry b []) p)
                  (set_test (steps_backwards l block.insts exit) p)
                  (Tracked-bit l ir p sets shape stable h live b_inside)),
      ),
      (
        (λ t.
            steps_backwards-Tracked l ir p b insts exit
              (omega (arith, h, shape.exits.each b b_inside)) (j.at_exit b p h) t),
        λ live. Tracked-bit l ir p sets shape stable h live b_inside,
      ),
    )
