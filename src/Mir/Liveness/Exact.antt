-- ===== src/Mir/Liveness/Exact.antt =====
-- The sets that `mir_liveness_compute` ends with are exact on functions of plain instructions.
use gab.Prelude.{
  ℕ, zero, suc, ◌<◌, ◌≡◌, ◌↔◌, sym, ◌∙◌, inl, inr, true, some, List, [], ◌∷◌, get_or, Bool-cases,
  subst,
}
use gab.Mir.{BlockId, Block, Inst, Function}
use gab.Mir.Build.{get_elem?}
use gab.Mir.Liveness.{Layout, Sets, set_test, steps_backwards, liveness_compute}
use gab.Mir.Liveness.Meaning.{
  reads, Live, read, unwritten, next_block, PlainInsts, PlainBlocks, IsPlain,
}
use gab.Mir.Liveness.Plain.{uses-reads, kills-writes}
use gab.Mir.Liveness.Paths.{Tracked, used, kept, onward}
use gab.Mir.Liveness.Sound.{liveness_compute-Tracked}
use gab.Mir.Liveness.Queries.{from_index}

PlainBlocks-at :
    (blocks : List Block) (b : ℕ) (block : Block)
    → PlainBlocks blocks
    → get_elem? blocks b ≡ some block
    → PlainInsts block.insts
unfolding get_elem?
PlainBlocks-at [] b block plain at = absurd (cc at)
PlainBlocks-at (x ∷ xs) zero block plain at =
    let same : x ≡ block = cc at in subst (λ (y : Block). PlainInsts y.insts) same plain.0
PlainBlocks-at (x ∷ xs) (suc b) block plain at = PlainBlocks-at xs b block plain.1 at

pub PlainInsts-from :
    (k : ℕ) (insts : List Inst) → PlainInsts insts → PlainInsts (from_index k insts)
PlainInsts-from zero insts plain = plain
PlainInsts-from (suc k) [] plain = tt
PlainInsts-from (suc k) (inst ∷ insts) plain = PlainInsts-from k insts plain.1

Tracked-Live :
    (l : Layout) (ir : Function) (p : ℕ) {b : BlockId} {insts : List Inst}
    → IsPlain ir
    → PlainInsts insts
    → Tracked l ir p b insts
    → Live l ir p b insts
Tracked-Live l ir p {insts = inst ∷ rest} all plain (used is_used) =
    read (sym (uses-reads l inst p plain.0) ∙ is_used)
Tracked-Live l ir p {insts = inst ∷ rest} all plain (kept no_kill live) =
    elim (Bool-cases (reads l inst p)) [
      | inl is_read ↦ read is_read
      | inr no_read ↦
          unwritten (sym (kills-writes l inst p plain.0 no_read) ∙ no_kill)
            (Tracked-Live l ir p all plain.1 live)
    ]
Tracked-Live l ir p all plain (onward block next k s here succ there live) =
    next_block block next k s here succ there
      (Tracked-Live l ir p all (PlainBlocks-at ir.blocks s next all there) live)

Live-Tracked :
    (l : Layout) (ir : Function) (p : ℕ) {b : BlockId} {insts : List Inst}
    → IsPlain ir
    → PlainInsts insts
    → Live l ir p b insts
    → Tracked l ir p b insts
Live-Tracked l ir p {insts = inst ∷ rest} all plain (read is_read) =
    used (uses-reads l inst p plain.0 ∙ is_read)
Live-Tracked l ir p {insts = inst ∷ rest} all plain (unwritten no_write live) =
    elim (Bool-cases (reads l inst p)) [
      | inl is_read ↦ used (uses-reads l inst p plain.0 ∙ is_read)
      | inr no_read ↦
          kept (kills-writes l inst p plain.0 no_read ∙ no_write)
            (Live-Tracked l ir p all plain.1 live)
    ]
Live-Tracked l ir p all plain (next_block block next k s here succ there live) =
    onward block next k s here succ there
      (Live-Tracked l ir p all (PlainBlocks-at ir.blocks s next all there) live)

-- On a function without stores to `*r` or `a[i]` and without instructions that clear a place, the sets
-- that `mir_liveness_compute` ends with are exact. A place is in the set of a block's entry, or in what
-- the steps back from the set of its exit to one of its instructions leave, exactly if a path of the
-- function from there reads the place before it writes it; a store into a part of a place counts as a
-- read of the place.
pub liveness_compute-Live :
    (l : Layout) (ir : Function) (sets : Sets) (b : BlockId) (block : Block) (k p : ℕ)
    → IsPlain ir
    → liveness_compute l ir ≡ some sets
    → get_elem? ir.blocks b ≡ some block
    → p < l.place_count
    → ((set_test (get_or sets.entry b []) p ≡ true) ↔ Live l ir p b block.insts)
      × ((set_test (steps_backwards l (from_index k block.insts) (get_or sets.exit b [])) p ≡ true)
          ↔ Live l ir p b (from_index k block.insts))
liveness_compute-Live l ir sets b block k p all e at h =
    let insts = from_index k block.insts in
    let (start, back) = liveness_compute-Tracked l ir sets b block insts p e at h in
    let plain = PlainBlocks-at ir.blocks b block all at in
    let plain_rest = PlainInsts-from k block.insts plain in
    (
      (
        (λ t. Tracked-Live l ir p all plain (start.0 t)),
        λ live. start.1 (Live-Tracked l ir p all plain live),
      ),
      (
        (λ t. Tracked-Live l ir p all plain_rest (back.0 t)),
        λ live. back.1 (Live-Tracked l ir p all plain_rest live),
      ),
    )
