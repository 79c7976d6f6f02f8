-- ===== src/Mir/Liveness/Meaning.antt =====
-- What an instruction reads and what it writes, and which places are live: those that some path through
-- the function reads before it writes them.
--
-- The places of liveness are the values and the fields of a value. A store into such a place, `a = x` or
-- `a.f = x`, writes it, and reads nothing of it. A store to anything else, through a reference or into a
-- part, as `*r = x`, `a[i] = x`, `a.f.g = x` or `a.f[i] = x`, reads the value or the field that it goes
-- through, which it does not write as a whole, and its indices.
use gab.Prelude.{ℕ, ◌≡◌, Bool, true, false, not, ◌||◌, some, List, [], ◌∷◌, if◌then◌else◌}
use gab.Mir.{
  ValueId, BlockId, FieldId, no_id, Op, ProjKind, Projection, Place, Block, Inst, Function,
  place_of, field, deref, index,
}
use gab.Mir.Build.{get_elem?, block_successors}
use gab.Mir.Liveness.{Layout}
use gab.Mir.Liveness.Uses.{any_covers, covers, indices_of, whole_args}

abbrev pub kind_field : ProjKind → FieldId
kind_field (field f) = f
kind_field deref = no_id
kind_field (index at) = no_id

abbrev pub part_field : List Projection → FieldId
part_field [] = no_id
part_field (p ∷ ps) = kind_field p.kind

abbrev pub is_field : ProjKind → Bool
is_field (field f) = true
is_field deref = false
is_field (index at) = false

-- The projections lead to a value or to a field of it.
abbrev pub names_part : List Projection → Bool
names_part [] = true
names_part (p ∷ []) = is_field p.kind
names_part (p ∷ q ∷ ps) = false

-- The value or the field that a place is in, and its indices.
abbrev pub parts : Place → List (ValueId × FieldId)
parts place = (place.base, part_field place.projections) ∷ indices_of place.projections

abbrev pub read_by : Op → Place → List (ValueId × FieldId)
read_by Op.load place = parts place
read_by Op.ref place = parts place
read_by Op.drop place = parts place
read_by Op.store place = if names_part place.projections then [] else parts place
read_by _ place = []

abbrev pub named : Place → List (ValueId × FieldId)
named place =
    if names_part place.projections then (place.base, part_field place.projections) ∷ [] else []

abbrev pub written_by : Op → Place → List (ValueId × FieldId)
written_by Op.store place = named place
written_by Op.null place = named place
written_by Op.storage_live place = (place.base, no_id) ∷ []
written_by Op.storage_dead place = (place.base, no_id) ∷ []
written_by _ place = []

-- An instruction reads its operands, and the places above.
unfoldable pub reads : Layout → Inst → ℕ → Bool
unfolding any_covers
reads l inst p =
    any_covers l (whole_args inst.args) p
    || any_covers l (read_by inst.op (place_of inst.payload)) p

-- An instruction writes its result, and the places above.
unfoldable pub writes : Layout → Inst → ℕ → Bool
unfolding any_covers
writes l inst p =
    any_covers l (written_by inst.op (place_of inst.payload)) p || covers l (inst.result, no_id) p

-- A place is live before the rest of the instructions of a block: the next one reads it, or does not
-- write it and it is live after that; at the end of the block, it is live before a successor.
pub data Live (l : Layout) (ir : Function) (p : ℕ) : BlockId → List Inst → Type 0 where
  read :
      {b : BlockId} {inst : Inst} {rest : List Inst}
      → reads l inst p ≡ true
      → Live l ir p b (inst ∷ rest)
  unwritten :
      {b : BlockId} {inst : Inst} {rest : List Inst}
      → writes l inst p ≡ false
      → Live l ir p b rest
      → Live l ir p b (inst ∷ rest)
  next_block :
      {b : BlockId} (block next : Block) (k : ℕ) (s : BlockId)
      → get_elem? ir.blocks b ≡ some block
      → get_elem? (block_successors block) k ≡ some s
      → get_elem? ir.blocks s ≡ some next
      → Live l ir p s next.insts
      → Live l ir p b []

-- A store whose place is one step away from a value, through a reference or to an element.
abbrev pub one_step : List Projection → Bool
one_step [] = false
one_step (p ∷ []) = not (is_field p.kind)
one_step (p ∷ q ∷ ps) = false

abbrev pub op_is_plain : Op → List Projection → Bool
op_is_plain Op.store ps = not (one_step ps)
op_is_plain Op.null ps = false
op_is_plain _ ps = true

-- No instruction stores to `*r` or `a[i]`, of a value `r` or `a`, or clears a place.
abbrev pub is_plain : Inst → Bool
is_plain inst = op_is_plain inst.op (place_of inst.payload).projections

abbrev pub PlainInsts : List Inst → Type 0
PlainInsts [] = Unit
PlainInsts (inst ∷ insts) = (is_plain inst ≡ true) × PlainInsts insts

abbrev pub PlainBlocks : List Block → Type 0
PlainBlocks [] = Unit
PlainBlocks (block ∷ blocks) = PlainInsts block.insts × PlainBlocks blocks

-- No instruction of the function does.
abbrev pub IsPlain : Function → Type 0
IsPlain ir = PlainBlocks ir.blocks
