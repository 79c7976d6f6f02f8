-- ===== src/Mir/Liveness.antt =====
-- src/mir/mir_liveness.c: which values, and which fields of them, are read later on.
--
-- A set of places is the list of its bits, which the code packs into words of 64. The sets of the
-- blocks, which it keeps one after the other in an array, are a list of sets. How many fields
-- the registry of types gives a struct is a parameter, the count of `type_registry_fields_of`.
pub mod Backwards
pub mod Exact
pub mod Meaning
pub mod Plain
pub mod Bits
pub mod Justified
pub mod Paths
pub mod Queries
pub mod Answers
pub mod Settle
pub mod Fixpoint
pub mod Sizes
pub mod Sound
pub mod Unions
mod Tests
pub mod Uses
use gab.Prelude.{
  ℕ, zero, suc, ◌+◌, ◌*◌, Bool, true, false, not, ◌&&◌, ◌||◌, Option, none, some, List, [], ◌∷◌,
  leb, ltb, if◌then◌else◌, length, get_or, set, replicate,
}
use gab.Types.{TypeKind, TypeRef, TypeHeap}
use gab.Mir.{
  ValueId, BlockId, FieldId, no_id, value_is_none, block_is_none, field_is_whole, Op, Projection,
  Place, Operand, operand_as_value, Inst, Block, ValueInfo, Function, place_of, value_count,
  block_count, field, deref, index,
}
use gab.Mir.Build.{block_at, block_successors}

abbrev pub PlaceSet : Type 0
PlaceSet = List Bool

-- The part of `Liveness` that numbers the places: for each value, the place of the whole and the
-- number of its fields, whose places follow.
pub record Layout : Type 0 where
  pub value_base : List ℕ
  pub value_fields : List ℕ
  pub place_count : ℕ

-- The sets of the blocks, and whether the loop has changed one.
pub record Sets : Type 0 where
  pub entry : List PlaceSet
  pub exit : List PlaceSet
  pub changed : Bool

abbrev pub value_missing : Layout → ValueId → Bool
value_missing l value = value_is_none value || leb (length l.value_fields) value

-- `place_index` of mir_liveness.c.
unfoldable pub place_number : Layout → ValueId → FieldId → ℕ
place_number l value field_id =
    if field_is_whole field_id || leb (get_or l.value_fields value 0) field_id
    then get_or l.value_base value 0
    else get_or l.value_base value 0 + 1 + field_id

abbrev pub set_test : PlaceSet → ℕ → Bool
set_test places i = get_or places i false

abbrev pub set_add : PlaceSet → ℕ → PlaceSet
set_add places i = set places i true

abbrev pub set_remove : PlaceSet → ℕ → PlaceSet
set_remove places i = set places i false

-- The loop over the first `n` fields of a value.
unfoldable pub each_field : Layout → (PlaceSet → ℕ → PlaceSet) → ValueId → ℕ → PlaceSet → PlaceSet
unfolding place_number
each_field l change value zero places = places
each_field l change value (suc n) places =
    change (each_field l change value n places) (place_number l value n)

-- What `read_place` and `write_place` share.
unfoldable pub over_place :
    Layout → (PlaceSet → ℕ → PlaceSet) → ValueId → FieldId → PlaceSet → PlaceSet
unfolding place_number each_field
over_place l change value field_id places =
    if value_missing l value
    then places
    else if field_is_whole field_id
    then each_field l change value (get_or l.value_fields value 0)
        (change places (place_number l value field_id))
    else change places (place_number l value field_id)

unfoldable pub read_place : Layout → PlaceSet → ValueId → FieldId → PlaceSet
unfolding over_place
read_place l places value field_id = over_place l set_add value field_id places

unfoldable pub write_place : Layout → PlaceSet → ValueId → FieldId → PlaceSet
unfolding over_place
write_place l places value field_id = over_place l set_remove value field_id places

abbrev pub leading_field : List Projection → FieldId
leading_field [] = no_id
leading_field (p ∷ ps) = elim p.kind [ field f ↦ f | deref ↦ no_id | index at ↦ no_id ]

-- The loop over the indices of a place.
unfoldable pub read_indices : Layout → List Projection → PlaceSet → PlaceSet
unfolding read_place
read_indices l [] places = places
read_indices l (p ∷ ps) places = elim p.kind [
  | field f ↦ read_indices l ps places
  | deref ↦ read_indices l ps places
  | index at ↦ read_indices l ps (read_place l places at no_id)
]

unfoldable pub place_reads : Layout → Place → PlaceSet → PlaceSet
unfolding read_place read_indices
place_reads l place places =
    read_indices l place.projections
      (read_place l places place.base (leading_field place.projections))

-- The case `MIR_STORE` of `step_backwards`.
unfoldable pub store_writes : Layout → Place → PlaceSet → PlaceSet
unfolding write_place read_place read_indices
store_writes l place places =
    let written = write_place l places place.base (leading_field place.projections) in
    read_indices l place.projections (
      if ltb 1 (length place.projections)
      then read_place l written place.base (leading_field place.projections)
      else written)

-- What `step_backwards` does for the operation.
unfoldable pub op_backwards : Layout → Op → Place → PlaceSet → PlaceSet
unfolding store_writes place_reads write_place
op_backwards l Op.store place places = store_writes l place places
op_backwards l Op.load place places = place_reads l place places
op_backwards l Op.ref place places = place_reads l place places
op_backwards l Op.drop place places = place_reads l place places
op_backwards l Op.storage_live place places = write_place l places place.base no_id
op_backwards l Op.storage_dead place places = write_place l places place.base no_id
op_backwards l _ place places = places

unfoldable pub read_args : Layout → List Operand → PlaceSet → PlaceSet
unfolding read_place
read_args l [] places = places
read_args l (arg ∷ args) places =
    read_args l args (read_place l places (operand_as_value arg) no_id)

unfoldable pub step_backwards : Layout → Inst → PlaceSet → PlaceSet
unfolding write_place op_backwards read_args
step_backwards l inst places = read_args l inst.args (
    op_backwards l inst.op (place_of inst.payload)
      (if value_is_none inst.result then places else write_place l places inst.result no_id))

-- The steps over the instructions of a block, from the last to the first.
unfoldable pub steps_backwards : Layout → List Inst → PlaceSet → PlaceSet
unfolding step_backwards
steps_backwards l [] places = places
steps_backwards l (inst ∷ insts) places = step_backwards l inst (steps_backwards l insts places)

-- `dest[w] |= src[w]` over a set, and whether it changed.
unfoldable pub union_into : PlaceSet → PlaceSet → PlaceSet × Bool
union_into [] ys = ([], false)
union_into (x ∷ xs) [] = (x ∷ xs, false)
union_into (x ∷ xs) (y ∷ ys) =
    let (zs, changed) = union_into xs ys in ((x || y) ∷ zs, not x && y || changed)

-- The loop over the successors of a block.
unfoldable pub merge_successors : List PlaceSet → List BlockId → PlaceSet × Bool → PlaceSet × Bool
unfolding union_into
merge_successors entry [] (places, changed) = (places, changed)
merge_successors entry (s ∷ ss) (places, changed) =
    let (merged, more) = union_into places (get_or entry s []) in
    merge_successors entry ss (merged, changed || more)

-- The body of the loop over the blocks.
unfoldable pub flow_block : Layout → ℕ → Block → Sets → Sets
unfolding merge_successors steps_backwards union_into
flow_block l i block sets =
    let (exit, exit_changed) =
      merge_successors sets.entry (block_successors block) (get_or sets.exit i [], sets.changed) in
    let (entry, changed) =
      union_into (get_or sets.entry i []) (steps_backwards l block.insts exit) in
    record {
      entry = set sets.entry i entry;
      exit = set sets.exit i exit;
      changed = exit_changed || changed;
    }

-- The blocks from the one numbered `i` on, the last of them first.
unfoldable pub flow_blocks : Layout → ℕ → List Block → Sets → Sets
unfolding flow_block
flow_blocks l i [] sets = sets
flow_blocks l i (block ∷ blocks) sets = flow_block l i block (flow_blocks l (suc i) blocks sets)

-- `while (changed)`. Each turn takes fuel; `none` means that it ran out.
unfoldable pub settle : Layout → List Block → ℕ → Sets → Option Sets
unfolding flow_blocks
settle l blocks zero sets = none
settle l blocks (suc fuel) sets =
    let after = flow_blocks l 0 blocks (record sets { changed = false }) in
    let rest = settle l blocks fuel after in if after.changed then rest else some after

module _ (fields_of : TypeRef → ℕ) (types : TypeHeap) where
  abbrev pub fields_of_type : Option TypeRef → ℕ
  fields_of_type none = 0
  fields_of_type (some type) = elim (types type).kind [ TypeKind.struct ↦ fields_of type | _ ↦ 0 ]

  -- The loop that numbers the places of the values, after `places` of them.
  unfoldable pub layout_from : ℕ → List ValueInfo → Layout
  layout_from places [] = record { value_base = []; value_fields = []; place_count = places }
  layout_from places (info ∷ values) =
      let fields = fields_of_type info.type in
      let rest = layout_from (places + (1 + fields)) values in
      record {
        value_base = places ∷ rest.value_base;
        value_fields = fields ∷ rest.value_fields;
        place_count = rest.place_count;
      }

  unfoldable pub layout_of : Function → Layout
  unfolding layout_from
  layout_of ir = layout_from 0 ir.values

abbrev pub no_sets : Layout → Function → List PlaceSet
no_sets l ir = replicate (block_count ir) (replicate l.place_count false)

-- The loop has one turn for every place at either end of a block, and one more.
abbrev pub turns : Layout → Function → ℕ
turns l ir = suc (2 * (block_count ir * l.place_count))

-- The sets of `mir_liveness_compute`, for the layout of the function.
unfoldable pub liveness_compute : Layout → Function → Option Sets
unfolding settle
liveness_compute l ir =
    settle l ir.blocks (turns l ir)
      (record { entry = no_sets l ir; exit = no_sets l ir; changed = true })
