-- ===== src/Mir/Build.antt =====
-- src/mir/mir.c: the operations that build and read a function of the intermediate representation.
pub mod Laws
mod Tests
use gab.Prelude.{
  ℕ, zero, suc, Bool, true, false, ◌||◌, Option, none, some, List, [], ◌∷◌, ◌++◌, leb,
  if◌then◌else◌,
}
use gab.Types.{
  TypeKind, TypeRef, TypeHeap, type_is_indirect, type_pointee, kind_test, kind_is_slice,
}
use gab.Mir.{
  ValueId, BlockId, no_id, value_is_none, block_is_none, Op, deref, index, Projection, Place, Span,
  Inst, Block, ValueInfo, Function, block_count, value_count, first_target, second_target,
  op_is_terminator,
}

-- `mir_block_create`: the new block and the function that holds it at the end.
unfoldable pub block_create : Function → Block × Function
block_create ir =
    let block : Block = record { id = block_count ir; insts = [] } in
    (block, record ir { blocks = ir.blocks ++ block ∷ [] })

abbrev pub no_function : Function
no_function = record { blocks = []; entry = no_id; values = []; params = [] }

-- `mir_function_create`.
unfoldable pub function_create : Function
unfolding block_create
function_create = let (block, ir) = block_create no_function in record ir { entry = block.id }

unfoldable pub get_elem? {ℓ} : {A : Type ℓ} → List A → ℕ → Option A
get_elem? [] i = none
get_elem? (x ∷ xs) zero = some x
get_elem? (x ∷ xs) (suc i) = get_elem? xs i

-- `mir_block_at`: `none` is `NULL`.
unfoldable pub block_at : Function → BlockId → Option Block
unfolding get_elem?
block_at ir id =
    if block_is_none id || leb (block_count ir) id then none else get_elem? ir.blocks id

-- `mir_value_create`.
unfoldable pub value_create : Function → Option TypeRef → Option ℕ → Span → ValueId × Function
value_create ir type binding span = (
  value_count ir,
  record ir { values = ir.values ++ record { type = type; binding = binding; span = span } ∷ [] },
)

-- `mir_value_info`.
unfoldable pub value_info : Function → ValueId → Option ValueInfo
unfolding get_elem?
value_info ir value =
    if value_is_none value || leb (value_count ir) value then none else get_elem? ir.values value

-- `mir_emit`, on the block itself.
unfoldable pub emit : Block → Inst → Block
emit block inst = record block { insts = block.insts ++ inst ∷ [] }

unfoldable pub place_at : ValueId → Option ℕ → Place
place_at base binding = record { base = base; projections = []; binding = binding }

-- `mir_place_project`: a fresh array, so that the place it grew from is left alone.
unfoldable pub place_project : Place → Projection → Place
place_project place projection = record place { projections = place.projections ++ projection ∷ [] }

-- The last instruction of a block.
pub last_inst : List Inst → Option Inst
last_inst [] = none
last_inst (inst ∷ []) = some inst
last_inst (inst ∷ next ∷ rest) = last_inst (next ∷ rest)

-- `mir_block_is_terminated`.
unfoldable pub block_is_terminated : Block → Bool
unfolding last_inst
block_is_terminated block = elim (last_inst block.insts) [
  | none ↦ false
  | some inst ↦ op_is_terminator inst.op
]

abbrev pub op_targets : Op → BlockId → BlockId → List BlockId
op_targets Op.jmp first second = first ∷ []
op_targets Op.branch first second = first ∷ second ∷ []
op_targets _ first second = []

abbrev pub targets_of : Inst → List BlockId
targets_of inst = op_targets inst.op (first_target inst.payload) (second_target inst.payload)

-- `mir_block_successors`.
unfoldable pub block_successors : Block → List BlockId
unfolding last_inst block_is_terminated
block_successors block =
    if block_is_terminated block
    then elim (last_inst block.insts) [ none ↦ [] | some inst ↦ targets_of inst ]
    else []

module _ (types : TypeHeap) where
  -- `mir_indexed_container`: follows references to what they name. The fuel bounds the chain of
  -- references; `none` means that it ran out.
  pub indexed_container : ℕ → Option TypeRef → Option (Option TypeRef)
  unfolding type_is_indirect type_pointee
  indexed_container zero type = none
  indexed_container (suc fuel) type =
      let rest = indexed_container fuel (type_pointee types type) in
      if type_is_indirect types type then rest else some type

  -- `mir_place_index`.
  unfoldable pub place_index : Place → TypeRef → ValueId → Option TypeRef → Place
  unfolding place_project type_is_indirect type_pointee
  place_index base container at element =
      let based : Place = elim (types container).kind [
        | TypeKind.raw ↦ place_project base (record { kind = deref; type = some container })
        | _ ↦
            if type_is_indirect types (some container)
            then place_project base
                (record { kind = deref; type = type_pointee types (some container) })
            else base
      ] in
      place_project based (record { kind = index at; type = element })

  -- `mir_bounds_operands`, with the fuel of `mir_indexed_container`.
  unfoldable pub bounds_operands : ℕ → Place → Option TypeRef → ValueId → Option (List ValueId)
  unfolding indexed_container
  bounds_operands fuel indexed container at = elim (indexed_container fuel container) [
    | none ↦ none
    | some found ↦
        some (if kind_test types kind_is_slice found then at ∷ indexed.base ∷ [] else at ∷ [])
  ]
