-- ===== src/Mir/Borrowck.antt =====
-- src/mir/mir_borrowck.c: the borrow checker's walk over the instructions of a block.
--
-- A result is `none` only where the search for the sources of a value ran out of fuel.
pub mod Errors
pub mod Loop
pub mod Places
pub mod Reads
pub mod Search
pub mod Sources
pub mod Stores
mod Tests
pub mod Total
pub mod Whole
use gab.Prelude.{
  ℕ, zero, suc, ◌+◌, ◌/◌, ◌%◌, ◌^◌, Bool, true, false, not, ◌&&◌, ◌||◌, Option, none, some, List,
  [], ◌∷◌, ◌++◌, ◌==◌, if◌then◌else◌, length,
}
use gab.Types.{TypeRef, type_is_indirect}
use gab.Mir.{
  ValueId, FieldId, no_id, value_is_none, Op, ReadKind, read_copy, read_move, Projection, Place,
  Operand, operand_as_value, Inst, Block, Span, place_of, read_of, field, deref, index,
}
use gab.Mir.State.{
  Slot, Slots, slot, nil, plain, State, SlotInit, init, uninit, moved, dangling, unreached, init_of,
  borrows_of, fields_of, init_eq, flattened, set_all, open_fields, state_get, state_set,
  state_invalidate,
}
use gab.Mir.Borrowck.Places.{
  Checker, Flow, Complaint, moved_out, freed, unset, cannot_store, cannot_return, report, get, put,
  type_of, borrows_memory, type_is_unique, named_slot, nth_field, set_field, store_into,
  tracked_depth, reaches_past_its_root,
}
use gab.Mir.Borrowck.Sources.{
  collect_place_sources, sources_of, collect_sources, outlives_its_source,
}
use gab.Mir.Borrowck.Reads.{
  flattened_init, state_of, complaint_of, report_maybe, check_readable, with_init, storage_live,
  storage_init, invalidate, storage_dead, drop_args, drop_place, take_place, is_move, load,
}
use gab.Mir.Borrowck.Stores.{
  report_if, open_path, opened_state, stored_state, first_field, check_stored, store_own,
  with_first, store_value, store,
}

-- The check of an operand of a call.
abbrev pub operand_complaint : SlotInit → SlotInit → Option Complaint
operand_complaint unreached flat = none
operand_complaint _ dangling = some freed
operand_complaint _ moved = some moved_out
operand_complaint _ _ = none

unfoldable pub check_args : Checker → Span → List Operand → Flow → Flow
unfolding state_get flattened report
check_args c span [] flow = flow
check_args c span (arg ∷ args) flow =
    let named = get flow (operand_as_value arg) in
    check_args c span args
      (report_maybe c span (operand_complaint (init_of named) (flattened_init named)) flow)

-- The cases `MIR_CALL`, `MIR_MAKE_SLICE` and `MIR_COPY`.
unfoldable pub produce : Checker → Inst → Flow → Option Flow
unfolding check_args collect_sources state_set
produce c inst flow =
    let checked = check_args c inst.span inst.args flow in
    elim (sources_of c checked.state inst.result []) [
      | none ↦ none
      | some sources ↦ some (put checked inst.result (slot init sources nil))
    ]

-- `bits | (uint32_t)1 << p`: the shifted one is a word of 32 bits, which is 0 from the parameter 32 on,
-- where the shift is undefined in C.
unfoldable pub with_bit : ℕ → ℕ → ℕ
with_bit bits p = if (bits / 2 ^ p) % 2 == 1 then bits else bits + 2 ^ p % 2 ^ 32

-- The loop over the parameters for one source, the first of them numbered `p`.
unfoldable pub mark_params : ℕ → List ValueId → ValueId → ℕ → ℕ
unfolding with_bit
mark_params p [] source bits = bits
mark_params p (param ∷ params) source bits =
    mark_params (suc p) params source (if param == source then with_bit bits p else bits)

unfoldable pub mark_sources : List ValueId → List ValueId → ℕ → ℕ
unfolding mark_params
mark_sources params [] bits = bits
mark_sources params (source ∷ sources) bits =
    mark_sources params sources (mark_params 0 params source bits)

abbrev pub is_freed : SlotInit → SlotInit → Bool
is_freed named flat = not (init_eq named unreached) && init_eq flat dangling

-- The checks of a returned value whose sources are known.
unfoldable pub returned_sources : Checker → Inst → Flow → ValueId → List ValueId → Option Flow
unfolding mark_sources state_get flattened outlives_its_source report
returned_sources c inst flow value sources =
    let returned = get flow value in
    let marked : Flow = record flow {
      returned_params = mark_sources c.ir.params sources flow.returned_params;
    } in
    if is_freed (init_of returned) (flattened_init returned)
    then some (report c inst.span freed marked)
    else report_if c inst.span cannot_return (outlives_its_source c marked.state value no_id no_id)
        marked

unfoldable pub returned_value : Checker → Inst → Flow → ValueId → Option Flow
unfolding borrows_memory collect_sources returned_sources
returned_value c inst flow value =
    if borrows_memory c c.return_type
    then elim (sources_of c flow.state value []) [
      | none ↦ none
      | some sources ↦ returned_sources c inst flow value sources
    ]
    else some flow

-- The case `MIR_RETURN`.
unfoldable pub return_value : Checker → Inst → Flow → Option Flow
unfolding returned_value
return_value c inst flow = with_first inst.args (returned_value c inst flow) flow

-- `flow_inst`.
unfoldable pub flow_op : Checker → Op → Inst → Flow → Option Flow
unfolding storage_live storage_init storage_dead drop_place load take_place store produce
    return_value
flow_op c Op.storage_live inst flow = some (storage_live (place_of inst.payload) flow)
flow_op c Op.storage_init inst flow = some (storage_init (place_of inst.payload) flow)
flow_op c Op.storage_dead inst flow = some (storage_dead (place_of inst.payload) flow)
flow_op c Op.drop inst flow = some (drop_place (place_of inst.payload) inst.args flow)
flow_op c Op.load inst flow = some (load c inst flow)
flow_op c Op.ref inst flow = some (take_place c inst flow)
flow_op c Op.store inst flow = store c inst flow
flow_op c Op.call inst flow = produce c inst flow
flow_op c Op.make_slice inst flow = produce c inst flow
flow_op c Op.copy inst flow = produce c inst flow
flow_op c Op.return inst flow = return_value c inst flow
flow_op c _ inst flow = some flow

abbrev pub flow_inst : Checker → Inst → Flow → Option Flow
flow_inst c inst flow = flow_op c inst.op inst flow

-- `flow_block`.
unfoldable pub flow_insts : Checker → List Inst → Flow → Option Flow
unfolding flow_op
flow_insts c [] flow = some flow
flow_insts c (inst ∷ insts) flow = elim (flow_inst c inst flow) [
  | none ↦ none
  | some after ↦ flow_insts c insts after
]
