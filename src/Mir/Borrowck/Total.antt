-- ===== src/Mir/Borrowck/Total.antt =====
-- The walk over the instructions ends where the search for sources does.
use gab.Prelude.{Bool, true, false, ◌&&◌, Option, none, some, List, [], ◌∷◌, ◌==◌, if◌then◌else◌}
use gab.Mir.{
  ValueId, FieldId, no_id, value_is_none, Op, Place, Operand, operand_as_value, Inst, Span,
  place_of,
}
use gab.Mir.State.{
  State, state_get, state_set, state_invalidate, fields_of, borrows_of, init_of, slot, nil, init,
}
use gab.Mir.Borrowck.Reads.{flattened_init}
use gab.Mir.Borrowck.Stores.{
  report_if, opened_state, stored_state, first_field, check_stored, store_own, with_first,
  store_value, store,
}
use gab.Mir.Borrowck.{
  check_args, produce, mark_sources, is_freed, returned_sources, returned_value, return_value,
  flow_op, flow_inst, flow_insts,
}
use gab.Mir.Borrowck.Places.{
  Checker, Flow, freed, report, get, put, Complaint, cannot_return, cannot_store, borrows_memory,
  type_of, type_is_unique, tracked_depth, store_into, reaches_past_its_root,
}
use gab.Mir.Borrowck.Sources.{sources_of, outlives_its_source, outlives_one}
use gab.Mir.Borrowck.Search.{IsSome, IsOrdered, bind-IsSome, choose-IsSome, sources_of-IsSome}

outlives-IsSome :
    (c : Checker) (state : State) (value held_in : ValueId) (field_id : FieldId)
    → IsOrdered c
    → IsSome (outlives_its_source c state value held_in field_id)
unfolding outlives_its_source
outlives-IsSome c state value held_in field_id ordered =
    bind-IsSome (sources_of c state value [])
      (λ sources. some (outlives_one c held_in field_id sources))
      (sources_of-IsSome c state value [] ordered) (λ sources. tt)

report_if-IsSome :
    (c : Checker) (span : Span) (what : Complaint) (o : Option Bool) (flow : Flow)
    → IsSome o
    → IsSome (report_if c span what o flow)
report_if-IsSome c span what none flow h = h
report_if-IsSome c span what (some true) flow h = tt
report_if-IsSome c span what (some false) flow h = tt

check_stored-IsSome :
    (c : Checker) (inst : Inst) (value held_in : ValueId) (field_id : FieldId) (flow : Flow)
    → IsOrdered c
    → IsSome (check_stored c inst value held_in field_id flow)
unfolding check_stored
check_stored-IsSome c inst value held_in field_id flow ordered =
    let asked = outlives_its_source c flow.state value held_in field_id in
    choose-IsSome (borrows_memory c (type_of c value))
      (report_if c inst.span cannot_store asked flow) (some flow)
      (report_if-IsSome c inst.span cannot_store asked flow
        (outlives-IsSome c flow.state value held_in field_id ordered))
      tt

stored_state-IsSome :
    (c : Checker) (place : Place) (value : ValueId) (state : State) (o : Option State)
    → IsOrdered c
    → IsSome (stored_state c place value state o)
stored_state-IsSome c place value state (some after) ordered = tt
stored_state-IsSome c place value state none ordered =
    let s = state_get state place.base in
    bind-IsSome (sources_of c state value (borrows_of s))
      (λ all. some (state_set state place.base (slot init all (fields_of s))))
      (sources_of-IsSome c state value (borrows_of s) ordered) (λ all. tt)

store_own-IsSome :
    (c : Checker) (inst : Inst) (place : Place) (value : ValueId) (flow : Flow)
    → IsOrdered c
    → IsSome (store_own c inst place value flow)
unfolding store_own
store_own-IsSome c inst place value flow ordered =
    let depth = tracked_depth place.projections in
    let replaced =
      if depth == 0 && type_is_unique c (type_of c place.base)
      then state_invalidate flow.state place.base
      else flow.state in
    let opened = opened_state place replaced in
    let check = λ (after : State).
      check_stored c inst value place.base (first_field place.projections)
        (record flow { state = after }) in
    let written = λ (sources : List ValueId).
      stored_state c place value opened (store_into opened place depth (slot init sources nil)) in
    bind-IsSome (sources_of c flow.state value [])
      (λ sources. elim (written sources) [ none ↦ none | some after ↦ check after ])
      (sources_of-IsSome c flow.state value [] ordered)
      (λ sources.
        bind-IsSome (written sources) check
          (stored_state-IsSome c place value opened
            (store_into opened place depth (slot init sources nil)) ordered)
          (λ after.
            check_stored-IsSome c inst value place.base (first_field place.projections)
              (record flow { state = after }) ordered))

with_first-IsSome :
    (args : List Operand) (act : ValueId → Option Flow) (flow : Flow)
    → ((value : ValueId) → IsSome (act value))
    → IsSome (with_first args act flow)
with_first-IsSome [] act flow h = tt
with_first-IsSome (arg ∷ args) act flow h = h (operand_as_value arg)

store_value-IsSome :
    (c : Checker) (inst : Inst) (flow : Flow) (value : ValueId)
    → IsOrdered c
    → IsSome (store_value c inst flow value)
unfolding store_value
store_value-IsSome c inst flow value ordered =
    let place = place_of inst.payload in
    let past = check_stored c inst value no_id no_id flow in
    let own = store_own c inst place value flow in
    choose-IsSome (value_is_none place.base) (some flow)
      (if reaches_past_its_root place.projections then past else own) tt
      (choose-IsSome (reaches_past_its_root place.projections) past own
        (check_stored-IsSome c inst value no_id no_id flow ordered)
        (store_own-IsSome c inst place value flow ordered))

store-IsSome : (c : Checker) (inst : Inst) (flow : Flow) → IsOrdered c → IsSome (store c inst flow)
unfolding store
store-IsSome c inst flow ordered =
    with_first-IsSome inst.args (store_value c inst flow) flow
      (λ value. store_value-IsSome c inst flow value ordered)

produce-IsSome :
    (c : Checker) (inst : Inst) (flow : Flow) → IsOrdered c → IsSome (produce c inst flow)
unfolding produce
produce-IsSome c inst flow ordered =
    let checked = check_args c inst.span inst.args flow in
    bind-IsSome (sources_of c checked.state inst.result [])
      (λ sources. some (put checked inst.result (slot init sources nil)))
      (sources_of-IsSome c checked.state inst.result [] ordered) (λ sources. tt)

returned_sources-IsSome :
    (c : Checker) (inst : Inst) (flow : Flow) (value : ValueId) (sources : List ValueId)
    → IsOrdered c
    → IsSome (returned_sources c inst flow value sources)
unfolding returned_sources
returned_sources-IsSome c inst flow value sources ordered =
    let returned = get flow value in
    let marked : Flow = record flow {
      returned_params = mark_sources c.ir.params sources flow.returned_params;
    } in
    let asked = outlives_its_source c marked.state value no_id no_id in
    choose-IsSome (is_freed (init_of returned) (flattened_init returned))
      (some (report c inst.span freed marked)) (report_if c inst.span cannot_return asked marked) tt
      (report_if-IsSome c inst.span cannot_return asked marked
        (outlives-IsSome c marked.state value no_id no_id ordered))

returned_value-IsSome :
    (c : Checker) (inst : Inst) (flow : Flow) (value : ValueId)
    → IsOrdered c
    → IsSome (returned_value c inst flow value)
unfolding returned_value
returned_value-IsSome c inst flow value ordered =
    let found = elim (sources_of c flow.state value []) as (λ x. Option Flow) [
      | none ↦ none
      | some sources ↦ returned_sources c inst flow value sources
    ] in
    choose-IsSome (borrows_memory c c.return_type) found (some flow)
      (bind-IsSome (sources_of c flow.state value []) (returned_sources c inst flow value)
        (sources_of-IsSome c flow.state value [] ordered)
        (λ sources. returned_sources-IsSome c inst flow value sources ordered))
      tt

return_value-IsSome :
    (c : Checker) (inst : Inst) (flow : Flow) → IsOrdered c → IsSome (return_value c inst flow)
unfolding return_value
return_value-IsSome c inst flow ordered =
    with_first-IsSome inst.args (returned_value c inst flow) flow
      (λ value. returned_value-IsSome c inst flow value ordered)

flow_op-IsSome :
    (c : Checker) (op : Op) (inst : Inst) (flow : Flow)
    → IsOrdered c
    → IsSome (flow_op c op inst flow)
unfolding flow_op
flow_op-IsSome c Op.store inst flow ordered = store-IsSome c inst flow ordered
flow_op-IsSome c Op.call inst flow ordered = produce-IsSome c inst flow ordered
flow_op-IsSome c Op.make_slice inst flow ordered = produce-IsSome c inst flow ordered
flow_op-IsSome c Op.copy inst flow ordered = produce-IsSome c inst flow ordered
flow_op-IsSome c Op.return inst flow ordered = return_value-IsSome c inst flow ordered
flow_op-IsSome c _ inst flow ordered = tt

-- Where defined values are numbered in the order of their definitions, walking the borrow checker over
-- any instructions from any state gives a result: no search for sources runs out of fuel.
pub flow_insts-IsSome :
    (c : Checker) (insts : List Inst) (flow : Flow) → IsOrdered c → IsSome (flow_insts c insts flow)
unfolding flow_insts
flow_insts-IsSome c [] flow ordered = tt
flow_insts-IsSome c (inst ∷ insts) flow ordered =
    bind-IsSome (flow_inst c inst flow) (λ after. flow_insts c insts after)
      (flow_op-IsSome c inst.op inst flow ordered)
      (λ after. flow_insts-IsSome c insts after ordered)
