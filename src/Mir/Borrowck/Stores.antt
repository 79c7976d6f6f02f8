-- ===== src/Mir/Borrowck/Stores.antt =====
-- The case `MIR_STORE` of `flow_inst` of src/mir/mir_borrowck.c.
use gab.Prelude.{
  ℕ, zero, suc, ◌+◌, Bool, true, false, ◌&&◌, Option, none, some, List, [], ◌∷◌, ◌==◌,
  if◌then◌else◌,
}
use gab.Mir.{
  ValueId, FieldId, no_id, value_is_none, Projection, Place, Operand, operand_as_value, Inst, Span,
  place_of, field, deref, index,
}
use gab.Mir.State.{
  Slot, slot, nil, State, init, init_of, borrows_of, fields_of, open_fields, state_get, state_set,
  state_invalidate,
}
use gab.Mir.Borrowck.Places.{
  Checker, Flow, Complaint, cannot_store, report, type_of, borrows_memory, type_is_unique,
  nth_field, set_field, store_into, tracked_depth, reaches_past_its_root,
}
use gab.Mir.Borrowck.Sources.{sources_of, collect_sources, outlives_its_source}
use gab.Mir.Borrowck.Reads.{with_init}

abbrev pub report_if : Checker → Span → Complaint → Option Bool → Flow → Option Flow
report_if c span what none flow = none
report_if c span what (some true) flow = some (report c span what flow)
report_if c span what (some false) flow = some flow

-- The loop that opens the fields of a stored place, over the first `depth` projections.
unfoldable pub open_path : ℕ → List Projection → Slot → Slot
unfolding open_fields
open_path zero ps s = s
open_path (suc depth) [] s = s
open_path (suc depth) (p ∷ ps) s = elim p.kind [
  | field f ↦
      let opened = open_fields s (f + 1) in
      elim (nth_field (fields_of opened) f) [
        | none ↦ opened
        | some inner ↦
            slot (init_of opened) (borrows_of opened)
              (set_field (fields_of opened) f (open_path depth ps inner))
      ]
  | deref ↦ s
  | index at ↦ s
]

-- The state that a store opens the fields in.
unfoldable pub opened_state : Place → State → State
unfolding tracked_depth open_path state_get state_set
opened_state place state =
    let depth = tracked_depth place.projections in
    if depth == 0
    then state
    else state_set state place.base
        (open_path depth place.projections (with_init (state_get state place.base) init))

-- Where `store_into` fails, the borrows of the value are added to those of the whole.
abbrev pub stored_state : Checker → Place → ValueId → State → Option State → Option State
stored_state c place value state (some after) = some after
stored_state c place value state none =
    let s = state_get state place.base in
    elim (sources_of c state value (borrows_of s)) [
      | none ↦ none
      | some all ↦ some (state_set state place.base (slot init all (fields_of s)))
    ]

abbrev pub first_field : List Projection → FieldId
first_field [] = no_id
first_field (p ∷ ps) = elim p.kind [ field f ↦ f | deref ↦ no_id | index at ↦ no_id ]

-- The report of a store: whether what is stored outlives what it names.
unfoldable pub check_stored : Checker → Inst → ValueId → ValueId → FieldId → Flow → Option Flow
unfolding borrows_memory type_of outlives_its_source report
check_stored c inst value held_in field_id flow =
    if borrows_memory c (type_of c value)
    then report_if c inst.span cannot_store
        (outlives_its_source c flow.state value held_in field_id) flow
    else some flow

-- The case `MIR_STORE` for a place that does not reach past its root, and the value stored.
unfoldable pub store_own : Checker → Inst → Place → ValueId → Flow → Option Flow
unfolding collect_sources type_of state_invalidate opened_state store_into check_stored
    tracked_depth
store_own c inst place value flow =
    let depth = tracked_depth place.projections in
    elim (sources_of c flow.state value []) [
      | none ↦ none
      | some sources ↦
          let replaced =
            if depth == 0 && type_is_unique c (type_of c place.base)
            then state_invalidate flow.state place.base
            else flow.state in
          let opened = opened_state place replaced in
          elim (stored_state c place value opened
            (store_into opened place depth (slot init sources nil))) [
              | none ↦ none
              | some after ↦
                  check_stored c inst value place.base (first_field place.projections)
                    (record flow { state = after })
            ]
    ]

-- The cases that do nothing where there is no operand.
abbrev pub with_first : List Operand → (ValueId → Option Flow) → Flow → Option Flow
with_first [] act flow = some flow
with_first (arg ∷ args) act flow = act (operand_as_value arg)

unfoldable pub store_value : Checker → Inst → Flow → ValueId → Option Flow
unfolding reaches_past_its_root check_stored store_own
store_value c inst flow value =
    let place = place_of inst.payload in
    if value_is_none place.base
    then some flow
    else if reaches_past_its_root place.projections
    then check_stored c inst value no_id no_id flow
    else store_own c inst place value flow

unfoldable pub store : Checker → Inst → Flow → Option Flow
unfolding store_value
store c inst flow = with_first inst.args (store_value c inst flow) flow
