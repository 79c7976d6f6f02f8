-- ===== src/Mir/Borrowck/Reads.antt =====
-- `check_readable` of src/mir/mir_borrowck.c, and the cases of `flow_inst` on storage, drops, loads and
-- references.
use gab.Prelude.{Bool, true, false, Option, none, some, List, [], ◌∷◌, if◌then◌else◌}
use gab.Types.{type_is_indirect}
use gab.Mir.{
  ValueId, value_is_none, ReadKind, read_copy, read_move, Place, Operand, operand_as_value, Inst,
  Span, place_of, read_of,
}
use gab.Mir.State.{
  Slot, slot, nil, plain, State, SlotInit, init, uninit, moved, dangling, unreached, init_of,
  borrows_of, fields_of, init_eq, flattened, set_all, state_get, state_set, state_invalidate,
}
use gab.Mir.Borrowck.Places.{
  Checker, Flow, Complaint, moved_out, freed, unset, report, get, put, type_of, named_slot,
}
use gab.Mir.Borrowck.Sources.{collect_place_sources}

abbrev pub flattened_init : Slot → SlotInit
flattened_init s = init_of (flattened s)

unfoldable pub state_of : State → Place → SlotInit
unfolding named_slot flattened
state_of state place =
    let named = named_slot state place in
    if init_eq (init_of named) init then flattened_init named else init_of named

-- The switch of `check_readable`.
unfoldable pub complaint_of : SlotInit → Bool → Option Complaint
complaint_of moved indirect = some moved_out
complaint_of dangling indirect = some freed
complaint_of uninit indirect = if indirect then some unset else none
complaint_of init indirect = none
complaint_of unreached indirect = none

abbrev pub report_maybe : Checker → Span → Option Complaint → Flow → Flow
report_maybe c span none flow = flow
report_maybe c span (some what) flow = report c span what flow

unfoldable pub check_readable : Checker → Place → Span → Flow → Flow
unfolding state_of complaint_of type_of type_is_indirect report
check_readable c place span flow =
    if value_is_none place.base
    then flow
    else report_maybe c span
        (complaint_of (state_of flow.state place) (type_is_indirect c.types (type_of c place.base)))
        flow

abbrev pub with_init : Slot → SlotInit → Slot
with_init s i = slot i (borrows_of s) (fields_of s)

-- The cases of `flow_inst` on storage.
unfoldable pub storage_live : Place → Flow → Flow
unfolding state_set
storage_live place flow = put flow place.base (plain uninit)

unfoldable pub storage_init : Place → Flow → Flow
unfolding state_set state_get
storage_init place flow = put flow place.base (with_init (get flow place.base) init)

abbrev pub invalidate : Flow → ValueId → Flow
invalidate flow value = record flow { state = state_invalidate flow.state value }

unfoldable pub storage_dead : Place → Flow → Flow
unfolding state_set state_invalidate
storage_dead place flow = put (invalidate flow place.base) place.base (plain uninit)

unfoldable pub drop_args : List Operand → Flow → Flow
unfolding state_invalidate
drop_args [] flow = flow
drop_args (arg ∷ args) flow = drop_args args (invalidate flow (operand_as_value arg))

unfoldable pub drop_place : Place → List Operand → Flow → Flow
unfolding state_invalidate drop_args
drop_place place args flow = drop_args args (invalidate flow place.base)

-- The case `MIR_REF`, and the first part of `MIR_LOAD`.
unfoldable pub take_place : Checker → Inst → Flow → Flow
unfolding check_readable collect_place_sources state_set
take_place c inst flow =
    let place = place_of inst.payload in
    let checked = check_readable c place inst.span flow in
    put checked inst.result (slot init (collect_place_sources c checked.state place []) nil)

abbrev pub is_move : ReadKind → Bool
is_move read_move = true
is_move read_copy = false

-- The case `MIR_LOAD`.
unfoldable pub load : Checker → Inst → Flow → Flow
unfolding take_place set_all state_set state_get
load c inst flow =
    let root = (place_of inst.payload).base in
    let taken = take_place c inst flow in
    if is_move (read_of inst.payload)
    then put taken root (set_all (get taken root) moved)
    else taken
