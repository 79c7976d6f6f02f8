-- ===== src/Mir/Borrowck/Sources.antt =====
-- src/mir/mir_borrowck.c: the values that a value may borrow from, and whether it outlives them.
use gab.Prelude.{
  ℕ, zero, suc, Bool, true, false, not, ◌&&◌, ◌||◌, Option, none, some, List, [], ◌∷◌, ◌==◌,
  if◌then◌else◌, length,
}
use gab.Mir.{
  ValueId, FieldId, value_is_none, Op, Place, Operand, operand_as_value, Inst, Block, value_count,
  place_of,
}
use gab.Mir.Liveness.Queries.{live_after}
use gab.Mir.State.{
  State, moved, init_of, borrows_of, init_eq, add_borrow, add_borrows, flattened, state_get,
}
use gab.Mir.Borrowck.Places.{
  Checker, callee_of, call_result_may_name, type_of, borrows_memory, type_is_unique,
  holds_its_own_object, is_parameter, named_slot, definition_of,
}

-- `collect_place_sources`, on the borrows that are collected.
unfoldable pub collect_place_sources : Checker → State → Place → List ValueId → List ValueId
unfolding holds_its_own_object named_slot flattened add_borrow state_get
collect_place_sources c state place into =
    let root = place.base in
    let flat = flattened (named_slot state place) in
    let all = add_borrows into (borrows_of flat) in
    if value_is_none root
    then into
    else if holds_its_own_object c root && not (init_eq (init_of (state_get state root)) moved)
    then add_borrow into root
    else if length (borrows_of flat) == 0 && not (init_eq (init_of flat) moved)
    then add_borrow all root
    else all

-- The case of `collect_sources` where no instruction defines the value.
unfoldable pub collect_undefined : Checker → State → ValueId → List ValueId → List ValueId
unfolding holds_its_own_object borrows_memory type_of flattened add_borrow state_get
collect_undefined c state value into =
    let flat = flattened (state_get state value) in
    let all = add_borrows into (borrows_of flat) in
    if not (length (borrows_of flat) == 0)
    then all
    else if borrows_memory c (type_of c value) || holds_its_own_object c value
    then add_borrow all value
    else all

-- The loops of `collect_sources` over the operands, those that `keep` lets through.
unfoldable pub collect_each :
    (ValueId → List ValueId → Option (List ValueId))
    → (ℕ → Bool)
    → ℕ
    → List Operand
    → List ValueId
    → Option (List ValueId)
collect_each collect keep i [] into = some into
collect_each collect keep i (arg ∷ args) into =
    let here = if keep i then collect (operand_as_value arg) into else some into in
    elim here [ none ↦ none | some after ↦ collect_each collect keep (suc i) args after ]

abbrev pub every : ℕ → Bool
every i = true

-- The cases of `collect_sources` on the instruction that defines the value.
unfoldable pub collect_op :
    Checker
    → (ValueId → List ValueId → Option (List ValueId))
    → State
    → Op
    → Inst
    → List ValueId
    → Option (List ValueId)
unfolding collect_place_sources collect_each call_result_may_name borrows_memory
collect_op c collect state Op.load inst into =
    some (collect_place_sources c state (place_of inst.payload) into)
collect_op c collect state Op.ref inst into =
    some (collect_place_sources c state (place_of inst.payload) into)
collect_op c collect state Op.copy inst into = collect_each collect every 0 inst.args into
collect_op c collect state Op.make_slice inst into = collect_each collect every 0 inst.args into
collect_op c collect state Op.call inst into =
    collect_each collect (call_result_may_name c (callee_of inst.payload)) 0 inst.args into
collect_op c collect state _ inst into =
    if borrows_memory c inst.type then collect_each collect every 0 inst.args into else some into

-- `collect_sources`. The fuel bounds the chain of definitions; `none` means that it ran out.
unfoldable pub collect_sources :
    Checker → State → ℕ → ValueId → List ValueId → Option (List ValueId)
unfolding definition_of collect_undefined collect_op
collect_sources c state zero value into = none
collect_sources c state (suc fuel) value into = elim (definition_of c value) [
  | none ↦ some (collect_undefined c state value into)
  | some inst ↦ collect_op c (collect_sources c state fuel) state inst.op inst into
]

-- With as much fuel as there are values, and one more.
abbrev pub sources_of : Checker → State → ValueId → List ValueId → Option (List ValueId)
sources_of c state value into = collect_sources c state (suc (value_count c.ir)) value into

abbrev pub ends_storage : Op → Bool
ends_storage Op.storage_dead = true
ends_storage Op.drop = true
ends_storage _ = false

-- The loop of `live_where_storage_ends` over the instructions of a block, from the one numbered `j`.
unfoldable pub live_at_end_in : Checker → Block → ValueId → ValueId → FieldId → ℕ → List Inst → Bool
unfolding live_after
live_at_end_in c block source held_in field_id j [] = false
live_at_end_in c block source held_in field_id j (inst ∷ insts) =
    ends_storage inst.op
      && (place_of inst.payload).base == source
      && live_after c.layout c.ir c.live block.id j held_in field_id
    || live_at_end_in c block source held_in field_id (suc j) insts

unfoldable pub live_at_end : Checker → ValueId → ValueId → FieldId → List Block → Bool
unfolding live_at_end_in
live_at_end c source held_in field_id [] = false
live_at_end c source held_in field_id (block ∷ blocks) =
    live_at_end_in c block source held_in field_id 0 block.insts
    || live_at_end c source held_in field_id blocks

unfoldable pub live_where_storage_ends : Checker → ValueId → ValueId → FieldId → Bool
unfolding live_at_end
live_where_storage_ends c source held_in field_id =
    live_at_end c source held_in field_id c.ir.blocks

-- The loop of `outlives_its_source` over the sources.
unfoldable pub outlives_one : Checker → ValueId → FieldId → List ValueId → Bool
unfolding is_parameter type_of live_where_storage_ends
outlives_one c held_in field_id [] = false
outlives_one c held_in field_id (source ∷ sources) =
    not (is_parameter c source)
      && not (type_is_unique c (type_of c source))
      && (value_is_none held_in || live_where_storage_ends c source held_in field_id)
    || outlives_one c held_in field_id sources

-- `outlives_its_source`. The field is the whole value where the source has no field.
unfoldable pub outlives_its_source : Checker → State → ValueId → ValueId → FieldId → Option Bool
unfolding collect_sources outlives_one
outlives_its_source c state borrow held_in field_id = elim (sources_of c state borrow []) [
  | none ↦ none
  | some sources ↦ some (outlives_one c held_in field_id sources)
]
