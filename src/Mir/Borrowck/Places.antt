-- ===== src/Mir/Borrowck/Places.antt =====
-- src/mir/mir_borrowck.c: the slots of places, and where a value's borrows come from.
--
-- What the registry of types tells of a type, whether it borrows memory and whether a value of it
-- alone names an object, and what is known of a callee's parameters are parameters. The reports of a
-- flow are the messages that `report` passes on.
use gab.Prelude.{
  ℕ, zero, suc, ◌/◌, ◌%◌, ◌^◌, Bool, true, false, not, ◌&&◌, ◌||◌, Option, none, some, List, [],
  ◌∷◌, ◌++◌, ◌==◌, leb, if◌then◌else◌,
}
use gab.Types.{TypeRef, TypeHeap}
use gab.Mir.{
  ValueId, value_is_none, Projection, Place, Inst, Block, Function, Span, field, deref, index,
  Payload, holds_callee,
}
use gab.Mir.Build.{value_info}
use gab.Mir.Liveness.{Layout, Sets}
use gab.Mir.State.{
  Slot, Slots, slot, nil, cons, State, init_of, borrows_of, fields_of, state_get, state_set,
}

-- The parts of `MIRFlow` that do not change.
pub record Checker : Type 0 where
  pub borrows : TypeRef → Bool
  pub is_unique : TypeRef → Bool
  pub borrowed_params : ℕ → Option ℕ
  pub types : TypeHeap
  pub ir : Function
  pub layout : Layout
  pub live : Sets
  pub return_type : Option TypeRef
  pub reporting : Bool

pub data Complaint : Type 0 where
  moved_out freed unset cannot_store cannot_return : Complaint

-- The parts of `MIRFlow` that change, and what was reported.
pub record Flow : Type 0 where
  pub state : State
  pub returned_params : ℕ
  pub reports : List (Span × Complaint)

unfoldable pub report : Checker → Span → Complaint → Flow → Flow
report c span what flow =
    if c.reporting then record flow { reports = flow.reports ++ (span, what) ∷ [] } else flow

abbrev pub get : Flow → ValueId → Slot
get flow value = state_get flow.state value

abbrev pub put : Flow → ValueId → Slot → Flow
put flow value s = record flow { state = state_set flow.state value s }

abbrev pub callee_of : Payload → Option ℕ
callee_of (holds_callee callee) = callee
callee_of _ = none

-- `call_result_may_name`.
abbrev pub param_named : Option ℕ → ℕ → Bool
param_named none i = true
param_named (some params) i = leb 32 i || (params / 2 ^ i) % 2 == 1

unfoldable pub call_result_may_name : Checker → Option ℕ → ℕ → Bool
call_result_may_name c none i = true
call_result_may_name c (some callee) i = param_named (c.borrowed_params callee) i

unfoldable pub type_of : Checker → ValueId → Option TypeRef
unfolding value_info
type_of c value = elim (value_info c.ir value) [ none ↦ none | some info ↦ info.type ]

unfoldable pub borrows_memory : Checker → Option TypeRef → Bool
borrows_memory c none = false
borrows_memory c (some type) = c.borrows type

abbrev pub type_is_unique : Checker → Option TypeRef → Bool
type_is_unique c none = false
type_is_unique c (some type) = c.is_unique type

unfoldable pub holds_its_own_object : Checker → ValueId → Bool
unfolding type_of
holds_its_own_object c value = type_is_unique c (type_of c value)

unfoldable pub among : List ValueId → ValueId → Bool
among [] value = false
among (p ∷ ps) value = p == value || among ps value

unfoldable pub is_parameter : Checker → ValueId → Bool
unfolding among
is_parameter c value = among c.ir.params value

abbrev pub nth_field : Slots → ℕ → Option Slot
nth_field nil i = none
nth_field (cons f fs) zero = some f
nth_field (cons f fs) (suc i) = nth_field fs i

abbrev pub set_field : Slots → ℕ → Slot → Slots
set_field nil i s = nil
set_field (cons f fs) zero s = cons s fs
set_field (cons f fs) (suc i) s = cons f (set_field fs i s)

-- The loop of `slot_of` over the projections of a place.
unfoldable pub slot_within : List Projection → Slot → Option Slot
slot_within [] s = some s
slot_within (p ∷ ps) s = elim p.kind [
  | field f ↦ elim (nth_field (fields_of s) f) [ none ↦ none | some inner ↦ slot_within ps inner ]
  | deref ↦ some s
  | index at ↦ some s
]

unfoldable pub slot_of : State → Place → Option Slot
unfolding slot_within state_get
slot_of state place =
    if value_is_none place.base
    then none
    else slot_within place.projections (state_get state place.base)

-- What `slot_of` gives, or else the slot of the whole.
unfoldable pub named_slot : State → Place → Slot
unfolding slot_of state_get
named_slot state place = elim (slot_of state place) [
  | none ↦ state_get state place.base
  | some s ↦ s
]

-- The write of `store_into` at a depth of its projections.
unfoldable pub stored_within : ℕ → List Projection → Slot → Slot → Option Slot
stored_within zero ps s stored = some stored
stored_within (suc depth) [] s stored = none
stored_within (suc depth) (p ∷ ps) s stored = elim p.kind [
  | field f ↦ elim (nth_field (fields_of s) f) [
    | none ↦ none
    | some inner ↦ elim (stored_within depth ps inner stored) [
      | none ↦ none
      | some after ↦ some (slot (init_of s) (borrows_of s) (set_field (fields_of s) f after))
    ]
  ]
  | deref ↦ none
  | index at ↦ none
]

-- `store_into`: `none` is the result `false`.
unfoldable pub store_into : State → Place → ℕ → Slot → Option State
unfolding stored_within state_get state_set
store_into state place depth stored =
    if value_is_none place.base
    then none
    else elim (stored_within depth place.projections (state_get state place.base) stored) [
      | none ↦ none
      | some after ↦ some (state_set state place.base after)
    ]

unfoldable pub tracked_depth : List Projection → ℕ
tracked_depth [] = 0
tracked_depth (p ∷ ps) = elim p.kind [ field f ↦ suc (tracked_depth ps) | deref ↦ 0 | index at ↦ 0 ]

unfoldable pub reaches_past_its_root : List Projection → Bool
reaches_past_its_root [] = false
reaches_past_its_root (p ∷ ps) = elim p.kind [
  | field f ↦ reaches_past_its_root ps
  | deref ↦ true
  | index at ↦ reaches_past_its_root ps
]

unfoldable pub defining_inst : List Inst → ValueId → Option Inst
defining_inst [] value = none
defining_inst (inst ∷ insts) value =
    if not (value_is_none inst.result) && inst.result == value
    then some inst
    else defining_inst insts value

unfoldable pub defining_block : List Block → ValueId → Option Inst
unfolding defining_inst
defining_block [] value = none
defining_block (block ∷ blocks) value = elim (defining_inst block.insts value) [
  | none ↦ defining_block blocks value
  | some inst ↦ some inst
]

unfoldable pub definition_of : Checker → ValueId → Option Inst
unfolding defining_block
definition_of c value = if value_is_none value then none else defining_block c.ir.blocks value
