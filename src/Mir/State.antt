-- ===== src/Mir/State.antt =====
-- src/mir/mir_state.h and src/mir/mir_state.c: what the borrow checker knows of each value at a point
-- of a function.
--
-- A slot's array of borrows and its array of fields are lists. `slot_copy`, which copies the arrays
-- of a slot into an arena, is the identity on such values and is not written. The hash map from
-- values to slots is a list of entries; no operation depends on the order of its entries.
pub mod Lattice
pub mod Fields
pub mod Invalidate
pub mod Look
pub mod Merge
mod Tests
use gab.Prelude.{
  ℕ, zero, suc, ◌+◌, ◌-◌, Bool, true, false, not, ◌&&◌, ◌||◌, Option, none, some, List, [], ◌∷◌,
  ◌++◌, ◌==◌, ltb, if◌then◌else◌, length, max,
}
use gab.Types.{bool_eq}
use gab.Mir.{ValueId, value_is_none}

-- In the order of the source's enumeration.
pub data SlotInit : Type 0 where
  unreached uninit moved dangling init : SlotInit

mutual
  pub data Slot : Type 0 where
    slot : SlotInit → List ValueId → Slots → Slot

  pub data Slots : Type 0 where
    nil : Slots
    cons : Slot → Slots → Slots

abbrev pub init_of : Slot → SlotInit
init_of (slot i b f) = i

abbrev pub borrows_of : Slot → List ValueId
borrows_of (slot i b f) = b

abbrev pub fields_of : Slot → Slots
fields_of (slot i b f) = f

abbrev pub field_count : Slots → ℕ
field_count nil = 0
field_count (cons s fs) = suc (field_count fs)

-- The number of a constructor, for the comparisons of `init` that the source makes.
abbrev pub rank : SlotInit → ℕ
rank unreached = 0
rank uninit = 1
rank moved = 2
rank dangling = 3
rank init = 4

abbrev pub init_eq : SlotInit → SlotInit → Bool
init_eq a b = rank a == rank b

-- `(MIRSlot){.init = i}`.
abbrev pub plain : SlotInit → Slot
plain i = slot i [] nil

unfoldable pub borrows_from : List ValueId → ValueId → Bool
borrows_from [] from = false
borrows_from (b ∷ bs) from = b == from || borrows_from bs from

-- `mir_slot_add_borrow`, on the slot's borrows.
unfoldable pub add_borrow : List ValueId → ValueId → List ValueId
unfolding borrows_from
add_borrow borrows from =
    if value_is_none from || borrows_from borrows from then borrows else borrows ++ from ∷ []

unfoldable pub add_borrows : List ValueId → List ValueId → List ValueId
add_borrows borrows [] = borrows
add_borrows borrows (b ∷ bs) = add_borrows (add_borrow borrows b) bs

unfoldable pub fresh_fields : ℕ → SlotInit → Slots
fresh_fields zero i = nil
fresh_fields (suc n) i = cons (plain i) (fresh_fields n i)

unfoldable pub append_fields : Slots → Slots → Slots
append_fields nil gs = gs
append_fields (cons f fs) gs = cons f (append_fields fs gs)

-- `mir_slot_open_fields`.
unfoldable pub open_fields : Slot → ℕ → Slot
unfolding append_fields fresh_fields
open_fields (slot i b fs) count =
    if count == 0 || not (ltb (field_count fs) count)
    then slot i b fs
    else slot i b (append_fields fs (fresh_fields (count - field_count fs) i))

-- The state of a flattened slot after one flattened field.
abbrev pub flatten_init : SlotInit → SlotInit → SlotInit
flatten_init i j = if init_eq i init && init_eq j dangling then dangling else i

-- `mir_slot_flattened`. The result has no fields.
unfoldable mutual
  pub flattened : Slot → Slot
  flattened (slot i b fs) = flatten_fields i (add_borrows [] b) fs

  pub flatten_fields : SlotInit → List ValueId → Slots → Slot
  flatten_fields i b nil = slot i b nil
  flatten_fields i b (cons f fs) =
      flatten_fields (flatten_init i (init_of (flattened f)))
        (add_borrows b (borrows_of (flattened f))) fs

-- `mir_slot_set_all`.
unfoldable mutual
  pub set_all : Slot → SlotInit → Slot
  set_all (slot i b fs) j = slot j b (set_all_fields fs j)

  pub set_all_fields : Slots → SlotInit → Slots
  set_all_fields nil j = nil
  set_all_fields (cons f fs) j = cons (set_all f j) (set_all_fields fs j)

abbrev pub merge_init : SlotInit → SlotInit → SlotInit
merge_init a b = if ltb (rank b) (rank a) then b else a

-- `slot_merge` of a plain slot into another, recursive on the other.
unfoldable mutual
  pub plain_merge : SlotInit → Slot → Slot
  plain_merge i (slot j b gs) =
      if init_eq i unreached
      then slot j b gs
      else if init_eq j unreached
      then plain i
      else slot (merge_init i j) (add_borrows [] b) (plain_merge_fields i gs)

  pub plain_merge_fields : SlotInit → Slots → Slots
  plain_merge_fields i nil = nil
  plain_merge_fields i (cons g gs) = cons (plain_merge i g) (plain_merge_fields i gs)

-- `slot_merge`. A field that one side lacks is taken as a plain field in that side's state.
unfoldable mutual
  pub slot_merge : Slot → Slot → Slot
  slot_merge (slot i b fs) (slot j c gs) =
      if init_eq i unreached
      then slot j c gs
      else if init_eq j unreached
      then slot i b fs
      else slot (merge_init i j) (add_borrows b c) (merge_fields i j fs gs)

  pub merge_fields : SlotInit → SlotInit → Slots → Slots → Slots
  merge_fields i j nil gs = plain_merge_fields i gs
  merge_fields i j (cons f fs) nil = cons (slot_merge f (plain j)) (merge_fields i j fs nil)
  merge_fields i j (cons f fs) (cons g gs) = cons (slot_merge f g) (merge_fields i j fs gs)

-- `slot_invalidate_borrows_of`.
unfoldable mutual
  pub slot_invalidate : Slot → ValueId → Slot
  slot_invalidate (slot i b fs) dropped =
      slot (if init_eq i init && borrows_from b dropped then dangling else i) b
        (fields_invalidate fs dropped)

  pub fields_invalidate : Slots → ValueId → Slots
  fields_invalidate nil dropped = nil
  fields_invalidate (cons f fs) dropped =
      cons (slot_invalidate f dropped) (fields_invalidate fs dropped)

-- Each of the borrows is one of the others.
unfoldable pub borrows_within : List ValueId → List ValueId → Bool
borrows_within [] others = true
borrows_within (b ∷ bs) others = borrows_from others b && borrows_within bs others

unfoldable mutual
  pub slot_equals : Slot → Slot → Bool
  slot_equals (slot i b fs) (slot j c gs) =
      init_eq i j
      && (length b == length c)
      && (field_count fs == field_count gs)
      && (borrows_within b c && fields_equal fs gs)

  pub fields_equal : Slots → Slots → Bool
  fields_equal nil gs = true
  fields_equal (cons f fs) nil = false
  fields_equal (cons f fs) (cons g gs) = slot_equals f g && fields_equal fs gs

pub record State : Type 0 where
  pub slots : List (ValueId × Slot)
  pub unreachable : Bool

unfoldable pub find_slot : List (ValueId × Slot) → ValueId → Slot
find_slot [] value = plain unreached
find_slot ((v, s) ∷ rest) value = if v == value then s else find_slot rest value

unfoldable pub put_slot : List (ValueId × Slot) → ValueId → Slot → List (ValueId × Slot)
put_slot [] value s = (value, s) ∷ []
put_slot ((v, old) ∷ rest) value s =
    if v == value then (v, s) ∷ rest else (v, old) ∷ put_slot rest value s

-- `mir_state_get` and `mir_state_set`.
unfoldable pub state_get : State → ValueId → Slot
unfolding find_slot
state_get state value = find_slot state.slots value

unfoldable pub state_set : State → ValueId → Slot → State
unfolding put_slot
state_set state value s = record state { slots = put_slot state.slots value s }

-- The loop of `mir_state_merge` over the other state's entries.
unfoldable pub merge_entries : State → List (ValueId × Slot) → State
merge_entries state [] = state
merge_entries state ((v, s) ∷ rest) =
    merge_entries (state_set state v (slot_merge (state_get state v) s)) rest

-- `mir_state_merge`.
unfoldable pub state_merge : State → State → State
unfolding merge_entries state_set state_get
state_merge state other =
    if other.unreachable
    then state
    else if state.unreachable
    then other
    else merge_entries state other.slots

unfoldable pub invalidate_entries : List (ValueId × Slot) → ValueId → List (ValueId × Slot)
invalidate_entries [] dropped = []
invalidate_entries ((v, s) ∷ rest) dropped =
    (v, slot_invalidate s dropped) ∷ invalidate_entries rest dropped

-- `mir_state_invalidate_borrows_of`.
unfoldable pub state_invalidate : State → ValueId → State
unfolding invalidate_entries
state_invalidate state dropped = record state { slots = invalidate_entries state.slots dropped }

-- `state_contained_by`.
unfoldable pub entries_within : List (ValueId × Slot) → State → Bool
entries_within [] b = true
entries_within ((v, s) ∷ rest) b = slot_equals s (state_get b v) && entries_within rest b

-- `mir_state_equals`.
unfoldable pub state_equals : State → State → Bool
unfolding entries_within
state_equals a b =
    bool_eq a.unreachable b.unreachable && (entries_within a.slots b && entries_within b.slots a)
