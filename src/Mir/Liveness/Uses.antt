-- ===== src/Mir/Liveness/Uses.antt =====
-- What the code of mir_liveness.c takes an instruction to read and to write, as a table of places. The
-- steps follow it; Mir/Liveness/Meaning.antt says what is read and written.
use gab.Prelude.{
  ℕ, zero, suc, Bool, false, not, ◌&&◌, ◌||◌, ◌==◌, List, [], ◌∷◌, ltb, if◌then◌else◌, length,
  get_or,
}
use gab.Mir.{
  ValueId, FieldId, no_id, field_is_whole, Op, Projection, Place, Operand, operand_as_value, Inst,
  place_of, field, deref, index,
}
use gab.Mir.Liveness.{Layout, value_missing, place_number, leading_field}

-- The places that a value and a field name, as a test.
unfoldable pub any_field : Layout → ValueId → ℕ → ℕ → Bool
any_field l value zero p = false
any_field l value (suc n) p = p == place_number l value n || any_field l value n p

unfoldable pub covers : Layout → ValueId × FieldId → ℕ → Bool
unfolding any_field
covers l (value, field_id) p =
    not (value_missing l value)
    && (p == place_number l value field_id
        || field_is_whole field_id && any_field l value (get_or l.value_fields value 0) p)

unfoldable pub any_covers : Layout → List (ValueId × FieldId) → ℕ → Bool
unfolding covers
any_covers l [] p = false
any_covers l (place ∷ places) p = covers l place p || any_covers l places p

abbrev pub indices_of : List Projection → List (ValueId × FieldId)
indices_of [] = []
indices_of (p ∷ ps) = elim p.kind [
  | field f ↦ indices_of ps
  | deref ↦ indices_of ps
  | index at ↦ (at, no_id) ∷ indices_of ps
]

abbrev pub whole_args : List Operand → List (ValueId × FieldId)
whole_args [] = []
whole_args (arg ∷ args) = (operand_as_value arg, no_id) ∷ whole_args args

abbrev pub store_reads : Place → List (ValueId × FieldId)
store_reads place =
    if ltb 1 (length place.projections)
    then (place.base, leading_field place.projections) ∷ indices_of place.projections
    else indices_of place.projections

abbrev pub place_read : Place → List (ValueId × FieldId)
place_read place = (place.base, leading_field place.projections) ∷ indices_of place.projections

abbrev pub op_reads : Op → Place → List (ValueId × FieldId)
op_reads Op.store place = store_reads place
op_reads Op.load place = place_read place
op_reads Op.ref place = place_read place
op_reads Op.drop place = place_read place
op_reads _ place = []

abbrev pub op_writes : Op → Place → List (ValueId × FieldId)
op_writes Op.store place = (place.base, leading_field place.projections) ∷ []
op_writes Op.storage_live place = (place.base, no_id) ∷ []
op_writes Op.storage_dead place = (place.base, no_id) ∷ []
op_writes _ place = []

-- Whether the code adds a place to the set before an instruction.
unfoldable pub uses : Layout → Inst → ℕ → Bool
unfolding any_covers
uses l inst p =
    any_covers l (whole_args inst.args) p
    || any_covers l (op_reads inst.op (place_of inst.payload)) p

-- Whether the code removes a place from the set before it adds those that it adds.
unfoldable pub kills : Layout → Inst → ℕ → Bool
unfolding any_covers
kills l inst p =
    any_covers l (op_writes inst.op (place_of inst.payload)) p || covers l (inst.result, no_id) p
