-- ===== src/Mir/Liveness/Answers.antt =====
-- What the queries on the sets answer.
use gab.Prelude.{Bool, true, false, List}
use gab.Mir.{ValueId, BlockId, FieldId, Inst, Function}
use gab.Mir.Liveness.{Layout, place_number}
use gab.Mir.Liveness.Meaning.{Live}

-- A field of a value is live, or, of the whole value, the whole or any field is.
abbrev pub LiveValue : Bool → Layout → Function → BlockId → List Inst → ValueId → FieldId → Type 0
LiveValue true l ir b insts value field_id =
    (f : FieldId) × Live l ir (place_number l value f) b insts
LiveValue false l ir b insts value field_id = Live l ir (place_number l value field_id) b insts
