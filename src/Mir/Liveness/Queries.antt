-- ===== src/Mir/Liveness/Queries.antt =====
-- The queries of src/mir/mir_liveness.c on the sets, and what they answer.
use gab.Prelude.{ℕ, zero, suc, Bool, false, ◌||◌, none, some, List, [], ◌∷◌, if◌then◌else◌, get_or}
use gab.Mir.{ValueId, BlockId, FieldId, no_id, block_is_none, field_is_whole, Inst, Function}
use gab.Mir.Build.{block_at}
use gab.Mir.Liveness.{
  PlaceSet, Layout, Sets, value_missing, place_number, set_test, steps_backwards,
}

-- The loop of `any_field_live` over the first `n` fields.
unfoldable pub first_fields_live : Layout → PlaceSet → ValueId → ℕ → Bool
unfolding place_number
first_fields_live l places value zero = false
first_fields_live l places value (suc n) =
    first_fields_live l places value n || set_test places (place_number l value n)

unfoldable pub any_field_live : Layout → PlaceSet → ValueId → Bool
unfolding place_number first_fields_live
any_field_live l places value =
    set_test places (place_number l value no_id)
    || first_fields_live l places value (get_or l.value_fields value 0)

-- `mir_live_on_entry` and `mir_live_on_exit`, of the sets that they read.
unfoldable pub live_in : Layout → List PlaceSet → BlockId → ValueId → Bool
unfolding any_field_live
live_in l sets block value =
    if block_is_none block || value_missing l value
    then false
    else any_field_live l (get_or sets block []) value

abbrev pub live_on_entry : Layout → Sets → BlockId → ValueId → Bool
live_on_entry l sets block value = live_in l sets.entry block value

abbrev pub live_on_exit : Layout → Sets → BlockId → ValueId → Bool
live_on_exit l sets block value = live_in l sets.exit block value

-- `mir_live_set_holds`.
unfoldable pub live_set_holds : Layout → PlaceSet → ValueId → Bool
unfolding any_field_live
live_set_holds l places value =
    if value_missing l value then false else any_field_live l places value

-- The sets that `mir_live_walk_block` visits, the set after the last instruction first.
unfoldable pub visited : Layout → List Inst → PlaceSet → List PlaceSet
unfolding steps_backwards
visited l [] places = []
visited l (inst ∷ insts) places =
    visited_last (visited l insts places) (steps_backwards l insts places)
  where
    visited_last : List PlaceSet → PlaceSet → List PlaceSet
    visited_last [] last = last ∷ []
    visited_last (x ∷ xs) last = x ∷ visited_last xs last

unfoldable pub live_walk_block : Layout → Function → Sets → BlockId → List PlaceSet
unfolding visited block_at
live_walk_block l ir sets block = elim (block_at ir block) [
  | none ↦ []
  | some data_of ↦ visited l data_of.insts (get_or sets.exit block [])
]

-- The instructions from an index on.
abbrev pub from_index : ℕ → List Inst → List Inst
from_index zero insts = insts
from_index (suc n) [] = []
from_index (suc n) (inst ∷ insts) = from_index n insts

-- `mir_live_after`.
unfoldable pub live_after : Layout → Function → Sets → BlockId → ℕ → ValueId → FieldId → Bool
unfolding any_field_live steps_backwards block_at place_number
live_after l ir sets block i value field_id =
    if block_is_none block || value_missing l value then false else elim (block_at ir block) [
      | none ↦ false
      | some data_of ↦
          let working =
            steps_backwards l (from_index (suc i) data_of.insts) (get_or sets.exit block []) in
          if field_is_whole field_id
          then any_field_live l working value
          else set_test working (place_number l value field_id)
    ]
