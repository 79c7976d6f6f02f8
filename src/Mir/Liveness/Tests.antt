-- ===== src/Mir/Liveness/Tests.antt =====
-- A function of two blocks, its live places, and the theorems on liveness at work on it.
use gab.Prelude.{
  ℕ, ◌≡◌, ◌↔◌, refl, true, false, not, ◌&&◌, ◌||◌, none, some, List, [], ◌∷◌, length, get_or, arith,
}
use gab.Types.{TypeKind, TypeHeap}
use gab.Mir.{
  Op, Operand, operand_value, empty, holds_place, holds_targets, read_copy, no_id, field, deref,
  Place, Span, Inst, Block, ValueInfo, Function,
}
use gab.Mir.Build.{block_successors, get_elem?}
use gab.Mir.Liveness.{
  PlaceSet, Layout, Sets, layout_of, liveness_compute, step_backwards, steps_backwards, set_test,
  place_number,
}
use gab.Mir.Liveness.Uses.{covers, any_covers}
use gab.Mir.Liveness.Meaning.{reads, writes, Live, IsPlain}
use gab.Mir.Liveness.Plain.{step_backwards_lem}
use gab.Mir.Liveness.Backwards.{store_through-bit}
use gab.Mir.Liveness.Sound.{liveness_compute_ends}
use gab.Mir.Liveness.Exact.{liveness_compute-Live}
use gab.Mir.Liveness.Queries.{from_index}

abbrev types : TypeHeap
types t = record {
  kind = TypeKind.struct;
  name = none;
  decl = none;
  args = [];
  has_param = false;
  pointee = none;
  param_index = 0;
}

abbrev two_fields : ℕ → ℕ
two_fields t = 2

abbrev here : Span
here = record { line = 1; column = 1 }

abbrev field_place : ℕ → Place
field_place f = record {
  base = 0;
  projections = record { kind = field f; type = none } ∷ [];
  binding = none;
}

abbrev inst_of : Op → ℕ → List Operand → Place → Inst
inst_of op result args place = record {
  op = op;
  type = none;
  result = result;
  args = args;
  payload = holds_place place read_copy no_id;
  ending = none;
  span = here;
}

-- Stores into field 1 of value 0, and goes on.
abbrev first : Block
first = record {
  id = 0;
  insts =
      inst_of Op.store no_id (operand_value 1 ∷ []) (field_place 1)
      ∷ record {
        op = Op.jmp;
        type = none;
        result = no_id;
        args = [];
        payload = holds_targets 1 0;
        ending = none;
        span = here;
      }
      ∷ [];
}

-- Loads field 0 of value 0.
abbrev second : Block
second = record {
  id = 1;
  insts =
      inst_of Op.load 2 [] (field_place 0)
      ∷ record {
        op = Op.return;
        type = none;
        result = no_id;
        args = operand_value 2 ∷ [];
        payload = empty;
        ending = none;
        span = here;
      }
      ∷ [];
}

abbrev untyped : ValueInfo
untyped = record { type = none; binding = none; span = here }

abbrev ir : Function
ir = record {
  blocks = first ∷ second ∷ [];
  entry = 0;
  values = record { type = some 0; binding = none; span = here } ∷ untyped ∷ untyped ∷ [];
  params = 0 ∷ 1 ∷ [];
}

abbrev l : Layout
l = layout_of two_fields types ir

-- Places: the whole of value 0, its two fields, value 1, value 2.
abbrev settled : Sets
settled = record {
  entry =
      (false ∷ true ∷ false ∷ true ∷ false ∷ []) ∷ (false ∷ true ∷ false ∷ false ∷ false ∷ []) ∷ [];
  exit =
      (false ∷ true ∷ false ∷ false ∷ false ∷ [])
      ∷ (false ∷ false ∷ false ∷ false ∷ false ∷ [])
      ∷ [];
  changed = false;
}

compute : liveness_compute l ir ≡ some settled
unfolding layout_of liveness_compute block_successors
compute = refl

liveness_compute_ends_example : (sets : Sets) × (liveness_compute l ir ≡ some sets)
liveness_compute_ends_example = liveness_compute_ends l ir

plain : IsPlain ir
plain = ((refl, (refl, tt)), ((refl, (refl, tt)), tt))

-- Before the load, field 0 of value 0 is live, at place 1.
liveness_compute_example :
    ((set_test (get_or settled.entry 1 []) 1 ≡ true) ↔ Live l ir 1 1 second.insts)
    × ((set_test (steps_backwards l (from_index 0 second.insts) (get_or settled.exit 1 [])) 1
          ≡ true)
        ↔ Live l ir 1 1 (from_index 0 second.insts))
unfolding layout_of get_elem?
liveness_compute_example =
    liveness_compute-Live l ir settled 1 second 0 1 plain compute refl (omega arith)

abbrev set_after : PlaceSet
set_after = false ∷ true ∷ true ∷ false ∷ false ∷ []

abbrev a_store : Inst
a_store = inst_of Op.store no_id (operand_value 1 ∷ []) (field_place 1)

step_backwards_example :
    (length (step_backwards l a_store set_after) ≡ length set_after)
    × (set_test (step_backwards l a_store set_after) 2
        ≡ (reads l a_store 2 || (not (writes l a_store 2) && set_test set_after 2)))
step_backwards_example = step_backwards_lem l a_store set_after 2 refl (omega arith)

abbrev through : Place
through = record {
  base = 2;
  projections = record { kind = deref; type = none } ∷ [];
  binding = none;
}

abbrev store_at : Inst
store_at = inst_of Op.store no_id (operand_value 1 ∷ []) through

store_through_example : set_test (step_backwards l store_at set_after) 4 ≡ false
unfolding layout_of covers any_covers place_number
store_through_example =
    store_through-bit l store_at set_after 4 none refl refl refl refl (omega arith)
