-- ===== src/Mir/Borrowck/Tests.antt =====
-- Functions that use a reference after what it names is gone, and the borrow checker's theorems at work.
use gab.Prelude.{
  ℕ, ◌≡◌, ◌≢◌, refl, sym, ap, inl, inr, Bool, true, false, Option, none, some, List, [], ◌∷◌, ◌++◌,
  ◌==◌, if◌then◌else◌, arith, subst,
}
use gab.Types.{TypeKind}
use gab.Mir.{
  Op, operand_value, empty, holds_place, read_copy, read_move, ReadKind, no_id, Span, Inst,
  ValueInfo, ValueId, value_is_none,
}
use gab.Mir.Build.{block_successors}
use gab.Mir.State.{
  slot, nil, init, state_get, find_slot, put_slot, add_borrows, merge_entries, invalidate_entries,
  entries_within, borrows_from, borrows_within, slot_invalidate, slot_merge, slot_equals,
}
use gab.Mir.Borrowck.{flow_insts}
use gab.Mir.Borrowck.Places.{Checker, Flow, freed, moved_out, definition_of}
use gab.Mir.Borrowck.Reads.{load}
use gab.Mir.Borrowck.Search.{ArgsBelow, IsSome, IsOrdered}
use gab.Mir.Borrowck.Total.{flow_insts-IsSome}
use gab.Mir.Borrowck.Whole.{Reports, ReadsWhole}
use gab.Mir.Borrowck.Errors.{storage_dead-Reports, load_move-Reports}
use gab.Mir.Borrowck.Loop.{borrowck, borrowck_walks}

abbrev line : ℕ → Span
line n = record { line = n; column = 1 }

abbrev on_place : Op → ℕ → ReadKind → ℕ → ℕ → Inst
on_place op base kind result n = record {
  op = op;
  type = none;
  result = result;
  args = [];
  payload = holds_place (record { base = base; projections = []; binding = none }) kind no_id;
  ending = none;
  span = line n;
}

abbrev copy_of : ℕ → ℕ → Inst
copy_of value result = record {
  op = Op.copy;
  type = none;
  result = result;
  args = operand_value value ∷ [];
  payload = empty;
  ending = none;
  span = line 9;
}

abbrev info : ValueInfo
info = record { type = some 0; binding = none; span = line 1 }

abbrev checker : List Inst → Checker
checker insts = record {
  borrows = λ t. false;
  is_unique = λ t. false;
  borrowed_params = λ f. none;
  types = λ t. record {
    kind = TypeKind.ref;
    name = none;
    decl = none;
    args = [];
    has_param = false;
    pointee = none;
    param_index = 0;
  };
  ir = record {
    blocks = record { id = 0; insts = insts } ∷ [];
    entry = 0;
    values = info ∷ info ∷ info ∷ info ∷ [];
    params = [];
  };
  layout = record { value_base = []; value_fields = []; place_count = 0 };
  live = record { entry = []; exit = []; changed = false };
  return_type = none;
  reporting = true;
}

-- A reference to value 1 is loaded after the storage of value 1 has ended.
abbrev after_end : List Inst
after_end =
    on_place Op.storage_live 1 read_copy no_id 1
    ∷ on_place Op.storage_init 1 read_copy no_id 2
    ∷ on_place Op.ref 1 read_copy 2 3
    ∷ on_place Op.storage_dead 1 read_copy no_id 4
    ∷ on_place Op.load 2 read_copy 3 5
    ∷ []

run :
    borrowck (λ t. 0) (checker after_end) 3
    ≡ some (record { reports = (line 5, freed) ∷ []; borrowed_params = none })
unfolding borrowck borrowck_walks block_successors find_slot put_slot add_borrows merge_entries
    invalidate_entries entries_within borrows_from borrows_within slot_invalidate slot_merge
    slot_equals
run = refl

abbrev c : Checker
c = checker (copy_of 1 2 ∷ [])

-- Value 2 borrows from value 1.
abbrev flow : Flow
flow = record {
  state = record { slots = (2, slot init (1 ∷ []) nil) ∷ []; unreachable = false };
  returned_params = 0;
  reports = [];
}

abbrev ending : Inst
ending = on_place Op.storage_dead 1 read_copy no_id 4

abbrev reading : Inst
reading = on_place Op.load 2 read_copy 3 5

abbrev moving : Inst
moving = on_place Op.load 2 read_move 3 6

abbrev reads : ReadsWhole reading 2
reads = record { reads = inl refl; base = refl; whole = refl }

two_ne_one : (◌≢◌ {A = ℕ} 2 1)
two_ne_one h = omega (arith, h)

storage_dead_example : Reports (flow_insts c (ending ∷ reading ∷ []) flow) ((line 5, freed) ∷ [])
unfolding state_get borrows_from
storage_dead_example =
    storage_dead-Reports c flow ending reading 2 refl refl reads refl two_ne_one refl refl

load_move_example :
    Reports
      (flow_insts c (moving ∷ reading ∷ []) flow)
      ((load c moving flow).reports ++ (line 5, moved_out) ∷ [])
load_move_example = load_move-Reports c flow moving reading refl refl refl refl reads

by_test :
    (missing here : Bool) (inst : Inst)
    → (if missing
        then none
        else elim (if here then some (copy_of 1 2) else none) as (λ x. Option Inst) [
          | none ↦ none
          | some found ↦ some found
        ])
      ≡ some inst
    → (here ≡ true) × (inst.args ≡ operand_value 1 ∷ [])
by_test true here inst h = absurd (cc h)
by_test false true inst h =
    let same : copy_of 1 2 ≡ inst = cc h in (refl, ap (λ (i : Inst). i.args) (sym same))
by_test false false inst h = absurd (cc h)

two : (v : ℕ) → (2 == v) ≡ true → v ≡ 2
two v h = ground arith

-- The only definition is that of value 2.
only_copy :
    (v : ValueId) (inst : Inst)
    → definition_of c v ≡ some inst
    → (v ≡ 2) × (inst.args ≡ operand_value 1 ∷ [])
unfolding definition_of
only_copy v inst h =
    let (here, args) = by_test (value_is_none v) (2 == v) inst h in (two v here, args)

ordered : IsOrdered c
ordered = record {
  counted = λ v inst h. omega (arith, (only_copy v inst h).0);
  ordered = λ v inst h.
      let (is_two, args) = only_copy v inst h in
      subst (ArgsBelow v) (sym args) ((inr (omega (arith, is_two)), tt));
}

flow_insts_example : IsSome (flow_insts c (ending ∷ copy_of 1 2 ∷ []) flow)
flow_insts_example = flow_insts-IsSome c (ending ∷ copy_of 1 2 ∷ []) flow ordered
