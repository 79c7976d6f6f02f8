-- ===== src/Mir/Borrowck/Whole.antt =====
-- What the borrow checker reports of an instruction that reads a whole value.
use gab.Prelude.{
  ℕ, ◌≡◌, ◌≢◌, refl, ap, ◌∙◌, ◌⊎◌, inl, inr, Bool, true, false, Option, none, some, List, [], ◌∷◌,
  ◌++◌, ◌==◌, if◌then◌else◌, arith, Bool-cases,
}
use gab.Types.{type_is_indirect}
use gab.Mir.{ValueId, value_is_none, Op, Place, Inst, Span, place_of, read_of}
use gab.Mir.State.{State, Slot, SlotInit, init, init_of, init_eq, state_get, state_set}
use gab.Mir.State.Merge.{find-put}
use gab.Mir.Borrowck.Places.{
  Checker, Flow, Complaint, report, get, put, type_of, named_slot, slot_of, slot_within,
}
use gab.Mir.Borrowck.Reads.{
  flattened_init, state_of, complaint_of, check_readable, take_place, is_move, load,
}
use gab.Mir.Borrowck.{flow_op, flow_insts}

pub get-put :
    (flow : Flow) (v w : ValueId) (s : Slot)
    → get (put flow v s) w ≡ (if v == w then s else get flow w)
unfolding state_get state_set
get-put flow v w s = find-put flow.state.slots v w s

pub test_same : (v : ℕ) → (v == v) ≡ true
test_same v = ground arith

pub test_other : (v w : ℕ) → w ≢ v → (v == w) ≡ false
test_other v w h = ground (arith, h)

slot_of_whole :
    (state : State) (place : Place)
    → value_is_none place.base ≡ false
    → place.projections ≡ []
    → slot_of state place ≡ some (state_get state place.base)
unfolding slot_of slot_within
slot_of_whole state place some_base whole = rw (some_base, whole) refl

named_whole :
    (state : State) (place : Place)
    → value_is_none place.base ≡ false
    → place.projections ≡ []
    → named_slot state place ≡ state_get state place.base
unfolding named_slot
named_whole state place some_base whole =
    ap (λ (o : Option Slot). elim o [ none ↦ state_get state place.base | some s ↦ s ])
      (slot_of_whole state place some_base whole)

not_ordinary :
    (s : Slot) (i j : SlotInit)
    → init_of s ≡ i
    → init_eq i init ≡ false
    → (if init_eq (init_of s) init then j else init_of s) ≡ i
not_ordinary s i j e other = rw (e, other) refl

-- The state of a whole value whose slot is not the ordinary one.
state_of-whole :
    (state : State) (place : Place) (i : SlotInit)
    → value_is_none place.base ≡ false
    → place.projections ≡ []
    → init_of (state_get state place.base) ≡ i
    → init_eq i init ≡ false
    → state_of state place ≡ i
unfolding state_of
state_of-whole state place i some_base whole e other =
    let named = named_slot state place in
    not_ordinary named i (flattened_init named)
      (ap init_of (named_whole state place some_base whole) ∙ e) other

-- A check of a whole value that is moved or dangling.
check_readable-whole :
    (c : Checker) (place : Place) (span : Span) (flow : Flow) (i : SlotInit) (what : Complaint)
    → c.reporting ≡ true
    → value_is_none place.base ≡ false
    → place.projections ≡ []
    → init_of (get flow place.base) ≡ i
    → init_eq i init ≡ false
    → ((indirect : Bool) → complaint_of i indirect ≡ some what)
    → (check_readable c place span flow).reports ≡ flow.reports ++ (span, what) ∷ []
unfolding check_readable report
check_readable-whole c place span flow i what on some_base whole e other complaint =
    let state = state_of-whole flow.state place i some_base whole e other in
    rw (some_base, state, complaint (type_is_indirect c.types (type_of c place.base)), on) refl

-- An instruction that reads a whole value.
pub record ReadsWhole (inst : Inst) (r : ValueId) : Type 0 where
  pub reads : (inst.op ≡ Op.load) ⊎ (inst.op ≡ Op.ref)
  pub base : (place_of inst.payload).base ≡ r
  pub whole : (place_of inst.payload).projections ≡ []

take_place-reports :
    (c : Checker) (inst : Inst) (flow : Flow)
    → (take_place c inst flow).reports
      ≡ (check_readable c (place_of inst.payload) inst.span flow).reports
unfolding take_place
take_place-reports c inst flow = refl

load-reports :
    (c : Checker) (inst : Inst) (flow : Flow)
    → (load c inst flow).reports ≡ (check_readable c (place_of inst.payload) inst.span flow).reports
unfolding load
load-reports c inst flow = elim (Bool-cases (is_move (read_of inst.payload))) [
  | inl move ↦ rw move (take_place-reports c inst flow)
  | inr copy ↦ rw copy (take_place-reports c inst flow)
]

-- The walk over an instruction that reads a whole value.
pub record Reports (o : Option Flow) (expected : List (Span × Complaint)) : Type 0 where
  pub after : Flow
  pub ended : o ≡ some after
  pub reported : after.reports ≡ expected

pub read_whole-Reports :
    (c : Checker) (inst : Inst) (flow : Flow) (r : ValueId) (i : SlotInit) (what : Complaint)
    → c.reporting ≡ true
    → value_is_none r ≡ false
    → ReadsWhole inst r
    → init_of (get flow r) ≡ i
    → init_eq i init ≡ false
    → ((indirect : Bool) → complaint_of i indirect ≡ some what)
    → Reports (flow_insts c (inst ∷ []) flow) (flow.reports ++ (inst.span, what) ∷ [])
unfolding flow_insts flow_op
read_whole-Reports c inst flow r i what on some_base reads e other complaint =
    let place = place_of inst.payload in
    let checked =
      check_readable-whole c place inst.span flow i what on
        (ap value_is_none reads.base ∙ some_base) reads.whole
        (ap (λ (v : ValueId). init_of (get flow v)) reads.base ∙ e) other complaint in
    elim reads.reads [
      | inl is_load ↦ record {
        after = load c inst flow;
        ended = rw is_load refl;
        reported = load-reports c inst flow ∙ checked;
      }
      | inr is_ref ↦ record {
        after = take_place c inst flow;
        ended = rw is_ref refl;
        reported = take_place-reports c inst flow ∙ checked;
      }
    ]
