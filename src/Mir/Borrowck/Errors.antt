-- ===== src/Mir/Borrowck/Errors.antt =====
-- What the borrow checker reports: uses of what was freed or moved away.
use gab.Prelude.{
  ◌≡◌, ◌≢◌, refl, sym, ap, ◌∙◌, Bool, true, false, Option, none, some, List, [], ◌∷◌, ◌++◌,
  if◌then◌else◌, subst,
}
use gab.Mir.{ValueId, value_is_none, Op, Place, Inst, Span, place_of, read_of, read_move}
use gab.Mir.State.{
  Slot, slot, init, uninit, moved, dangling, plain, init_of, borrows_of, borrows_from, set_all,
  slot_invalidate,
}
use gab.Mir.State.Invalidate.{invalidate-get}
use gab.Mir.Borrowck.Places.{Checker, Flow, Complaint, freed, moved_out, get}
use gab.Mir.Borrowck.Reads.{complaint_of, invalidate, storage_dead, take_place, is_move, load}
use gab.Mir.Borrowck.{flow_op, flow_insts}
use gab.Mir.Borrowck.Whole.{get-put, test_same, test_other, ReadsWhole, Reports, read_whole-Reports}

step-Reports :
    (c : Checker) (inst : Inst) (insts : List Inst) (flow mid : Flow)
    (expected : List (Span × Complaint))
    → flow_op c inst.op inst flow ≡ some mid
    → Reports (flow_insts c insts mid) expected
    → Reports (flow_insts c (inst ∷ insts) flow) expected
unfolding flow_insts
step-Reports c inst insts flow mid expected e h =
    subst
      (λ (o : Option Flow).
        Reports
          (elim o as (λ x. Option Flow) [ none ↦ none | some after ↦ flow_insts c insts after ])
          expected)
      (sym e) h

freed_init :
    (s : Slot) (dropped : ValueId)
    → init_of s ≡ init
    → borrows_from (borrows_of s) dropped ≡ true
    → init_of (slot_invalidate s dropped) ≡ dangling
unfolding slot_invalidate
freed_init (slot i b fs) dropped alive borrow = rw (alive, borrow) refl

dead_slot :
    (flow : Flow) (place : Place) (r : ValueId)
    → r ≢ place.base
    → init_of (get flow r) ≡ init
    → borrows_from (borrows_of (get flow r)) place.base ≡ true
    → init_of (get (storage_dead place flow) r) ≡ dangling
unfolding storage_dead
dead_slot flow place r other alive borrow =
    let x = place.base in
    let found = get-put (invalidate flow x) x r (plain uninit) in
    ap init_of found
    ∙ ap (λ (b : Bool). init_of (if b then plain uninit else get (invalidate flow x) r))
        (test_other x r other)
    ∙ ap init_of (invalidate-get flow.state x r)
    ∙ freed_init (get flow r) x alive borrow

dead_op :
    (c : Checker) (ending : Inst) (flow : Flow)
    → ending.op ≡ Op.storage_dead
    → flow_op c ending.op ending flow ≡ some (storage_dead (place_of ending.payload) flow)
unfolding flow_op
dead_op c ending flow e = rw e refl

-- After the storage of a value has ended, a load of a value that borrows from it, or a reference to
-- one, is reported: it names memory that has been freed, and this is the only report of the two.
pub storage_dead-Reports :
    (c : Checker) (flow : Flow) (ending read : Inst) (r : ValueId)
    → c.reporting ≡ true
    → ending.op ≡ Op.storage_dead
    → ReadsWhole read r
    → value_is_none r ≡ false
    → r ≢ (place_of ending.payload).base
    → init_of (get flow r) ≡ init
    → borrows_from (borrows_of (get flow r)) (place_of ending.payload).base ≡ true
    → Reports (flow_insts c (ending ∷ read ∷ []) flow) (flow.reports ++ (read.span, freed) ∷ [])
unfolding complaint_of storage_dead
storage_dead-Reports c flow ending read r on ends reads some_base other alive borrow =
    let dead = storage_dead (place_of ending.payload) flow in
    let found =
      read_whole-Reports c read dead r dangling freed on some_base reads
        (dead_slot flow (place_of ending.payload) r other alive borrow) refl (λ indirect. refl) in
    step-Reports c ending (read ∷ []) flow dead (flow.reports ++ (read.span, freed) ∷ [])
      (dead_op c ending flow ends) found

load_op :
    (c : Checker) (inst : Inst) (flow : Flow)
    → inst.op ≡ Op.load
    → flow_op c inst.op inst flow ≡ some (load c inst flow)
unfolding flow_op
load_op c inst flow e = rw e refl

emptied_init : (s : Slot) → init_of (set_all s moved) ≡ moved
unfolding set_all
emptied_init (slot i b fs) = refl

moved_slot :
    (c : Checker) (inst : Inst) (flow : Flow)
    → read_of inst.payload ≡ read_move
    → init_of (get (load c inst flow) (place_of inst.payload).base) ≡ moved
unfolding load
moved_slot c inst flow move =
    let r = (place_of inst.payload).base in
    let taken = take_place c inst flow in
    let found = get-put taken r r (set_all (get taken r) moved) in
    rw (ap is_move move) (
      ap init_of found
      ∙ ap (λ (b : Bool). init_of (if b then set_all (get taken r) moved else get taken r))
          (test_same r)
      ∙ emptied_init (get taken r))

-- After a load has moved a value out of a place, a load of the whole value that the place is in, or a
-- reference to it, is reported: it was moved out of. The reports of the first load stand before it.
pub load_move-Reports :
    (c : Checker) (flow : Flow) (move read : Inst)
    → c.reporting ≡ true
    → move.op ≡ Op.load
    → read_of move.payload ≡ read_move
    → value_is_none (place_of move.payload).base ≡ false
    → ReadsWhole read (place_of move.payload).base
    → Reports
        (flow_insts c (move ∷ read ∷ []) flow)
        ((load c move flow).reports ++ (read.span, moved_out) ∷ [])
unfolding complaint_of
load_move-Reports c flow move read on loads moves some_base reads =
    let after = load c move flow in
    step-Reports c move (read ∷ []) flow after (after.reports ++ (read.span, moved_out) ∷ [])
      (load_op c move flow loads)
      (read_whole-Reports c read after (place_of move.payload).base moved moved_out on some_base
        reads (moved_slot c move flow moves) refl (λ indirect. refl))
