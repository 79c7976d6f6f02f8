-- ===== src/Mir/State/Tests.antt =====
-- A state of two values, where one holds a borrow of the other in a field.
use gab.Prelude.{◌≡◌, refl, ◌≢◌, false, ◌&&◌, ◌||◌, [], ◌∷◌, arith}
use gab.Mir.{no_id}
use gab.Mir.State.{
  unreached, uninit, moved, dangling, init, Slot, slot, nil, cons, plain, State, slot_merge,
  borrows_of, state_get, state_merge, state_invalidate, slot_invalidate, borrows_from,
}
use gab.Mir.State.{open_fields, set_all}
use gab.Mir.State.Fields.{open_fields_lem, set_all_lem}
use gab.Mir.State.Look.{at, IsProper, at-slot_merge}
use gab.Mir.State.Lattice.{
  init_at, holds_at, join_init, LookAlike, slot_merge_lem, slot_merge_semilattice,
  slot_merge-IsProper,
}
use gab.Mir.State.Merge.{IsValid, held, state_merge_lem}
use gab.Mir.State.Invalidate.{live_borrow, state_invalidate_lem}

-- A value whose field 1 borrows from value 0.
abbrev borrower : Slot
borrower = slot init [] (cons (plain init) (cons (slot init (0 ∷ []) nil) nil))

abbrev emptied : Slot
emptied = slot moved (2 ∷ []) nil

abbrev before : State
before = record { slots = (0, plain init) ∷ (1, borrower) ∷ []; unreachable = false }

abbrev other : State
other = record { slots = (1, emptied) ∷ []; unreachable = false }

borrower-IsProper : IsProper borrower
borrower-IsProper = (tt, (tt, tt))

emptied-IsProper : IsProper emptied
emptied-IsProper = tt

before-IsValid : IsValid before
before-IsValid = record {
  map = (((λ (e : 0 ≡ 1). absurd (ground arith)), tt), (tt, tt));
  proper = (tt, ((tt, (tt, tt)), tt));
}

other-IsValid : IsValid other
other-IsValid = record { map = (tt, tt); proper = (tt, tt) }

-- The invalidated field is dangling, and the borrow is still on record.
after_drop : at (state_get (state_invalidate before 0) 1) (1 ∷ []) ≡ slot dangling (0 ∷ []) nil
unfolding state_get state_invalidate slot_invalidate borrows_from
after_drop = refl

state_merge_example :
    (held (state_merge before other) 1 ≡ slot_merge (held before 1) (held other 1))
    × ((state_merge before other).unreachable ≡ (false && false))
    × IsValid (state_merge before other)
state_merge_example = state_merge_lem before other 1 before-IsValid other-IsValid

state_invalidate_example :
    IsValid (state_invalidate before 0)
    × (live_borrow (state_get (state_invalidate before 0) 1) (1 ∷ []) 0 ≡ false)
    × (borrows_of (at (state_get (state_invalidate before 0) 1) (1 ∷ []))
        ≡ borrows_of (at (state_get before 1) (1 ∷ [])))
    × (state_get (state_invalidate (state_invalidate before 0) 0) 1
        ≡ state_get (state_invalidate before 0) 1)
state_invalidate_example = state_invalidate_lem before 0 1 (1 ∷ []) before-IsValid

is_a_value : 0 ≢ no_id
is_a_value e = ground arith

slot_merge_example :
    (init_at (slot_merge borrower emptied) (1 ∷ [])
      ≡ join_init (init_at borrower (1 ∷ [])) (init_at emptied (1 ∷ [])))
    × (holds_at (slot_merge borrower emptied) (1 ∷ []) 0
        ≡ (holds_at borrower (1 ∷ []) 0 || holds_at emptied (1 ∷ []) 0))
slot_merge_example =
    slot_merge_lem borrower emptied (1 ∷ []) 0 borrower-IsProper emptied-IsProper is_a_value

slot_merge_semilattice_example :
    LookAlike (slot_merge borrower emptied) (slot_merge emptied borrower) (1 ∷ []) 0
    × LookAlike
        (slot_merge (slot_merge borrower emptied) (plain uninit))
        (slot_merge borrower (slot_merge emptied (plain uninit)))
        (1 ∷ [])
        0
    × LookAlike (slot_merge borrower borrower) borrower (1 ∷ []) 0
    × (slot_merge (plain unreached) borrower ≡ borrower)
    × (slot_merge borrower (plain unreached) ≡ borrower)
slot_merge_semilattice_example =
    slot_merge_semilattice borrower emptied (plain uninit) (1 ∷ []) 0 borrower-IsProper
      emptied-IsProper tt is_a_value

at-slot_merge_example :
    at (slot_merge borrower emptied) (1 ∷ [])
    ≡ slot_merge (at borrower (1 ∷ [])) (at emptied (1 ∷ []))
at-slot_merge_example = at-slot_merge borrower emptied (1 ∷ []) borrower-IsProper emptied-IsProper

slot_merge-IsProper_example : IsProper (slot_merge borrower emptied)
slot_merge-IsProper_example =
    slot_merge-IsProper borrower emptied borrower-IsProper emptied-IsProper

open_fields_example : LookAlike (open_fields borrower 3) borrower (2 ∷ []) 0
open_fields_example = open_fields_lem borrower 3 (2 ∷ []) 0

set_all_example :
    (init_at (set_all borrower moved) (1 ∷ []) ≡ moved)
    × (borrows_of (at (set_all borrower moved) (1 ∷ [])) ≡ borrows_of (at borrower (1 ∷ [])))
set_all_example = set_all_lem borrower moved (1 ∷ [])
