-- ===== src/Mir/State/Fields.antt =====
-- `mir_slot_open_fields` and `mir_slot_set_all` of src/mir/mir_state.c, along every path of fields.
use gab.Prelude.{
  ℕ, zero, suc, ◌-◌, ◌≡◌, refl, inl, inr, not, ◌||◌, List, [], ◌∷◌, Bool-cases, ap, ltb, ◌==◌,
}
use gab.Mir.{ValueId, FieldId}
use gab.Mir.State.{
  SlotInit, Slot, Slots, slot, nil, cons, plain, init_of, borrows_of, field_count, append_fields,
  fresh_fields, open_fields, set_all, set_all_fields,
}
use gab.Mir.State.Look.{at, at-plain, field_or}
use gab.Mir.State.Lattice.{init_at, holds_at, LookAlike}

field_or-fresh :
    (i : SlotInit) (n : ℕ) (k : FieldId) → field_or (plain i) (fresh_fields n i) k ≡ plain i
unfolding fresh_fields
field_or-fresh i zero k = refl
field_or-fresh i (suc n) zero = refl
field_or-fresh i (suc n) (suc k) = field_or-fresh i n k

-- Fields that are opened are what they were taken for.
field_or-open :
    (i : SlotInit) (fs : Slots) (n : ℕ) (k : FieldId)
    → field_or (plain i) (append_fields fs (fresh_fields n i)) k ≡ field_or (plain i) fs k
unfolding append_fields
field_or-open i nil n k = field_or-fresh i n k
field_or-open i (cons f fs) n zero = refl
field_or-open i (cons f fs) n (suc k) = field_or-open i fs n k

opened-LookAlike :
    (i : SlotInit) (b : List ValueId) (fs : Slots) (n : ℕ) (path : List FieldId) (v : ValueId)
    → LookAlike (slot i b (append_fields fs (fresh_fields n i))) (slot i b fs) path v
opened-LookAlike i b fs n [] v = (refl, refl)
opened-LookAlike i b fs n (k ∷ path) v =
    let same = ap (λ (s : Slot). at s path) (field_or-open i fs n k) in
    (ap init_of same, ap (λ (s : Slot). holds_at s [] v) same)

-- Opening the fields of a slot changes nothing that can be seen along a path of fields.
pub open_fields_lem :
    (s : Slot) (count : ℕ) (path : List FieldId) (v : ValueId)
    → LookAlike (open_fields s count) s path v
unfolding open_fields
open_fields_lem (slot i b fs) count path v =
    elim (Bool-cases (count == 0 || not (ltb (field_count fs) count))) [
      | inl enough ↦ rw enough ((refl, refl))
      | inr more ↦ rw more (opened-LookAlike i b fs (count - field_count fs) path v)
    ]

mutual
  unfolding set_all

  all-init : (s : Slot) (j : SlotInit) (path : List FieldId) → init_at (set_all s j) path ≡ j
  all-init (slot i b fs) j [] = refl
  all-init (slot i b fs) j (k ∷ path) = fields-init fs j k path

  fields-init :
      (fs : Slots) (j : SlotInit) (k : FieldId) (path : List FieldId)
      → init_at (slot j [] (set_all_fields fs j)) (k ∷ path) ≡ j
  fields-init nil j k path = ap init_of (at-plain j path)
  fields-init (cons f fs) j zero path = all-init f j path
  fields-init (cons f fs) j (suc k) path = fields-init fs j k path

mutual
  unfolding set_all

  all-borrows :
      (s : Slot) (j : SlotInit) (path : List FieldId)
      → borrows_of (at (set_all s j) path) ≡ borrows_of (at s path)
  all-borrows (slot i b fs) j [] = refl
  all-borrows (slot i b fs) j (k ∷ path) = fields-borrows i fs j k path

  fields-borrows :
      (i : SlotInit) (fs : Slots) (j : SlotInit) (k : FieldId) (path : List FieldId)
      → borrows_of (at (slot j [] (set_all_fields fs j)) (k ∷ path))
        ≡ borrows_of (at (slot i [] fs) (k ∷ path))
  fields-borrows i nil j k path = rw (at-plain j path, at-plain i path) refl
  fields-borrows i (cons f fs) j zero path = all-borrows f j path
  fields-borrows i (cons f fs) j (suc k) path = fields-borrows i fs j k path

-- Setting the whole of a slot gives every path of fields the state and leaves its borrows.
pub set_all_lem :
    (s : Slot) (j : SlotInit) (path : List FieldId)
    → (init_at (set_all s j) path ≡ j)
      × (borrows_of (at (set_all s j) path) ≡ borrows_of (at s path))
set_all_lem s j path = (all-init s j path, all-borrows s j path)
