-- ===== src/Mir/State/Invalidate.antt =====
-- `mir_state_invalidate_borrows_of` of src/mir/mir_state.c: dropping a value leaves no live borrow of
-- it, in a value or in a field of one.
use gab.Prelude.{
  zero, suc, ◌≡◌, refl, inl, inr, Bool, true, false, ◌&&◌, List, [], ◌∷◌, arith, ◌==◌, Bool-cases,
  sym, ◌∙◌, ap, if◌then◌else◌,
}
use gab.Mir.{ValueId, FieldId}
use gab.Mir.State.{
  SlotInit, unreached, uninit, moved, dangling, init, Slot, Slots, slot, nil, cons, plain,
  borrows_of, borrows_from, init_eq, State, find_slot, state_get, slot_invalidate,
  fields_invalidate, invalidate_entries, state_invalidate,
}
use gab.Mir.State.Look.{at, at-plain, IsProper, AllProper, IsReached}
use gab.Mir.State.Lattice.{init_at, holds_at, reached-IsProper}
use gab.Mir.State.Merge.{IsValid, IsMap, IsFresh, EntriesProper}

-- What a slot's state becomes.
abbrev invalid_init : SlotInit → List ValueId → ValueId → SlotInit
invalid_init i b dropped = if init_eq i init && borrows_from b dropped then dangling else i

invalid_init-live :
    (i : SlotInit) (b : List ValueId) (d : ValueId)
    → (init_eq (invalid_init i b d) init && borrows_from b d) ≡ false
invalid_init-live i b d = ground arith

-- A live borrow of a value at a path of fields.
abbrev pub live_borrow : Slot → List FieldId → ValueId → Bool
live_borrow s path v = init_eq (init_at s path) init && holds_at s path v

and_false : (a : Bool) → (a && false) ≡ false
and_false true = refl
and_false false = refl

plain-live :
    (i : SlotInit) (path : List FieldId) (d : ValueId) → live_borrow (plain i) path d ≡ false
unfolding borrows_from
plain-live i path d = rw (at-plain i path) (and_false (init_eq i init))

mutual
  unfolding slot_invalidate

  invalidate-live :
      (s : Slot) (d : ValueId) (path : List FieldId)
      → live_borrow (slot_invalidate s d) path d ≡ false
  invalidate-live (slot i b fs) d [] = invalid_init-live i b d
  invalidate-live (slot i b fs) d (n ∷ path) = fields-live (invalid_init i b d) fs d n path

  fields-live :
      (i : SlotInit) (fs : Slots) (d : ValueId) (n : FieldId) (path : List FieldId)
      → live_borrow (slot i [] (fields_invalidate fs d)) (n ∷ path) d ≡ false
  fields-live i nil d n path = plain-live i path d
  fields-live i (cons f fs) d zero path = invalidate-live f d path
  fields-live i (cons f fs) d (suc n) path = fields-live i fs d n path

mutual
  unfolding slot_invalidate

  invalidate-borrows :
      (s : Slot) (d : ValueId) (path : List FieldId)
      → borrows_of (at (slot_invalidate s d) path) ≡ borrows_of (at s path)
  invalidate-borrows (slot i b fs) d [] = refl
  invalidate-borrows (slot i b fs) d (n ∷ path) = fields-borrows (invalid_init i b d) i fs d n path

  fields-borrows :
      (i j : SlotInit) (fs : Slots) (d : ValueId) (n : FieldId) (path : List FieldId)
      → borrows_of (at (slot i [] (fields_invalidate fs d)) (n ∷ path))
        ≡ borrows_of (at (slot j [] fs) (n ∷ path))
  fields-borrows i j nil d n path = rw (at-plain i path, at-plain j path) refl
  fields-borrows i j (cons f fs) d zero path = invalidate-borrows f d path
  fields-borrows i j (cons f fs) d (suc n) path = fields-borrows i j fs d n path

invalid_init_twice :
    (i : SlotInit) (b : List ValueId) (d : ValueId)
    → invalid_init (invalid_init i b d) b d ≡ invalid_init i b d
invalid_init_twice i b d = ground arith

mutual
  unfolding slot_invalidate

  invalidate_twice :
      (s : Slot) (d : ValueId) → slot_invalidate (slot_invalidate s d) d ≡ slot_invalidate s d
  invalidate_twice (slot i b fs) d = λ k. slot (invalid_init_twice i b d k) b (fields_twice fs d k)

  fields_twice :
      (fs : Slots) (d : ValueId)
      → fields_invalidate (fields_invalidate fs d) d ≡ fields_invalidate fs d
  fields_twice nil d = refl
  fields_twice (cons f fs) d = λ k. cons (invalidate_twice f d k) (fields_twice fs d k)

invalid_init-IsReached :
    (i : SlotInit) (b : List ValueId) (d : ValueId) → IsReached i → IsReached (invalid_init i b d)
invalid_init-IsReached i b d h = ground arith

invalid_unreached : (b : List ValueId) (d : ValueId) → invalid_init unreached b d ≡ unreached
invalid_unreached b d = refl

mutual
  unfolding slot_invalidate

  invalidate-IsProper : (s : Slot) (d : ValueId) → IsProper s → IsProper (slot_invalidate s d)
  invalidate-IsProper (slot unreached b fs) d h =
      (h.0, ap (λ (gs : Slots). fields_invalidate gs d) h.1)
  invalidate-IsProper (slot uninit b fs) d h = fields-AllProper fs d h
  invalidate-IsProper (slot moved b fs) d h = fields-AllProper fs d h
  invalidate-IsProper (slot dangling b fs) d h = fields-AllProper fs d h
  invalidate-IsProper (slot init b fs) d h =
      reached-IsProper (invalid_init init b d) b (fields_invalidate fs d)
        (invalid_init-IsReached init b d refl) (fields-AllProper fs d h)

  fields-AllProper : (fs : Slots) (d : ValueId) → AllProper fs → AllProper (fields_invalidate fs d)
  fields-AllProper nil d h = tt
  fields-AllProper (cons f fs) d h = (invalidate-IsProper f d h.0, fields-AllProper fs d h.1)

entries-find :
    (es : List (ValueId × Slot)) (d v : ValueId)
    → find_slot (invalidate_entries es d) v ≡ slot_invalidate (find_slot es v) d
unfolding find_slot invalidate_entries slot_invalidate
entries-find [] d v = refl
entries-find ((w, s) ∷ rest) d v = elim (Bool-cases (w == v)) [
  | inl e ↦ rw e refl
  | inr ne ↦ rw ne (entries-find rest d v)
]

entries-IsFresh :
    (v : ValueId) (es : List (ValueId × Slot)) (d : ValueId)
    → IsFresh v es
    → IsFresh v (invalidate_entries es d)
unfolding invalidate_entries
entries-IsFresh v [] d h = tt
entries-IsFresh v ((w, s) ∷ rest) d h = (h.0, entries-IsFresh v rest d h.1)

entries-IsMap :
    (es : List (ValueId × Slot)) (d : ValueId) → IsMap es → IsMap (invalidate_entries es d)
unfolding invalidate_entries
entries-IsMap [] d h = tt
entries-IsMap ((v, s) ∷ rest) d h = (entries-IsFresh v rest d h.0, entries-IsMap rest d h.1)

entries-proper :
    (es : List (ValueId × Slot)) (d : ValueId)
    → EntriesProper es
    → EntriesProper (invalidate_entries es d)
unfolding invalidate_entries
entries-proper [] d h = tt
entries-proper ((v, s) ∷ rest) d h = (invalidate-IsProper s d h.0, entries-proper rest d h.1)

-- What a state's value holds after an invalidation.
pub invalidate-get :
    (s : State) (d v : ValueId)
    → state_get (state_invalidate s d) v ≡ slot_invalidate (state_get s v) d
unfolding state_get state_invalidate
invalidate-get s d v = entries-find s.slots d v

-- After the borrows of a dropped value are invalidated in a valid state, the state is valid, no value
-- has a live borrow of the dropped one at any path of fields, every borrow is still on record, and
-- invalidating again changes no value's slot.
pub state_invalidate_lem :
    (s : State) (dropped v : ValueId) (path : List FieldId)
    → IsValid s
    → IsValid (state_invalidate s dropped)
      × (live_borrow (state_get (state_invalidate s dropped) v) path dropped ≡ false)
      × (borrows_of (at (state_get (state_invalidate s dropped) v) path)
          ≡ borrows_of (at (state_get s v) path))
      × (state_get (state_invalidate (state_invalidate s dropped) dropped) v
          ≡ state_get (state_invalidate s dropped) v)
unfolding state_invalidate
state_invalidate_lem s d v path h = (
  record { map = entries-IsMap s.slots d h.map; proper = entries-proper s.slots d h.proper },
  ap (λ (t : Slot). live_borrow t path d) (invalidate-get s d v)
      ∙ invalidate-live (state_get s v) d path,
  ap (λ (t : Slot). borrows_of (at t path)) (invalidate-get s d v)
      ∙ invalidate-borrows (state_get s v) d path,
  invalidate-get (state_invalidate s d) d v
      ∙ ap (λ (t : Slot). slot_invalidate t d) (invalidate-get s d v)
      ∙ invalidate_twice (state_get s v) d
      ∙ sym (invalidate-get s d v),
)
