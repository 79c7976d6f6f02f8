-- ===== src/Mir/State/Look.antt =====
-- A slot as a tree: the slot at a path of fields, where a field that was never opened is a plain
-- field in its owner's state. Merging acts at every path alone.
use gab.Prelude.{
  zero, suc, ◌≡◌, refl, ◌⊎◌, inl, inr, false, List, [], ◌∷◌, arith, sym, ◌∙◌, ap, subst,
}
use gab.Mir.{ValueId, FieldId}
use gab.Mir.State.{
  SlotInit, unreached, uninit, moved, dangling, init, Slot, Slots, slot, nil, cons, plain,
  add_borrows, merge_init, init_eq, plain_merge, plain_merge_fields, slot_merge, merge_fields,
}

abbrev pub field_or : Slot → Slots → FieldId → Slot
field_or d nil n = d
field_or d (cons f fs) zero = f
field_or d (cons f fs) (suc n) = field_or d fs n

-- The slot at a path of fields.
abbrev pub at : Slot → List FieldId → Slot
at s [] = s
at (slot i b fs) (n ∷ path) = at (field_or (plain i) fs n) path

-- An unreached slot holds nothing, here and in each field.
abbrev mutual
  pub IsProper : Slot → Type 0
  IsProper (slot unreached b fs) = (b ≡ []) × (fs ≡ nil)
  IsProper (slot uninit b fs) = AllProper fs
  IsProper (slot moved b fs) = AllProper fs
  IsProper (slot dangling b fs) = AllProper fs
  IsProper (slot init b fs) = AllProper fs

  pub AllProper : Slots → Type 0
  AllProper nil = Unit
  AllProper (cons f fs) = IsProper f × AllProper fs

pub at-plain : (i : SlotInit) (path : List FieldId) → at (plain i) path ≡ plain i
at-plain i [] = refl
at-plain i (n ∷ path) = at-plain i path

-- What merging a reached slot into another gives.
pub plain_merge-eq : (i : SlotInit) (s : Slot) → plain_merge i s ≡ slot_merge (plain i) s
unfolding plain_merge slot_merge
plain_merge-eq i (slot j c gs) = refl

-- The state of a slot that is reached.
abbrev pub IsReached : SlotInit → Type 0
IsReached i = init_eq i unreached ≡ false

pub merge_init-IsReached : (i j : SlotInit) → IsReached i → IsReached j → IsReached (merge_init i j)
merge_init-IsReached i j hi hj = ground arith

slot_merge-reached :
    (i j : SlotInit) (b c : List ValueId) (fs gs : Slots)
    → IsReached i
    → IsReached j
    → slot_merge (slot i b fs) (slot j c gs)
      ≡ slot (merge_init i j) (add_borrows b c) (merge_fields i j fs gs)
unfolding slot_merge
slot_merge-reached i j b c fs gs hi hj = rw (hi, hj)

pub slot_merge-unreached_left : (s : Slot) → slot_merge (plain unreached) s ≡ s
unfolding slot_merge
slot_merge-unreached_left (slot j c gs) = refl

pub slot_merge-unreached_right : (s : Slot) → IsProper s → slot_merge s (plain unreached) ≡ s
unfolding slot_merge
slot_merge-unreached_right (slot unreached b fs) h = λ k. slot unreached (sym h.0 k) (sym h.1 k)
slot_merge-unreached_right (slot uninit b fs) h = refl
slot_merge-unreached_right (slot moved b fs) h = refl
slot_merge-unreached_right (slot dangling b fs) h = refl
slot_merge-unreached_right (slot init b fs) h = refl

merge-plain :
    (i j : SlotInit)
    → IsReached i
    → IsReached j
    → slot_merge (plain i) (plain j) ≡ plain (merge_init i j)
unfolding add_borrows plain_merge slot_merge
merge-plain i j hi hj = slot_merge-reached i j [] [] nil nil hi hj

field_or-plain_merge :
    (i j : SlotInit) (gs : Slots) (n : FieldId)
    → IsReached i
    → IsReached j
    → field_or (plain (merge_init i j)) (plain_merge_fields i gs) n
      ≡ slot_merge (plain i) (field_or (plain j) gs n)
unfolding plain_merge
field_or-plain_merge i j nil n hi hj = sym (merge-plain i j hi hj)
field_or-plain_merge i j (cons g gs) zero hi hj = plain_merge-eq i g
field_or-plain_merge i j (cons g gs) (suc n) hi hj = field_or-plain_merge i j gs n hi hj

-- The fields of a merge are the merges of the fields.
field_or-merge :
    (i j : SlotInit) (fs gs : Slots) (n : FieldId)
    → IsReached i
    → IsReached j
    → field_or (plain (merge_init i j)) (merge_fields i j fs gs) n
      ≡ slot_merge (field_or (plain i) fs n) (field_or (plain j) gs n)
unfolding slot_merge
field_or-merge i j nil gs n hi hj = field_or-plain_merge i j gs n hi hj
field_or-merge i j (cons f fs) nil zero hi hj = refl
field_or-merge i j (cons f fs) nil (suc n) hi hj = field_or-merge i j fs nil n hi hj
field_or-merge i j (cons f fs) (cons g gs) zero hi hj = refl
field_or-merge i j (cons f fs) (cons g gs) (suc n) hi hj = field_or-merge i j fs gs n hi hj

pub IsProper-plain : (i : SlotInit) → IsProper (plain i)
IsProper-plain unreached = (refl, refl)
IsProper-plain uninit = tt
IsProper-plain moved = tt
IsProper-plain dangling = tt
IsProper-plain init = tt

IsProper-field_or :
    (i : SlotInit) (fs : Slots) (n : FieldId) → AllProper fs → IsProper (field_or (plain i) fs n)
IsProper-field_or i nil n h = IsProper-plain i
IsProper-field_or i (cons f fs) zero h = h.0
IsProper-field_or i (cons f fs) (suc n) h = IsProper-field_or i fs n h.1

-- A proper slot is unreached and plain, or reached with proper fields.
pub Proper-cases :
    (i : SlotInit) (b : List ValueId) (fs : Slots)
    → IsProper (slot i b fs)
    → (slot i b fs ≡ plain unreached) ⊎ IsReached i × AllProper fs
Proper-cases unreached b fs h = inl (λ k. slot unreached (h.0 k) (h.1 k))
Proper-cases uninit b fs h = inr (refl, h)
Proper-cases moved b fs h = inr (refl, h)
Proper-cases dangling b fs h = inr (refl, h)
Proper-cases init b fs h = inr (refl, h)

at-unreached : (s : Slot) (path : List FieldId) → s ≡ plain unreached → at s path ≡ plain unreached
at-unreached s path e = ap (λ (t : Slot). at t path) e ∙ at-plain unreached path

pub IsProper-at : (s : Slot) (path : List FieldId) → IsProper s → IsProper (at s path)
IsProper-at s [] h = h
IsProper-at (slot i b fs) (n ∷ path) h = elim (Proper-cases i b fs h) [
  | inl e ↦
      subst IsProper (sym (at-unreached (slot i b fs) (n ∷ path) e)) (IsProper-plain unreached)
  | inr (_, proper) ↦ IsProper-at (field_or (plain i) fs n) path (IsProper-field_or i fs n proper)
]

at-merge_left :
    (a b : Slot) (path : List FieldId)
    → a ≡ plain unreached
    → at (slot_merge a b) path ≡ slot_merge (at a path) (at b path)
at-merge_left a b path e =
    ap (λ (t : Slot). at (slot_merge t b) path) e
    ∙ ap (λ (t : Slot). at t path) (slot_merge-unreached_left b)
    ∙ sym (slot_merge-unreached_left (at b path))
    ∙ ap (λ (t : Slot). slot_merge t (at b path)) (sym (at-unreached a path e))

at-merge_right :
    (a b : Slot) (path : List FieldId)
    → IsProper a
    → b ≡ plain unreached
    → at (slot_merge a b) path ≡ slot_merge (at a path) (at b path)
at-merge_right a b path h e =
    ap (λ (t : Slot). at (slot_merge a t) path) e
    ∙ ap (λ (t : Slot). at t path) (slot_merge-unreached_right a h)
    ∙ sym (slot_merge-unreached_right (at a path) (IsProper-at a path h))
    ∙ ap (λ (t : Slot). slot_merge (at a path) t) (sym (at-unreached b path e))

-- Merging two proper slots merges, at every path of fields, what the two hold at that path.
pub at-slot_merge :
    (a b : Slot) (path : List FieldId)
    → IsProper a
    → IsProper b
    → at (slot_merge a b) path ≡ slot_merge (at a path) (at b path)
at-slot_merge a b [] ha hb = refl
at-slot_merge (slot i b fs) (slot j c gs) (n ∷ path) ha hb = elim (Proper-cases i b fs ha) [
  | inl e ↦ at-merge_left (slot i b fs) (slot j c gs) (n ∷ path) e
  | inr (ri, pi) ↦ elim (Proper-cases j c gs hb) [
    | inl e ↦ at-merge_right (slot i b fs) (slot j c gs) (n ∷ path) ha e
    | inr (rj, pj) ↦
        rw (slot_merge-reached i j b c fs gs ri rj, field_or-merge i j fs gs n ri rj)
          (at-slot_merge (field_or (plain i) fs n) (field_or (plain j) gs n) path
            (IsProper-field_or i fs n pi) (IsProper-field_or j gs n pj))
  ]
]
