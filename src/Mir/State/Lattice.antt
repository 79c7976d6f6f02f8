-- ===== src/Mir/State/Lattice.antt =====
-- Merging slots joins what they hold: at every path of fields the states are joined and the borrows
-- united, so merging is commutative, associative and idempotent up to what can be seen.
use gab.Prelude.{
  ◌≡◌, ◌≢◌, refl, inl, inr, Bool, true, false, ◌||◌, List, [], ◌∷◌, ◌++◌, arith, ◌==◌, Bool-cases,
  sym, ◌∙◌, ap, if◌then◌else◌,
}
use gab.Mir.{ValueId, FieldId, no_id}
use gab.Mir.State.{
  SlotInit, unreached, uninit, moved, dangling, init, Slot, Slots, slot, nil, init_of, borrows_of,
  borrows_from, add_borrow, add_borrows, merge_init, init_eq, slot_merge, merge_fields, plain,
  plain_merge, plain_merge_fields, cons,
}
use gab.Mir.State.Look.{
  at, AllProper, IsReached, merge_init-IsReached, IsProper-plain, slot_merge-unreached_left,
  slot_merge-unreached_right, IsProper, IsProper-at, at-slot_merge,
}

borrows_from-append :
    (bs : List ValueId) (w v : ValueId)
    → borrows_from (bs ++ w ∷ []) v ≡ (borrows_from bs v || w == v)
unfolding borrows_from
borrows_from-append [] w v = ground arith
borrows_from-append (b ∷ bs) w v = ground (arith, borrows_from-append bs w v)

-- A value that is one is borrowed from after an addition if it was added or was borrowed from.
borrows_from-add_borrow :
    (bs : List ValueId) (w v : ValueId)
    → v ≢ no_id
    → borrows_from (add_borrow bs w) v ≡ (borrows_from bs v || w == v)
unfolding add_borrow
borrows_from-add_borrow bs w v h = ground (arith, borrows_from-append bs w v)

borrows_from-add_borrows :
    (bs cs : List ValueId) (v : ValueId)
    → v ≢ no_id
    → borrows_from (add_borrows bs cs) v ≡ (borrows_from bs v || borrows_from cs v)
unfolding add_borrows borrows_from
borrows_from-add_borrows bs [] v h = ground arith
borrows_from-add_borrows bs (c ∷ cs) v h =
    ground (arith, borrows_from-add_borrows (add_borrow bs c) cs v, borrows_from-add_borrow bs c v)

-- The join of two states: `unreached` says nothing, and else the lower of the two.
abbrev pub join_init : SlotInit → SlotInit → SlotInit
join_init i j = if init_eq i unreached then j else if init_eq j unreached then i else merge_init i j

abbrev pub init_at : Slot → List FieldId → SlotInit
init_at s path = init_of (at s path)

abbrev pub holds_at : Slot → List FieldId → ValueId → Bool
holds_at s path v = borrows_from (borrows_of (at s path)) v

init_of-merge : (a b : Slot) → init_of (slot_merge a b) ≡ join_init (init_of a) (init_of b)
unfolding slot_merge
init_of-merge (slot i b fs) (slot j c gs) = ground arith

proper_unreached :
    (i : SlotInit) (b : List ValueId) (fs : Slots)
    → IsProper (slot i b fs)
    → init_eq i unreached ≡ true
    → b ≡ []
proper_unreached unreached b fs h e = h.0
proper_unreached uninit b fs h e = cc
proper_unreached moved b fs h e = cc
proper_unreached dangling b fs h e = cc
proper_unreached init b fs h e = cc

or_false : (a : Bool) → (a || false) ≡ a
or_false true = refl
or_false false = refl

borrows_of-merge :
    (a b : Slot) (v : ValueId)
    → IsProper a
    → IsProper b
    → v ≢ no_id
    → borrows_from (borrows_of (slot_merge a b)) v
      ≡ (borrows_from (borrows_of a) v || borrows_from (borrows_of b) v)
unfolding slot_merge borrows_from
borrows_of-merge (slot i b fs) (slot j c gs) v ha hb h = elim (Bool-cases (init_eq i unreached)) [
  | inl u ↦ rw (u, proper_unreached i b fs ha u)
  | inr r ↦ elim (Bool-cases (init_eq j unreached)) [
    | inl u ↦ rw (r, u, proper_unreached j c gs hb u) (sym (or_false _))
    | inr q ↦ rw (r, q) (borrows_from-add_borrows b c v h)
  ]
]

-- What merging shows: at every path of fields, the join of the two states, and a borrow of a value if
-- either slot has it there.
pub slot_merge_lem :
    (a b : Slot) (path : List FieldId) (v : ValueId)
    → IsProper a
    → IsProper b
    → v ≢ no_id
    → (init_at (slot_merge a b) path ≡ join_init (init_at a path) (init_at b path))
      × (holds_at (slot_merge a b) path v ≡ (holds_at a path v || holds_at b path v))
slot_merge_lem a b path v ha hb h =
    let merged = at-slot_merge a b path ha hb in
    (
      ap init_of merged ∙ init_of-merge (at a path) (at b path),
      ap (λ (s : Slot). borrows_from (borrows_of s) v) merged
          ∙ borrows_of-merge (at a path) (at b path) v (IsProper-at a path ha)
              (IsProper-at b path hb) h,
    )

-- Two slots show the same at a path: the same state, and a borrow of the value in both or in neither.
abbrev pub LookAlike : Slot → Slot → List FieldId → ValueId → Type 0
LookAlike a b path v = (init_at a path ≡ init_at b path) × (holds_at a path v ≡ holds_at b path v)

join_comm : (i j : SlotInit) → join_init i j ≡ join_init j i
join_comm i j = ground arith

join_assoc : (i j k : SlotInit) → join_init (join_init i j) k ≡ join_init i (join_init j k)
join_assoc i j k = ground arith

join_idem : (i : SlotInit) → join_init i i ≡ i
join_idem i = ground arith

pub reached-IsProper :
    (i : SlotInit) (b : List ValueId) (fs : Slots)
    → IsReached i
    → AllProper fs
    → IsProper (slot i b fs)
reached-IsProper unreached b fs r h = cc
reached-IsProper uninit b fs r h = h
reached-IsProper moved b fs r h = h
reached-IsProper dangling b fs r h = h
reached-IsProper init b fs r h = h

pub reached_fields :
    (i : SlotInit) (b : List ValueId) (fs : Slots)
    → IsReached i
    → IsProper (slot i b fs)
    → AllProper fs
reached_fields unreached b fs r h = cc
reached_fields uninit b fs r h = h
reached_fields moved b fs r h = h
reached_fields dangling b fs r h = h
reached_fields init b fs r h = h

mutual
  unfolding plain_merge

  IsProper-plain_merge : (i : SlotInit) (s : Slot) → IsProper s → IsProper (plain_merge i s)
  IsProper-plain_merge i (slot j b gs) h = elim (Bool-cases (init_eq i unreached)) [
    | inl u ↦ rw u h
    | inr r ↦ elim (Bool-cases (init_eq j unreached)) [
      | inl u ↦ rw (r, u) (IsProper-plain i)
      | inr q ↦
          rw (r, q)
            (reached-IsProper (merge_init i j) _ _ (merge_init-IsReached i j r q)
              (AllProper-plain_merge i gs (reached_fields j b gs q h)))
    ]
  ]

  AllProper-plain_merge :
      (i : SlotInit) (gs : Slots) → AllProper gs → AllProper (plain_merge_fields i gs)
  AllProper-plain_merge i nil h = tt
  AllProper-plain_merge i (cons g gs) h =
      (IsProper-plain_merge i g h.0, AllProper-plain_merge i gs h.1)

mutual
  unfolding slot_merge

  merge-IsProper : (a b : Slot) → IsProper a → IsProper b → IsProper (slot_merge a b)
  merge-IsProper (slot i b fs) (slot j c gs) ha hb = elim (Bool-cases (init_eq i unreached)) [
    | inl u ↦ rw u hb
    | inr r ↦ elim (Bool-cases (init_eq j unreached)) [
      | inl u ↦ rw (r, u) ha
      | inr q ↦
          rw (r, q)
            (reached-IsProper (merge_init i j) _ _ (merge_init-IsReached i j r q)
              (AllProper-merge i j fs gs (reached_fields i b fs r ha) (reached_fields j c gs q hb)))
    ]
  ]

  AllProper-merge :
      (i j : SlotInit) (fs gs : Slots)
      → AllProper fs
      → AllProper gs
      → AllProper (merge_fields i j fs gs)
  AllProper-merge i j nil gs ha hb = AllProper-plain_merge i gs hb
  AllProper-merge i j (cons f fs) nil ha hb =
      (merge-IsProper f (plain j) ha.0 (IsProper-plain j), AllProper-merge i j fs nil ha.1 tt)
  AllProper-merge i j (cons f fs) (cons g gs) ha hb =
      (merge-IsProper f g ha.0 hb.0, AllProper-merge i j fs gs ha.1 hb.1)

-- Merging keeps slots proper.
pub slot_merge-IsProper : (a b : Slot) → IsProper a → IsProper b → IsProper (slot_merge a b)
slot_merge-IsProper a b ha hb = merge-IsProper a b ha hb

or_comm : (a b : Bool) → (a || b) ≡ (b || a)
or_comm a b = ground arith

or_assoc : (a b c : Bool) → ((a || b) || c) ≡ (a || (b || c))
or_assoc a b c = ground arith

or_idem : (a : Bool) → (a || a) ≡ a
or_idem a = ground arith

-- Up to what they show at a path of fields, the states there and the borrows of a value other than
-- `no_id`, proper slots form a semilattice under merging: it is commutative, associative and
-- idempotent, and an unreached slot is neutral.
pub slot_merge_semilattice :
    (a b c : Slot) (path : List FieldId) (v : ValueId)
    → IsProper a
    → IsProper b
    → IsProper c
    → v ≢ no_id
    → LookAlike (slot_merge a b) (slot_merge b a) path v
      × LookAlike (slot_merge (slot_merge a b) c) (slot_merge a (slot_merge b c)) path v
      × LookAlike (slot_merge a a) a path v
      × (slot_merge (plain unreached) a ≡ a)
      × (slot_merge a (plain unreached) ≡ a)
slot_merge_semilattice a b c path v ha hb hc h = (
  let ab = slot_merge_lem a b path v ha hb h in
      let ba = slot_merge_lem b a path v hb ha h in
      (
        ab.0 ∙ join_comm (init_at a path) (init_at b path) ∙ sym ba.0,
        ab.1 ∙ or_comm (holds_at a path v) (holds_at b path v) ∙ sym ba.1,
      ),
  let ab = slot_merge_lem a b path v ha hb h in
      let bc = slot_merge_lem b c path v hb hc h in
      let left = slot_merge_lem (slot_merge a b) c path v (merge-IsProper a b ha hb) hc h in
      let right = slot_merge_lem a (slot_merge b c) path v ha (merge-IsProper b c hb hc) h in
      (
        left.0
            ∙ ap (λ (i : SlotInit). join_init i (init_at c path)) ab.0
            ∙ join_assoc (init_at a path) (init_at b path) (init_at c path)
            ∙ ap (join_init (init_at a path)) (sym bc.0)
            ∙ sym right.0,
        left.1
            ∙ ap (λ (d : Bool). d || holds_at c path v) ab.1
            ∙ or_assoc (holds_at a path v) (holds_at b path v) (holds_at c path v)
            ∙ ap (λ (d : Bool). holds_at a path v || d) (sym bc.1)
            ∙ sym right.1,
      ),
  let aa = slot_merge_lem a a path v ha ha h in
      (aa.0 ∙ join_idem (init_at a path), aa.1 ∙ or_idem (holds_at a path v)),
  slot_merge-unreached_left a,
  slot_merge-unreached_right a ha,
)
