-- ===== src/Mir/Liveness/Bits.antt =====
-- One place in a set, and what reading or writing places does to it.
use gab.Prelude.{
  ℕ, zero, suc, ◌<◌, ◌≡◌, refl, ap, ◌∙◌, inl, inr, Bool, true, false, not, ◌&&◌, ◌||◌, ◌==◌, [],
  ◌∷◌, if◌then◌else◌, length, get_or, set, length-set, arith, Bool-cases, subst,
}
use gab.Mir.{ValueId, FieldId, field_is_whole}
use gab.Mir.Liveness.{
  PlaceSet, Layout, value_missing, place_number, set_test, each_field, over_place, read_place,
  write_place,
}
use gab.Mir.Liveness.Uses.{any_field, covers}

-- A set that has as many bits as another, and this bit at a place.
unfoldable pub Bit : ℕ → PlaceSet → PlaceSet → Bool → Type 0
Bit p before after b = (length after ≡ length before) × (set_test after p ≡ b)

abbrev put : Bool → PlaceSet → ℕ → PlaceSet
put b places i = set places i b

after_zero : (p : ℕ) → (suc p == 0) ≡ false
after_zero p = ground arith

before_suc : (i : ℕ) → (0 == suc i) ≡ false
before_suc i = ground arith

both_suc : (p i : ℕ) → (suc p == suc i) ≡ (p == i)
both_suc p i = ground arith

or_assoc : (a b c : Bool) → (a || (b || c)) ≡ ((a || b) || c)
or_assoc true b c = refl
or_assoc false b c = refl

or_swap : (a b : Bool) → (a || (b || false)) ≡ (b || a)
or_swap true true = refl
or_swap true false = refl
or_swap false true = refl
or_swap false false = refl

set-bit :
    (places : PlaceSet) (i p : ℕ) (b : Bool)
    → p < length places
    → set_test (set places i b) p ≡ (if p == i then b else set_test places p)
set-bit [] i p b h = absurd (omega (arith, h))
set-bit (x ∷ xs) zero zero b h = refl
set-bit (x ∷ xs) zero (suc p) b h = rw (after_zero p) refl
set-bit (x ∷ xs) (suc i) zero b h = rw (before_suc i) refl
set-bit (x ∷ xs) (suc i) (suc p) b h = rw (both_suc p i) (set-bit xs i p b (omega (arith, h)))

-- A change by a set of places, as a test, to one bit.
if_or : (c d b x : Bool) → (if c then b else if d then b else x) ≡ (if c || d then b else x)
if_or true d b x = refl
if_or false d b x = refl

put-Bit :
    (b : Bool) (before places : PlaceSet) (i p : ℕ) (c x : Bool)
    → p < length before
    → Bit p before places (if c then b else x)
    → Bit p before (put b places i) (if p == i || c then b else x)
unfolding Bit
put-Bit b before places i p c x h (len, bit) = (
  length-set places i b ∙ len,
  set-bit places i p b (omega (arith, h, len))
      ∙ ap (λ (y : Bool). if p == i then b else y) bit
      ∙ if_or (p == i) c b x,
)

each_field-Bit :
    (l : Layout) (b : Bool) (value : ValueId) (n : ℕ) (before places : PlaceSet) (p : ℕ)
    (c x : Bool)
    → p < length before
    → Bit p before places (if c then b else x)
    → Bit p before
        (each_field l (put b) value n places)
        (if any_field l value n p || c then b else x)
unfolding each_field any_field
each_field-Bit l b value zero before places p c x h r = r
each_field-Bit l b value (suc n) before places p c x h r =
    let i = place_number l value n in
    let all = any_field l value n p in
    subst
      (λ (d : Bool).
        Bit p before (put b (each_field l (put b) value n places) i) (if d then b else x))
      (or_assoc (p == i) all c)
      (put-Bit b before (each_field l (put b) value n places) i p (all || c) x h
        (each_field-Bit l b value n before places p c x h r))

whole-Bit :
    (l : Layout) (b : Bool) (value : ValueId) (i : ℕ) (places : PlaceSet) (p : ℕ)
    → p < length places
    → Bit p places (each_field l (put b) value (get_or l.value_fields value 0) (put b places i)) (
        if p == i || any_field l value (get_or l.value_fields value 0) p
        then b
        else set_test places p)
unfolding Bit
whole-Bit l b value i places p h =
    let x = set_test places p in
    let fields = get_or l.value_fields value 0 in
    subst
      (λ (d : Bool).
        Bit p places (each_field l (put b) value fields (put b places i)) (if d then b else x))
      (or_swap (any_field l value fields p) (p == i))
      (each_field-Bit l b value fields places (put b places i) p (p == i || false) x h
        (put-Bit b places places i p false x h ((refl, refl))))

over_place-Bit :
    (l : Layout) (b : Bool) (value : ValueId) (field_id : FieldId) (places : PlaceSet) (p : ℕ)
    → p < length places
    → Bit p places
        (over_place l (put b) value field_id places)
        (if covers l (value, field_id) p then b else set_test places p)
unfolding over_place covers Bit
over_place-Bit l b value field_id places p h = elim (Bool-cases (value_missing l value)) [
  | inl missing ↦ rw missing ((refl, refl))
  | inr there ↦ elim (Bool-cases (field_is_whole field_id)) [
    | inl whole ↦ rw (there, whole) (whole-Bit l b value (get_or l.value_base value 0) places p h)
    | inr part ↦
        rw (there, part) (put-Bit b places places _ p false (set_test places p) h ((refl, refl)))
  ]
]

Bit-trans : (p : ℕ) (a b c : PlaceSet) (x y : Bool) → Bit p a b x → Bit p b c y → Bit p a c y
unfolding Bit
Bit-trans p a b c x y f g = (g.0 ∙ f.0, g.1)

if_true : (c x : Bool) → (if c then true else x) ≡ (c || x)
if_true true x = refl
if_true false x = refl

if_false : (c x : Bool) → (if c then false else x) ≡ (not c && x)
if_false true x = refl
if_false false x = refl

-- After a change that gave a bit, reading or writing a place.
pub read-Bit :
    (l : Layout) (value : ValueId) (field_id : FieldId) (before places : PlaceSet) (p : ℕ)
    (x : Bool)
    → p < length before
    → Bit p before places x
    → Bit p before (read_place l places value field_id) (covers l (value, field_id) p || x)
unfolding read_place Bit
read-Bit l value field_id before places p x h r =
    let (len, bit) = over_place-Bit l true value field_id places p (omega (arith, h, r.0)) in
    (
      len ∙ r.0,
      bit
          ∙ if_true (covers l (value, field_id) p) (set_test places p)
          ∙ ap (λ (y : Bool). covers l (value, field_id) p || y) r.1,
    )

pub write-Bit :
    (l : Layout) (value : ValueId) (field_id : FieldId) (before places : PlaceSet) (p : ℕ)
    (x : Bool)
    → p < length before
    → Bit p before places x
    → Bit p before (write_place l places value field_id) (not (covers l (value, field_id) p) && x)
unfolding write_place Bit
write-Bit l value field_id before places p x h r =
    let (len, bit) = over_place-Bit l false value field_id places p (omega (arith, h, r.0)) in
    (
      len ∙ r.0,
      bit
          ∙ if_false (covers l (value, field_id) p) (set_test places p)
          ∙ ap (λ (y : Bool). not (covers l (value, field_id) p) && y) r.1,
    )
