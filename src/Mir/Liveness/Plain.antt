-- ===== src/Mir/Liveness/Plain.antt =====
-- The table of the code against what is read and written: they agree on plain instructions.
use gab.Prelude.{
  ℕ, suc, ◌<◌, ◌≡◌, refl, ap, ap₂, ◌∙◌, Bool, true, false, not, ◌&&◌, ◌||◌, Option, List, [], ◌∷◌,
  length, ltb, arith,
}
use gab.Mir.{
  ValueId, FieldId, no_id, Op, ProjKind, Projection, Place, Inst, place_of, field, deref, index,
}
use gab.Mir.Liveness.{PlaceSet, Layout, set_test, step_backwards, leading_field}
use gab.Mir.Liveness.Uses.{
  covers, any_covers, indices_of, whole_args, op_reads, op_writes, uses, kills,
}
use gab.Mir.Liveness.Meaning.{
  part_field, kind_field, read_by, written_by, reads, writes, is_plain, op_is_plain,
}
use gab.Mir.Liveness.Backwards.{step_backwards-bit}

kind_field-eq :
    (k : ProjKind) → (elim k [ field f ↦ f | deref ↦ no_id | index at ↦ no_id ]) ≡ kind_field k
kind_field-eq (field f) = refl
kind_field-eq deref = refl
kind_field-eq (index at) = refl

leading_field-eq : (ps : List Projection) → leading_field ps ≡ part_field ps
leading_field-eq [] = refl
leading_field-eq (p ∷ ps) = kind_field-eq p.kind

-- The first two lists of places cover the same, and where they do not cover a place, the other two
-- agree on it.
abbrev Agree :
    Layout
    → ℕ
    → List (ValueId × FieldId)
    → List (ValueId × FieldId)
    → List (ValueId × FieldId)
    → List (ValueId × FieldId)
    → Type 0
Agree l p rs rs' ws ws' =
    (any_covers l rs p ≡ any_covers l rs' p)
    × (any_covers l rs' p ≡ false → any_covers l ws p ≡ any_covers l ws' p)

or_false_left : (a b : Bool) → (a || b) ≡ false → a ≡ false
or_false_left false b h = refl
or_false_left true b h = absurd (cc h)

or_false_right : (a b : Bool) → (a || b) ≡ false → b ≡ false
or_false_right false b h = h
or_false_right true b h = absurd (cc h)

store_one-Agree :
    (l : Layout) (base : ValueId) (k : ProjKind) (type binding : Option ℕ) (p : ℕ)
    → op_is_plain Op.store (record { kind = k; type = type } ∷ []) ≡ true
    → let place : Place = record {
      base = base;
      projections = record { kind = k; type = type } ∷ [];
      binding = binding;
    } in
      Agree l p
        (op_reads Op.store place)
        (read_by Op.store place)
        (op_writes Op.store place)
        (written_by Op.store place)
store_one-Agree l base (field f) type binding p h = (refl, λ e. refl)
store_one-Agree l base deref type binding p h = absurd (cc h)
store_one-Agree l base (index at) type binding p h = absurd (cc h)

read_parts :
    (l : Layout) (base : ValueId) (ps : List Projection) (p : ℕ)
    → any_covers l ((base, leading_field ps) ∷ indices_of ps) p
      ≡ any_covers l ((base, part_field ps) ∷ indices_of ps) p
read_parts l base ps p =
    ap (λ (f : FieldId). any_covers l ((base, f) ∷ indices_of ps) p) (leading_field-eq ps)

-- A store into a part.
store_part :
    (l : Layout) (base f : ℕ) (at : List (ValueId × FieldId)) (p : ℕ)
    → any_covers l ((base, f) ∷ at) p ≡ false
    → any_covers l ((base, f) ∷ []) p ≡ any_covers l [] p
unfolding any_covers
store_part l base f at p h =
    ap (λ (c : Bool). c || false) (or_false_left (covers l (base, f) p) (any_covers l at p) h)

two_steps : (n : ℕ) → ltb 1 (suc (suc n)) ≡ true
two_steps n = ground arith

store-Agree :
    (l : Layout) (base : ValueId) (ps : List Projection) (binding : Option ℕ) (p : ℕ)
    → op_is_plain Op.store ps ≡ true
    → let place : Place = record { base = base; projections = ps; binding = binding } in
      Agree l p
        (op_reads Op.store place)
        (read_by Op.store place)
        (op_writes Op.store place)
        (written_by Op.store place)
store-Agree l base [] binding p h = (refl, λ e. refl)
store-Agree l base (a ∷ []) binding p h = store_one-Agree l base a.kind a.type binding p h
store-Agree l base (a ∷ b ∷ ps) binding p h =
    let all = a ∷ b ∷ ps in
    (
      rw (two_steps (length ps)) (read_parts l base all p),
      λ e. store_part l base (leading_field all) (indices_of all) p (read_parts l base all p ∙ e),
    )

op-Agree :
    (l : Layout) (op : Op) (place : Place) (p : ℕ)
    → op_is_plain op place.projections ≡ true
    → Agree l p (op_reads op place) (read_by op place) (op_writes op place) (written_by op place)
op-Agree l Op.store place p h = store-Agree l place.base place.projections place.binding p h
op-Agree l Op.load place p h = (read_parts l place.base place.projections p, λ e. refl)
op-Agree l Op.ref place p h = (read_parts l place.base place.projections p, λ e. refl)
op-Agree l Op.drop place p h = (read_parts l place.base place.projections p, λ e. refl)
op-Agree l Op.null place p h = absurd (cc h)
op-Agree l _ place p h = (refl, λ e. refl)

-- Of a plain instruction, the table has the places added that it reads.
pub uses-reads :
    (l : Layout) (inst : Inst) (p : ℕ) → is_plain inst ≡ true → uses l inst p ≡ reads l inst p
unfolding uses reads
uses-reads l inst p h =
    ap (λ (b : Bool). any_covers l (whole_args inst.args) p || b)
      (op-Agree l inst.op (place_of inst.payload) p h).0

-- And, but for those, it has the places removed that the instruction writes.
pub kills-writes :
    (l : Layout) (inst : Inst) (p : ℕ)
    → is_plain inst ≡ true
    → reads l inst p ≡ false
    → kills l inst p ≡ writes l inst p
unfolding kills writes reads
kills-writes l inst p h e =
    let place = place_of inst.payload in
    ap (λ (b : Bool). b || covers l (inst.result, no_id) p)
      ((op-Agree l inst.op place p h).1 (
        or_false_right (any_covers l (whole_args inst.args) p)
          (any_covers l (read_by inst.op place) p) e))

same_bit :
    (u r k w x : Bool) → u ≡ r → (r ≡ false → k ≡ w) → (u || (not k && x)) ≡ (r || (not w && x))
same_bit u true k w x h f = ap (λ (b : Bool). b || (not k && x)) h
same_bit u false k w x h f = ap₂ (λ (b c : Bool). b || (not c && x)) h (f refl)

-- Before an instruction that is no store to `*r` or `a[i]` and clears nothing: the set before it has
-- as many bits as the set after it, and a place is in it exactly if the instruction reads the place, or
-- does not write it and it is in the set after; a store into a part of a place counts as a read of it.
pub step_backwards_lem :
    (l : Layout) (inst : Inst) (places : PlaceSet) (p : ℕ)
    → is_plain inst ≡ true
    → p < length places
    → (length (step_backwards l inst places) ≡ length places)
      × (set_test (step_backwards l inst places) p
          ≡ (reads l inst p || (not (writes l inst p) && set_test places p)))
step_backwards_lem l inst places p plain h =
    let (len, bit) = step_backwards-bit l inst places p h in
    (
      len,
      bit
          ∙ same_bit (uses l inst p) (reads l inst p) (kills l inst p) (writes l inst p)
              (set_test places p) (uses-reads l inst p plain) (kills-writes l inst p plain),
    )
