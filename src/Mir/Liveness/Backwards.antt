-- ===== src/Mir/Liveness/Backwards.antt =====
-- What a step does to one place, by the table of the code: the places that it adds are in the set
-- before the instruction, those that it only removes are not, and the others are where they are after
-- it.
use gab.Prelude.{
  ℕ, ◌<◌, ◌≡◌, refl, ap, ap₂, ◌∙◌, Option, inl, inr, Bool, true, false, not, ◌&&◌, ◌||◌, List, [],
  ◌∷◌, ltb, if◌then◌else◌, length, Bool-cases, subst,
}
use gab.Mir.{
  ValueId, no_id, value_is_none, Op, Projection, Place, Operand, operand_as_value, Inst, place_of,
  field, deref, index,
}
use gab.Mir.Liveness.{
  PlaceSet, Layout, set_test, read_place, write_place, leading_field, read_indices, place_reads,
  store_writes, op_backwards, read_args, step_backwards,
}
use gab.Mir.Liveness.Uses.{
  covers, any_covers, indices_of, whole_args, store_reads, place_read, op_reads, op_writes, uses,
  kills,
}
use gab.Mir.Liveness.Bits.{Bit, read-Bit, write-Bit}

or_move : (a b x : Bool) → (a || (b || x)) ≡ ((b || a) || x)
or_move true true x = refl
or_move true false x = refl
or_move false true x = refl
or_move false false x = refl

read_indices-Bit :
    (l : Layout) (ps : List Projection) (before places : PlaceSet) (p : ℕ) (x : Bool)
    → p < length before
    → Bit p before places x
    → Bit p before (read_indices l ps places) (any_covers l (indices_of ps) p || x)
unfolding read_indices any_covers
read_indices-Bit l [] before places p x h r = r
read_indices-Bit l (proj ∷ ps) before places p x h r =
    elim proj.kind
      as (λ k.
        Bit p before
          (elim k [
            | field f ↦ read_indices l ps places
            | deref ↦ read_indices l ps places
            | index at ↦ read_indices l ps (read_place l places at no_id)
          ])
          (any_covers l
              (elim k [
                | field f ↦ indices_of ps
                | deref ↦ indices_of ps
                | index at ↦ (at, no_id) ∷ indices_of ps
              ])
              p
            || x)) [
              | field f ↦ read_indices-Bit l ps before places p x h r
              | deref ↦ read_indices-Bit l ps before places p x h r
              | index at ↦
                  let c = covers l (at, no_id) p in
                  subst (Bit p before (read_indices l ps (read_place l places at no_id)))
                    (or_move (any_covers l (indices_of ps) p) c x)
                    (read_indices-Bit l ps before (read_place l places at no_id) p (c || x) h
                      (read-Bit l at no_id before places p x h r))
            ]

place_reads-Bit :
    (l : Layout) (place : Place) (before places : PlaceSet) (p : ℕ) (x : Bool)
    → p < length before
    → Bit p before places x
    → Bit p before (place_reads l place places) (any_covers l (place_read place) p || x)
unfolding place_reads any_covers
place_reads-Bit l place before places p x h r =
    let lead = leading_field place.projections in
    let c = covers l (place.base, lead) p in
    subst (Bit p before (place_reads l place places))
      (or_move (any_covers l (indices_of place.projections) p) c x)
      (read_indices-Bit l place.projections before (read_place l places place.base lead) p (c || x)
        h (read-Bit l place.base lead before places p x h r))

store_writes-Bit :
    (l : Layout) (place : Place) (before places : PlaceSet) (p : ℕ) (x : Bool)
    → p < length before
    → Bit p before places x
    → Bit p before (store_writes l place places) (
        any_covers l (store_reads place) p
        || (not (covers l (place.base, leading_field place.projections) p) && x))
unfolding store_writes any_covers
store_writes-Bit l place before places p x h r =
    let lead = leading_field place.projections in
    let c = covers l (place.base, lead) p in
    let written = write_place l places place.base lead in
    let w = write-Bit l place.base lead before places p x h r in
    elim (Bool-cases (ltb 1 (length place.projections))) [
      | inl deep ↦ rw deep (
          subst
            (Bit p before (read_indices l place.projections (read_place l written place.base lead)))
            (or_move (any_covers l (indices_of place.projections) p) c (not c && x))
            (read_indices-Bit l place.projections before (read_place l written place.base lead) p
              (c || (not c && x)) h (read-Bit l place.base lead before written p (not c && x) h w)))
      | inr whole ↦
          rw whole (read_indices-Bit l place.projections before written p (not c && x) h w)
    ]

read_args-Bit :
    (l : Layout) (args : List Operand) (before places : PlaceSet) (p : ℕ) (x : Bool)
    → p < length before
    → Bit p before places x
    → Bit p before (read_args l args places) (any_covers l (whole_args args) p || x)
unfolding read_args any_covers
read_args-Bit l [] before places p x h r = r
read_args-Bit l (arg ∷ args) before places p x h r =
    let value = operand_as_value arg in
    let c = covers l (value, no_id) p in
    subst (Bit p before (read_args l args (read_place l places value no_id)))
      (or_move (any_covers l (whole_args args) p) c x)
      (read_args-Bit l args before (read_place l places value no_id) p (c || x) h
        (read-Bit l value no_id before places p x h r))

not_or : (c x : Bool) → (not (c || false) && x) ≡ (not c && x)
not_or true x = refl
not_or false x = refl

op_backwards-Bit :
    (l : Layout) (op : Op) (place : Place) (before places : PlaceSet) (p : ℕ) (x : Bool)
    → p < length before
    → Bit p before places x
    → Bit p before
        (op_backwards l op place places)
        (any_covers l (op_reads op place) p || (not (any_covers l (op_writes op place) p) && x))
unfolding op_backwards any_covers
op_backwards-Bit l Op.store place before places p x h r =
    rw (not_or (covers l (place.base, leading_field place.projections) p) x)
      (store_writes-Bit l place before places p x h r)
op_backwards-Bit l Op.load place before places p x h r =
    place_reads-Bit l place before places p x h r
op_backwards-Bit l Op.ref place before places p x h r =
    place_reads-Bit l place before places p x h r
op_backwards-Bit l Op.drop place before places p x h r =
    place_reads-Bit l place before places p x h r
op_backwards-Bit l Op.storage_live place before places p x h r =
    rw (not_or (covers l (place.base, no_id) p) x)
      (write-Bit l place.base no_id before places p x h r)
op_backwards-Bit l Op.storage_dead place before places p x h r =
    rw (not_or (covers l (place.base, no_id) p) x)
      (write-Bit l place.base no_id before places p x h r)
op_backwards-Bit l _ place before places p x h r = r

choose-Bit :
    (p : ℕ) (before a b : PlaceSet) (c x : Bool)
    → (c ≡ true → Bit p before a x)
    → (c ≡ false → Bit p before b x)
    → Bit p before (if c then a else b) x
choose-Bit p before a b true x f g = f refl
choose-Bit p before a b false x f g = g refl

covers_none :
    (l : Layout) (value p : ℕ) → value_is_none value ≡ true → false ≡ covers l (value, no_id) p
unfolding covers
covers_none l value p h = rw h refl

same-Bit : (p : ℕ) (places : PlaceSet) → Bit p places places (set_test places p)
unfolding Bit
same-Bit p places = (refl, refl)

result-Bit :
    (l : Layout) (value : ValueId) (places : PlaceSet) (p : ℕ)
    → p < length places
    → Bit p places
        (if value_is_none value then places else write_place l places value no_id)
        (not (covers l (value, no_id) p) && set_test places p)
result-Bit l value places p h =
    choose-Bit p places places (write_place l places value no_id) (value_is_none value)
      (not (covers l (value, no_id) p) && set_test places p)
      (λ missing.
        subst (λ (c : Bool). Bit p places places (not c && set_test places p))
          (covers_none l value p missing) (same-Bit p places))
      (λ there. write-Bit l value no_id places places p (set_test places p) h (same-Bit p places))

bits :
    (r o w c x : Bool) → (r || (o || (not w && (not c && x)))) ≡ ((r || o) || (not (w || c) && x))
bits true o w c x = refl
bits false true w c x = refl
bits false false true c x = refl
bits false false false c x = refl

-- The set before an instruction has as many bits as the set after it, and a place is in it exactly if
-- the table has it added, or does not have it removed and it is in the set after.
pub step_backwards-bit :
    (l : Layout) (inst : Inst) (places : PlaceSet) (p : ℕ)
    → p < length places
    → (length (step_backwards l inst places) ≡ length places)
      × (set_test (step_backwards l inst places) p
          ≡ (uses l inst p || (not (kills l inst p) && set_test places p)))
unfolding step_backwards uses kills Bit
step_backwards-bit l inst places p h =
    let place = place_of inst.payload in
    let x = set_test places p in
    let c = covers l (inst.result, no_id) p in
    let written =
      if value_is_none inst.result then places else write_place l places inst.result no_id in
    let first : Bit p places written (not c && x) = result-Bit l inst.result places p h in
    let acted = op_backwards l inst.op place written in
    let o = any_covers l (op_reads inst.op place) p in
    let w = any_covers l (op_writes inst.op place) p in
    let (len, bit) =
      read_args-Bit l inst.args places acted p (o || (not w && (not c && x))) h
        (op_backwards-Bit l inst.op place places written p (not c && x) h first) in
    (len, bit ∙ bits (any_covers l (whole_args inst.args) p) o w c x)

or_eq_false : (a b : Bool) → a ≡ false → b ≡ false → (a || b) ≡ false
or_eq_false a b h k = ap₂ (λ (x y : Bool). x || y) h k

reads_nothing :
    (l : Layout) (op : Op) (place : Place) (p : ℕ) (type : Option ℕ)
    → op ≡ Op.store
    → place.projections ≡ record { kind = deref; type = type } ∷ []
    → any_covers l (op_reads op place) p ≡ false
unfolding any_covers
reads_nothing l op place p type e through = rw (e, through) refl

writes_base :
    (l : Layout) (op : Op) (place : Place) (p : ℕ) (type : Option ℕ)
    → op ≡ Op.store
    → place.projections ≡ record { kind = deref; type = type } ∷ []
    → covers l (place.base, no_id) p ≡ true
    → any_covers l (op_writes op place) p ≡ true
unfolding any_covers
writes_base l op place p type e through own = rw (e, through) (ap (λ (c : Bool). c || false) own)

-- A store through a reference, as in `*r = x`: unless it is also an operand, no place of the reference
-- is in the set before the instruction, as if the store had written the reference itself.
pub store_through-bit :
    (l : Layout) (inst : Inst) (places : PlaceSet) (p : ℕ) (type : Option ℕ)
    → inst.op ≡ Op.store
    → (place_of inst.payload).projections ≡ record { kind = deref; type = type } ∷ []
    → any_covers l (whole_args inst.args) p ≡ false
    → covers l ((place_of inst.payload).base, no_id) p ≡ true
    → p < length places
    → set_test (step_backwards l inst places) p ≡ false
unfolding uses kills
store_through-bit l inst places p type op through no_arg own h =
    let place = place_of inst.payload in
    let (len, bit) = step_backwards-bit l inst places p h in
    let no_use =
      or_eq_false (any_covers l (whole_args inst.args) p) (any_covers l (op_reads inst.op place) p)
        no_arg (reads_nothing l inst.op place p type op through) in
    let killed =
      ap (λ (c : Bool). c || covers l (inst.result, no_id) p)
        (writes_base l inst.op place p type op through own) in
    bit ∙ ap₂ (λ (u k : Bool). u || (not k && set_test places p)) no_use killed
