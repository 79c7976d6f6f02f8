-- ===== src/Mir/Liveness/Sizes.antt =====
-- No operation on a set changes how many bits it has.
use gab.Prelude.{
  ℕ, zero, suc, ◌≡◌, refl, ◌∙◌, Bool, true, false, List, [], ◌∷◌, ltb, if◌then◌else◌, length, set,
  get_or, length-set,
}
use gab.Mir.{
  ValueId, FieldId, no_id, value_is_none, field_is_whole, Op, Projection, Place, Operand,
  operand_as_value, Inst, place_of, field, deref, index,
}
use gab.Mir.Liveness.{
  PlaceSet, Layout, value_missing, place_number, each_field, over_place, read_place, write_place,
  leading_field, read_indices, place_reads, store_writes, op_backwards, read_args, step_backwards,
  steps_backwards,
}

length-choose :
    (c : Bool) (a b : PlaceSet) (n : ℕ)
    → length a ≡ n
    → length b ≡ n
    → length (if c then a else b) ≡ n
length-choose true a b n f g = f
length-choose false a b n f g = g

length-each_field :
    (l : Layout) (b : Bool) (value : ValueId) (n : ℕ) (places : PlaceSet)
    → length (each_field l (λ places i. set places i b) value n places) ≡ length places
unfolding each_field
length-each_field l b value zero places = refl
length-each_field l b value (suc n) places =
    length-set (each_field l (λ places i. set places i b) value n places) (place_number l value n) b
    ∙ length-each_field l b value n places

length-over_place :
    (l : Layout) (b : Bool) (value : ValueId) (field_id : FieldId) (places : PlaceSet)
    → length (over_place l (λ places i. set places i b) value field_id places) ≡ length places
unfolding over_place
length-over_place l b value field_id places =
    let i = place_number l value field_id in
    let fields = get_or l.value_fields value 0 in
    let marked = set places i b in
    let whole = each_field l (λ places i. set places i b) value fields marked in
    length-choose (value_missing l value) places (if field_is_whole field_id then whole else marked)
      (length places) refl
      (length-choose (field_is_whole field_id) whole marked (length places)
        (length-each_field l b value fields marked ∙ length-set places i b) (length-set places i b))

length-read_place :
    (l : Layout) (places : PlaceSet) (value : ValueId) (field_id : FieldId)
    → length (read_place l places value field_id) ≡ length places
unfolding read_place
length-read_place l places value field_id = length-over_place l true value field_id places

length-write_place :
    (l : Layout) (places : PlaceSet) (value : ValueId) (field_id : FieldId)
    → length (write_place l places value field_id) ≡ length places
unfolding write_place
length-write_place l places value field_id = length-over_place l false value field_id places

length-read_indices :
    (l : Layout) (ps : List Projection) (places : PlaceSet)
    → length (read_indices l ps places) ≡ length places
unfolding read_indices
length-read_indices l [] places = refl
length-read_indices l (p ∷ ps) places =
    elim p.kind
      as (λ k.
        length (elim k [
          | field f ↦ read_indices l ps places
          | deref ↦ read_indices l ps places
          | index at ↦ read_indices l ps (read_place l places at no_id)
        ])
        ≡ length places) [
          | field f ↦ length-read_indices l ps places
          | deref ↦ length-read_indices l ps places
          | index at ↦
              length-read_indices l ps (read_place l places at no_id)
              ∙ length-read_place l places at no_id
        ]

length-place_reads :
    (l : Layout) (place : Place) (places : PlaceSet)
    → length (place_reads l place places) ≡ length places
unfolding place_reads
length-place_reads l place places =
    let lead = leading_field place.projections in
    length-read_indices l place.projections (read_place l places place.base lead)
    ∙ length-read_place l places place.base lead

length-store_writes :
    (l : Layout) (place : Place) (places : PlaceSet)
    → length (store_writes l place places) ≡ length places
unfolding store_writes
length-store_writes l place places =
    let lead = leading_field place.projections in
    let written = write_place l places place.base lead in
    let w = length-write_place l places place.base lead in
    let read = read_place l written place.base lead in
    let chosen = if ltb 1 (length place.projections) then read else written in
    length-read_indices l place.projections chosen
    ∙ length-choose (ltb 1 (length place.projections)) read written (length places)
        (length-read_place l written place.base lead ∙ w) w

length-op_backwards :
    (l : Layout) (op : Op) (place : Place) (places : PlaceSet)
    → length (op_backwards l op place places) ≡ length places
unfolding op_backwards
length-op_backwards l Op.store place places = length-store_writes l place places
length-op_backwards l Op.load place places = length-place_reads l place places
length-op_backwards l Op.ref place places = length-place_reads l place places
length-op_backwards l Op.drop place places = length-place_reads l place places
length-op_backwards l Op.storage_live place places = length-write_place l places place.base no_id
length-op_backwards l Op.storage_dead place places = length-write_place l places place.base no_id
length-op_backwards l _ place places = refl

length-read_args :
    (l : Layout) (args : List Operand) (places : PlaceSet)
    → length (read_args l args places) ≡ length places
unfolding read_args
length-read_args l [] places = refl
length-read_args l (arg ∷ args) places =
    length-read_args l args (read_place l places (operand_as_value arg) no_id)
    ∙ length-read_place l places (operand_as_value arg) no_id

length-step_backwards :
    (l : Layout) (inst : Inst) (places : PlaceSet)
    → length (step_backwards l inst places) ≡ length places
unfolding step_backwards
length-step_backwards l inst places =
    let place = place_of inst.payload in
    let written = write_place l places inst.result no_id in
    let first = if value_is_none inst.result then places else written in
    length-read_args l inst.args (op_backwards l inst.op place first)
    ∙ length-op_backwards l inst.op place first
    ∙ length-choose (value_is_none inst.result) places written (length places) refl
        (length-write_place l places inst.result no_id)

pub length-steps_backwards :
    (l : Layout) (insts : List Inst) (places : PlaceSet)
    → length (steps_backwards l insts places) ≡ length places
unfolding steps_backwards
length-steps_backwards l [] places = refl
length-steps_backwards l (inst ∷ insts) places =
    length-step_backwards l inst (steps_backwards l insts places)
    ∙ length-steps_backwards l insts places
