-- ===== src/Mir/Fold/Unread.antt =====
-- Which constants `drop_unread_constants` removes: those whose value no instruction of the function
-- reads.
use gab.Prelude.{
  ◌<◌, ◌≡◌, ◌≢◌, refl, inl, inr, Bool, true, false, not, ◌&&◌, ◌||◌, List, [], ◌∷◌, ◌==◌, arith,
  Bool-cases, sym, ◌∙◌, ap, get_or, get_or-set_self, get_or-set_ne, length, length-set,
  length-replicate, get_or-replicate, replicate, if◌then◌else◌,
}
use gab.Mir.{
  ValueId, no_id, value_is_none, value_count, Operand, operand_as_value, ProjKind, index, field,
  deref, Projection, place_of, Inst, Block, Function, op_has_place,
}
use gab.Mir.Fold.{
  inst_is_constant, Reads, mark, mark_args, mark_kind, mark_projections, mark_inst, mark_insts,
  mark_blocks, is_unread, keep_read, keep_blocks, drop_unread_constants,
}
use gab.Mir.Fold.Pass.{AllInsts, AllBlocks}

-- What an instruction reads, said without the array of marks.
pub reads_args : List Operand → ValueId → Bool
reads_args [] v = false
reads_args (a ∷ as') v = operand_as_value a == v || reads_args as' v

abbrev pub reads_kind : ProjKind → ValueId → Bool
reads_kind (index w) v = w == v
reads_kind _ v = false

pub reads_projections : List Projection → ValueId → Bool
reads_projections [] v = false
reads_projections (p ∷ ps) v = reads_kind p.kind v || reads_projections ps v

pub reads_inst : Inst → ValueId → Bool
unfolding reads_args reads_projections
reads_inst inst v =
    reads_args inst.args v
    || (op_has_place inst.op
        && ((place_of inst.payload).base == v
            || reads_projections (place_of inst.payload).projections v))

pub reads_insts : List Inst → ValueId → Bool
reads_insts [] v = false
reads_insts (inst ∷ insts) v = reads_inst inst v || reads_insts insts v

pub reads_blocks : List Block → ValueId → Bool
reads_blocks [] v = false
reads_blocks (block ∷ blocks) v = reads_insts block.insts v || reads_blocks blocks v

or_false : (a : Bool) → (a || false) ≡ a
or_false true = refl
or_false false = refl

-- One step of a loop that marks, as what the rest of the loop and the step read.
or_step : {r x : Bool} (a b c : Bool) → r ≡ (x || c) → x ≡ (a || b) → r ≡ (a || (b || c))
or_step a b c h k = ground arith

length-mark : (read : Reads) (w : ValueId) → length (mark read w) ≡ length read
length-mark read w = ground (arith, length-set read w true)

length-mark_args : (read : Reads) (args : List Operand) → length (mark_args read args) ≡ length read
unfolding mark_args
length-mark_args read [] = refl
length-mark_args read (a ∷ as') =
    length-mark_args (mark read (operand_as_value a)) as' ∙ length-mark read (operand_as_value a)

length-mark_kind : (read : Reads) (k : ProjKind) → length (mark_kind read k) ≡ length read
length-mark_kind read (index w) = length-mark read w
length-mark_kind read (field f) = refl
length-mark_kind read deref = refl

length-mark_projections :
    (read : Reads) (ps : List Projection) → length (mark_projections read ps) ≡ length read
unfolding mark_projections
length-mark_projections read [] = refl
length-mark_projections read (p ∷ ps) =
    length-mark_projections (mark_kind read p.kind) ps ∙ length-mark_kind read p.kind

length-mark_inst : (read : Reads) (inst : Inst) → length (mark_inst read inst) ≡ length read
unfolding mark_inst
length-mark_inst read inst =
    let place = place_of inst.payload in
    ground (
      arith,
      length-mark_args read inst.args,
      length-mark (mark_args read inst.args) place.base,
      length-mark_projections (mark (mark_args read inst.args) place.base) place.projections,
    )

length-mark_insts :
    (read : Reads) (insts : List Inst) → length (mark_insts read insts) ≡ length read
unfolding mark_insts
length-mark_insts read [] = refl
length-mark_insts read (inst ∷ insts) =
    length-mark_insts (mark_inst read inst) insts ∙ length-mark_inst read inst

ne_no_id : (v : ValueId) → value_is_none v ≡ false → v ≢ no_id
ne_no_id v h = ground arith

module _ (v : ValueId) (present : v ≢ no_id) where
  abbrev at : Reads → Bool
  at read = get_or read v false

  at-mark : (read : Reads) (w : ValueId) → v < length read → at (mark read w) ≡ (at read || w == v)
  at-mark read w h =
      ground (arith, get_or-set_self read w true false, get_or-set_ne read w v true false)

  at-mark_args :
      (read : Reads) (args : List Operand)
      → v < length read
      → at (mark_args read args) ≡ (at read || reads_args args v)
  unfolding mark_args reads_args
  at-mark_args read [] h = sym (or_false _)
  at-mark_args read (a ∷ as') h =
      or_step (at read) (operand_as_value a == v) (reads_args as' v)
        (at-mark_args (mark read (operand_as_value a)) as'
          (omega (arith, length-mark read (operand_as_value a))))
        (at-mark read (operand_as_value a) h)

  at-mark_kind :
      (read : Reads) (k : ProjKind)
      → v < length read
      → at (mark_kind read k) ≡ (at read || reads_kind k v)
  at-mark_kind read (index w) h = at-mark read w h
  at-mark_kind read (field f) h = sym (or_false _)
  at-mark_kind read deref h = sym (or_false _)

  at-mark_projections :
      (read : Reads) (ps : List Projection)
      → v < length read
      → at (mark_projections read ps) ≡ (at read || reads_projections ps v)
  unfolding mark_projections reads_projections
  at-mark_projections read [] h = sym (or_false _)
  at-mark_projections read (p ∷ ps) h =
      or_step (at read) (reads_kind p.kind v) (reads_projections ps v)
        (at-mark_projections (mark_kind read p.kind) ps
          (omega (arith, length-mark_kind read p.kind)))
        (at-mark_kind read p.kind h)

  at-mark_inst :
      (read : Reads) (inst : Inst)
      → v < length read
      → at (mark_inst read inst) ≡ (at read || reads_inst inst v)
  unfolding mark_inst reads_inst
  at-mark_inst read inst h =
      let args = mark_args read inst.args in
      let place = place_of inst.payload in
      let base = mark args place.base in
      let e : length args ≡ length read = length-mark_args read inst.args in
      ground (
        arith,
        at-mark_args read inst.args h,
        at-mark args place.base,
        at-mark_projections base place.projections,
        length-mark args place.base,
        e,
      )

  at-mark_insts :
      (read : Reads) (insts : List Inst)
      → v < length read
      → at (mark_insts read insts) ≡ (at read || reads_insts insts v)
  unfolding mark_insts reads_insts
  at-mark_insts read [] h = sym (or_false _)
  at-mark_insts read (inst ∷ insts) h =
      or_step (at read) (reads_inst inst v) (reads_insts insts v)
        (at-mark_insts (mark_inst read inst) insts (omega (arith, length-mark_inst read inst)))
        (at-mark_inst read inst h)

  at-mark_blocks :
      (read : Reads) (blocks : List Block)
      → v < length read
      → at (mark_blocks read blocks) ≡ (at read || reads_blocks blocks v)
  unfolding mark_blocks reads_blocks
  at-mark_blocks read [] h = sym (or_false _)
  at-mark_blocks read (block ∷ blocks) h =
      or_step (at read) (reads_insts block.insts v) (reads_blocks blocks v)
        (at-mark_blocks (mark_insts read block.insts) blocks
          (omega (arith, length-mark_insts read block.insts)))
        (at-mark_insts read block.insts h)

-- The array of marks that `drop_unread_constants` fills.
abbrev marks : Function → Reads
marks ir = mark_blocks (replicate (value_count ir) false) ir.blocks

-- A value of the function is marked exactly if some instruction reads it.
marks-eq-reads :
    (ir : Function) (v : ValueId)
    → v ≢ no_id
    → v < value_count ir
    → get_or (marks ir) v false ≡ reads_blocks ir.blocks v
marks-eq-reads ir v present h =
    at-mark_blocks v present (replicate (value_count ir) false) ir.blocks
      (omega (arith, length-replicate (value_count ir) false))
    ∙ ap (λ (b : Bool). b || reads_blocks ir.blocks v) (get_or-replicate (value_count ir) false v)

-- A constant whose result nothing reads.
unfoldable pub is_dead : List Block → Inst → Bool
is_dead blocks inst =
    inst_is_constant inst.op
    && not (value_is_none inst.result)
    && not (reads_blocks blocks inst.result)

pub without_dead : List Block → List Inst → List Inst
without_dead all [] = []
without_dead all (inst ∷ insts) =
    let rest = without_dead all insts in if is_dead all inst then rest else inst ∷ rest

pub blocks_without_dead : List Block → List Block → List Block
blocks_without_dead all [] = []
blocks_without_dead all (block ∷ blocks) =
    record block { insts = without_dead all block.insts } ∷ blocks_without_dead all blocks

-- The result of an instruction, if it has one, is a value of the function.
abbrev pub HasValue : Function → Inst → Type 0
HasValue ir inst = value_is_none inst.result ≡ false → inst.result < value_count ir

no_result : (a b c : Bool) → (a && not true && not b) ≡ (a && not true && not c)
no_result true b c = refl
no_result false b c = refl

is_unread-eq-is_dead :
    (ir : Function) (inst : Inst)
    → HasValue ir inst
    → is_unread (marks ir) inst ≡ is_dead ir.blocks inst
unfolding is_unread is_dead
is_unread-eq-is_dead ir inst h = elim (Bool-cases (value_is_none inst.result)) [
  | inl nothing ↦ rw nothing (no_result _ _ _)
  | inr there ↦
      ap (λ (b : Bool). inst_is_constant inst.op && not (value_is_none inst.result) && not b)
        (marks-eq-reads ir inst.result (ne_no_id inst.result there) (h there))
]

keep_read-eq :
    (ir : Function) (insts : List Inst)
    → AllInsts (HasValue ir) insts
    → keep_read (marks ir) insts ≡ without_dead ir.blocks insts
unfolding keep_read without_dead
keep_read-eq ir [] h = refl
keep_read-eq ir (inst ∷ insts) h = rw (is_unread-eq-is_dead ir inst h.0, keep_read-eq ir insts h.1)

keep_blocks-eq :
    (ir : Function) (blocks : List Block)
    → AllBlocks (HasValue ir) blocks
    → keep_blocks (marks ir) blocks ≡ blocks_without_dead ir.blocks blocks
unfolding keep_blocks blocks_without_dead
keep_blocks-eq ir [] h = refl
keep_blocks-eq ir (block ∷ blocks) h =
    rw (keep_read-eq ir block.insts h.0, keep_blocks-eq ir blocks h.1)

-- Where every result is a value of the function, `drop_unread_constants` removes exactly the
-- constants whose result no instruction of the function reads as an operand, as the base of a place
-- or as an index, and keeps all else in order.
pub drop_unread_constants_lem :
    (ir : Function)
    → AllBlocks (HasValue ir) ir.blocks
    → drop_unread_constants ir ≡ record ir { blocks = blocks_without_dead ir.blocks ir.blocks }
unfolding drop_unread_constants
drop_unread_constants_lem ir h =
    ap (λ (blocks : List Block). record ir { blocks = blocks }) (keep_blocks-eq ir ir.blocks h)
