-- ===== src/Mir/Fold.antt =====
-- src/mir/mir_fold.c: folding of operations on constants, and removal of the constants that nothing
-- reads afterwards.
--
-- The array of known values is a list with a constant, or nothing, for each value. A read past its
-- end gives nothing and a write past its end is lost; in the source neither happens, since each
-- instruction's result is a value of the function. C's arithmetic on floats is a parameter.
pub mod Meaning
pub mod Binary
pub mod Pass
pub mod Sound
mod Tests
pub mod Usize
pub mod Unread
pub mod Unary
pub mod Words
use gab.Prelude.{
  ℕ, zero, ◌+◌, ◌%◌, ◌^◌, Bool, true, false, not, ◌&&◌, ◌||◌, Option, none, some, List, [], ◌∷◌,
  ◌==◌, if◌then◌else◌, get_or, set, replicate,
}
use gab.Types.{
  TypeHeap, Constant, as_float, int_of, float_of, bool_of, pointer_eq, constant_int, constant_float,
  constant_bool, constant_is_int, constant_is_float, constant_is_bool, type_is_unsigned,
}
use gab.Word.{truncate, add_word, sub_word, mul_word, neg_word, div_word, rem_word, extend_32_to_64}
use gab.Mir.{
  ValueId, value_is_none, Op, Operand, operand_value, operand_const, operand_as_value, ProjKind,
  index, Projection, holds_constant, constant_of, place_of, Inst, Block, Function, value_count,
  op_has_place,
}

-- `float` arithmetic on bit patterns.
pub record FloatOps : Type 0 where
  pub fadd : ℕ → ℕ → ℕ
  pub fsub : ℕ → ℕ → ℕ
  pub fmul : ℕ → ℕ → ℕ
  pub fdiv : ℕ → ℕ → ℕ
  pub fneg : ℕ → ℕ

abbrev pub Known : Type 0
Known = List (Option Constant)

unfoldable pub inst_is_constant : Op → Bool
inst_is_constant Op.const_int = true
inst_is_constant Op.const_float = true
inst_is_constant Op.const_bool = true
inst_is_constant _ = false

-- The body of the loop of `known_values`.
unfoldable pub note_constant : Known → Inst → Known
unfolding inst_is_constant
note_constant known inst =
    if not (inst_is_constant inst.op) || value_is_none inst.result
    then known
    else set known inst.result (some (constant_of inst.payload))

pub note_insts : Known → List Inst → Known
note_insts known [] = known
note_insts known (inst ∷ insts) = note_insts (note_constant known inst) insts

pub note_blocks : Known → List Block → Known
note_blocks known [] = known
note_blocks known (block ∷ blocks) = note_blocks (note_insts known block.insts) blocks

unfoldable pub known_values : Function → Known
unfolding note_blocks note_insts note_constant
known_values ir = note_blocks (replicate (value_count ir) none) ir.blocks

unfoldable pub known_operand : Known → Operand → Option Constant
known_operand known (operand_const c) = some c
known_operand known (operand_value v) = if value_is_none v then none else get_or known v none

-- A 64-bit pattern read as an `int32_t`, and an `int32_t` stored as an `int64_t`.
unfoldable pub int32_of : Constant → ℕ
int32_of c = truncate 32 (int_of c.value)

-- The guard on division: the divisor is zero, or `INT32_MIN` is divided by -1.
unfoldable pub division_overflows : ℕ → ℕ → Bool
division_overflows a b = b == 0 || (a == 2147483648 && b == 4294967295)

unfoldable pub fold_int_binary : Op → ℕ → ℕ → Option ℕ
unfolding division_overflows add_word sub_word mul_word div_word rem_word
fold_int_binary op a b = elim op [
  | Op.add ↦ some (add_word 32 a b)
  | Op.sub ↦ some (sub_word 32 a b)
  | Op.mul ↦ some (mul_word 32 a b)
  | Op.div ↦ if division_overflows a b then none else some (div_word 32 a b)
  | Op.modulo ↦ if division_overflows a b then none else some (rem_word 32 a b)
  | _ ↦ none
]

-- The guard on unsigned division in `fold_binary`.
abbrev pub is_division : Op → Bool
is_division Op.div = true
is_division Op.modulo = true
is_division _ = false

abbrev pub is_null {ℓ} : {A : Type ℓ} → Option A → Bool
is_null none = true
is_null (some _) = false

module _ (types : TypeHeap) (floats : FloatOps) where
  unfoldable pub fold_float_binary : Op → ℕ → ℕ → Option ℕ
  fold_float_binary op a b = elim op [
    | Op.add ↦ some (floats.fadd a b)
    | Op.sub ↦ some (floats.fsub a b)
    | Op.mul ↦ some (floats.fmul a b)
    | Op.div ↦ some (floats.fdiv a b)
    | _ ↦ none
  ]

  -- `none` is `false`: the instruction is left as it was.
  unfoldable pub fold_neg : Constant → Inst → Option Inst
  unfolding constant_is_float constant_is_int constant_float constant_int neg_word extend_32_to_64
      int32_of
  fold_neg operand inst =
      if constant_is_float types operand
      then some (record inst {
        op = Op.const_float;
        payload =
            holds_constant (constant_float operand.type (floats.fneg (float_of operand.value)));
      })
      else if constant_is_int types operand
      then some (record inst {
        op = Op.const_int;
        payload =
            holds_constant
              (constant_int operand.type (extend_32_to_64 (neg_word 32 (int32_of operand))));
      })
      else none

  unfoldable pub fold_not : Constant → Inst → Option Inst
  unfolding constant_is_bool constant_bool
  fold_not operand inst =
      if constant_is_bool types operand
      then some (record inst {
        op = Op.const_bool;
        payload = holds_constant (constant_bool operand.type (not (bool_of operand.value)));
      })
      else none

  -- The integer branch of `fold_binary`.
  unfoldable pub fold_ints : Constant → Constant → Inst → Option Inst
  unfolding fold_int_binary int32_of constant_int extend_32_to_64 type_is_unsigned
  fold_ints left right inst =
      if type_is_unsigned types left.type && is_division inst.op
      then none
      else elim (fold_int_binary inst.op (int32_of left) (int32_of right)) [
        | none ↦ none
        | some folded ↦ some (record inst {
          op = Op.const_int;
          payload = holds_constant (constant_int left.type (extend_32_to_64 folded));
        })
      ]

  -- The float branch writes `as_float` alone: the constant's type stays what the union held before.
  unfoldable pub fold_floats : Constant → Constant → Inst → Option Inst
  unfolding fold_float_binary
  fold_floats left right inst =
      elim (fold_float_binary inst.op (float_of left.value) (float_of right.value)) [
        | none ↦ none
        | some folded ↦ some (record inst {
          op = Op.const_float;
          payload =
              holds_constant
                (record { type = (constant_of inst.payload).type; value = as_float folded });
        })
      ]

  unfoldable pub fold_binary : Constant → Constant → Inst → Option Inst
  unfolding fold_ints fold_floats constant_is_int constant_is_float
  fold_binary left right inst =
      if is_null left.type || not (pointer_eq left.type right.type)
      then none
      else if constant_is_int types left
      then fold_ints left right inst
      else if constant_is_float types left
      then fold_floats left right inst
      else none

  -- The switch of `mir_fold`, for one operand and for two.
  unfoldable pub fold_unary_op : Op → Constant → Inst → Option Inst
  unfolding fold_neg fold_not
  fold_unary_op Op.neg operand inst = fold_neg operand inst
  fold_unary_op Op.logical_not operand inst = fold_not operand inst
  fold_unary_op _ operand inst = none

  unfoldable pub fold_binary_op : Op → Constant → Constant → Inst → Option Inst
  unfolding fold_binary
  fold_binary_op Op.add left right inst = fold_binary left right inst
  fold_binary_op Op.sub left right inst = fold_binary left right inst
  fold_binary_op Op.mul left right inst = fold_binary left right inst
  fold_binary_op Op.div left right inst = fold_binary left right inst
  fold_binary_op Op.modulo left right inst = fold_binary left right inst
  fold_binary_op _ left right inst = none

  unfoldable pub fold_unary : Option Constant → Inst → Option Inst
  unfolding fold_unary_op
  fold_unary none inst = none
  fold_unary (some x) inst = fold_unary_op inst.op x inst

  unfoldable pub fold_pair : Option Constant → Option Constant → Inst → Option Inst
  unfolding fold_binary_op
  fold_pair none right inst = none
  fold_pair (some x) none inst = none
  fold_pair (some x) (some y) inst = fold_binary_op inst.op x y inst

  unfoldable pub folded_args : Known → Inst → List Operand → Option Inst
  unfolding known_operand fold_unary fold_pair
  folded_args known inst [] = none
  folded_args known inst (a ∷ []) = fold_unary (known_operand known a) inst
  folded_args known inst (a ∷ b ∷ []) =
      fold_pair (known_operand known a) (known_operand known b) inst
  folded_args known inst (a ∷ b ∷ c ∷ rest) = none

  -- What an instruction folds to, if its operands are known.
  unfoldable pub folded_inst : Known → Inst → Option Inst
  unfolding folded_args
  folded_inst known inst = folded_args known inst inst.args

  -- What the loop of `mir_fold` keeps of a folded instruction, and of one that is left.
  unfoldable pub fold_result : Known → Inst → Option Inst → Known × Inst
  fold_result known inst none = (known, inst)
  fold_result known inst (some folded) =
      (set known inst.result (some (constant_of folded.payload)), record folded { args = [] })

  -- The body of the loop of `mir_fold`: the known values and the instruction, both updated.
  unfoldable pub fold_inst : Known → Inst → Known × Inst
  unfolding folded_inst fold_result
  fold_inst known inst = fold_result known inst (folded_inst known inst)

  pub fold_insts : Known → List Inst → Known × List Inst
  fold_insts known [] = (known, [])
  fold_insts known (inst ∷ insts) =
      let (known', inst') = fold_inst known inst in
      let (known'', insts') = fold_insts known' insts in (known'', inst' ∷ insts')

  pub fold_blocks : Known → List Block → List Block
  fold_blocks known [] = []
  fold_blocks known (block ∷ blocks) =
      let (known', insts') = fold_insts known block.insts in
      record block { insts = insts' } ∷ fold_blocks known' blocks

abbrev pub Reads : Type 0
Reads = List Bool

abbrev pub mark : Reads → ValueId → Reads
mark read value = if value_is_none value then read else set read value true

pub mark_args : Reads → List Operand → Reads
mark_args read [] = read
mark_args read (arg ∷ args) = mark_args (mark read (operand_as_value arg)) args

abbrev pub mark_kind : Reads → ProjKind → Reads
mark_kind read (index v) = mark read v
mark_kind read _ = read

pub mark_projections : Reads → List Projection → Reads
mark_projections read [] = read
mark_projections read (projection ∷ rest) = mark_projections (mark_kind read projection.kind) rest

-- The body of the first loop of `drop_unread_constants`.
unfoldable pub mark_inst : Reads → Inst → Reads
unfolding mark_args mark_projections
mark_inst read inst =
    let marked = mark_args read inst.args in
    if op_has_place inst.op
    then mark_projections (mark marked (place_of inst.payload).base)
        (place_of inst.payload).projections
    else marked

pub mark_insts : Reads → List Inst → Reads
mark_insts read [] = read
mark_insts read (inst ∷ insts) = mark_insts (mark_inst read inst) insts

pub mark_blocks : Reads → List Block → Reads
mark_blocks read [] = read
mark_blocks read (block ∷ blocks) = mark_blocks (mark_insts read block.insts) blocks

unfoldable pub is_unread : Reads → Inst → Bool
unfolding inst_is_constant
is_unread read inst =
    inst_is_constant inst.op
    && not (value_is_none inst.result)
    && not (get_or read inst.result false)

pub keep_read : Reads → List Inst → List Inst
keep_read read [] = []
keep_read read (inst ∷ insts) =
    let rest = keep_read read insts in if is_unread read inst then rest else inst ∷ rest

pub keep_blocks : Reads → List Block → List Block
keep_blocks read [] = []
keep_blocks read (block ∷ blocks) =
    record block { insts = keep_read read block.insts } ∷ keep_blocks read blocks

unfoldable pub drop_unread_constants : Function → Function
unfolding keep_blocks keep_read mark_blocks mark_insts mark_inst is_unread
drop_unread_constants ir =
    let read = mark_blocks (replicate (value_count ir) false) ir.blocks in
    record ir { blocks = keep_blocks read ir.blocks }

-- `mir_fold`.
unfoldable pub mir_fold : TypeHeap → FloatOps → Function → Function
unfolding known_values fold_blocks fold_insts fold_inst drop_unread_constants
mir_fold types floats ir =
    drop_unread_constants
      (record ir { blocks = fold_blocks types floats (known_values ir) ir.blocks })
