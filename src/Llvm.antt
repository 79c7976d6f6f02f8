-- ===== src/Llvm.antt =====
-- src/llvm/llvm_emit.c: what the emitter builds for constants and for arithmetic.
--
-- LLVM is not part of the repository. Its constants and instructions enter as a `Target`, and what
-- its reference promises of them as `IsTarget`. A value at run time is a bit pattern.
pub mod Machine
use gab.Prelude.{ℕ, Option, none, some, Bool, List, [], ◌∷◌, if◌then◌else◌}
use gab.Types.{
  TypeKind, TypeRef, TypeHeap, Constant, int_of, float_of, kind_is_f32, kind_test, type_is_unsigned,
}
use gab.Mir.{ValueId, Op, Operand, operand_value, operand_const, constant_of, Inst, Function}
use gab.Mir.Build.{value_info}
use Machine.{Target}

module _ (types : TypeHeap) (target : Target) where
  -- The width of the integer type that `llvm_type_of` gives.
  abbrev pub width_of : Option TypeRef → ℕ
  width_of none = 32
  width_of (some t) = elim (types t).kind [
    | TypeKind.bool ↦ 1
    | TypeKind.u8 ↦ 8
    | TypeKind.usize ↦ target.pointer_bits
    | _ ↦ 32
  ]

  -- The constant branch of `operand_value`.
  unfoldable pub constant_value : Constant → ℕ
  constant_value c =
      if kind_test types kind_is_f32 c.type
      then target.const_real (float_of c.value)
      else target.const_int (width_of c.type) (int_of c.value)

  module _ (ir : Function) where
    -- The type that `operands_are_float` and `operands_are_unsigned` look at.
    unfoldable pub operand_type : Operand → Option TypeRef
    unfolding value_info
    operand_type (operand_const c) = c.type
    operand_type (operand_value v) = elim (value_info ir v) [ none ↦ none | some info ↦ info.type ]

    unfoldable pub operands_are_float : Operand → Bool
    unfolding operand_type
    operands_are_float a = kind_test types kind_is_f32 (operand_type a)

    unfoldable pub operands_are_unsigned : Operand → Bool
    unfolding operand_type type_is_unsigned
    operands_are_unsigned a = type_is_unsigned types (operand_type a)

    -- `values` is what the emitted code holds for each value.
    module _ (values : ValueId → ℕ) where
      -- `operand_value`.
      unfoldable pub operand_value_of : Operand → ℕ
      unfolding constant_value
      operand_value_of (operand_const c) = constant_value c
      operand_value_of (operand_value v) = values v

      abbrev pub emit_unary : (ℕ → ℕ) → (ℕ → ℕ → ℕ) → List Operand → Option ℕ
      emit_unary on_float on_int [] = none
      emit_unary on_float on_int (a ∷ _) = some (
          if operands_are_float a
          then on_float (operand_value_of a)
          else on_int (width_of (operand_type a)) (operand_value_of a))

      abbrev pub emit_not : List Operand → Option ℕ
      emit_not [] = none
      emit_not (a ∷ _) = some (target.bit_not (width_of (operand_type a)) (operand_value_of a))

      abbrev pub emit_binary :
          (ℕ → ℕ → ℕ) → (ℕ → ℕ → ℕ → ℕ) → (ℕ → ℕ → ℕ → ℕ) → List Operand → Option ℕ
      emit_binary on_float on_signed on_unsigned [] = none
      emit_binary on_float on_signed on_unsigned (a ∷ []) = none
      emit_binary on_float on_signed on_unsigned (a ∷ b ∷ _) = some (
          if operands_are_float a
          then on_float (operand_value_of a) (operand_value_of b)
          else if operands_are_unsigned a
          then on_unsigned (width_of (operand_type a)) (operand_value_of a) (operand_value_of b)
          else on_signed (width_of (operand_type a)) (operand_value_of a) (operand_value_of b))

      -- The cases of `emit_inst` that compute a value from constants and operands alone.
      unfoldable pub emit_op : Op → Option TypeRef → Constant → List Operand → Option ℕ
      unfolding operand_type operands_are_float operands_are_unsigned operand_value_of
      emit_op Op.const_int type c args = some (target.const_int (width_of type) (int_of c.value))
      emit_op Op.const_bool type c args = some (target.const_int (width_of type) (int_of c.value))
      emit_op Op.const_float type c args = some (target.const_real (float_of c.value))
      emit_op Op.add type c args = emit_binary target.fadd target.add target.add args
      emit_op Op.sub type c args = emit_binary target.fsub target.sub target.sub args
      emit_op Op.mul type c args = emit_binary target.fmul target.mul target.mul args
      emit_op Op.div type c args = emit_binary target.fdiv target.sdiv target.udiv args
      emit_op Op.modulo type c args = emit_binary target.frem target.srem target.urem args
      emit_op Op.neg type c args = emit_unary target.fneg target.neg args
      emit_op Op.logical_not type c args = emit_not args
      emit_op _ type c args = none

      unfoldable pub emit_inst : Inst → Option ℕ
      unfolding emit_op
      emit_inst inst = emit_op inst.op inst.type (constant_of inst.payload) inst.args
