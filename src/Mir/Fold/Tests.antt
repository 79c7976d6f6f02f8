-- ===== src/Mir/Fold/Tests.antt =====
-- A function that adds two constants, and the theorems on folding at work on it.
use gab.Prelude.{
  ℕ, zero, suc, ◌+◌, ◌-◌, ◌%◌, ◌^◌, ◌≡◌, refl, ◌≢◌, inr, false, none, some, [], ◌∷◌, arith,
}
use gab.Types.{TypeKind, TypeCell, TypeHeap, Constant, as_int}
use gab.Word.{add_word, sub_word, mul_word, neg_word, div_word, rem_word}
use gab.Mir.{
  Op, operand_value, empty, holds_constant, Span, Inst, Function, ValueInfo, ValueId, constant_of,
}
use gab.Mir.Fold.{
  FloatOps, mir_fold, fold_blocks, known_values, drop_unread_constants, fold_binary,
  inst_is_constant,
}
use gab.Llvm.Machine.{Target, IsTarget}
use gab.Llvm.{width_of, constant_value, operand_type, emit_op, emit_inst}
use gab.Mir.Fold.Pass
use gab.Mir.Fold.Pass.{AllBlocks, AllInsts, fold_preserves, mir_fold_sound}
use gab.Mir.Fold.Usize.{count, fold_add-usize}
use gab.Mir.Fold.Unread.{HasValue, drop_unread_constants_lem, blocks_without_dead}

abbrev some_floats : FloatOps
some_floats = record {
  fadd = λ a b. a + b;
  fsub = λ a b. a - b;
  fmul = λ a b. a;
  fdiv = λ a b. b;
  fneg = λ a. a;
}

-- A machine with 64-bit pointers.
abbrev machine : Target
machine = record {
  pointer_bits = 64;
  const_int = λ w x. x % 2 ^ w;
  const_real = λ x. x;
  add = add_word;
  sub = sub_word;
  mul = mul_word;
  sdiv = div_word;
  udiv = div_word;
  srem = rem_word;
  urem = rem_word;
  neg = neg_word;
  bit_not = λ w x. 2 ^ w - 1 - x;
  fadd = λ a b. a + b;
  fsub = λ a b. a - b;
  fmul = λ a b. a;
  fdiv = λ a b. b;
  frem = λ a b. a;
  fneg = λ a. a;
}

abbrev machine_laws : IsTarget some_floats machine
machine_laws = record {
  const_int_lem = λ w x. refl;
  add_lem = λ w x y. refl;
  sub_lem = λ w x y. refl;
  mul_lem = λ w x y. refl;
  neg_lem = λ w x. refl;
  not_lem = λ w x. refl;
  sdiv_lem = λ w x y h g. refl;
  srem_lem = λ w x y h g. refl;
  fadd_lem = λ a b. refl;
  fsub_lem = λ a b. refl;
  fmul_lem = λ a b. refl;
  fdiv_lem = λ a b. refl;
  fneg_lem = λ a. refl;
}

abbrev cell : TypeKind → TypeCell
cell kind = record {
  kind = kind;
  name = none;
  decl = none;
  args = [];
  has_param = false;
  pointee = none;
  param_index = 0;
}

-- `i32` stands at the address 0, and `usize` at every other.
abbrev heap : TypeHeap
heap zero = cell TypeKind.i32
heap (suc _) = cell TypeKind.usize

abbrev nowhere : Span
nowhere = record { line = 0; column = 0 }

abbrev i32_value : ValueInfo
i32_value = record { type = some 0; binding = none; span = nowhere }

abbrev constant_inst : ValueId → ℕ → Inst
constant_inst result n = record {
  op = Op.const_int;
  type = some 0;
  result = result;
  args = [];
  payload = holds_constant (record { type = some 0; value = as_int n });
  ending = none;
  span = nowhere;
}

abbrev sum_inst : Inst
sum_inst = record {
  op = Op.add;
  type = some 0;
  result = 2;
  args = operand_value 0 ∷ operand_value 1 ∷ [];
  payload = empty;
  ending = none;
  span = nowhere;
}

abbrev sum_function : Function
sum_function = record {
  blocks = record { id = 0; insts = constant_inst 0 20 ∷ constant_inst 1 22 ∷ sum_inst ∷ [] } ∷ [];
  entry = 0;
  values = i32_value ∷ i32_value ∷ i32_value ∷ [];
  params = [];
}

abbrev sum_values : ValueId → ℕ
sum_values zero = 20
sum_values (suc zero) = 22
sum_values (suc (suc _)) = 42

-- After folding, only the sum is left, and nothing reads it.
folded_sum : (mir_fold heap some_floats sum_function).blocks ≡ record { id = 0; insts = [] } ∷ []
unfolding mir_fold
folded_sum = refl

abbrev IsTyped : Inst → Type 0
IsTyped = Pass.IsWellTyped heap some_floats machine machine_laws sum_function sum_values

abbrev IsAnswered : Inst → Type 0
IsAnswered = Pass.Solved heap some_floats machine machine_laws sum_function sum_values

sum-IsTyped : AllBlocks IsTyped sum_function.blocks
unfolding inst_is_constant operand_type
sum-IsTyped = (
  (
    record {
      constant = λ k. inr (refl, refl, refl, λ b. absurd (cc b));
      arithmetic = λ k. absurd (cc k);
    },
    (
      record {
        constant = λ k. inr (refl, refl, refl, λ b. absurd (cc b));
        arithmetic = λ k. absurd (cc k);
      },
      (
        record {
          constant = λ k. absurd (cc k);
          arithmetic = λ k. (refl, refl, (refl, (refl, tt)));
        },
        tt,
      ),
    ),
  ),
  tt,
)

sum-NoUsize :
    AllBlocks
      (Pass.NoUsize heap some_floats machine machine_laws sum_function sum_values)
      sum_function.blocks
unfolding inst_is_constant
sum-NoUsize = (((λ k. absurd (cc k)), ((λ k. absurd (cc k)), ((λ k e. absurd (cc e)), tt))), tt)

sum-IsAnswered : AllBlocks IsAnswered sum_function.blocks
unfolding emit_op emit_inst add_word
sum-IsAnswered = ((refl, (refl, (refl, tt))), tt)

mir_fold_sound_example : AllBlocks IsAnswered (mir_fold heap some_floats sum_function).blocks
mir_fold_sound_example =
    mir_fold_sound heap some_floats machine machine_laws sum_function sum_values sum-IsTyped
      sum-NoUsize sum-IsAnswered

fold_preserves_example :
    Pass.SameBlocks heap some_floats machine machine_laws sum_function sum_values
      sum_function.blocks
      (fold_blocks heap some_floats (known_values sum_function) sum_function.blocks)
fold_preserves_example =
    fold_preserves heap some_floats machine machine_laws sum_function sum_values sum-IsTyped
      sum-NoUsize sum-IsAnswered

sum_has_values : AllBlocks (HasValue sum_function) sum_function.blocks
sum_has_values = ((λ h. omega arith, (λ h. omega arith, (λ h. omega arith, tt))), tt)

drop_unread_constants_example :
    drop_unread_constants sum_function
    ≡ record sum_function { blocks = blocks_without_dead sum_function.blocks sum_function.blocks }
drop_unread_constants_example = drop_unread_constants_lem sum_function sum_has_values

abbrev many : Constant
many = count heap some_floats machine machine_laws 1 refl refl 2000000000

fold_add-usize_example :
    (inst' : Inst) × (fold_binary heap some_floats many many sum_inst ≡ some inst')
    × (constant_value heap machine (constant_of inst'.payload)
        ≢ machine.add
            (width_of heap machine (some 1))
            (constant_value heap machine many)
            (constant_value heap machine many))
fold_add-usize_example =
    fold_add-usize heap some_floats machine machine_laws 1 refl refl sum_inst 2000000000 2000000000
      refl (omega arith) (omega arith)
