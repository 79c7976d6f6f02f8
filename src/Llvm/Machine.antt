-- ===== src/Llvm/Machine.antt =====
-- LLVM as far as the emitter's arithmetic uses it: its operations, and the documented facts on them.
use gab.Prelude.{ℕ, ◌-◌, ◌%◌, ◌^◌, ◌≡◌, ◌≢◌, ◌⊎◌}
use gab.Word.{add_word, sub_word, mul_word, neg_word, div_word, rem_word}
use gab.Mir.Fold.{FloatOps}

-- The first argument of an integer operation is the width of its type.
pub record Target : Type 0 where
  pub pointer_bits : ℕ
  pub const_int : ℕ → ℕ → ℕ
  pub const_real : ℕ → ℕ
  pub add : ℕ → ℕ → ℕ → ℕ
  pub sub : ℕ → ℕ → ℕ → ℕ
  pub mul : ℕ → ℕ → ℕ → ℕ
  pub sdiv : ℕ → ℕ → ℕ → ℕ
  pub udiv : ℕ → ℕ → ℕ → ℕ
  pub srem : ℕ → ℕ → ℕ → ℕ
  pub urem : ℕ → ℕ → ℕ → ℕ
  pub neg : ℕ → ℕ → ℕ
  pub bit_not : ℕ → ℕ → ℕ
  pub fadd : ℕ → ℕ → ℕ
  pub fsub : ℕ → ℕ → ℕ
  pub fmul : ℕ → ℕ → ℕ
  pub fdiv : ℕ → ℕ → ℕ
  pub frem : ℕ → ℕ → ℕ
  pub fneg : ℕ → ℕ

-- LLVMConstInt keeps the low bits; add, sub, mul and neg wrap; sdiv and srem truncate towards zero
-- where the divisor is not zero and the quotient does not overflow. On constants the float
-- instructions agree with the arithmetic that the compiler itself was built with.
pub record IsTarget (floats : FloatOps) (t : Target) : Type 0 where
  pub const_int_lem : (w x : ℕ) → t.const_int w x ≡ x % 2 ^ w
  pub add_lem : (w x y : ℕ) → t.add w x y ≡ add_word w x y
  pub sub_lem : (w x y : ℕ) → t.sub w x y ≡ sub_word w x y
  pub mul_lem : (w x y : ℕ) → t.mul w x y ≡ mul_word w x y
  pub neg_lem : (w x : ℕ) → t.neg w x ≡ neg_word w x
  pub not_lem : (w x : ℕ) → t.bit_not w x ≡ 2 ^ w - 1 - x
  pub sdiv_lem :
      (w x y : ℕ) → y ≢ 0 → (x ≢ 2 ^ (w - 1)) ⊎ (y ≢ 2 ^ w - 1) → t.sdiv w x y ≡ div_word w x y
  pub srem_lem :
      (w x y : ℕ) → y ≢ 0 → (x ≢ 2 ^ (w - 1)) ⊎ (y ≢ 2 ^ w - 1) → t.srem w x y ≡ rem_word w x y
  pub fadd_lem :
      (a b : ℕ) → t.fadd (t.const_real a) (t.const_real b) ≡ t.const_real (floats.fadd a b)
  pub fsub_lem :
      (a b : ℕ) → t.fsub (t.const_real a) (t.const_real b) ≡ t.const_real (floats.fsub a b)
  pub fmul_lem :
      (a b : ℕ) → t.fmul (t.const_real a) (t.const_real b) ≡ t.const_real (floats.fmul a b)
  pub fdiv_lem :
      (a b : ℕ) → t.fdiv (t.const_real a) (t.const_real b) ≡ t.const_real (floats.fdiv a b)
  pub fneg_lem : (a : ℕ) → t.fneg (t.const_real a) ≡ t.const_real (floats.fneg a)
