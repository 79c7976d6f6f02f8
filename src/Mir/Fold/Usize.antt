-- ===== src/Mir/Fold/Usize.antt =====
-- Folding a sum of type `usize` on a machine with 64-bit pointers.
use gab.Prelude.{ℕ, ◌+◌, ◌-◌, ◌%◌, ◌^◌, ◌≤◌, ◌<◌, ◌≡◌, ◌≢◌, true, some, arith, sym, ◌∙◌, ◌==◌}
use gab.Types.{
  TypeKind, TypeRef, TypeHeap, Constant, as_int, constant_int, constant_is_int, type_is_unsigned,
}
use gab.Word.{add_word, extend_32_to_64}
use gab.Mir.{Op, Inst, constant_of, holds_constant}
use gab.Mir.Fold.{FloatOps, int32_of, fold_int_binary, fold_ints, fold_binary}
use gab.Llvm.Machine.{Target, IsTarget}
use gab.Llvm.{width_of, constant_value}

-- What the fold stores for a sum of two integers: their sum at 32 bits, extended by its sign.
abbrev pub folded_sum : ℕ → ℕ → ℕ
folded_sum m n = extend_32_to_64 (add_word 32 (m % 2 ^ 32) (n % 2 ^ 32))

sum_differs :
    (m n : ℕ)
    → 2 ^ 31 ≤ m + n
    → m + n < 2 ^ 64 - 2 ^ 31
    → folded_sum m n % 2 ^ 64 ≢ add_word 64 (m % 2 ^ 64) (n % 2 ^ 64)
unfolding extend_32_to_64 add_word
sum_differs m n lo hi = ground arith

eq_self : (t : ℕ) → (t == t) ≡ true
eq_self t = ground arith

module _ (types : TypeHeap) (floats : FloatOps) (target : Target) (laws : IsTarget floats target)
    (t : TypeRef) (usize : (types t).kind ≡ TypeKind.usize) (wide : target.pointer_bits ≡ 64) where
  abbrev pub count : ℕ → Constant
  count n = record { type = some t; value = as_int n }

  count_value : (n : ℕ) → constant_value types target (count n) ≡ n % 2 ^ 64
  unfolding constant_value
  count_value n = rw (usize, laws.const_int_lem, wide)

  width_usize : width_of types target (some t) ≡ 64
  width_usize = rw (usize, width_of) wide

  -- The instruction that the fold makes of a sum of two counts.
  abbrev folded_add : Inst → ℕ → ℕ → Inst
  folded_add inst m n = record inst {
    op = Op.const_int;
    payload = holds_constant (constant_int (some t) (folded_sum m n));
  }

  fold_add :
      (inst : Inst) (m n : ℕ)
      → inst.op ≡ Op.add
      → fold_binary types floats (count m) (count n) inst ≡ some (folded_add inst m n)
  unfolding fold_binary fold_ints fold_int_binary int32_of constant_is_int type_is_unsigned
  fold_add inst m n e = rw (eq_self t, usize, e)

  -- Where `usize` has 64 bits, the fold of a sum of two counts that is at least 2 ^ 31 (and below
  -- 2 ^ 64 - 2 ^ 31) succeeds, and the constant that it stores is not the sum that the emitter would
  -- have built.
  pub fold_add-usize :
      (inst : Inst) (m n : ℕ)
      → inst.op ≡ Op.add
      → 2 ^ 31 ≤ m + n
      → m + n < 2 ^ 64 - 2 ^ 31
      → (inst' : Inst) × (fold_binary types floats (count m) (count n) inst ≡ some inst')
        × (constant_value types target (constant_of inst'.payload)
            ≢ target.add
                (width_of types target (some t))
                (constant_value types target (count m))
                (constant_value types target (count n)))
  unfolding constant_int
  fold_add-usize inst m n e lo hi = (
    folded_add inst m n,
    fold_add inst m n e,
    λ h. sum_differs m n lo hi (
        sym (count_value (folded_sum m n))
        ∙ h
        ∙ laws.add_lem _ _ _
        ∙ (λ i. add_word (width_usize i) (count_value m i) (count_value n i))),
  )
