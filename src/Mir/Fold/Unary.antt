-- ===== src/Mir/Fold/Unary.antt =====
-- Folding `-` and `!` of a known constant: the emitter builds the same value.
use gab.Prelude.{
  ℕ, ◌≡◌, refl, inl, inr, Bool, true, false, Option, none, some, arith, Bool-cases, if◌then◌else◌,
  sym, ◌∙◌, ap, ap₂, not,
}
use gab.Types.{
  TypeRef, TypeHeap, Constant, as_bool, int_of, float_of, constant_is_int, constant_is_float,
  constant_is_bool, constant_bool,
}
use gab.Word.{neg_word}
use gab.Mir.{Op, Operand, Inst, Function}
use gab.Mir.Fold.{FloatOps, inst_is_constant, int32_of, fold_neg, fold_not}
use gab.Llvm.Machine.{Target, IsTarget}
use gab.Llvm.{width_of, constant_value, operand_type, operand_value_of, emit_op, operands_are_float}
use gab.Types.Laws.{is_f32, is_bool, is_int, bool_not_f32}
use gab.Mir.Fold.Meaning.{IsTagged, IsSmall, OnSome, with_constant}
use gab.Mir.Fold.Meaning

module _ (types : TypeHeap) (floats : FloatOps) (target : Target) (laws : IsTarget floats target)
    (ir : Function) (values : ℕ → ℕ) where
  open laws use {const_int_lem, not_lem, fneg_lem}

  abbrev Agrees : Operand → Constant → Type 0
  Agrees = Meaning.Agrees types floats target laws ir values

  abbrev Computes : Inst → ℕ → Inst → Type 0
  Computes = Meaning.Computes types floats target laws ir values

  -- What the emitter builds for a negation.
  unfoldable pub emits_neg : Operand → ℕ
  emits_neg a =
      if operands_are_float types target ir a
      then target.fneg (operand_value_of types target ir values a)
      else target.neg (width_of types target (operand_type types target ir a))
          (operand_value_of types target ir values a)

  emits_neg-float :
      (a : Operand) (c : Constant)
      → Agrees a c
      → is_f32 types c.type ≡ true
      → emits_neg a ≡ target.const_real (floats.fneg (float_of c.value))
  unfolding emits_neg operands_are_float
  emits_neg-float a c ag f =
      rw (ag.type, f, ag.value, Meaning.constant_value-float types floats target laws c f)
        (fneg_lem _)

  emits_neg-int :
      (a : Operand) (c : Constant)
      → Agrees a c
      → is_f32 types c.type ≡ false
      → emits_neg a ≡ target.neg (width_of types target c.type) (constant_value types target c)
  unfolding emits_neg operands_are_float
  emits_neg-int a c ag nf = rw (ag.type, nf, ag.value)

  pub Computes-fold_neg :
      (inst : Inst) (a : Operand) (c : Constant)
      → Agrees a c
      → inst.type ≡ c.type
      → IsSmall types c.type
      → OnSome (Computes inst (emits_neg a)) (fold_neg types floats c inst)
  unfolding fold_neg constant_is_float constant_is_int
  Computes-fold_neg inst a c ag ty small = elim (Bool-cases (is_f32 types c.type)) [
    | inl f ↦ rw f (
        Meaning.Computes-float types floats target laws ir values inst c.type _ (inr (ty, f))
          (sym (emits_neg-float a c ag f)))
    | inr nf ↦ elim (Bool-cases (is_int types c.type)) [
      | inl i ↦
          rw (nf, i)
            (Meaning.Computes-int types floats target laws ir values inst c
              (neg_word 32 (int32_of c)) ty i
              (Meaning.neg-stored types floats target laws c i small
                ∙ sym (emits_neg-int a c ag nf)))
      | inr ni ↦ rw (nf, ni) tt
    ]
  ]

  -- What the emitter builds for `!`.
  unfoldable pub emits_not : Operand → ℕ
  emits_not a =
      target.bit_not (width_of types target (operand_type types target ir a))
        (operand_value_of types target ir values a)

  width-bool : (t : Option TypeRef) → is_bool types t ≡ true → width_of types target t ≡ 1
  width-bool none h = cc
  width-bool (some t) h = ground arith

  not-stored :
      (c : Constant) (b : Bool)
      → is_bool types c.type ≡ true
      → c.value ≡ as_bool b
      → target.const_int (width_of types target c.type) (int_of (as_bool (not b)))
        ≡ target.bit_not (width_of types target c.type) (constant_value types target c)
  unfolding constant_value
  not-stored c true k e =
      rw
        (width-bool c.type k, bool_not_f32 types c.type k, e, const_int_lem, not_lem, const_int_lem)
  not-stored c false k e =
      rw
        (width-bool c.type k, bool_not_f32 types c.type k, e, const_int_lem, not_lem, const_int_lem)

  Computes-bool :
      (inst : Inst) (c : Constant) (b : Bool) {x : ℕ}
      → inst.type ≡ c.type
      → is_bool types c.type ≡ true
      → target.const_int (width_of types target c.type) (int_of (as_bool b)) ≡ x
      → Computes inst x (with_constant inst Op.const_bool (constant_bool c.type b))
  unfolding constant_bool emit_op inst_is_constant constant_value
  Computes-bool inst c b ty k e = record {
    is_constant = refl;
    same_result = refl;
    same_type = refl;
    emits = rw (ty, e);
    keeps = inr (sym ty, rw (bool_not_f32 types c.type k, e), λ _. (b, refl));
  }

  emits_not-bool :
      (a : Operand) (c : Constant)
      → Agrees a c
      → emits_not a ≡ target.bit_not (width_of types target c.type) (constant_value types target c)
  unfolding emits_not
  emits_not-bool a c ag = ap₂ target.bit_not (ap (width_of types target) ag.type) ag.value

  pub Computes-fold_not :
      (inst : Inst) (a : Operand) (c : Constant)
      → Agrees a c
      → inst.type ≡ c.type
      → OnSome (Computes inst (emits_not a)) (fold_not types floats c inst)
  unfolding fold_not constant_is_bool
  Computes-fold_not inst a c ag ty = elim (Bool-cases (is_bool types c.type)) [
    | inr nk ↦ rw nk tt
    | inl k ↦
        let (b, e) = ag.tagged k in
        rw (k, e)
          (Computes-bool inst c (not b) ty k (not-stored c b k e ∙ sym (emits_not-bool a c ag)))
  ]
