-- ===== src/Mir/Fold/Binary.antt =====
-- Folding an operation on two known constants: the emitter builds the same value.
use gab.Prelude.{
  ℕ, ◌-◌, ◌%◌, ◌^◌, ◌≡◌, ◌<◌, refl, ◌≢◌, ◌⊎◌, inl, inr, Bool, true, false, Option, ◌&&◌, ◌||◌, none,
  some, arith, Bool-cases, sym, ◌∙◌, not, if◌then◌else◌, ap, ap₂,
}
use gab.Types.{
  TypeRef, TypeHeap, Constant, as_float, int_of, float_of, constant_is_int, constant_is_float,
  type_is_unsigned, constant_int, constant_float, pointer_eq,
}
use gab.Types.Laws.{is_f32, is_int, int_not_f32}
use gab.Word.{div_word, rem_word, extend_32_to_64}
use gab.Mir.{Op, Operand, Inst, Function, constant_of}
use gab.Mir.Fold.{
  FloatOps, is_null, int32_of, fold_ints, fold_floats, fold_binary, fold_int_binary,
  fold_float_binary, is_division, division_overflows,
}
use gab.Mir.Fold.Words.{IsNarrow, add_narrow, sub_narrow, mul_narrow, extend-truncate}
use gab.Llvm.Machine.{Target, IsTarget}
use gab.Llvm.{width_of, constant_value, operand_type, operand_value_of}
use gab.Mir.Fold.Meaning.{IsTagged, IsSmall, OnSome, with_constant}
use gab.Mir.Fold.Meaning

div_word-lt : (x y : ℕ) → div_word 32 x y < 2 ^ 32
unfolding div_word
div_word-lt x y = ground arith

rem_word-lt : (x y : ℕ) → rem_word 32 x y < 2 ^ 32
unfolding rem_word
rem_word-lt x y = ground arith

left_false : (a b : Bool) → (a && b) ≡ false → b ≡ true → a ≡ false
left_false a b h k = ground arith

module _ (types : TypeHeap) (floats : FloatOps) (target : Target)
    (laws : IsTarget floats target) where
  open laws use {const_int_lem, add_lem, sub_lem, mul_lem, sdiv_lem, srem_lem}

  -- The integer instruction that the emitter builds for an operation on signed operands.
  unfoldable pub on_ints : Op → ℕ → ℕ → ℕ → ℕ
  on_ints Op.add = target.add
  on_ints Op.sub = target.sub
  on_ints Op.mul = target.mul
  on_ints Op.div = target.sdiv
  on_ints Op.modulo = target.srem
  on_ints _ = λ w x y. 0

  -- Only 32-bit types are folded by a signed division.
  IsSigned : Op → ℕ → Type 0
  IsSigned op w = is_division op ≡ true → w ≡ 32

  -- The folded pattern, narrowed, is what the instruction computes on the narrowed operands.
  OnFolded : Op → ℕ → ℕ → ℕ → Option ℕ → Type 0
  OnFolded op w x y none = Unit
  OnFolded op w x y (some v) =
      target.const_int w (extend_32_to_64 v) ≡ on_ints op w (x % 2 ^ w) (y % 2 ^ w)

  guarded : (x y : ℕ) → division_overflows x y ≡ false → (y ≢ 0) × ((x ≢ 2 ^ 31) ⊎ (y ≢ 2 ^ 32 - 1))
  unfolding division_overflows
  guarded x y h = ground arith

  folded_div : (x y : ℕ) → OnFolded Op.div 32 x y (fold_int_binary Op.div (x % 2 ^ 32) (y % 2 ^ 32))
  unfolding OnFolded fold_int_binary on_ints
  folded_div x y = elim (Bool-cases (division_overflows (x % 2 ^ 32) (y % 2 ^ 32))) [
    | inl over ↦ rw over tt
    | inr fine ↦
        let g = guarded (x % 2 ^ 32) (y % 2 ^ 32) fine in
        rw (fine, const_int_lem, sdiv_lem 32 _ _ g.0 g.1)
          (extend-truncate _ (div_word-lt (x % 2 ^ 32) (y % 2 ^ 32)))
  ]

  folded_rem :
      (x y : ℕ) → OnFolded Op.modulo 32 x y (fold_int_binary Op.modulo (x % 2 ^ 32) (y % 2 ^ 32))
  unfolding OnFolded fold_int_binary on_ints
  folded_rem x y = elim (Bool-cases (division_overflows (x % 2 ^ 32) (y % 2 ^ 32))) [
    | inl over ↦ rw over tt
    | inr fine ↦
        let g = guarded (x % 2 ^ 32) (y % 2 ^ 32) fine in
        rw (fine, const_int_lem, srem_lem 32 _ _ g.0 g.1)
          (extend-truncate _ (rem_word-lt (x % 2 ^ 32) (y % 2 ^ 32)))
  ]

  folded_int :
      (op : Op) (w x y : ℕ)
      → IsNarrow w
      → IsSigned op w
      → OnFolded op w x y (fold_int_binary op (x % 2 ^ 32) (y % 2 ^ 32))
  unfolding OnFolded fold_int_binary on_ints IsSigned
  folded_int Op.add w x y n s = rw (const_int_lem, add_lem) (add_narrow w x y n)
  folded_int Op.sub w x y n s = rw (const_int_lem, sub_lem) (sub_narrow w x y n)
  folded_int Op.mul w x y n s = rw (const_int_lem, mul_lem) (mul_narrow w x y n)
  folded_int Op.div w x y n s = rw (s refl) (folded_div x y)
  folded_int Op.modulo w x y n s = rw (s refl) (folded_rem x y)
  folded_int _ w x y n s = tt

  -- The other instructions of the emitter's switch.
  unfoldable pub on_unsigned : Op → ℕ → ℕ → ℕ → ℕ
  on_unsigned Op.add = target.add
  on_unsigned Op.sub = target.sub
  on_unsigned Op.mul = target.mul
  on_unsigned Op.div = target.udiv
  on_unsigned Op.modulo = target.urem
  on_unsigned _ = λ w x y. 0

  unfoldable pub on_floats : Op → ℕ → ℕ → ℕ
  on_floats Op.add = target.fadd
  on_floats Op.sub = target.fsub
  on_floats Op.mul = target.fmul
  on_floats Op.div = target.fdiv
  on_floats Op.modulo = target.frem
  on_floats _ = λ x y. 0

  on_unsigned-eq-on_ints : (op : Op) → is_division op ≡ false → on_unsigned op ≡ on_ints op
  unfolding on_unsigned on_ints
  on_unsigned-eq-on_ints Op.add h = refl
  on_unsigned-eq-on_ints Op.div h = cc
  on_unsigned-eq-on_ints Op.modulo h = cc
  on_unsigned-eq-on_ints _ h = refl

  OnFloats : Op → ℕ → ℕ → Option ℕ → Type 0
  OnFloats op x y none = Unit
  OnFloats op x y (some v) =
      target.const_real v ≡ on_floats op (target.const_real x) (target.const_real y)

  folded_float : (op : Op) (x y : ℕ) → OnFloats op x y (fold_float_binary types floats op x y)
  unfolding OnFloats fold_float_binary on_floats
  folded_float Op.add x y = sym (laws.fadd_lem x y)
  folded_float Op.sub x y = sym (laws.fsub_lem x y)
  folded_float Op.mul x y = sym (laws.fmul_lem x y)
  folded_float Op.div x y = sym (laws.fdiv_lem x y)
  folded_float _ x y = tt

  signed-width :
      (t : Option TypeRef)
      → is_int types t ≡ true
      → type_is_unsigned types t ≡ false
      → width_of types target t ≡ 32
  unfolding type_is_unsigned
  signed-width none i u = cc
  signed-width (some t) i u = ground arith

  -- The choice that the emitter makes by the type of the first operand.
  unfoldable pub emits_at : Op → Option TypeRef → ℕ → ℕ → ℕ
  emits_at op type x y =
      if is_f32 types type
      then on_floats op x y
      else if type_is_unsigned types type
      then on_unsigned op (width_of types target type) x y
      else on_ints op (width_of types target type) x y

  emits_at-float :
      (op : Op) (t : Option TypeRef) (x y : ℕ)
      → is_f32 types t ≡ true
      → emits_at op t x y ≡ on_floats op x y
  unfolding emits_at
  emits_at-float op t x y f = rw f

  emits_at-int :
      (op : Op) (t : Option TypeRef) (x y : ℕ)
      → is_int types t ≡ true
      → (type_is_unsigned types t && is_division op) ≡ false
      → emits_at op t x y ≡ on_ints op (width_of types target t) x y
  unfolding emits_at
  emits_at-int op t x y i ok =
      rw (int_not_f32 types t i) (elim (Bool-cases (type_is_unsigned types t)) [
        | inl u ↦ rw u (
            ap (λ (f : ℕ → ℕ → ℕ → ℕ). f (width_of types target t) x y)
              (on_unsigned-eq-on_ints op (rw u at ok)))
        | inr s ↦ rw s
      ])

  module _ (ir : Function) (values : ℕ → ℕ) where
    abbrev Agrees : Operand → Constant → Type 0
    Agrees = Meaning.Agrees types floats target laws ir values

    abbrev Computes : Inst → ℕ → Inst → Type 0
    Computes = Meaning.Computes types floats target laws ir values

    abbrev value : Operand → ℕ
    value = operand_value_of types target ir values

    -- What the emitter builds for an operation on two operands.
    unfoldable pub emits_binary : Op → Operand → Operand → ℕ
    unfolding emits_at
    emits_binary op a b = emits_at op (operand_type types target ir a) (value a) (value b)

    emits_binary-known :
        (op : Op) (a b : Operand) (c d : Constant)
        → Agrees a c
        → Agrees b d
        → emits_binary op a b
          ≡ emits_at op c.type (constant_value types target c) (constant_value types target d)
    unfolding emits_binary
    emits_binary-known op a b c d ag bg = λ i. emits_at op (ag.type i) (ag.value i) (bg.value i)

    value-at :
        (c d : Constant)
        → c.type ≡ d.type
        → is_int types c.type ≡ true
        → constant_value types target d ≡ int_of d.value % 2 ^ width_of types target c.type
    value-at c d same i =
        Meaning.constant_value-int types floats target laws d (ap (is_int types) (sym same) ∙ i)
        ∙ ap (λ (k : Option TypeRef). int_of d.value % 2 ^ width_of types target k) (sym same)

    emits_binary-int :
        (op : Op) (a b : Operand) (c d : Constant)
        → Agrees a c
        → Agrees b d
        → c.type ≡ d.type
        → is_int types c.type ≡ true
        → (type_is_unsigned types c.type && is_division op) ≡ false
        → emits_binary op a b
          ≡ on_ints op
              (width_of types target c.type)
              (int_of c.value % 2 ^ width_of types target c.type)
              (int_of d.value % 2 ^ width_of types target c.type)
    emits_binary-int op a b c d ag bg same i ok =
        emits_binary-known op a b c d ag bg
        ∙ emits_at-int op c.type _ _ i ok
        ∙ ap₂ (on_ints op (width_of types target c.type)) (value-at c c refl i)
            (value-at c d same i)

    IsSigned-op :
        (op : Op) (t : Option TypeRef)
        → is_int types t ≡ true
        → (type_is_unsigned types t && is_division op) ≡ false
        → IsSigned op (width_of types target t)
    unfolding IsSigned
    IsSigned-op op t i ok d = signed-width t i (left_false _ _ ok d)

    fold_ints_step :
        (inst : Inst) (c : Constant) (w x y : ℕ) {z : ℕ} (o : Option ℕ)
        → inst.type ≡ c.type
        → is_int types c.type ≡ true
        → w ≡ width_of types target c.type
        → on_ints inst.op w (x % 2 ^ w) (y % 2 ^ w) ≡ z
        → OnFolded inst.op w x y o
        → OnSome (Computes inst z) (elim o [
          | none ↦ none
          | some folded ↦
              some (with_constant inst Op.const_int (constant_int c.type (extend_32_to_64 folded)))
        ])
    unfolding OnFolded
    fold_ints_step inst c w x y none ty i e z h = tt
    fold_ints_step inst c w x y (some v) ty i e z h =
        Meaning.Computes-int types floats target laws ir values inst c v ty i
          (ap (λ (k : ℕ). target.const_int k (extend_32_to_64 v)) (sym e) ∙ h ∙ z)

    Computes-fold_ints :
        (inst : Inst) (a b : Operand) (c d : Constant)
        → Agrees a c
        → Agrees b d
        → inst.type ≡ c.type
        → c.type ≡ d.type
        → IsSmall types c.type
        → is_int types c.type ≡ true
        → OnSome (Computes inst (emits_binary inst.op a b)) (fold_ints types floats c d inst)
    unfolding fold_ints int32_of
    Computes-fold_ints inst a b c d ag bg ty same small i =
        elim (Bool-cases (type_is_unsigned types c.type && is_division inst.op)) [
          | inl refused ↦ rw refused tt
          | inr ok ↦
              let w = width_of types target c.type in
              rw ok (
                fold_ints_step inst c w (int_of c.value) (int_of d.value)
                  (fold_int_binary inst.op (int32_of c) (int32_of d)) ty i refl
                  (sym (emits_binary-int inst.op a b c d ag bg same i ok))
                  (folded_int inst.op w (int_of c.value) (int_of d.value)
                    (Meaning.IsNarrow-width types floats target laws c.type i small)
                    (IsSigned-op inst.op c.type i ok)))
        ]

    fold_floats_step :
        (inst : Inst) (x y : ℕ) {z : ℕ} (o : Option ℕ)
        → (constant_of inst.payload).type ≡ none
        → on_floats inst.op (target.const_real x) (target.const_real y) ≡ z
        → OnFloats inst.op x y o
        → OnSome (Computes inst z) (elim o [
          | none ↦ none
          | some folded ↦ some (
              with_constant inst Op.const_float
                (record { type = (constant_of inst.payload).type; value = as_float folded }))
        ])
    unfolding OnFloats constant_float
    fold_floats_step inst x y none n e h = tt
    fold_floats_step inst x y (some v) n e h =
        Meaning.Computes-float types floats target laws ir values inst
          (constant_of inst.payload).type v (inl n) (h ∙ e)

    Computes-fold_floats :
        (inst : Inst) (a b : Operand) (c d : Constant)
        → Agrees a c
        → Agrees b d
        → (constant_of inst.payload).type ≡ none
        → c.type ≡ d.type
        → is_f32 types c.type ≡ true
        → OnSome (Computes inst (emits_binary inst.op a b)) (fold_floats types floats c d inst)
    unfolding fold_floats
    Computes-fold_floats inst a b c d ag bg plain same f =
        fold_floats_step inst (float_of c.value) (float_of d.value)
          (fold_float_binary types floats inst.op (float_of c.value) (float_of d.value)) plain
          (sym (
            emits_binary-known inst.op a b c d ag bg
            ∙ emits_at-float inst.op c.type _ _ f
            ∙ ap₂ (on_floats inst.op) (Meaning.constant_value-float types floats target laws c f) (
                Meaning.constant_value-float types floats target laws d
                  (ap (is_f32 types) (sym same) ∙ f))))
          (folded_float inst.op (float_of c.value) (float_of d.value))

    pub Computes-fold_binary :
        (inst : Inst) (a b : Operand) (c d : Constant)
        → Agrees a c
        → Agrees b d
        → inst.type ≡ c.type
        → c.type ≡ d.type
        → IsSmall types c.type
        → (constant_of inst.payload).type ≡ none
        → OnSome (Computes inst (emits_binary inst.op a b)) (fold_binary types floats c d inst)
    unfolding fold_binary constant_is_int constant_is_float
    Computes-fold_binary inst a b c d ag bg ty same small plain =
        elim (Bool-cases (is_null c.type || not (pointer_eq c.type d.type))) [
          | inl refused ↦ rw refused tt
          | inr ok ↦ rw ok (elim (Bool-cases (is_int types c.type)) [
            | inl i ↦ rw i (Computes-fold_ints inst a b c d ag bg ty same small i)
            | inr ni ↦ rw ni (elim (Bool-cases (is_f32 types c.type)) [
              | inl f ↦ rw f (Computes-fold_floats inst a b c d ag bg plain same f)
              | inr nf ↦ rw nf tt
            ])
          ])
        ]
