-- ===== src/Mir/Fold/Meaning.antt =====
-- What a folded operation means: the emitter builds the same value for it as for the operation.
use gab.Prelude.{
  ℕ, ◌%◌, ◌^◌, ◌≡◌, refl, ◌≢◌, ◌⊎◌, inl, inr, Bool, true, Option, none, some, [], arith, sym,
}
use gab.Types.{
  TypeKind, TypeRef, TypeHeap, Constant, as_bool, int_of, float_of, constant_int, constant_float,
}
use gab.Types.Laws.{is_f32, is_bool, is_int, int_not_f32, bool_not_int, f32_not_bool}
use gab.Word.{neg_word, extend_32_to_64}
use gab.Mir.{Op, Operand, Inst, Function, constant_of, holds_constant}
use gab.Mir.Fold.{FloatOps, inst_is_constant, int32_of}
use gab.Mir.Fold.Words.{IsNarrow, neg_narrow}
use gab.Llvm.Machine.{Target, IsTarget}
use gab.Llvm.{width_of, constant_value, operand_type, operand_value_of, emit_op}

-- A Boolean constant was written as one.
abbrev pub IsTagged : TypeHeap → Constant → Type 0
IsTagged types c = is_bool types c.type ≡ true → (b : Bool) × (c.value ≡ as_bool b)

-- A type that arithmetic is folded at: no `usize`.
abbrev pub IsSmall : TypeHeap → Option TypeRef → Type 0
IsSmall types none = Unit
IsSmall types (some t) = (types t).kind ≢ TypeKind.usize

abbrev pub OnSome : (Inst → Type 0) → Option Inst → Type 0
OnSome P none = Unit
OnSome P (some inst) = P inst

abbrev pub with_constant : Inst → Op → Constant → Inst
with_constant inst op c = record inst { op = op; payload = holds_constant c }

module _ (types : TypeHeap) (floats : FloatOps) (target : Target)
    (laws : IsTarget floats target) where
  open laws use {const_int_lem, neg_lem, not_lem, fneg_lem}

  pub IsNarrow-width :
      (t : Option TypeRef)
      → is_int types t ≡ true
      → IsSmall types t
      → IsNarrow (width_of types target t)
  IsNarrow-width none h s = cc
  IsNarrow-width (some t) h s = ground arith

  pub constant_value-int :
      (c : Constant)
      → is_int types c.type ≡ true
      → constant_value types target c ≡ int_of c.value % 2 ^ width_of types target c.type
  unfolding constant_value
  constant_value-int c h = rw (int_not_f32 types c.type h) (const_int_lem _ _)

  -- The pattern that the fold stores, as the emitter narrows it.
  abbrev pub stored : Constant → ℕ → ℕ
  stored c x = target.const_int (width_of types target c.type) (extend_32_to_64 x)

  pub neg-stored :
      (c : Constant)
      → is_int types c.type ≡ true
      → IsSmall types c.type
      → stored c (neg_word 32 (int32_of c))
        ≡ target.neg (width_of types target c.type) (constant_value types target c)
  unfolding int32_of
  neg-stored c h s =
      let w = width_of types target c.type in
      rw (const_int_lem, constant_value-int c h, neg_lem)
        (neg_narrow w (int_of c.value) (IsNarrow-width c.type h s))

  pub constant_value-float :
      (c : Constant)
      → is_f32 types c.type ≡ true
      → constant_value types target c ≡ target.const_real (float_of c.value)
  unfolding constant_value
  constant_value-float c h = rw h

  module _ (ir : Function) (values : ℕ → ℕ) where
    -- The known constant of an operand is what the emitter reads for the operand.
    pub record Agrees (a : Operand) (c : Constant) : Type 0 where
      pub type : operand_type types target ir a ≡ c.type
      pub value : operand_value_of types target ir values a ≡ constant_value types target c
      pub tagged : IsTagged types c

    -- What is known of a folded instruction's value: its constant has no type, or its type is the
    -- instruction's and the constant's value is `x`.
    abbrev pub Keeps : Inst → Constant → ℕ → Type 0
    Keeps inst c x =
        (c.type ≡ none)
        ⊎ ((c.type ≡ inst.type) × (constant_value types target c ≡ x) × IsTagged types c)

    -- The folded instruction computes `x`, into the same value at the same type.
    pub record Computes (inst : Inst) (x : ℕ) (inst' : Inst) : Type 0 where
      pub is_constant : inst_is_constant inst'.op ≡ true
      pub same_result : inst'.result ≡ inst.result
      pub same_type : inst'.type ≡ inst.type
      pub emits :
          emit_op types target ir values inst'.op inst'.type (constant_of inst'.payload) [] ≡ some x
      pub keeps : Keeps inst (constant_of inst'.payload) x

    pub Computes-int :
        (inst : Inst) (c : Constant) (v : ℕ) {x : ℕ}
        → inst.type ≡ c.type
        → is_int types c.type ≡ true
        → stored c v ≡ x
        → Computes inst x
            (with_constant inst Op.const_int (constant_int c.type (extend_32_to_64 v)))
    unfolding constant_int emit_op inst_is_constant constant_value
    Computes-int inst c v ty i e = record {
      is_constant = refl;
      same_result = refl;
      same_type = refl;
      emits = rw (ty, e);
      keeps = inr (
        sym ty,
        rw (int_not_f32 types c.type i, e),
        λ b. absurd (cc (bool_not_int types c.type b)),
      );
    }

    pub Computes-float :
        (inst : Inst) (t : Option TypeRef) (v : ℕ) {x : ℕ}
        → (t ≡ none) ⊎ ((inst.type ≡ t) × (is_f32 types t ≡ true))
        → target.const_real v ≡ x
        → Computes inst x (with_constant inst Op.const_float (constant_float t v))
    unfolding constant_float emit_op inst_is_constant constant_value
    Computes-float inst t v (inl n) e = record {
      is_constant = refl;
      same_result = refl;
      same_type = refl;
      emits = rw e;
      keeps = inl n;
    }
    Computes-float inst t v (inr (ty, f)) e = record {
      is_constant = refl;
      same_result = refl;
      same_type = refl;
      emits = rw e;
      keeps = inr (sym ty, rw (f, e), λ b. absurd (cc (f32_not_bool types t f)));
    }
