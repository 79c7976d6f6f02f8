-- ===== src/Mir/Fold/Sound.antt =====
-- The fold keeps what every instruction computes.
use gab.Prelude.{
  ℕ, ◌≡◌, refl, ◌⊎◌, inl, inr, Bool, true, false, Option, none, some, List, [], ◌∷◌, arith,
  Bool-cases, sym, subst, subst₂, ◌∙◌, ap, get_or, set, get_or-set,
}
use gab.Types.{TypeRef, TypeHeap, Constant, constant_is_int, constant_is_float, constant_is_bool}
use gab.Types.Laws.{is_f32}
use gab.Mir.{
  Op, Operand, operand_value, operand_const, Inst, Function, constant_of, ValueId, value_is_none,
}
use gab.Mir.Fold.{
  FloatOps, Known, inst_is_constant, known_operand, fold_neg, fold_not, fold_binary, fold_unary_op,
  fold_binary_op, fold_unary, fold_pair, folded_args, folded_inst,
}
use gab.Llvm.Machine.{Target, IsTarget}
use gab.Llvm.{constant_value, operand_type, operand_value_of, emit_op, emit_inst}
use gab.Mir.Fold.Meaning.{IsTagged, IsSmall, OnSome, with_constant}
use gab.Mir.Fold.Meaning
use gab.Mir.Fold.Unary
use gab.Mir.Fold.Binary

-- The operations that the fold rewrites.
abbrev pub is_arithmetic : Op → Bool
is_arithmetic Op.add = true
is_arithmetic Op.sub = true
is_arithmetic Op.mul = true
is_arithmetic Op.div = true
is_arithmetic Op.modulo = true
is_arithmetic Op.neg = true
is_arithmetic Op.logical_not = true
is_arithmetic _ = false

abbrev pub is_const_float : Op → Bool
is_const_float Op.const_float = true
is_const_float _ = false

-- The value is what is emitted, where something is.
abbrev pub Gives : Option ℕ → ℕ → Type 0
Gives none v = Unit
Gives (some x) v = v ≡ x

module _ (types : TypeHeap) (floats : FloatOps) (target : Target) (laws : IsTarget floats target)
    (ir : Function) (values : ValueId → ℕ) where
  abbrev pub type_of : ValueId → Option TypeRef
  type_of v = operand_type types target ir (operand_value v)

  abbrev pub TypedOperand : Option TypeRef → Operand → Type 0
  TypedOperand t (operand_value v) = type_of v ≡ t
  TypedOperand t (operand_const c) = (c.type ≡ t) × IsTagged types c

  abbrev pub TypedOperands : Option TypeRef → List Operand → Type 0
  TypedOperands t [] = Unit
  TypedOperands t (a ∷ as') = TypedOperand t a × TypedOperands t as'

  -- An instruction whose types fit together, where the fold looks at them, and whose arithmetic is not
  -- at `usize`.
  pub record IsFoldable (inst : Inst) : Type 0 where
    pub constant :
        inst_is_constant inst.op ≡ true
        → ((constant_of inst.payload).type ≡ none)
          ⊎ ((constant_of inst.payload).type ≡ inst.type)
            × (type_of inst.result ≡ inst.type)
            × (is_f32 types inst.type ≡ is_const_float inst.op)
            × IsTagged types (constant_of inst.payload)
    pub arithmetic :
        is_arithmetic inst.op ≡ true
        → ((constant_of inst.payload).type ≡ none)
          × (type_of inst.result ≡ inst.type)
          × IsSmall types inst.type
          × TypedOperands inst.type inst.args

  -- The value that the emitted code holds for an instruction's result is what is emitted for it.
  abbrev pub Solved : Inst → Type 0
  Solved inst = Gives (emit_inst types target ir values inst) (values inst.result)

  pub value-Solved :
      (inst : Inst) (x : ℕ)
      → Solved inst
      → emit_inst types target ir values inst ≡ some x
      → values inst.result ≡ x
  value-Solved inst x solved e = subst (λ (o : Option ℕ). Gives o (values inst.result)) e solved

  abbrev pub Describes : Constant → ValueId → Type 0
  Describes c v =
      (c.type ≡ none)
      ⊎ (c.type ≡ type_of v) × (constant_value types target c ≡ values v) × IsTagged types c

  abbrev pub IsSound : Known → Type 0
  IsSound known = (v : ValueId) (c : Constant) → get_or known v none ≡ some c → Describes c v

  pub IsSound-set :
      (known : Known) (v : ValueId) (c : Constant)
      → IsSound known
      → Describes c v
      → IsSound (set known v (some c))
  IsSound-set known v c h d w e k = elim (get_or-set known v w (some c) none) [
    | inl (same, written) ↦
        let given : c ≡ e = cc (sym written ∙ k) in subst₂ Describes given same d
    | inr kept ↦ h w e (sym kept ∙ k)
  ]

  abbrev Agrees : Operand → Constant → Type 0
  Agrees = Meaning.Agrees types floats target laws ir values

  abbrev Computes : Inst → ℕ → Inst → Type 0
  Computes = Meaning.Computes types floats target laws ir values

  -- A known operand is described by its constant.
  known_operand-Agrees :
      (known : Known) (t : Option TypeRef) (a : Operand) (c : Constant)
      → IsSound known
      → TypedOperand t a
      → known_operand known a ≡ some c
      → (c.type ≡ none) ⊎ (c.type ≡ t) × Agrees a c
  unfolding known_operand operand_type operand_value_of
  known_operand-Agrees known t (operand_const k) c h w e =
      let same : k ≡ c = cc in
      inr (
        ap (λ (z : Constant). z.type) (sym same) ∙ w.0,
        record {
          type = ap (λ (z : Constant). z.type) same;
          value = ap (constant_value types target) same;
          tagged = subst (IsTagged types) same w.1;
        },
      )
  known_operand-Agrees known t (operand_value v) c h w e = elim (Bool-cases (value_is_none v)) [
    | inl isnone ↦ absurd (cc (rw isnone at e))
    | inr there ↦ elim (h v c (rw there at e)) [
      | inl untyped ↦ inl untyped
      | inr (ty, val, tag) ↦ inr (ty ∙ w, record { type = sym ty; value = sym val; tagged = tag })
    ]
  ]

  -- A folded instruction computes what the emitter built for the instruction before.
  abbrev pub FoldsTo : Inst → Inst → Type 0
  FoldsTo inst inst' =
      (x : ℕ) × (emit_inst types target ir values inst ≡ some x)
      × (is_arithmetic inst.op ≡ true)
      × Computes inst x inst'

  fold_neg_untyped :
      (inst : Inst) (c : Constant) → c.type ≡ none → fold_neg types floats c inst ≡ none
  unfolding fold_neg constant_is_float constant_is_int
  fold_neg_untyped inst c n = rw n

  fold_not_untyped :
      (inst : Inst) (c : Constant) → c.type ≡ none → fold_not types floats c inst ≡ none
  unfolding fold_not constant_is_bool
  fold_not_untyped inst c n = rw n

  fold_binary_untyped :
      (inst : Inst) (c d : Constant)
      → (c.type ≡ none) ⊎ (d.type ≡ none)
      → fold_binary types floats c d inst ≡ none
  unfolding fold_binary
  fold_binary_untyped inst c d (inl n) = rw n
  fold_binary_untyped inst c d (inr n) = ground arith

  OnSome-FoldsTo :
      (inst : Inst) (x : ℕ) (o : Option Inst)
      → emit_inst types target ir values inst ≡ some x
      → is_arithmetic inst.op ≡ true
      → OnSome (Computes inst x) o
      → OnSome (FoldsTo inst) o
  OnSome-FoldsTo inst x none e k h = tt
  OnSome-FoldsTo inst x (some inst') e k h = (x, e, k, h)

  abbrev Given : Inst → Operand → Constant → Type 0
  Given inst a c = (c.type ≡ none) ⊎ (c.type ≡ inst.type) × Agrees a c

  pub emit_inst-args :
      (inst : Inst) (op : Op) (args : List Operand)
      → inst.op ≡ op
      → inst.args ≡ args
      → emit_inst types target ir values inst
        ≡ emit_op types target ir values op inst.type (constant_of inst.payload) args
  unfolding emit_inst
  emit_inst-args inst op args eop eargs =
      λ i. emit_op types target ir values (eop i) inst.type (constant_of inst.payload) (eargs i)

  unary_step :
      (inst : Inst) (op : Op) (a : Operand) (c : Constant)
      → inst.op ≡ op
      → inst.args ≡ a ∷ []
      → (is_arithmetic op ≡ true → IsSmall types inst.type × Given inst a c)
      → OnSome (FoldsTo inst) (fold_unary_op types floats op c inst)
  unfolding fold_unary_op emit_op Unary.emits_neg Unary.emits_not
  unary_step inst Op.neg a c eop eargs g = elim (g refl).1 [
    | inl n ↦ rw (fold_neg_untyped inst c n) tt
    | inr (ty, ag) ↦
        OnSome-FoldsTo inst (Unary.emits_neg types floats target laws ir values a) _
          (emit_inst-args inst _ _ eop eargs) (ap is_arithmetic eop)
          (Unary.Computes-fold_neg types floats target laws ir values inst a c ag (sym ty)
            (subst (IsSmall types) (sym ty) (g refl).0))
  ]
  unary_step inst Op.logical_not a c eop eargs g = elim (g refl).1 [
    | inl n ↦ rw (fold_not_untyped inst c n) tt
    | inr (ty, ag) ↦
        OnSome-FoldsTo inst (Unary.emits_not types floats target laws ir values a) _
          (emit_inst-args inst _ _ eop eargs) (ap is_arithmetic eop)
          (Unary.Computes-fold_not types floats target laws ir values inst a c ag (sym ty))
  ]
  unary_step inst _ a c eop eargs g = tt

  abbrev emits_binary : Op → Operand → Operand → ℕ
  emits_binary = Binary.emits_binary types floats target laws ir values

  -- The five binary operations are emitted alike.
  abbrev IsPairOp : Op → Type 0
  IsPairOp op =
      (inst : Inst) (a b : Operand)
      → emit_op types target ir values op inst.type (constant_of inst.payload) (a ∷ b ∷ [])
        ≡ some (emits_binary op a b)

  fold_binary_step :
      (inst : Inst) (op : Op) (a b : Operand) (c d : Constant)
      → IsPairOp op
      → is_arithmetic op ≡ true
      → inst.op ≡ op
      → inst.args ≡ a ∷ b ∷ []
      → (constant_of inst.payload).type ≡ none
      → IsSmall types inst.type
      → Given inst a c
      → Given inst b d
      → OnSome (FoldsTo inst) (fold_binary types floats c d inst)
  fold_binary_step inst op a b c d pair k eop eargs plain small (inl n) h =
      rw (fold_binary_untyped inst c d (inl n)) tt
  fold_binary_step inst op a b c d pair k eop eargs plain small (inr g) (inl n) =
      rw (fold_binary_untyped inst c d (inr n)) tt
  fold_binary_step inst op a b c d pair k eop eargs plain small (inr (ty, ag)) (inr (uy, bg)) =
      OnSome-FoldsTo inst (emits_binary inst.op a b) _
        (emit_inst-args inst _ _ eop eargs
          ∙ pair inst a b
          ∙ ap (λ (o : Op). some (emits_binary o a b)) (sym eop))
        (ap is_arithmetic eop ∙ k)
        (Binary.Computes-fold_binary types floats target laws ir values inst a b c d ag bg (sym ty)
          (ty ∙ sym uy) (subst (IsSmall types) (sym ty) small) plain)

  abbrev Ready : Inst → Op → Operand → Operand → Constant → Constant → Type 0
  Ready inst op a b c d =
      is_arithmetic op ≡ true
      → ((constant_of inst.payload).type ≡ none)
        × IsSmall types inst.type
        × Given inst a c
        × Given inst b d

  binary_step :
      (inst : Inst) (op : Op) (a b : Operand) (c d : Constant)
      → inst.op ≡ op
      → inst.args ≡ a ∷ b ∷ []
      → Ready inst op a b c d
      → OnSome (FoldsTo inst) (fold_binary_op types floats op c d inst)
  unfolding fold_binary_op emit_op Binary.emits_binary Binary.emits_at Binary.on_floats
      Binary.on_ints Binary.on_unsigned
  binary_step inst Op.add a b c d eop eargs g =
      let (p, s, x, y) = g refl in
      fold_binary_step inst Op.add a b c d (λ _ _ _. refl) refl eop eargs p s x y
  binary_step inst Op.sub a b c d eop eargs g =
      let (p, s, x, y) = g refl in
      fold_binary_step inst Op.sub a b c d (λ _ _ _. refl) refl eop eargs p s x y
  binary_step inst Op.mul a b c d eop eargs g =
      let (p, s, x, y) = g refl in
      fold_binary_step inst Op.mul a b c d (λ _ _ _. refl) refl eop eargs p s x y
  binary_step inst Op.div a b c d eop eargs g =
      let (p, s, x, y) = g refl in
      fold_binary_step inst Op.div a b c d (λ _ _ _. refl) refl eop eargs p s x y
  binary_step inst Op.modulo a b c d eop eargs g =
      let (p, s, x, y) = g refl in
      fold_binary_step inst Op.modulo a b c d (λ _ _ _. refl) refl eop eargs p s x y
  binary_step inst _ a b c d eop eargs g = tt

  unary_args :
      (known : Known) (inst : Inst) (a : Operand) (o : Option Constant)
      → known_operand known a ≡ o
      → inst.args ≡ a ∷ []
      → IsSound known
      → (is_arithmetic inst.op ≡ true → IsSmall types inst.type × TypedOperand inst.type a)
      → OnSome (FoldsTo inst) (fold_unary types floats o inst)
  unfolding fold_unary
  unary_args known inst a none e eargs sound g = tt
  unary_args known inst a (some c) e eargs sound g =
      unary_step inst inst.op a c refl eargs
        (λ k. ((g k).0, known_operand-Agrees known inst.type a c sound (g k).1 e))

  binary_args :
      (known : Known) (inst : Inst) (a b : Operand) (o p : Option Constant)
      → known_operand known a ≡ o
      → known_operand known b ≡ p
      → inst.args ≡ a ∷ b ∷ []
      → IsSound known
      → (is_arithmetic inst.op ≡ true
          → ((constant_of inst.payload).type ≡ none)
            × IsSmall types inst.type
            × TypedOperand inst.type a
            × TypedOperand inst.type b)
      → OnSome (FoldsTo inst) (fold_pair types floats o p inst)
  unfolding fold_pair
  binary_args known inst a b none p e f eargs sound g = tt
  binary_args known inst a b (some c) none e f eargs sound g = tt
  binary_args known inst a b (some c) (some d) e f eargs sound g =
      binary_step inst inst.op a b c d refl eargs (λ k. (
        (g k).0,
        (g k).1,
        known_operand-Agrees known inst.type a c sound (g k).2 e,
        known_operand-Agrees known inst.type b d sound (g k).3 f,
      ))

  args_step :
      (known : Known) (inst : Inst) (args : List Operand)
      → inst.args ≡ args
      → IsSound known
      → (is_arithmetic inst.op ≡ true
          → ((constant_of inst.payload).type ≡ none)
            × IsSmall types inst.type
            × TypedOperands inst.type args)
      → OnSome (FoldsTo inst) (folded_args types floats known inst args)
  unfolding folded_args
  args_step known inst [] e sound g = tt
  args_step known inst (a ∷ []) e sound g =
      unary_args known inst a _ refl e sound (λ k. ((g k).1, (g k).2.0))
  args_step known inst (a ∷ b ∷ []) e sound g =
      binary_args known inst a b _ _ refl refl e sound
        (λ k. ((g k).0, (g k).1, (g k).2.0, (g k).2.1.0))
  args_step known inst (a ∷ b ∷ c ∷ rest) e sound g = tt

  pub folded_inst-FoldsTo :
      (known : Known) (inst : Inst)
      → IsSound known
      → IsFoldable inst
      → OnSome (FoldsTo inst) (folded_inst types floats known inst)
  unfolding folded_inst
  folded_inst-FoldsTo known inst sound typed =
      args_step known inst inst.args refl sound
        (λ k. let (p, _, s, t) = typed.arithmetic k in (p, s, t))
