-- ===== src/Mir/Borrowck/Search.antt =====
-- Where the operands of an instruction are values with smaller ids than its result, the search for the
-- sources of a value ends within its fuel.
use gab.Prelude.{
  ℕ, zero, suc, ◌+◌, ◌<◌, ◌≡◌, refl, sym, ◌∙◌, ◌⊎◌, inl, inr, Bool, true, false, Option, none, some,
  List, [], ◌∷◌, if◌then◌else◌, arith, Option-cases,
}
use gab.Mir.{ValueId, no_id, Op, Operand, operand_as_value, Inst, value_count}
use gab.Mir.State.{State}
use gab.Mir.Borrowck.Places.{
  Checker, definition_of, callee_of, call_result_may_name, borrows_memory,
}
use gab.Mir.Borrowck.Sources.{collect_each, collect_op, collect_sources, sources_of, every}

abbrev pub IsSome {ℓ} : {A : Type ℓ} → Option A → Type 0
IsSome none = ⊥
IsSome (some a) = Unit

-- Each operand is a constant or a value below this one.
abbrev pub ArgsBelow : ValueId → List Operand → Type 0
ArgsBelow value [] = Unit
ArgsBelow value (arg ∷ args) =
    ((operand_as_value arg ≡ no_id) ⊎ (operand_as_value arg < value)) × ArgsBelow value args

-- The defined values are numbered in the order of their definitions.
pub record IsOrdered (c : Checker) : Type 0 where
  pub counted : (v : ValueId) (inst : Inst) → definition_of c v ≡ some inst → v < value_count c.ir
  pub ordered : (v : ValueId) (inst : Inst) → definition_of c v ≡ some inst → ArgsBelow v inst.args

no_definition : (c : Checker) (v : ValueId) → v ≡ no_id → definition_of c v ≡ none
unfolding definition_of
no_definition c v e = rw e refl

pub bind-IsSome {ℓ κ} :
    {A : Type ℓ} {B : Type κ} (o : Option A) (f : A → Option B)
    → IsSome o
    → ((a : A) → IsSome (f a))
    → IsSome (elim o as (λ x. Option B) [ none ↦ none | some a ↦ f a ])
bind-IsSome none f h g = h
bind-IsSome (some a) f h g = g a

pub choose-IsSome {ℓ} :
    {A : Type ℓ} (c : Bool) (a b : Option A) → IsSome a → IsSome b → IsSome (if c then a else b)
choose-IsSome true a b f g = f
choose-IsSome false a b f g = g

-- A search that ends on constants and on values below a value.
abbrev EndsBelow : (ValueId → List ValueId → Option (List ValueId)) → ValueId → Type 0
EndsBelow collect v =
    (a : ValueId) (into : List ValueId) → (a ≡ no_id) ⊎ (a < v) → IsSome (collect a into)

collect_each-IsSome :
    (collect : ValueId → List ValueId → Option (List ValueId)) (keep : ℕ → Bool) (i v : ℕ)
    (args : List Operand) (into : List ValueId)
    → EndsBelow collect v
    → ArgsBelow v args
    → IsSome (collect_each collect keep i args into)
unfolding collect_each
collect_each-IsSome collect keep i v [] into h below = tt
collect_each-IsSome collect keep i v (arg ∷ args) into h below =
    bind-IsSome (if keep i then collect (operand_as_value arg) into else some into)
      (λ after. collect_each collect keep (suc i) args after)
      (choose-IsSome (keep i) (collect (operand_as_value arg) into) (some into)
        (h (operand_as_value arg) into below.0) tt)
      (λ after. collect_each-IsSome collect keep (suc i) v args after h below.1)

collect_op-IsSome :
    (c : Checker) (collect : ValueId → List ValueId → Option (List ValueId)) (state : State)
    (op : Op) (inst : Inst) (v : ℕ) (into : List ValueId)
    → EndsBelow collect v
    → ArgsBelow v inst.args
    → IsSome (collect_op c collect state op inst into)
unfolding collect_op
collect_op-IsSome c collect state Op.load inst v into h below = tt
collect_op-IsSome c collect state Op.ref inst v into h below = tt
collect_op-IsSome c collect state Op.copy inst v into h below =
    collect_each-IsSome collect every 0 v inst.args into h below
collect_op-IsSome c collect state Op.make_slice inst v into h below =
    collect_each-IsSome collect every 0 v inst.args into h below
collect_op-IsSome c collect state Op.call inst v into h below =
    collect_each-IsSome collect (call_result_may_name c (callee_of inst.payload)) 0 v inst.args into
      h below
collect_op-IsSome c collect state _ inst v into h below =
    choose-IsSome (borrows_memory c inst.type) (collect_each collect every 0 inst.args into)
      (some into) (collect_each-IsSome collect every 0 v inst.args into h below) tt

never_defined : (inst : Inst) → none ≡ some inst → ⊥
never_defined inst h = cc h

collect_sources-IsSome :
    (c : Checker) (state : State) (fuel : ℕ) (v : ValueId) (into : List ValueId)
    → IsOrdered c
    → 0 < fuel
    → ((inst : Inst) → definition_of c v ≡ some inst → v + 1 < fuel)
    → IsSome (collect_sources c state fuel v into)
unfolding collect_sources
collect_sources-IsSome c state zero v into ordered h k = absurd (omega (arith, h))
collect_sources-IsSome c state (suc fuel) v into ordered h k =
    elim (Option-cases (definition_of c v)) [
      | inl undefined ↦ rw (IsSome, undefined) tt
      | inr (inst, defined) ↦
          let v_inside = k inst defined in
          rw (IsSome, defined)
            (collect_op-IsSome c (collect_sources c state fuel) state inst.op inst v into
              (λ a rest earlier.
                collect_sources-IsSome c state fuel a rest ordered (omega (arith, v_inside))
                  (λ other found. elim earlier [
                    | inl missing ↦
                        absurd (never_defined other (sym (no_definition c a missing) ∙ found))
                    | inr less ↦ omega (arith, less, v_inside)
                  ]))
              (ordered.ordered v inst defined))
    ]

pub sources_of-IsSome :
    (c : Checker) (state : State) (v : ValueId) (into : List ValueId)
    → IsOrdered c
    → IsSome (sources_of c state v into)
sources_of-IsSome c state v into ordered =
    collect_sources-IsSome c state (suc (value_count c.ir)) v into ordered (omega arith)
      (λ inst defined. omega (arith, ordered.counted v inst defined))
