-- ===== src/Mir/Fold/Pass.antt =====
-- The whole pass: the known values stay sound from block to block, and every instruction computes
-- what it computed.
use gab.Prelude.{
  ℕ, ◌≡◌, refl, ◌⊎◌, ◌||◌, inl, inr, Bool, true, false, Option, none, some, List, [], ◌∷◌, arith,
  Bool-cases, sym, subst₂, ◌∙◌, not, ap, get_or-replicate, replicate,
}
use gab.Types.{TypeHeap}
use gab.Types.Laws.{is_f32}
use gab.Mir.{Op, Inst, Block, Function, constant_of, ValueId, value_is_none, value_count}
use gab.Mir.Fold.{
  FloatOps, Known, inst_is_constant, fold_result, fold_inst, fold_insts, fold_blocks, note_constant,
  note_insts, note_blocks, known_values, keep_read, keep_blocks, is_unread, mir_fold,
  drop_unread_constants,
}
use gab.Llvm.Machine.{Target, IsTarget}
use gab.Llvm.{constant_value, emit_op, emit_inst}
use gab.Mir.Fold.Meaning.{IsTagged, IsSmall, OnSome}
use gab.Mir.Fold.Meaning
use gab.Mir.Fold.Sound
use gab.Mir.Fold.Sound.{is_const_float}

abbrev pub AllInsts : (Inst → Type 0) → List Inst → Type 0
AllInsts P [] = Unit
AllInsts P (inst ∷ insts) = P inst × AllInsts P insts

abbrev pub AllBlocks : (Inst → Type 0) → List Block → Type 0
AllBlocks P [] = Unit
AllBlocks P (block ∷ blocks) = AllInsts P block.insts × AllBlocks P blocks

noted_is_constant : (a b : Bool) → (not a || b) ≡ false → a ≡ true
noted_is_constant a b h = ground arith

module _ (types : TypeHeap) (floats : FloatOps) (target : Target) (laws : IsTarget floats target)
    (ir : Function) (values : ValueId → ℕ) where
  abbrev IsFoldable : Inst → Type 0
  IsFoldable = Sound.IsFoldable types floats target laws ir values

  -- An instruction whose types fit together, where the fold looks at them: a constant has the type of
  -- its instruction and of its result, or none, and the operands and the result of an arithmetic
  -- instruction have the type of the instruction.
  pub record IsWellTyped (inst : Inst) : Type 0 where
    pub constant :
        inst_is_constant inst.op ≡ true
        → ((constant_of inst.payload).type ≡ none)
          ⊎ ((constant_of inst.payload).type ≡ inst.type)
            × (Sound.type_of types floats target laws ir values inst.result ≡ inst.type)
            × (is_f32 types inst.type ≡ is_const_float inst.op)
            × IsTagged types (constant_of inst.payload)
    pub arithmetic :
        Sound.is_arithmetic inst.op ≡ true
        → ((constant_of inst.payload).type ≡ none)
          × (Sound.type_of types floats target laws ir values inst.result ≡ inst.type)
          × Sound.TypedOperands types floats target laws ir values inst.type inst.args

  -- An instruction that is no arithmetic at `usize`.
  abbrev pub NoUsize : Inst → Type 0
  NoUsize inst = Sound.is_arithmetic inst.op ≡ true → IsSmall types inst.type

  both-IsFoldable : (inst : Inst) → IsWellTyped inst → NoUsize inst → IsFoldable inst
  both-IsFoldable inst typed small = record {
    constant = typed.constant;
    arithmetic =
        λ k. let (untyped, result, args) = typed.arithmetic k in (untyped, result, small k, args);
  }

  insts-IsFoldable :
      (insts : List Inst)
      → AllInsts IsWellTyped insts
      → AllInsts NoUsize insts
      → AllInsts IsFoldable insts
  insts-IsFoldable [] typed small = tt
  insts-IsFoldable (inst ∷ insts) typed small =
      (both-IsFoldable inst typed.0 small.0, insts-IsFoldable insts typed.1 small.1)

  blocks-IsFoldable :
      (blocks : List Block)
      → AllBlocks IsWellTyped blocks
      → AllBlocks NoUsize blocks
      → AllBlocks IsFoldable blocks
  blocks-IsFoldable [] typed small = tt
  blocks-IsFoldable (block ∷ blocks) typed small =
      (insts-IsFoldable block.insts typed.0 small.0, blocks-IsFoldable blocks typed.1 small.1)

  abbrev pub Solved : Inst → Type 0
  Solved = Sound.Solved types floats target laws ir values

  abbrev IsSound : Known → Type 0
  IsSound = Sound.IsSound types floats target laws ir values

  -- The two instructions write the same value, of the same type, and the emitter computes the same
  -- for it; what is not a constant now was not touched.
  pub record Preserves (inst inst' : Inst) : Type 0 where
    pub same_result : inst'.result ≡ inst.result
    pub same_type : inst'.type ≡ inst.type
    pub same_value : emit_inst types target ir values inst' ≡ emit_inst types target ir values inst
    pub untouched : (inst' ≡ inst) ⊎ (inst_is_constant inst'.op ≡ true)

  Solved-Preserves : (inst inst' : Inst) → Preserves inst inst' → Solved inst → Solved inst'
  Solved-Preserves inst inst' p s =
      subst₂ Sound.Gives (sym p.same_value) (sym (ap values p.same_result)) s

  constant_emits :
      (inst : Inst) (op : Op)
      → inst.op ≡ op
      → inst_is_constant op ≡ true
      → (constant_of inst.payload).type ≡ inst.type
      → is_f32 types inst.type ≡ is_const_float op
      → emit_inst types target ir values inst
        ≡ some (constant_value types target (constant_of inst.payload))
  unfolding inst_is_constant emit_op constant_value
  constant_emits inst Op.const_int e k ty f =
      Sound.emit_inst-args types floats target laws ir values inst _ _ e refl ∙ rw (ty, f)
  constant_emits inst Op.const_bool e k ty f =
      Sound.emit_inst-args types floats target laws ir values inst _ _ e refl ∙ rw (ty, f)
  constant_emits inst Op.const_float e k ty f =
      Sound.emit_inst-args types floats target laws ir values inst _ _ e refl ∙ rw (ty, f)
  constant_emits inst _ e k ty f = cc

  Describes-constant :
      (inst : Inst)
      → IsFoldable inst
      → Solved inst
      → inst_is_constant inst.op ≡ true
      → Sound.Describes types floats target laws ir values (constant_of inst.payload) inst.result
  Describes-constant inst typed solved k = elim (typed.constant k) [
    | inl untyped ↦ inl untyped
    | inr (ty, at, f, tag) ↦ inr (
      ty ∙ sym at,
      sym (
          Sound.value-Solved types floats target laws ir values inst _ solved
            (constant_emits inst inst.op refl k ty f)),
      tag,
    )
  ]

  IsSound-note_constant :
      (known : Known) (inst : Inst)
      → IsSound known
      → IsFoldable inst
      → Solved inst
      → IsSound (note_constant known inst)
  unfolding note_constant
  IsSound-note_constant known inst sound typed solved =
      elim (Bool-cases (not (inst_is_constant inst.op) || value_is_none inst.result)) [
        | inl skipped ↦ rw skipped sound
        | inr noted ↦ rw noted (
            Sound.IsSound-set types floats target laws ir values known inst.result
              (constant_of inst.payload) sound
              (Describes-constant inst typed solved (noted_is_constant _ _ noted)))
      ]

  IsSound-note_insts :
      (known : Known) (insts : List Inst)
      → IsSound known
      → AllInsts IsFoldable insts
      → AllInsts Solved insts
      → IsSound (note_insts known insts)
  unfolding note_insts
  IsSound-note_insts known [] sound typed solved = sound
  IsSound-note_insts known (inst ∷ insts) sound typed solved =
      IsSound-note_insts (note_constant known inst) insts
        (IsSound-note_constant known inst sound typed.0 solved.0) typed.1 solved.1

  IsSound-note_blocks :
      (known : Known) (blocks : List Block)
      → IsSound known
      → AllBlocks IsFoldable blocks
      → AllBlocks Solved blocks
      → IsSound (note_blocks known blocks)
  unfolding note_blocks
  IsSound-note_blocks known [] sound typed solved = sound
  IsSound-note_blocks known (block ∷ blocks) sound typed solved =
      IsSound-note_blocks (note_insts known block.insts) blocks
        (IsSound-note_insts known block.insts sound typed.0 solved.0) typed.1 solved.1

  -- Each constant that `known_values` records is the value that the emitted code holds.
  IsSound-known_values :
      AllBlocks IsFoldable ir.blocks → AllBlocks Solved ir.blocks → IsSound (known_values ir)
  unfolding known_values
  IsSound-known_values typed solved =
      IsSound-note_blocks (replicate (value_count ir) none) ir.blocks
        (λ v c e. absurd (cc (sym (get_or-replicate (value_count ir) none v) ∙ e))) typed solved

  abbrev Folded : Inst → Known × Inst → Type 0
  Folded inst r = IsSound r.0 × Preserves inst r.1

  emit_inst-cleared :
      (inst' : Inst)
      → emit_inst types target ir values (record inst' { args = [] })
        ≡ emit_op types target ir values inst'.op inst'.type (constant_of inst'.payload) []
  unfolding emit_inst
  emit_inst-cleared inst' = refl

  Describes-folded :
      (inst inst' : Inst) (x : ℕ)
      → IsFoldable inst
      → Sound.is_arithmetic inst.op ≡ true
      → values inst.result ≡ x
      → Meaning.Keeps types floats target laws ir values inst (constant_of inst'.payload) x
      → Sound.Describes types floats target laws ir values (constant_of inst'.payload) inst.result
  Describes-folded inst inst' x typed k held (inl untyped) = inl untyped
  Describes-folded inst inst' x typed k held (inr (ty, val, tag)) =
      inr (ty ∙ sym (typed.arithmetic k).1, val ∙ sym held, tag)

  fold_result-Folded :
      (known : Known) (inst : Inst) (o : Option Inst)
      → IsSound known
      → IsFoldable inst
      → Solved inst
      → OnSome (Sound.FoldsTo types floats target laws ir values inst) o
      → Folded inst (fold_result types floats known inst o)
  unfolding fold_result
  fold_result-Folded known inst none sound typed solved h = (
    sound,
    record { same_result = refl; same_type = refl; same_value = refl; untouched = inl refl },
  )
  fold_result-Folded known inst (some inst') sound typed solved (x, e, k, c) = (
    Sound.IsSound-set types floats target laws ir values known inst.result
        (constant_of inst'.payload) sound
        (Describes-folded inst inst' x typed k
          (Sound.value-Solved types floats target laws ir values inst x solved e) c.keeps),
    record {
      same_result = c.same_result;
      same_type = c.same_type;
      same_value = emit_inst-cleared inst' ∙ c.emits ∙ sym e;
      untouched = inr c.is_constant;
    },
  )

  abbrev pub SameInsts : List Inst → List Inst → Type 0
  SameInsts [] [] = Unit
  SameInsts [] (_ ∷ _) = ⊥
  SameInsts (_ ∷ _) [] = ⊥
  SameInsts (inst ∷ insts) (inst' ∷ insts') = Preserves inst inst' × SameInsts insts insts'

  abbrev pub SameBlocks : List Block → List Block → Type 0
  SameBlocks [] [] = Unit
  SameBlocks [] (_ ∷ _) = ⊥
  SameBlocks (_ ∷ _) [] = ⊥
  SameBlocks (block ∷ blocks) (block' ∷ blocks') =
      (block'.id ≡ block.id) × SameInsts block.insts block'.insts × SameBlocks blocks blocks'

  fold_inst-Folded :
      (known : Known) (inst : Inst)
      → IsSound known
      → IsFoldable inst
      → Solved inst
      → Folded inst (fold_inst types floats known inst)
  unfolding fold_inst
  fold_inst-Folded known inst sound typed solved =
      fold_result-Folded known inst _ sound typed solved
        (Sound.folded_inst-FoldsTo types floats target laws ir values known inst sound typed)

  fold_insts-Same :
      (known : Known) (insts : List Inst)
      → IsSound known
      → AllInsts IsFoldable insts
      → AllInsts Solved insts
      → IsSound (fold_insts types floats known insts).0
        × SameInsts insts (fold_insts types floats known insts).1
  unfolding fold_insts
  fold_insts-Same known [] sound typed solved = (sound, tt)
  fold_insts-Same known (inst ∷ insts) sound typed solved =
      let step = fold_inst-Folded known inst sound typed.0 solved.0 in
      let rest =
        fold_insts-Same (fold_inst types floats known inst).0 insts step.0 typed.1 solved.1 in
      (rest.0, (step.1, rest.1))

  fold_blocks-Same :
      (known : Known) (blocks : List Block)
      → IsSound known
      → AllBlocks IsFoldable blocks
      → AllBlocks Solved blocks
      → SameBlocks blocks (fold_blocks types floats known blocks)
  unfolding fold_blocks
  fold_blocks-Same known [] sound typed solved = tt
  fold_blocks-Same known (block ∷ blocks) sound typed solved =
      let here = fold_insts-Same known block.insts sound typed.0 solved.0 in
      (
        refl,
        here.1,
        fold_blocks-Same (fold_insts types floats known block.insts).0 blocks here.0 typed.1
            solved.1,
      )

  -- The rewriting loop of `mir_fold`, on a function whose instructions are well typed, with no
  -- arithmetic at `usize`, and whose values are those that the emitter computes: instruction by
  -- instruction, it writes the same value, of the same type, with what the emitter computes for it
  -- unchanged, and an instruction that it rewrites has become a constant.
  pub fold_preserves :
      AllBlocks IsWellTyped ir.blocks
      → AllBlocks NoUsize ir.blocks
      → AllBlocks Solved ir.blocks
      → SameBlocks ir.blocks (fold_blocks types floats (known_values ir) ir.blocks)
  fold_preserves typed small solved =
      let foldable = blocks-IsFoldable ir.blocks typed small in
      fold_blocks-Same (known_values ir) ir.blocks (IsSound-known_values foldable solved) foldable
        solved

  Solved-Same :
      (insts insts' : List Inst)
      → SameInsts insts insts'
      → AllInsts Solved insts
      → AllInsts Solved insts'
  Solved-Same [] [] same solved = tt
  Solved-Same [] (_ ∷ _) same solved = absurd same
  Solved-Same (_ ∷ _) [] same solved = absurd same
  Solved-Same (inst ∷ insts) (inst' ∷ insts') same solved =
      (Solved-Preserves inst inst' same.0 solved.0, Solved-Same insts insts' same.1 solved.1)

  Solved-SameBlocks :
      (blocks blocks' : List Block)
      → SameBlocks blocks blocks'
      → AllBlocks Solved blocks
      → AllBlocks Solved blocks'
  Solved-SameBlocks [] [] same solved = tt
  Solved-SameBlocks [] (_ ∷ _) same solved = absurd same
  Solved-SameBlocks (_ ∷ _) [] same solved = absurd same
  Solved-SameBlocks (block ∷ blocks) (block' ∷ blocks') same solved = (
    Solved-Same block.insts block'.insts same.1 solved.0,
    Solved-SameBlocks blocks blocks' same.2 solved.1,
  )

  AllInsts-keep_read :
      (P : Inst → Type 0) (read : List Bool) (insts : List Inst)
      → AllInsts P insts
      → AllInsts P (keep_read read insts)
  unfolding keep_read
  AllInsts-keep_read P read [] h = tt
  AllInsts-keep_read P read (inst ∷ insts) h = elim (Bool-cases (is_unread read inst)) [
    | inl unread ↦ rw unread (AllInsts-keep_read P read insts h.1)
    | inr kept ↦ rw kept ((h.0, AllInsts-keep_read P read insts h.1))
  ]

  AllBlocks-keep_blocks :
      (P : Inst → Type 0) (read : List Bool) (blocks : List Block)
      → AllBlocks P blocks
      → AllBlocks P (keep_blocks read blocks)
  unfolding keep_blocks
  AllBlocks-keep_blocks P read [] h = tt
  AllBlocks-keep_blocks P read (block ∷ blocks) h =
      (AllInsts-keep_read P read block.insts h.0, AllBlocks-keep_blocks P read blocks h.1)

  -- On a function whose instructions are well typed, with no arithmetic at `usize`, values that are
  -- what the emitter computes for every instruction are also what it computes for every instruction of
  -- the function that `mir_fold` leaves.
  pub mir_fold_sound :
      AllBlocks IsWellTyped ir.blocks
      → AllBlocks NoUsize ir.blocks
      → AllBlocks Solved ir.blocks
      → AllBlocks Solved (mir_fold types floats ir).blocks
  unfolding mir_fold drop_unread_constants
  mir_fold_sound typed small solved =
      AllBlocks-keep_blocks Solved _ _
        (Solved-SameBlocks ir.blocks _ (fold_preserves typed small solved) solved)
