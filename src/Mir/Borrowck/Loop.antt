-- ===== src/Mir/Borrowck/Loop.antt =====
-- `mir_borrowck` of src/mir/mir_borrowck.c: the loop over the blocks until their states settle, and the
-- pass that reports.
use gab.Prelude.{
  ℕ, zero, suc, Bool, true, false, Option, none, some, List, [], ◌∷◌, if◌then◌else◌, get_or, set,
  replicate,
}
use gab.Types.{TypeRef}
use gab.Mir.Liveness.{Layout, Sets, layout_of, liveness_compute}
use gab.Mir.{ValueId, BlockId, Block, Span, block_count}
use gab.Mir.Build.{block_successors}
use gab.Mir.State.{State, slot, nil, init, add_borrow, state_set, state_merge, state_equals}
use gab.Mir.Borrowck.{flow_insts}
use gab.Mir.Borrowck.Places.{Checker, Flow, Complaint, borrows_memory, type_of}

abbrev pub unreachable_state : State
unreachable_state = record { slots = []; unreachable = true }

-- The loop over the parameters: what a parameter that borrows memory names is itself.
unfoldable pub with_params : Checker → List ValueId → State → State
unfolding borrows_memory type_of add_borrow state_set
with_params c [] state = state
with_params c (param ∷ params) state = with_params c params (
    state_set state param
      (slot init (if borrows_memory c (type_of c param) then add_borrow [] param else []) nil))

unfoldable pub first_entries : Checker → List State
unfolding with_params
first_entries c =
    set (replicate (block_count c.ir) unreachable_state) c.ir.entry
      (with_params c c.ir.params (record { slots = []; unreachable = false }))

-- What the loop keeps: the states at the entries of the blocks, whether one has changed, and the
-- parameters that are returned.
pub record Walk : Type 0 where
  pub entries : List State
  pub changed : Bool
  pub returned : ℕ

-- The loop over the successors of a block.
unfoldable pub merge_exits : State → List BlockId → Walk → Walk
unfolding state_merge state_equals
merge_exits exit [] walk = walk
merge_exits exit (s ∷ ss) walk =
    let target = get_or walk.entries s unreachable_state in
    let merged = state_merge target exit in
    merge_exits exit ss (
      if state_equals merged target
      then walk
      else record walk { entries = set walk.entries s merged; changed = true })

-- The body of the loop over the blocks.
unfoldable pub walk_block : Checker → ℕ → Block → Walk → Option Walk
unfolding flow_insts merge_exits block_successors
walk_block c i block walk =
    let entry = get_or walk.entries i unreachable_state in
    let flow : Flow = record { state = entry; returned_params = walk.returned; reports = [] } in
    elim entry.unreachable [
      | true ↦ some walk
      | false ↦ elim (flow_insts c block.insts flow) [
        | none ↦ none
        | some after ↦ some (
            merge_exits after.state (block_successors block)
              (record walk { returned = after.returned_params }))
      ]
    ]

unfoldable pub walk_blocks : Checker → ℕ → List Block → Walk → Option Walk
unfolding walk_block
walk_blocks c i [] walk = some walk
walk_blocks c i (block ∷ blocks) walk = elim (walk_block c i block walk) [
  | none ↦ none
  | some after ↦ walk_blocks c (suc i) blocks after
]

-- `while (changed)`. Each turn takes fuel; `none` means that it ran out.
unfoldable pub walk_until : Checker → ℕ → Walk → Option Walk
unfolding walk_blocks
walk_until c zero walk = none
walk_until c (suc fuel) walk =
    elim (walk_blocks c 0 c.ir.blocks (record walk { changed = false })) [
      | none ↦ none
      | some after ↦ elim after.changed [ true ↦ walk_until c fuel after | false ↦ some after ]
    ]

-- The pass that reports.
unfoldable pub report_blocks :
    Checker → ℕ → List Block → Walk → List (Span × Complaint) → Option (List (Span × Complaint))
unfolding flow_insts
report_blocks c i [] walk reports = some reports
report_blocks c i (block ∷ blocks) walk reports =
    let entry = get_or walk.entries i unreachable_state in
    let flow : Flow = record {
      state = entry;
      returned_params = walk.returned;
      reports = reports;
    } in
    elim entry.unreachable [
      | true ↦ report_blocks c (suc i) blocks walk reports
      | false ↦ elim (flow_insts c block.insts flow) [
        | none ↦ none
        | some after ↦ report_blocks c (suc i) blocks walk after.reports
      ]
    ]

-- The reports of `mir_borrowck`, and the parameters that its result may name, where it finds them.
pub record Verdict : Type 0 where
  pub reports : List (Span × Complaint)
  pub borrowed_params : Option ℕ

-- The checker that the walks take, with what liveness is for the function.
abbrev pub with_liveness : Checker → Layout → Sets → Checker
with_liveness c layout live = record c { layout = layout; live = live }

-- The walks over the blocks, once liveness is known.
unfoldable pub borrowck_walks : Checker → ℕ → Option Verdict
unfolding walk_until first_entries report_blocks
borrowck_walks c fuel =
    elim (walk_until (record c { reporting = false }) fuel
      (record { entries = first_entries c; changed = true; returned = 0 })) [
        | none ↦ none
        | some walk ↦ elim (report_blocks c 0 c.ir.blocks walk []) [
          | none ↦ none
          | some reports ↦ some (record {
            reports = reports;
            borrowed_params = if c.reporting then none else some walk.returned;
          })
        ]
      ]

-- `mir_borrowck`. The first argument is how many fields the registry gives a struct, which liveness
-- asks for; the layout and the sets of the checker are set here.
unfoldable pub borrowck : (TypeRef → ℕ) → Checker → ℕ → Option Verdict
unfolding borrowck_walks layout_of liveness_compute
borrowck field_count c fuel = elim (block_count c.ir) [
  | zero ↦ some (record { reports = []; borrowed_params = none })
  | suc n ↦
      let layout = layout_of field_count c.types c.ir in
      elim (liveness_compute layout c.ir) [
        | none ↦ none
        | some live ↦ borrowck_walks (with_liveness c layout live) fuel
      ]
]
