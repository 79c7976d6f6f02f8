-- ===== src/Mir/Build/Tests.antt =====
-- A function with one block and one value, and an added instruction.
use gab.Prelude.{◌≡◌, ◌==◌, refl, none, some, ◌∷◌, [], arith, if◌then◌else◌}
use gab.Mir.{Op, holds_targets, Inst, Function, Span}
use gab.Mir.Build.{
  function_create, block_create, block_at, value_create, value_info, emit, block_is_terminated,
  block_successors,
}
use gab.Mir.Build.Laws.{IsNumbered, block_create_lem, value_create_lem, emit_lem, Ends}

abbrev nowhere : Span
nowhere = record { line = 0; column = 0 }

abbrev jump : Inst
jump = record {
  op = Op.jmp;
  type = none;
  result = 4294967295;
  args = [];
  payload = holds_targets 1 0;
  ending = none;
  span = nowhere;
}

abbrev entry_only : Function
entry_only = record {
  blocks = record { id = 0; insts = [] } ∷ [];
  entry = 0;
  values = [];
  params = [];
}

created : function_create ≡ entry_only
unfolding function_create
created = refl

block_create_example :
    IsNumbered (block_create entry_only).1
    × (block_at (block_create entry_only).1 1 ≡ (
        if 1 == (block_create entry_only).0.id
        then some (block_create entry_only).0
        else block_at entry_only 1))
block_create_example = block_create_lem entry_only 1 (refl, tt) (omega arith)

value_create_example : value_info (value_create entry_only (some 3) none nowhere).1 0 ≡ (
    if 0 == (value_create entry_only (some 3) none nowhere).0
    then some (record { type = some 3; binding = none; span = nowhere })
    else value_info entry_only 0)
value_create_example = value_create_lem entry_only (some 3) none nowhere 0 (omega arith)

emit_example :
    Ends Op.jmp 1 0
      (block_is_terminated (emit (record { id = 0; insts = [] }) jump))
      (block_successors (emit (record { id = 0; insts = [] }) jump))
emit_example = emit_lem (record { id = 0; insts = [] }) jump
