-- ===== src/Mir.antt =====
-- src/mir/mir.h and src/mir/mir.c: the intermediate representation, and the
-- tests on its operations.
--
-- A growable array is a list, so the capacities that `mir_grow` doubles are not kept. A `Symbol *`, a
-- `Function *` and the like are addresses. The union of an instruction is tagged by the member that
-- was written, and reading another member gives what a zeroed union holds.
pub mod Borrowck
pub mod Build
pub mod Fold
pub mod Liveness
pub mod State
use gab.Prelude.{ℕ, Bool, true, false, Option, none, some, List, [], ◌==◌, length}
use gab.Types.{TypeRef, Constant, as_int}

abbrev pub ValueId : Type 0
ValueId = ℕ

abbrev pub BlockId : Type 0
BlockId = ℕ

abbrev pub FieldId : Type 0
FieldId = ℕ

-- `UINT32_MAX` marks no value, no block and the whole of a value.
abbrev pub no_id : ℕ
no_id = 4294967295

abbrev pub value_is_none : ValueId → Bool
value_is_none value = value == no_id

abbrev pub block_is_none : BlockId → Bool
block_is_none block = block == no_id

abbrev pub field_is_whole : FieldId → Bool
field_is_whole field = field == no_id

-- `modulo` and `logical_not` are `MIR_MOD` and `MIR_NOT`.
pub data Op : Type 0 where
  const_int const_float const_bool const_str size_of : Op
  add sub mul div modulo neg : Op
  cmp logical_not itof ftoi : Op
  load store ref bounds copy make_slice slice_len call null drop drop_flag : Op
  storage_live storage_dead storage_init : Op
  jmp branch return unreachable : Op

pub data CmpPredicate : Type 0 where
  lt gt eq ne le ge : CmpPredicate

pub data ProjKind : Type 0 where
  field : FieldId → ProjKind
  deref : ProjKind
  index : ValueId → ProjKind

pub record Projection : Type 0 where
  pub kind : ProjKind
  pub type : Option TypeRef

pub data Operand : Type 0 where
  operand_value : ValueId → Operand
  operand_const : Constant → Operand

abbrev pub operand_as_value : Operand → ValueId
operand_as_value (operand_value value) = value
operand_as_value (operand_const _) = no_id

pub record Place : Type 0 where
  pub base : ValueId
  pub projections : List Projection
  pub binding : Option ℕ

pub data ReadKind : Type 0 where
  read_copy read_move : ReadKind

pub data Payload : Type 0 where
  empty : Payload
  holds_constant : Constant → Payload
  holds_predicate : CmpPredicate → Payload
  holds_place : Place → ReadKind → ValueId → Payload
  holds_callee : Option ℕ → Payload
  holds_targets : BlockId → BlockId → Payload

pub record Span : Type 0 where
  pub line : ℕ
  pub column : ℕ

pub record Inst : Type 0 where
  pub op : Op
  pub type : Option TypeRef
  pub result : ValueId
  pub args : List Operand
  pub payload : Payload
  pub ending : Option ℕ
  pub span : Span

abbrev pub zero_constant : Constant
zero_constant = record { type = none; value = as_int 0 }

abbrev pub zero_place : Place
zero_place = record { base = 0; projections = []; binding = none }

abbrev pub constant_of : Payload → Constant
constant_of (holds_constant c) = c
constant_of _ = zero_constant

abbrev pub place_of : Payload → Place
place_of (holds_place p _ _) = p
place_of _ = zero_place

abbrev pub read_of : Payload → ReadKind
read_of (holds_place _ r _) = r
read_of _ = read_copy

abbrev pub first_target : Payload → BlockId
first_target (holds_targets a b) = a
first_target _ = 0

abbrev pub second_target : Payload → BlockId
second_target (holds_targets a b) = b
second_target _ = 0

pub record Block : Type 0 where
  pub id : BlockId
  pub insts : List Inst

pub record ValueInfo : Type 0 where
  pub type : Option TypeRef
  pub binding : Option ℕ
  pub span : Span

pub record Function : Type 0 where
  pub blocks : List Block
  pub entry : BlockId
  pub values : List ValueInfo
  pub params : List ValueId

abbrev pub block_count : Function → ℕ
block_count ir = length ir.blocks

abbrev pub value_count : Function → ℕ
value_count ir = length ir.values

-- `mir_op_has_place`.
abbrev pub op_has_place : Op → Bool
op_has_place Op.load = true
op_has_place Op.store = true
op_has_place Op.ref = true
op_has_place Op.drop = true
op_has_place Op.drop_flag = true
op_has_place Op.null = true
op_has_place Op.storage_live = true
op_has_place Op.storage_dead = true
op_has_place Op.storage_init = true
op_has_place _ = false

-- `mir_op_is_terminator`.
abbrev pub op_is_terminator : Op → Bool
op_is_terminator Op.jmp = true
op_is_terminator Op.branch = true
op_is_terminator Op.return = true
op_is_terminator Op.unreachable = true
op_is_terminator _ = false
