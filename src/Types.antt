-- ===== src/Types.antt =====
-- src/type/type.h, src/type/type_internal.h, src/type/type.c, src/decl_id.h, src/constant.h and
-- src/constant.c: types, declarations' ids and constants, with the predicates on them.
--
-- A `const Type *` is an address, and `NULL` is `none`. What stands at an address is read through a
-- heap of cells, so that two types are the same pointer exactly when their addresses are equal. An
-- interned string is its address. A `float` is its IEEE 754 bit pattern; the operations on floats
-- are parameters. An `int64_t` is its bit pattern, below 2 ^ 64.
pub mod Ids
pub mod Kinds
pub mod Laws
use gab.Prelude.{
  ℕ, ◌+◌, ◌*◌, ◌%◌, ◌^◌, Bool, true, false, ◌&&◌, Option, none, some, List, [], ◌∷◌, ◌==◌,
  if◌then◌else◌, length,
}

pub data TypeKind : Type 0 where
  i32 f32 bool u8 usize raw str array slice struct ref param unknown error : TypeKind

abbrev pub TypeRef : Type 0
TypeRef = ℕ

abbrev pub StringRef : Type 0
StringRef = ℕ

-- The union of a constant, tagged by the member that was written.
pub data ConstantValue : Type 0 where
  as_int : ℕ → ConstantValue
  as_float : ℕ → ConstantValue
  as_bool : Bool → ConstantValue
  as_string : StringRef → ConstantValue

pub record Constant : Type 0 where
  pub type : Option TypeRef
  pub value : ConstantValue

pub data TypeConst : Type 0 where
  const_value : Constant → TypeConst
  const_param : ℕ → TypeConst

pub data TypeArg : Type 0 where
  type_arg : Option TypeRef → TypeArg
  const_arg : TypeConst → TypeArg

pub record DeclId : Type 0 where
  pub module_name : Option StringRef
  pub owner : Option StringRef
  pub name : Option StringRef
  pub block : ℕ

-- The cell of a type. `pointee` and `param_index` are members of one union in the source.
pub record TypeCell : Type 0 where
  pub kind : TypeKind
  pub name : Option StringRef
  pub decl : Option DeclId
  pub args : List TypeArg
  pub has_param : Bool
  pub pointee : Option TypeRef
  pub param_index : ℕ

abbrev pub TypeHeap : Type 0
TypeHeap = TypeRef → TypeCell

-- C's `==` on pointers.
abbrev pub pointer_eq : Option ℕ → Option ℕ → Bool
pointer_eq none none = true
pointer_eq none (some b) = false
pointer_eq (some a) none = false
pointer_eq (some a) (some b) = a == b

abbrev pub bool_eq : Bool → Bool → Bool
bool_eq true b = b
bool_eq false true = false
bool_eq false false = true

-- The switch of `type_is_integer`.
abbrev pub kind_is_integer : TypeKind → Bool
kind_is_integer TypeKind.i32 = true
kind_is_integer TypeKind.u8 = true
kind_is_integer TypeKind.usize = true
kind_is_integer _ = false

-- The switch of `type_is_unsigned`.
abbrev pub kind_is_unsigned : TypeKind → Bool
kind_is_unsigned TypeKind.u8 = true
kind_is_unsigned TypeKind.usize = true
kind_is_unsigned _ = false

abbrev pub kind_is_f32 : TypeKind → Bool
kind_is_f32 TypeKind.f32 = true
kind_is_f32 _ = false

abbrev pub kind_is_bool : TypeKind → Bool
kind_is_bool TypeKind.bool = true
kind_is_bool _ = false

abbrev pub kind_is_str : TypeKind → Bool
kind_is_str TypeKind.str = true
kind_is_str _ = false

abbrev pub kind_is_slice : TypeKind → Bool
kind_is_slice TypeKind.slice = true
kind_is_slice _ = false

abbrev pub kind_is_ref : TypeKind → Bool
kind_is_ref TypeKind.ref = true
kind_is_ref _ = false

-- Whether a kind has a pointee, the switch of `type_pointee`.
abbrev pub kind_is_pointer : TypeKind → Bool
kind_is_pointer TypeKind.ref = true
kind_is_pointer TypeKind.raw = true
kind_is_pointer _ = false

module _ (types : TypeHeap) where
  -- A predicate on a pointer that is false at `NULL`.
  abbrev pub kind_test : (TypeKind → Bool) → Option TypeRef → Bool
  kind_test test none = false
  kind_test test (some t) = test (types t).kind

  unfoldable pub type_is_integer : Option TypeRef → Bool
  type_is_integer type = kind_test kind_is_integer type

  unfoldable pub type_is_unsigned : Option TypeRef → Bool
  type_is_unsigned type = kind_test kind_is_unsigned type

  unfoldable pub type_is_indirect : Option TypeRef → Bool
  type_is_indirect type = kind_test kind_is_ref type

  unfoldable pub type_pointee : Option TypeRef → Option TypeRef
  type_pointee none = none
  type_pointee (some t) = if kind_is_pointer (types t).kind then (types t).pointee else none

  unfoldable pub constant_is_int : Constant → Bool
  constant_is_int constant = kind_test kind_is_integer constant.type

  unfoldable pub constant_is_float : Constant → Bool
  constant_is_float constant = kind_test kind_is_f32 constant.type

  unfoldable pub constant_is_bool : Constant → Bool
  constant_is_bool constant = kind_test kind_is_bool constant.type

  unfoldable pub constant_is_string : Constant → Bool
  constant_is_string constant = kind_test kind_is_str constant.type

-- The reads of a constant's union. A Boolean reads as the integer 0 or 1: the bytes of the union that
-- `as_bool` does not fill are taken to be zero. Any other read of a member that was not written is
-- the zero of the model; the code makes none.
abbrev pub int_of : ConstantValue → ℕ
int_of (as_int n) = n
int_of (as_bool true) = 1
int_of _ = 0

abbrev pub float_of : ConstantValue → ℕ
float_of (as_float x) = x
float_of _ = 0

abbrev pub bool_of : ConstantValue → Bool
bool_of (as_bool b) = b
bool_of _ = false

abbrev pub string_of : ConstantValue → StringRef
string_of (as_string s) = s
string_of _ = 0

unfoldable pub constant_int : Option TypeRef → ℕ → Constant
constant_int type value = record { type = type; value = as_int value }

unfoldable pub constant_float : Option TypeRef → ℕ → Constant
constant_float type value = record { type = type; value = as_float value }

unfoldable pub constant_bool : Option TypeRef → Bool → Constant
constant_bool type value = record { type = type; value = as_bool value }

unfoldable pub constant_hash : TypeHeap → Constant → ℕ
unfolding constant_is_string constant_is_float
constant_hash types constant =
    if constant_is_string types constant
    then string_of constant.value
    else if constant_is_float types constant
    then float_of constant.value
    else int_of constant.value % 2 ^ 32

-- `float_eq` is C's `==` on floats.
module _ (types : TypeHeap) (float_eq : ℕ → ℕ → Bool) where
  unfoldable pub constant_equals : Constant → Constant → Bool
  unfolding constant_is_string constant_is_float constant_is_bool
  constant_equals a b =
      if pointer_eq a.type b.type
      then if constant_is_string types a
        then string_of a.value == string_of b.value
        else if constant_is_float types a
        then float_eq (float_of a.value) (float_of b.value)
        else if constant_is_bool types a
        then bool_eq (bool_of a.value) (bool_of b.value)
        else int_of a.value == int_of b.value
      else false

  unfoldable pub type_arg_equals : TypeArg → TypeArg → Bool
  unfolding constant_equals
  type_arg_equals (type_arg t) (type_arg u) = pointer_eq t u
  type_arg_equals (const_arg (const_param p)) (const_arg (const_param q)) = p == q
  type_arg_equals (const_arg (const_value a)) (const_arg (const_value b)) = constant_equals a b
  type_arg_equals _ _ = false

  pub type_args_equal : List TypeArg → List TypeArg → Bool
  type_args_equal [] [] = true
  type_args_equal (a ∷ as') (b ∷ bs) = type_arg_equals a b && type_args_equal as' bs
  type_args_equal _ _ = false
