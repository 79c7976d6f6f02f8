-- ===== src/Types/Ids.antt =====
-- src/decl_id.h and the keys of src/type/type.c: declarations, instances and conformances, how they are
-- compared and how they are hashed.
--
-- A `size_t` has 64 bits. The array of an instance's arguments, of which `arg_count` are in use, is
-- the list of those.
pub mod Laws
mod Tests
use gab.Prelude.{
  ℕ, zero, suc, ◌+◌, ◌*◌, ◌%◌, ◌^◌, Bool, true, false, ◌&&◌, Option, none, some, List, [], ◌∷◌,
  ◌==◌, if◌then◌else◌,
}
use gab.Types.{
  TypeKind, TypeRef, StringRef, TypeCell, TypeHeap, TypeArg, type_arg, const_arg, const_param,
  const_value, DeclId, pointer_eq, type_args_equal, constant_hash,
}

abbrev pub size_t : ℕ → ℕ
size_t n = n % 2 ^ 64

-- A pointer as a number: `NULL` is 0.
abbrev pub address : Option ℕ → ℕ
address none = 0
address (some a) = a

unfoldable pub decl_id_equals : DeclId → DeclId → Bool
decl_id_equals id other =
    pointer_eq id.module_name other.module_name
    && pointer_eq id.owner other.owner
    && (pointer_eq id.name other.name && id.block == other.block)

abbrev pub mix : ℕ → ℕ → ℕ
mix hash value = size_t (hash * 31 + value)

unfoldable pub decl_id_hash : DeclId → ℕ
decl_id_hash id =
    mix (mix (mix (address id.module_name) (address id.owner)) (address id.name)) id.block

pub record InstanceId : Type 0 where
  pub decl : DeclId
  pub args : List TypeArg

abbrev pub max_type_params : ℕ
max_type_params = 4

pub first_args : ℕ → List TypeArg → List TypeArg
first_args zero args = []
first_args (suc n) [] = []
first_args (suc n) (arg ∷ args) = arg ∷ first_args n args

-- `instance_id_of`: the arguments past the fourth are left out.
unfoldable pub instance_id_of : DeclId → List TypeArg → InstanceId
unfolding first_args
instance_id_of decl args = record { decl = decl; args = first_args max_type_params args }

pub record ConformanceKey : Type 0 where
  pub owner : DeclId
  pub interface : InstanceId

module _ (types : TypeHeap) where
  unfoldable pub type_arg_hash : TypeArg → ℕ
  type_arg_hash (type_arg t) = address t
  type_arg_hash (const_arg (const_param p)) = p
  type_arg_hash (const_arg (const_value c)) = constant_hash types c

  pub hash_args : ℕ → List TypeArg → ℕ
  hash_args hash [] = hash
  hash_args hash (arg ∷ args) = hash_args (mix hash (type_arg_hash arg)) args

  unfoldable pub instance_id_hash : InstanceId → ℕ
  unfolding hash_args
  instance_id_hash id = hash_args (decl_id_hash id.decl) id.args

  unfoldable pub conformance_key_hash_of : ConformanceKey → ℕ
  unfolding instance_id_hash
  conformance_key_hash_of key = mix (decl_id_hash key.owner) (instance_id_hash key.interface)

  module _ (float_eq : ℕ → ℕ → Bool) where
    unfoldable pub instance_id_equals : InstanceId → InstanceId → Bool
    instance_id_equals id other =
        decl_id_equals id.decl other.decl && type_args_equal types float_eq id.args other.args

    unfoldable pub conformance_key_equals : ConformanceKey → ConformanceKey → Bool
    unfolding instance_id_equals
    conformance_key_equals key other =
        decl_id_equals key.owner other.owner && instance_id_equals key.interface other.interface
