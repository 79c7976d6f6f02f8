-- ===== src/Types/Ids/Tests.antt =====
-- Two conformances to an interface of an array type with its length.
use gab.Prelude.{ℕ, ◌≡◌, refl, inl, true, false, none, some, List, [], ◌∷◌, ◌==◌}
use gab.Types.{
  TypeKind, TypeHeap, TypeArg, type_arg, const_arg, const_value, as_int, DeclId, constant_is_float,
  constant_is_bool, type_args_equal, type_arg_equals, constant_equals,
}
use gab.Types.Ids.{
  instance_id_of, first_args, instance_id_hash, ConformanceKey, conformance_key_equals,
  conformance_key_hash_of, decl_id_equals, instance_id_equals,
}
use gab.Types.Ids.Laws.{AllExact, conformance_key_equals_lem}

abbrev all_i32 : TypeHeap
all_i32 t = record {
  kind = TypeKind.i32;
  name = none;
  decl = none;
  args = [];
  has_param = false;
  pointee = none;
  param_index = 0;
}

abbrev named : ℕ → DeclId
named n = record { module_name = some 100; owner = none; name = some n; block = 0 }

abbrev args : List TypeArg
args = type_arg (some 8) ∷ const_arg (const_value (record { type = some 8; value = as_int 3 })) ∷ []

abbrev conformance : ConformanceKey
conformance = record { owner = named 1; interface = record { decl = named 2; args = args } }

made : instance_id_of (named 2) args ≡ conformance.interface
unfolding instance_id_of first_args
made = refl

args_exact : AllExact all_i32 (λ m n. m == n) args
unfolding constant_is_float constant_is_bool
args_exact = (tt, (record { not_float = refl; tagged = inl refl }, tt))

equal : conformance_key_equals all_i32 (λ m n. m == n) conformance conformance ≡ true
unfolding conformance_key_equals decl_id_equals instance_id_equals type_args_equal type_arg_equals
    constant_equals
equal = refl

conformance_key_example :
    (instance_id_hash all_i32 conformance.interface
      ≡ instance_id_hash all_i32 conformance.interface)
    × (conformance_key_hash_of all_i32 conformance ≡ conformance_key_hash_of all_i32 conformance)
conformance_key_example =
    conformance_key_equals_lem all_i32 (λ m n. m == n) conformance conformance args_exact args_exact
      equal
