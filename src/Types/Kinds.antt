-- ===== src/Types/Kinds.antt =====
-- src/type/type.c: the queries on types that switch on their kind.
use gab.Prelude.{Bool, true, false, ◌&&◌, Option, none, some, List, [], ◌∷◌}
use gab.Types.{
  TypeKind, TypeRef, TypeHeap, TypeArg, const_arg, const_value, kind_test, kind_is_ref, kind_is_str,
}

pub data TypeMetadata : Type 0 where
  meta_none meta_length : TypeMetadata

abbrev pub kind_metadata : TypeKind → TypeMetadata
kind_metadata TypeKind.str = meta_length
kind_metadata TypeKind.slice = meta_length
kind_metadata _ = meta_none

abbrev pub kind_is_sized : TypeKind → Bool
kind_is_sized TypeKind.str = false
kind_is_sized TypeKind.slice = false
kind_is_sized TypeKind.param = false
kind_is_sized _ = true

abbrev pub kind_is_param : TypeKind → Bool
kind_is_param TypeKind.param = true
kind_is_param _ = false

abbrev pub kind_is_array : TypeKind → Bool
kind_is_array TypeKind.array = true
kind_is_array _ = false

abbrev pub type_is_primitive : TypeKind → Bool
type_is_primitive TypeKind.i32 = true
type_is_primitive TypeKind.f32 = true
type_is_primitive TypeKind.bool = true
type_is_primitive TypeKind.u8 = true
type_is_primitive TypeKind.usize = true
type_is_primitive TypeKind.str = true
type_is_primitive TypeKind.slice = true
type_is_primitive TypeKind.array = true
type_is_primitive TypeKind.raw = true
type_is_primitive _ = false

abbrev pub type_names_itself : TypeKind → Bool
type_names_itself TypeKind.i32 = true
type_names_itself TypeKind.f32 = true
type_names_itself TypeKind.bool = true
type_names_itself TypeKind.u8 = true
type_names_itself TypeKind.usize = true
type_names_itself TypeKind.str = true
type_names_itself TypeKind.error = true
type_names_itself TypeKind.param = true
type_names_itself _ = false

abbrev pub is_known_length : List TypeArg → Bool
is_known_length (_ ∷ const_arg (const_value _) ∷ []) = true
is_known_length _ = false

abbrev pub is_length : TypeMetadata → Bool
is_length meta_none = false
is_length meta_length = true

module _ (types : TypeHeap) where
  unfoldable pub type_metadata_of : Option TypeRef → TypeMetadata
  type_metadata_of none = meta_none
  type_metadata_of (some t) = kind_metadata (types t).kind

  unfoldable pub type_is_sized : Option TypeRef → Bool
  type_is_sized none = true
  type_is_sized (some t) = kind_is_sized (types t).kind

  unfoldable pub type_is_str_ref : Option TypeRef → Bool
  type_is_str_ref none = false
  type_is_str_ref (some t) =
      kind_is_ref (types t).kind && kind_test types kind_is_str (types t).pointee

  unfoldable pub type_array_length_is_known : Option TypeRef → Bool
  type_array_length_is_known none = false
  type_array_length_is_known (some t) =
      kind_is_array (types t).kind && is_known_length (types t).args
