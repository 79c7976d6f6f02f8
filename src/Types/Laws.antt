-- ===== src/Types/Laws.antt =====
-- Which tests on a type exclude one another.
use gab.Prelude.{◌≡◌, true, false, none, some, Bool, Option, arith}
use gab.Types.{TypeRef, TypeHeap, kind_test, kind_is_integer, kind_is_f32, kind_is_bool}

module _ (types : TypeHeap) where
  abbrev pub is_f32 : Option TypeRef → Bool
  is_f32 type = kind_test types kind_is_f32 type

  abbrev pub is_bool : Option TypeRef → Bool
  is_bool type = kind_test types kind_is_bool type

  abbrev pub is_int : Option TypeRef → Bool
  is_int type = kind_test types kind_is_integer type

  pub int_not_f32 : (t : Option TypeRef) → is_int t ≡ true → is_f32 t ≡ false
  int_not_f32 none h = cc
  int_not_f32 (some t) h = ground arith

  pub bool_not_f32 : (t : Option TypeRef) → is_bool t ≡ true → is_f32 t ≡ false
  bool_not_f32 none h = cc
  bool_not_f32 (some t) h = ground arith

  pub bool_not_int : (t : Option TypeRef) → is_bool t ≡ true → is_int t ≡ false
  bool_not_int none h = cc
  bool_not_int (some t) h = ground arith

  pub f32_not_bool : (t : Option TypeRef) → is_f32 t ≡ true → is_bool t ≡ false
  f32_not_bool none h = cc
  f32_not_bool (some t) h = ground arith
