-- ===== src/Types/Ids/Laws.antt =====
-- Equal keys have equal hashes, where no floating point constant is among the arguments.
use gab.Prelude.{
  ℕ, ◌%◌, ◌^◌, ◌≡◌, ◌⊎◌, refl, inl, inr, Bool, true, false, ◌&&◌, Option, none, some, List, [], ◌∷◌,
  arith, sym, ◌∙◌, ap, ap₂, ◌==◌, if◌then◌else◌,
}
use gab.Types.{
  TypeHeap, Constant, ConstantValue, kind_test, kind_is_str, kind_is_bool, string_of, float_of,
  as_bool, int_of, bool_of, TypeArg, type_arg, const_arg, const_param, const_value, DeclId,
  pointer_eq, bool_eq, constant_is_float, constant_is_bool, constant_is_string, constant_equals,
  constant_hash, type_arg_equals, type_args_equal,
}
use gab.Types.Ids.{
  decl_id_equals, decl_id_hash, type_arg_hash, hash_args, mix, address, InstanceId,
  instance_id_equals, instance_id_hash, ConformanceKey, conformance_key_equals,
  conformance_key_hash_of,
}

and_left : (a b : Bool) → (a && b) ≡ true → a ≡ true
and_left a b h = ground arith

and_right : (a b : Bool) → (a && b) ≡ true → b ≡ true
and_right a b h = ground arith

test_eq : (m n : ℕ) → (m == n) ≡ true → m ≡ n
test_eq m n h = ground arith

pointer_eq-eq : (a b : Option ℕ) → pointer_eq a b ≡ true → a ≡ b
pointer_eq-eq none none h = refl
pointer_eq-eq none (some b) h = absurd (cc h)
pointer_eq-eq (some a) none h = absurd (cc h)
pointer_eq-eq (some a) (some b) h = ap some (test_eq a b h)

-- Declarations that compare as equal are the same, and so have the same hash.
pub decl_id_equals_lem : (a b : DeclId) → decl_id_equals a b ≡ true → a ≡ b
unfolding decl_id_equals
decl_id_equals_lem a b h =
    let m = pointer_eq a.module_name b.module_name in
    let o = pointer_eq a.owner b.owner in
    let n = pointer_eq a.name b.name in
    let k = a.block == b.block in
    let front = and_left (m && o) (n && k) h in
    let back = and_right (m && o) (n && k) h in
    let m_eq = pointer_eq-eq a.module_name b.module_name (and_left m o front) in
    let o_eq = pointer_eq-eq a.owner b.owner (and_right m o front) in
    let n_eq = pointer_eq-eq a.name b.name (and_left n k back) in
    let k_eq = test_eq a.block b.block (and_right n k back) in
    λ i. record { module_name = m_eq i; owner = o_eq i; name = n_eq i; block = k_eq i }

-- What a chain of tests says where it holds and the second is not taken.
chain :
    (p s f o x y z w : Bool)
    → (if p then if s then x else if f then y else if o then z else w else false) ≡ true
    → f ≡ false
    → (p ≡ true)
      × ((s ≡ true) × (x ≡ true)
          ⊎ (s ≡ false) × (o ≡ true) × (z ≡ true)
          ⊎ (s ≡ false) × (o ≡ false) × (w ≡ true))
chain false s f o x y z w h e = absurd (cc h)
chain true true f o x y z w h e = (refl, inl (refl, h))
chain true false true o x y z w h e = absurd (cc e)
chain true false false true x y z w h e = (refl, inr (inl (refl, refl, h)))
chain true false false false x y z w h e = (refl, inr (inr (refl, refl, h)))

bool_eq-eq : (a b : Bool) → bool_eq a b ≡ true → a ≡ b
bool_eq-eq true b h = sym h
bool_eq-eq false true h = absurd (cc h)
bool_eq-eq false false h = refl

module _ (types : TypeHeap) (float_eq : ℕ → ℕ → Bool) where
  -- A constant that is not a float, and was written as a Boolean if it is one.
  pub record IsExact (c : Constant) : Type 0 where
    pub not_float : constant_is_float types c ≡ false
    pub tagged : (constant_is_bool types c ≡ false) ⊎ ((b : Bool) × (c.value ≡ as_bool b))

  exact_bool :
      (c : Constant)
      → IsExact c
      → constant_is_bool types c ≡ true
      → (b : Bool) × (c.value ≡ as_bool b)
  exact_bool c h e = elim h.tagged [
    | inl no_bool ↦ absurd (cc (sym e ∙ no_bool))
    | inr value ↦ value
  ]

  hash-string :
      (a : Constant) → constant_is_string types a ≡ true → constant_hash types a ≡ string_of a.value
  unfolding constant_hash
  hash-string a h = rw h refl

  hash-int :
      (a : Constant)
      → constant_is_string types a ≡ false
      → constant_is_float types a ≡ false
      → constant_hash types a ≡ int_of a.value % 2 ^ 32
  unfolding constant_hash
  hash-int a h g = rw (h, g) refl

  constant_equals-hash :
      (a b : Constant)
      → IsExact a
      → IsExact b
      → constant_equals types float_eq a b ≡ true
      → constant_hash types a ≡ constant_hash types b
  unfolding constant_equals constant_is_string constant_is_bool
  constant_equals-hash a b ha hb h =
      let (p, cases) =
        chain (pointer_eq a.type b.type) (constant_is_string types a) (constant_is_float types a)
          (constant_is_bool types a) (string_of a.value == string_of b.value)
          (float_eq (float_of a.value) (float_of b.value))
          (bool_eq (bool_of a.value) (bool_of b.value)) (int_of a.value == int_of b.value) h
          ha.not_float in
      let t = pointer_eq-eq a.type b.type p in
      let strings : constant_is_string types a ≡ constant_is_string types b =
        ap (kind_test types kind_is_str) t in
      let bools : constant_is_bool types a ≡ constant_is_bool types b =
        ap (kind_test types kind_is_bool) t in
      elim cases [
        | inl (s, x) ↦
            hash-string a s
            ∙ test_eq (string_of a.value) (string_of b.value) x
            ∙ sym (hash-string b (sym strings ∙ s))
        | inr (inl (s, o, z)) ↦
            let (x, xe) = exact_bool a ha o in
            let (y, ye) = exact_bool b hb (sym bools ∙ o) in
            let same : x ≡ y =
              ap bool_of (sym xe)
              ∙ bool_eq-eq (bool_of a.value) (bool_of b.value) z
              ∙ ap bool_of ye in
            hash-int a s ha.not_float
            ∙ ap (λ (v : ConstantValue). int_of v % 2 ^ 32) (xe ∙ ap as_bool same ∙ sym ye)
            ∙ sym (hash-int b (sym strings ∙ s) hb.not_float)
        | inr (inr (s, o, w)) ↦
            hash-int a s ha.not_float
            ∙ ap (λ (n : ℕ). n % 2 ^ 32) (test_eq (int_of a.value) (int_of b.value) w)
            ∙ sym (hash-int b (sym strings ∙ s) hb.not_float)
      ]

  abbrev pub IsExactArg : TypeArg → Type 0
  IsExactArg (type_arg t) = Unit
  IsExactArg (const_arg (const_param p)) = Unit
  IsExactArg (const_arg (const_value c)) = IsExact c

  abbrev pub AllExact : List TypeArg → Type 0
  AllExact [] = Unit
  AllExact (arg ∷ args) = IsExactArg arg × AllExact args

  arg_equals-hash :
      (a b : TypeArg)
      → IsExactArg a
      → IsExactArg b
      → type_arg_equals types float_eq a b ≡ true
      → type_arg_hash types a ≡ type_arg_hash types b
  unfolding type_arg_equals type_arg_hash
  arg_equals-hash (type_arg t) (type_arg u) ha hb h = ap address (pointer_eq-eq t u h)
  arg_equals-hash (const_arg (const_param p)) (const_arg (const_param q)) ha hb h = test_eq p q h
  arg_equals-hash (const_arg (const_value a)) (const_arg (const_value b)) ha hb h =
      constant_equals-hash a b ha hb h
  arg_equals-hash (type_arg t) (const_arg (const_param q)) ha hb h = absurd (cc h)
  arg_equals-hash (type_arg t) (const_arg (const_value c)) ha hb h = absurd (cc h)
  arg_equals-hash (const_arg (const_param p)) (type_arg t) ha hb h = absurd (cc h)
  arg_equals-hash (const_arg (const_value c)) (type_arg t) ha hb h = absurd (cc h)
  arg_equals-hash (const_arg (const_param p)) (const_arg (const_value c)) ha hb h = absurd (cc h)
  arg_equals-hash (const_arg (const_value c)) (const_arg (const_param p)) ha hb h = absurd (cc h)

  args_equal-hash :
      (g h : ℕ) (as' bs : List TypeArg)
      → g ≡ h
      → AllExact as'
      → AllExact bs
      → type_args_equal types float_eq as' bs ≡ true
      → hash_args types g as' ≡ hash_args types h bs
  unfolding hash_args type_args_equal
  args_equal-hash g h [] [] e ha hb t = e
  args_equal-hash g h [] (b ∷ bs) e ha hb t = absurd (cc t)
  args_equal-hash g h (a ∷ as') [] e ha hb t = absurd (cc t)
  args_equal-hash g h (a ∷ as') (b ∷ bs) e ha hb t =
      args_equal-hash (mix g (type_arg_hash types a)) (mix h (type_arg_hash types b)) as' bs
        (ap₂ mix e (
          arg_equals-hash a b ha.0 hb.0 (
            and_left (type_arg_equals types float_eq a b) (type_args_equal types float_eq as' bs)
              t)))
        ha.1 hb.1
        (and_right (type_arg_equals types float_eq a b) (type_args_equal types float_eq as' bs) t)

  instance_equals-hash :
      (a b : InstanceId)
      → AllExact a.args
      → AllExact b.args
      → instance_id_equals types float_eq a b ≡ true
      → instance_id_hash types a ≡ instance_id_hash types b
  unfolding instance_id_equals instance_id_hash
  instance_equals-hash a b ha hb h =
      let decls = decl_id_equals a.decl b.decl in
      let args = type_args_equal types float_eq a.args b.args in
      args_equal-hash (decl_id_hash a.decl) (decl_id_hash b.decl) a.args b.args
        (ap decl_id_hash (decl_id_equals_lem a.decl b.decl (and_left decls args h))) ha hb
        (and_right decls args h)

  -- Instances, and conformances to them, that compare as equal have the same hash, where no argument
  -- is a floating point constant and each Boolean one was written as one.
  pub conformance_key_equals_lem :
      (a b : ConformanceKey)
      → AllExact a.interface.args
      → AllExact b.interface.args
      → conformance_key_equals types float_eq a b ≡ true
      → (instance_id_hash types a.interface ≡ instance_id_hash types b.interface)
        × (conformance_key_hash_of types a ≡ conformance_key_hash_of types b)
  unfolding conformance_key_equals conformance_key_hash_of
  conformance_key_equals_lem a b ha hb h =
      let owners = decl_id_equals a.owner b.owner in
      let interfaces = instance_id_equals types float_eq a.interface b.interface in
      let same =
        instance_equals-hash a.interface b.interface ha hb (and_right owners interfaces h) in
      (
        same,
        ap₂ mix
            (ap decl_id_hash (decl_id_equals_lem a.owner b.owner (and_left owners interfaces h)))
            same,
      )
