-- ===== src/Scope/Bind.antt =====
-- A binding is found where it was made and nowhere else.
use gab.Prelude.{
  ℕ, zero, suc, ◌≡◌, refl, sym, ap, ◌∙◌, ◌⊎◌, inl, inr, Bool, true, false, ◌&&◌, Option, none, some,
  List, [], ◌∷◌, ◌==◌, if◌then◌else◌, set, arith, Bool-cases, Option-cases, subst,
}
use gab.Types.{StringRef}
use gab.Mir.Build.{get_elem?}
use gab.Scope.{
  Scope, Symbol, SymbolShape, Table, table_lookup, table_insert, scope_lookup_local, inserted,
  scope_bind,
}

first_symbol :
    (n name : StringRef) (s : Symbol) (rest : Table)
    → (n == name) ≡ true
    → table_lookup ((n, s) ∷ rest) name ≡ some s
unfolding table_lookup
first_symbol n name s rest h = rw h refl

rest_symbol :
    (n name : StringRef) (s : Symbol) (rest : Table)
    → (n == name) ≡ false
    → table_lookup ((n, s) ∷ rest) name ≡ table_lookup rest name
unfolding table_lookup
rest_symbol n name s rest h = rw h refl

no_symbol : (s : Symbol) → some s ≡ none → ⊥
no_symbol s h = cc h

not_both : (n name other : ℕ) → (n == name) ≡ false → (n == other) ≡ true → (name == other) ≡ false
not_both n name other h k = ground (arith, h, k)

two_tests :
    (n name other : ℕ) (s symbol : Symbol) (after before : Option Symbol)
    → (n == name) ≡ false
    → after ≡ (if name == other then some symbol else before)
    → (if n == other then some s else after)
      ≡ (if name == other then some symbol else if n == other then some s else before)
two_tests n name other s symbol after before h e = elim (Bool-cases (n == other)) [
  | inl here ↦ rw (here, not_both n name other h here) refl
  | inr there ↦ rw there e
]

table_lookup-insert :
    (table : Table) (name other : StringRef) (symbol : Symbol)
    → table_lookup table name ≡ none
    → table_lookup (table_insert table name symbol) other
      ≡ (if name == other then some symbol else table_lookup table other)
unfolding table_lookup table_insert
table_lookup-insert [] name other symbol h = refl
table_lookup-insert ((n, s) ∷ rest) name other symbol h = elim (Bool-cases (n == name)) [
  | inl same ↦ absurd (no_symbol s (sym (first_symbol n name s rest same) ∙ h))
  | inr apart ↦
      let later =
        table_lookup-insert rest name other symbol (sym (rest_symbol n name s rest apart) ∙ h) in
      rw apart (
        two_tests n name other s symbol (table_lookup (table_insert rest name symbol) other)
          (table_lookup rest other) apart later)
]

both_suc : (i j : ℕ) → (suc i == suc j) ≡ (i == j)
both_suc i j = ground arith

zero-suc : (j : ℕ) → (zero == suc j) ≡ false
zero-suc j = ground arith

suc-zero : (i : ℕ) → (suc i == zero) ≡ false
suc-zero i = ground arith

get_elem?-set :
    (scopes : List Scope) (i j : ℕ) (old new : Scope)
    → get_elem? scopes i ≡ some old
    → get_elem? (set scopes i new) j ≡ (if i == j then some new else get_elem? scopes j)
unfolding get_elem?
get_elem?-set [] i j old new h = absurd (cc h)
get_elem?-set (s ∷ ss) zero zero old new h = refl
get_elem?-set (s ∷ ss) zero (suc j) old new h = rw (zero-suc j) refl
get_elem?-set (s ∷ ss) (suc i) zero old new h = rw (suc-zero i) refl
get_elem?-set (s ∷ ss) (suc i) (suc j) old new h =
    get_elem?-set ss i j old new h
    ∙ ap (λ (b : Bool). if b then some new else get_elem? ss j) (sym (both_suc i j))

local_table :
    (scopes : List Scope) (id : ℕ) (scope : Scope) (name : StringRef)
    → get_elem? scopes id ≡ some scope
    → scope_lookup_local scopes id name ≡ table_lookup scope.symbols name
unfolding scope_lookup_local
local_table scopes id scope name at =
    ap (λ (o : Option Scope). elim o [ none ↦ none | some s ↦ table_lookup s.symbols name ]) at

inserted-set :
    (scopes : List Scope) (id : ℕ) (scope : Scope) (name : StringRef) (symbol : Symbol)
    → get_elem? scopes id ≡ some scope
    → inserted scopes id name symbol
      ≡ set scopes id (record scope { symbols = table_insert scope.symbols name symbol })
unfolding inserted
inserted-set scopes id scope name symbol at =
    ap
      (λ (o : Option Scope). elim o [
        | none ↦ scopes
        | some s ↦ set scopes id (record s { symbols = table_insert s.symbols name symbol })
      ])
      at

test_eq : (a b : ℕ) → (a == b) ≡ true → a ≡ b
test_eq a b h = ground (arith, h)

scope_lookup_local-set :
    (scopes : List Scope) (id : ℕ) (old new : Scope) (t : ℕ) (other : StringRef)
    → get_elem? scopes id ≡ some old
    → scope_lookup_local (set scopes id new) t other
      ≡ (if id == t then table_lookup new.symbols other else scope_lookup_local scopes t other)
unfolding scope_lookup_local
scope_lookup_local-set scopes id old new t other at =
    ap (λ (o : Option Scope). elim o [ none ↦ none | some s ↦ table_lookup s.symbols other ])
      (get_elem?-set scopes id t old new at)
    ∙ chosen (id == t)
  where
    chosen :
        (b : Bool)
        → elim (if b then some new else get_elem? scopes t) as (λ o. Option Symbol) [
          | none ↦ none
          | some s ↦ table_lookup s.symbols other
        ]
          ≡ (if b
              then table_lookup new.symbols other
              else elim (get_elem? scopes t) as (λ o. Option Symbol) [
                | none ↦ none
                | some s ↦ table_lookup s.symbols other
              ])
    chosen true = refl
    chosen false = refl

scope_lookup_local-inserted :
    (scopes : List Scope) (id : ℕ) (scope : Scope) (name : StringRef) (symbol : Symbol) (t : ℕ)
    (other : StringRef)
    → get_elem? scopes id ≡ some scope
    → table_lookup scope.symbols name ≡ none
    → scope_lookup_local (inserted scopes id name symbol) t other
      ≡ (if id == t && name == other then some symbol else scope_lookup_local scopes t other)
scope_lookup_local-inserted scopes id scope name symbol t other at fresh =
    let new : Scope = record scope { symbols = table_insert scope.symbols name symbol } in
    let first =
      ap (λ (ss : List Scope). scope_lookup_local ss t other)
        (inserted-set scopes id scope name symbol at)
      ∙ scope_lookup_local-set scopes id scope new t other at in
    elim (Bool-cases (id == t)) [
      | inl here ↦
          let old =
            sym (local_table scopes id scope other at)
            ∙ ap (λ (k : ℕ). scope_lookup_local scopes k other) (test_eq id t here) in
          first
          ∙ rw here (
              table_lookup-insert scope.symbols name other symbol fresh
              ∙ ap (λ (o : Option Symbol). if name == other then some symbol else o) old)
      | inr apart ↦ first ∙ rw apart refl
    ]

-- What a binding may be: the name was free in the scope, and is found there now, with every other name
-- and every other scope as before; or it was taken, and nothing has changed.
abbrev pub Bound :
    List Scope → ℕ → StringRef → SymbolShape → ℕ → StringRef → Bool × List Scope → Type 0
Bound scopes id name shape t other r =
    (scope_lookup_local scopes id name ≡ none)
      × (r.0 ≡ true)
      × (scope_lookup_local r.1 t other ≡ (
          if id == t && name == other
          then some (record { pinned = false; shape = shape })
          else scope_lookup_local scopes t other))
    ⊎ ((symbol : Symbol) × (scope_lookup_local scopes id name ≡ some symbol)
        × (r ≡ (false, scopes)))

bind_free :
    (scopes : List Scope) (id : ℕ) (name : StringRef) (shape : SymbolShape)
    → scope_lookup_local scopes id name ≡ none
    → (true, inserted scopes id name (record { pinned = false; shape = shape }))
      ≡ scope_bind scopes id name shape
unfolding scope_bind
bind_free scopes id name shape h = sym (
    ap
      (λ (o : Option Symbol). elim o as (λ x. Bool × List Scope) [
        | some symbol ↦ (false, scopes)
        | none ↦ (true, inserted scopes id name (record { pinned = false; shape = shape }))
      ])
      h)

bind_taken :
    (scopes : List Scope) (id : ℕ) (name : StringRef) (shape : SymbolShape) (symbol : Symbol)
    → scope_lookup_local scopes id name ≡ some symbol
    → scope_bind scopes id name shape ≡ (false, scopes)
unfolding scope_bind
bind_taken scopes id name shape symbol h =
    ap
      (λ (o : Option Symbol). elim o as (λ x. Bool × List Scope) [
        | some symbol ↦ (false, scopes)
        | none ↦ (true, inserted scopes id name (record { pinned = false; shape = shape }))
      ])
      h

-- Binding a name in a scope either finds it free and binds it, so that it is found in that scope, with
-- every other name and every other scope as before, or finds it taken, says so and changes nothing.
pub scope_bind_lem :
    (scopes : List Scope) (id : ℕ) (scope : Scope) (name : StringRef) (shape : SymbolShape) (t : ℕ)
    (other : StringRef)
    → get_elem? scopes id ≡ some scope
    → Bound scopes id name shape t other (scope_bind scopes id name shape)
scope_bind_lem scopes id scope name shape t other at =
    elim (Option-cases (scope_lookup_local scopes id name)) [
      | inl free ↦
          subst (Bound scopes id name shape t other) (bind_free scopes id name shape free) (
            inl (
              free,
              refl,
              scope_lookup_local-inserted scopes id scope name
                  (record { pinned = false; shape = shape }) t other at
                  (sym (local_table scopes id scope name at) ∙ free),
            ))
      | inr (symbol, taken) ↦ inr (symbol, taken, bind_taken scopes id name shape symbol taken)
    ]
