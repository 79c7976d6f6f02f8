-- ===== src/Scope.antt =====
-- src/scope.h and src/scope.c: the scopes that names are looked up in.
--
-- A scope is named by its number in the list of all scopes, in the order of their creation, and a
-- scope's parent is one that was there before it. A symbol table is the list of its entries; that the
-- hash map behind it behaves so is what the theorems of HashMap show. A declaration, a function, a
-- module and an interface are addresses.
pub mod Bind
pub mod Lookup
mod Tests
use gab.Prelude.{
  ℕ, zero, suc, Bool, true, false, not, ◌&&◌, ◌||◌, Option, none, some, List, [], ◌∷◌, ◌++◌, ◌==◌,
  if◌then◌else◌, length, set,
}
use gab.Types.{TypeRef, StringRef, TypeConst}
use gab.Mir.Build.{get_elem?}

pub data SymbolShape : Type 0 where
  var : Option TypeRef → SymbolShape
  func module_symbol type_decl interface : ℕ → SymbolShape
  type : Option TypeRef → SymbolShape
  constant : TypeConst → SymbolShape

pub record Symbol : Type 0 where
  pub pinned : Bool
  pub shape : SymbolShape

pub data ScopeKind : Type 0 where
  global_scope module_scope file_scope local_scope : ScopeKind

abbrev pub is_file : ScopeKind → Bool
is_file file_scope = true
is_file _ = false

abbrev pub is_module : ScopeKind → Bool
is_module module_scope = true
is_module _ = false

abbrev pub Table : Type 0
Table = List (StringRef × Symbol)

pub record Scope : Type 0 where
  pub symbols : Table
  pub parent : Option ℕ
  pub kind : ScopeKind

-- `symbol_table_lookup` and `symbol_table_insert`; inserting a name that is there keeps its symbol.
unfoldable pub table_lookup : Table → StringRef → Option Symbol
table_lookup [] name = none
table_lookup ((n, s) ∷ rest) name = if n == name then some s else table_lookup rest name

unfoldable pub table_insert : Table → StringRef → Symbol → Table
table_insert [] name symbol = (name, symbol) ∷ []
table_insert ((n, s) ∷ rest) name symbol =
    let after = table_insert rest name symbol in if n == name then (n, s) ∷ rest else (n, s) ∷ after

-- `scope_create_kind`: the number of the new scope, and all scopes.
unfoldable pub scope_create_kind : List Scope → Option ℕ → ScopeKind → ℕ × List Scope
scope_create_kind scopes parent kind =
    (length scopes, scopes ++ record { symbols = []; parent = parent; kind = kind } ∷ [])

unfoldable pub scope_create : List Scope → Option ℕ → ℕ × List Scope
unfolding scope_create_kind
scope_create scopes parent =
    scope_create_kind scopes parent (elim parent [ none ↦ global_scope | some p ↦ local_scope ])

-- `scope_lookup_local`.
unfoldable pub scope_lookup_local : List Scope → ℕ → StringRef → Option Symbol
unfolding table_lookup get_elem?
scope_lookup_local scopes id name = elim (get_elem? scopes id) [
  | none ↦ none
  | some scope ↦ table_lookup scope.symbols name
]

-- Whether a lookup goes on to the parent of a scope that lacks the name.
pub data Climb : Type 0 where
  always past_files until_module : Climb

abbrev pub goes_on : Climb → ScopeKind → Bool
goes_on always kind = true
goes_on past_files kind = is_file kind
goes_on until_module kind = not (is_module kind)

-- The loop that `scope_lookup`, `scope_lookup_declaring` and `scope_type_lookup_declaring` share. Each
-- scope takes fuel; the outer `none` means that it ran out.
unfoldable pub lookup_from : Climb → ℕ → List Scope → ℕ → StringRef → Option (Option Symbol)
unfolding table_lookup get_elem?
lookup_from climb zero scopes id name = none
lookup_from climb (suc fuel) scopes id name = elim (get_elem? scopes id) [
  | none ↦ some none
  | some scope ↦ elim (table_lookup scope.symbols name) [
    | some symbol ↦ some (some symbol)
    | none ↦ elim (goes_on climb scope.kind) [
      | false ↦ some none
      | true ↦ elim scope.parent [
        | none ↦ some none
        | some p ↦ lookup_from climb fuel scopes p name
      ]
    ]
  ]
]

-- A scope's parents have smaller numbers, so this many scopes are enough.
abbrev pub scope_lookup : List Scope → ℕ → StringRef → Option (Option Symbol)
scope_lookup scopes id name = lookup_from always (suc id) scopes id name

abbrev pub scope_lookup_declaring : List Scope → ℕ → StringRef → Option (Option Symbol)
scope_lookup_declaring scopes id name = lookup_from past_files (suc id) scopes id name

abbrev pub scope_type_lookup_declaring : List Scope → ℕ → StringRef → Option (Option Symbol)
scope_type_lookup_declaring scopes id name = lookup_from until_module (suc id) scopes id name

-- The scopes after a symbol was inserted into one of them.
unfoldable pub inserted : List Scope → ℕ → StringRef → Symbol → List Scope
unfolding table_insert get_elem?
inserted scopes id name symbol = elim (get_elem? scopes id) [
  | none ↦ scopes
  | some scope ↦ set scopes id (record scope { symbols = table_insert scope.symbols name symbol })
]

-- `scope_bind`, which all the `scope_bind_` functions call with a symbol of their kind.
unfoldable pub scope_bind : List Scope → ℕ → StringRef → SymbolShape → Bool × List Scope
unfolding scope_lookup_local inserted
scope_bind scopes id name shape = elim (scope_lookup_local scopes id name) [
  | some symbol ↦ (false, scopes)
  | none ↦ (true, inserted scopes id name (record { pinned = false; shape = shape }))
]

-- What `scope_decl_var_against` and `scope_bind_func_against` do: the symbol that is declared.
abbrev pub declared :
    List Scope
    → ℕ
    → StringRef
    → Symbol
    → Option (Option Symbol)
    → Option (Option Symbol × List Scope)
declared scopes id name symbol none = none
declared scopes id name symbol (some (some other)) = some (none, scopes)
declared scopes id name symbol (some none) =
    let after = inserted scopes id name symbol in some (scope_lookup_local after id name, after)

unfoldable pub scope_decl_var_against :
    List Scope → ℕ → ℕ → StringRef → Option TypeRef → Option (Option Symbol × List Scope)
unfolding lookup_from inserted scope_lookup_local
scope_decl_var_against scopes id against name t =
    declared scopes id name (record { pinned = false; shape = var t })
      (scope_lookup_declaring scopes against name)

abbrev pub scope_decl_var :
    List Scope → ℕ → StringRef → Option TypeRef → Option (Option Symbol × List Scope)
scope_decl_var scopes id name t = scope_decl_var_against scopes id id name t

unfoldable pub scope_bind_func_against :
    List Scope → ℕ → ℕ → StringRef → ℕ → Option (Option Symbol × List Scope)
unfolding lookup_from inserted scope_lookup_local
scope_bind_func_against scopes id against name function =
    declared scopes id name (record { pinned = false; shape = func function })
      (scope_lookup_declaring scopes against name)
