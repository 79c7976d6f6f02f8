-- ===== src/Scope/Lookup.antt =====
-- Lookups end, and find the symbol of the nearest scope that has the name.
use gab.Prelude.{ℕ, ◌<◌, ◌≡◌, Option, none, some, List}
use gab.Types.{StringRef}
use gab.Mir.Build.{get_elem?}
use gab.Scope.{
  Scope, ScopeKind, global_scope, module_scope, file_scope, local_scope, always, past_files,
  until_module, Symbol, Climb, table_lookup,
}

-- Every scope's parent was there before it.
pub record IsTree (scopes : List Scope) : Type 0 where
  pub earlier :
      (id : ℕ) (scope : Scope) (p : ℕ)
      → get_elem? scopes id ≡ some scope
      → scope.parent ≡ some p
      → p < id

-- The kinds of the scopes that a lookup climbs out of.
pub data Climbs : Climb → ScopeKind → Type 0 where
  any_scope : {kind : ScopeKind} → Climbs always kind
  past_file : Climbs past_files file_scope
  under_global : Climbs until_module global_scope
  under_file : Climbs until_module file_scope
  under_local : Climbs until_module local_scope

-- The kinds of the scopes at which a lookup ends without climbing.
pub data Stops : Climb → ScopeKind → Type 0 where
  at_global : Stops past_files global_scope
  at_module : Stops past_files module_scope
  at_local : Stops past_files local_scope
  by_module : Stops until_module module_scope

-- What a lookup finds: the symbol of the nearest scope that has the name, as far as it climbs.
pub data Finds (climb : Climb) (scopes : List Scope) (name : StringRef)
    : ℕ → Option Symbol → Type 0 where
  no_scope : {id : ℕ} → get_elem? scopes id ≡ none → Finds climb scopes name id none
  found :
      {id : ℕ} {symbol : Symbol} (scope : Scope)
      → get_elem? scopes id ≡ some scope
      → table_lookup scope.symbols name ≡ some symbol
      → Finds climb scopes name id (some symbol)
  stopped :
      {id : ℕ} (scope : Scope)
      → get_elem? scopes id ≡ some scope
      → table_lookup scope.symbols name ≡ none
      → Stops climb scope.kind
      → Finds climb scopes name id none
  top :
      {id : ℕ} (scope : Scope)
      → get_elem? scopes id ≡ some scope
      → table_lookup scope.symbols name ≡ none
      → Climbs climb scope.kind
      → scope.parent ≡ none
      → Finds climb scopes name id none
  up :
      {id : ℕ} {r : Option Symbol} (scope : Scope) (p : ℕ)
      → get_elem? scopes id ≡ some scope
      → table_lookup scope.symbols name ≡ none
      → Climbs climb scope.kind
      → scope.parent ≡ some p
      → Finds climb scopes name p r
      → Finds climb scopes name id r

abbrev pub Looked : Climb → List Scope → StringRef → ℕ → Option (Option Symbol) → Type 0
Looked climb scopes name id none = ⊥
Looked climb scopes name id (some r) = Finds climb scopes name id r
