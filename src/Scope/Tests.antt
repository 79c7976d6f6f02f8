-- ===== src/Scope/Tests.antt =====
-- Two scopes, one in the other, and what is found in them.
use gab.Prelude.{◌≡◌, refl, false, none, some, List, [], ◌∷◌}
use gab.Mir.Build.{get_elem?}
use gab.Scope.{
  Scope, Symbol, var, func, module_scope, local_scope, always, table_lookup, scope_bind,
  lookup_from,
}
use gab.Scope.Bind.{Bound, scope_bind_lem}

abbrev a_var : Symbol
a_var = record { pinned = false; shape = var none }

-- A module that has name 7, and a block in it.
abbrev outer : Scope
outer = record { symbols = (7, a_var) ∷ []; parent = none; kind = module_scope }

abbrev inner : Scope
inner = record { symbols = []; parent = some 0; kind = local_scope }

abbrev scopes : List Scope
scopes = outer ∷ inner ∷ []

finds : lookup_from always 2 scopes 1 7 ≡ some (some a_var)
unfolding lookup_from table_lookup get_elem?
finds = refl

scope_bind_example : Bound scopes 1 7 (func 4) 1 7 (scope_bind scopes 1 7 (func 4))
unfolding get_elem?
scope_bind_example = scope_bind_lem scopes 1 inner 7 (func 4) 1 7 refl
