-- ===== src/HashMap/Tests.antt =====
-- A map from numbers to numbers, where a number is its own hash.
use gab.Prelude.{
  ℕ, ◌*◌, ◌<◌, ◌≡◌, refl, Bool, true, false, not, Option, none, some, [], ◌∷◌, arith, subst,
  if◌then◌else◌, ◌==◌,
}
use gab.HashMap.{
  empty, live, HashMap, Key, new, insert, insert_here, lookup, delete, resize, move_entry, probe,
  probe_from, move_entries, capacity,
}
use gab.HashMap.Probe.{IsKey}
use gab.HashMap.Search.{search}
use gab.HashMap.Laws.{IsValid, is_some, first_of, lookup_lem, delete_lem}
use gab.HashMap.Resize.{new_lem, resize_lem, insert_lem}

abbrev number : Key ℕ
number = record { hash = λ n. n; equals = λ m n. m == n }

number_refl : (k : ℕ) → (k == k) ≡ true
number_refl k = ground arith

number_eq : (k l : ℕ) → (k == l) ≡ true → k ≡ l
number_eq k l h = ground arith

number-IsKey : IsKey number
number-IsKey = record { equals_refl = number_refl; equals_eq = number_eq }

abbrev fresh : HashMap ℕ ℕ
fresh = record { entries = empty ∷ empty ∷ []; size = 0; occupied = 0 }

abbrev one_entry : HashMap ℕ ℕ
one_entry = record { entries = empty ∷ live 3 3 30 ∷ []; size = 1; occupied = 1 }

-- The map is half full, so it grows before 5 takes the place after 3's.
abbrev two_entries : HashMap ℕ ℕ
two_entries = record {
  entries = empty ∷ live 5 5 50 ∷ empty ∷ live 3 3 30 ∷ [];
  size = 2;
  occupied = 2;
}

abbrev grown_only : HashMap ℕ ℕ
grown_only = record { entries = empty ∷ empty ∷ empty ∷ live 3 3 30 ∷ []; size = 1; occupied = 1 }

inserted_one : insert number fresh 3 30 ≡ some (one_entry, true)
unfolding insert insert_here probe probe_from
inserted_one = refl

inserted_two : insert number one_entry 5 50 ≡ some (two_entries, true)
unfolding insert insert_here probe probe_from resize move_entries move_entry
inserted_two = refl

refused : insert number one_entry 3 40 ≡ some (grown_only, false)
unfolding insert insert_here probe probe_from resize move_entries move_entry
refused = refl

fresh-IsValid : IsValid number fresh
unfolding new
fresh-IsValid = (new_lem number number-IsKey 2 0 (omega arith)).0

same_map :
    {o : Option (HashMap ℕ ℕ × Bool)} {a b : HashMap ℕ ℕ} {p q : Bool}
    → o ≡ some (a, p)
    → o ≡ some (b, q)
    → a ≡ b
same_map e f = cc

one_entry-IsValid : IsValid number one_entry
one_entry-IsValid =
    let (after, _, ran, valid, _, _) = insert_lem number number-IsKey fresh 3 3 30 fresh-IsValid in
    subst (IsValid number) (same_map ran inserted_one) valid

new_example :
    IsValid number (new {K = ℕ} {V = ℕ} 2)
    × (search number (new {K = ℕ} {V = ℕ} 2).entries 7 ≡ none)
new_example = new_lem number number-IsKey 2 7 (omega arith)

lookup_example : lookup number one_entry 3 ≡ some (search number one_entry.entries 3)
lookup_example = lookup_lem number number-IsKey one_entry 3 one_entry-IsValid

delete_example :
    (after : HashMap ℕ ℕ) × (deleted : Bool) × (delete number one_entry 3 ≡ some (after, deleted))
    × IsValid number after
    × (search number after.entries 5 ≡ (if 3 == 5 then none else search number one_entry.entries 5))
    × (deleted ≡ is_some (search number one_entry.entries 3))
delete_example = delete_lem number number-IsKey one_entry 3 5 one_entry-IsValid

resize_example :
    (grown : HashMap ℕ ℕ) × (resize number one_entry ≡ some grown)
    × IsValid number grown
    × (grown.occupied * 2 < capacity grown)
    × ((l : ℕ) → search number grown.entries l ≡ search number one_entry.entries l)
resize_example = resize_lem number number-IsKey one_entry one_entry-IsValid

insert_example :
    (after : HashMap ℕ ℕ) × (inserted : Bool) × (insert number one_entry 5 50
      ≡ some (after, inserted))
    × IsValid number after
    × (search number after.entries 3 ≡ (
        if 5 == 3
        then first_of (search number one_entry.entries 5) (some 50)
        else search number one_entry.entries 3))
    × (is_some (search number one_entry.entries 5) ≡ not inserted)
insert_example = insert_lem number number-IsKey one_entry 5 3 50 one_entry-IsValid
