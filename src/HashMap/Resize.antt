-- ===== src/HashMap/Resize.antt =====
-- Moving the live entries into a fresh array, and the whole of `insert`.
use gab.Prelude.{
  ℕ, suc, ◌+◌, ◌*◌, ◌<◌, ◌≤◌, ◌≡◌, refl, inl, inr, Bool, true, false, Option, none, some, List, [],
  ◌∷◌, arith, Bool-cases, sym, ◌∙◌, ap, if◌then◌else◌, leb, not, length, set, length-set, replicate,
  length-replicate, get_or-replicate, get_or-set,
}
use gab.HashMap.{
  Entry, empty, live, dead, HashMap, Key, new, entry_at, capacity, insert_here, insert, move_entry,
  move_entries, written, resize, resized, probe, ◌>>=◌,
}
use gab.HashMap.Probe.{IsKey, IsFree, IsTable}
use gab.HashMap.Probe
use gab.HashMap.Count.{
  count, full_weight, live_weight, count-set, count-replicate, live-le-full, gap, clean_slot,
}
use gab.HashMap.Place
use gab.HashMap.Place.{same_key, dead_not_live}
use gab.HashMap.Search.{search, holds_key, HasNone, search-absent, search-place, equals_sym}
use gab.HashMap.Laws.{IsValid, is_some, first_of}
use gab.HashMap.Insert.{insert_here_lem}

abbrev new_capacity : ℕ → ℕ → ℕ
new_capacity size capacity = if leb capacity (size * 4) then capacity * 2 else capacity

new_capacity_lem :
    (size capacity : ℕ)
    → size * 2 ≤ capacity + 1
    → 2 ≤ capacity
    → (size * 2 < new_capacity size capacity) × (2 ≤ new_capacity size capacity)
new_capacity_lem size capacity h wide = ground arith

has_room : (n m : ℕ) → leb n m ≡ false → m < n
has_room n m h = ground arith

module _ {ℓ} {K V : Type ℓ} (key : Key K) (laws : IsKey key) where
  -- The live entries hold different keys, under their hashes.
  abbrev pub IsDistinct : List (Entry K V) → Type ℓ
  IsDistinct [] = Unit
  IsDistinct (e ∷ es) =
      ((k : K) (h : ℕ) (v : V) → e ≡ live k h v → (h ≡ key.hash k) × HasNone key laws es k)
      × IsDistinct es

  distinct :
      (es : List (Entry K V))
      → ((i : ℕ) (k : K) (h : ℕ) (v : V) → entry_at es i ≡ live k h v → h ≡ key.hash k)
      → ((i j : ℕ) (k : K) (g h : ℕ) (v w : V)
          → entry_at es i ≡ live k g v
          → entry_at es j ≡ live k h w
          → i ≡ j)
      → IsDistinct es
  distinct [] hashed unique = tt
  distinct (e ∷ es) hashed unique = (
    λ k h v at. (
      hashed 0 k h v at,
      λ i g w there. absurd (ground (arith, unique 0 (suc i) k h g v w at there)),
    ),
    distinct es (λ i. hashed (suc i))
        (λ i j k g h v w at there. omega (arith, unique (suc i) (suc j) k g h v w at there)),
  )

  -- What moving the entries into a fresh table gives.
  pub record Moved (fresh es moved : List (Entry K V)) : Type ℓ where
    pub table : IsTable key moved
    pub same_length : length moved ≡ length fresh
    pub clean : count full_weight moved ≡ count live_weight moved
    pub lives : count live_weight moved ≡ count live_weight fresh + count live_weight es
    pub view : (l : K) → search key moved l ≡ first_of (search key es l) (search key fresh l)

  -- The first entry has no say.
  Moved-skip :
      (fresh es moved : List (Entry K V)) (e : Entry K V)
      → live_weight e ≡ 0
      → ((l : K) → holds_key key e l ≡ false)
      → Moved fresh es moved
      → Moved fresh (e ∷ es) moved
  unfolding search
  Moved-skip fresh es moved e light other m = record {
    table = m.table;
    same_length = m.same_length;
    clean = m.clean;
    lives = omega (arith, m.lives, light);
    view = λ l. rw (other l) (m.view l);
  }

  first_of_test :
      (b : Bool) (rest old : Option V) (v : V)
      → (b ≡ true → rest ≡ none)
      → first_of rest (if b then some v else old) ≡ first_of (if b then some v else rest) old
  first_of_test true rest old v h = rw (h refl) refl
  first_of_test false rest old v h = refl

  free_light : (e : Entry K V) → IsFree e → live_weight e ≡ 0
  free_light empty f = refl
  free_light (dead _ _ _) f = refl
  free_light (live _ _ _) f = absurd f

  -- Moving an entry for a new key and then the others.
  Moved-live :
      (fresh es moved : List (Entry K V)) (r : ℕ) (k : K) (h : ℕ) (v : V)
      → IsTable key fresh
      → IsTable key (set fresh r (live k h v))
      → r < length fresh
      → IsFree (entry_at fresh r)
      → HasNone key laws es k
      → Moved (set fresh r (live k h v)) es moved
      → Moved fresh (live k h v ∷ es) moved
  unfolding search
  Moved-live fresh es moved r k h v table placed below free others m =
      let added = count-set live_weight fresh r (live k h v) below in
      record {
        table = m.table;
        same_length = m.same_length ∙ length-set fresh r (live k h v);
        clean = m.clean;
        lives = omega (arith, m.lives, added, free_light (entry_at fresh r) free);
        view = λ l.
            m.view l
            ∙ ap (first_of (search key es l)) (
                search-place key laws fresh r k l h v placed table below free
                ∙ ap (λ (b : Bool). if b then some v else search key fresh l)
                    (equals_sym key laws k l))
            ∙ first_of_test (key.equals l k) (search key es l) (search key fresh l) v (λ e.
              ap (search key es) (laws.equals_eq l k e) ∙ search-absent key laws es k others);
      }

  still_new :
      (fresh es : List (Entry K V)) (r : ℕ) (k : K) (h : ℕ) (v : V)
      → HasNone key laws es k
      → ((i : ℕ) (l : K) (g : ℕ) (w : V) → entry_at es i ≡ live l g w → HasNone key laws fresh l)
      → (i : ℕ) (l : K) (g : ℕ) (w : V) → entry_at es i ≡ live l g w
      → HasNone key laws (set fresh r (live k h v)) l
  still_new fresh es r k h v others new i l g w at j x y there =
      elim (get_or-set fresh r j (live k h v) empty) [
        | inl (_, here) ↦ others i g w (at ∙ ap (λ (z : K). live z g w) (sym (same_key here there)))
        | inr old ↦ new i l g w at j x y (sym old ∙ there)
      ]

  -- Moving entries with different keys into a table that has none of them and no tombstones.
  pub move_entries_lem :
      (fresh es : List (Entry K V))
      → IsTable key fresh
      → IsDistinct es
      → ((i : ℕ) (k : K) (h : ℕ) (v : V) → entry_at es i ≡ live k h v → HasNone key laws fresh k)
      → count full_weight fresh ≡ count live_weight fresh
      → count live_weight fresh + count live_weight es < length fresh
      → (moved : List (Entry K V)) × (move_entries key fresh es ≡ some moved) × Moved fresh es moved
  unfolding move_entries move_entry probe search
  move_entries_lem fresh [] table d new clean room = (
    fresh,
    refl,
    record {
      table = table;
      same_length = refl;
      clean = clean;
      lives = omega arith;
      view = λ l. refl;
    },
  )
  move_entries_lem fresh (empty ∷ es) table d new clean room =
      let (moved, p, m) =
        move_entries_lem fresh es table d.1 (λ i. new (suc i)) clean (omega (arith, room)) in
      (moved, p, Moved-skip fresh es moved empty refl (λ l. refl) m)
  move_entries_lem fresh (dead k h v ∷ es) table d new clean room =
      let (moved, p, m) =
        move_entries_lem fresh es table d.1 (λ i. new (suc i)) clean (omega (arith, room)) in
      (moved, p, Moved-skip fresh es moved (dead k h v) refl (λ l. refl) m)
  move_entries_lem fresh (live k h v ∷ es) table d new clean room =
      let (hh, others) = d.0 k h v refl in
      let (r, p, spot) = Probe.probe-absent key laws fresh table k h (new 0 k h v refl) in
      let e : Entry K V = live k h v in
      let fulls = count-set full_weight fresh r e spot.below in
      let lives = count-set live_weight fresh r e spot.below in
      let bare = clean_slot fresh r clean in
      let light = free_light (entry_at fresh r) spot.free in
      let same = length-set fresh r e in
      let (g, lt, at) =
        gap (set fresh r e) (omega (arith, fulls, bare, light, same, clean, room)) in
      let placed =
        Place.place-IsTable key laws fresh table k h v r hh (new 0 k h v refl) spot
          (g, omega (arith, same, lt), at) in
      let (moved, q, m) =
        move_entries_lem (set fresh r e) es placed d.1
          (still_new fresh es r k h v others (λ i. new (suc i)))
          (omega (arith, fulls, lives, bare, clean)) (omega (arith, lives, light, same, room)) in
      (
        moved,
        ap (λ (o : Option ℕ). written key fresh e o >>= λ fs. move_entries key fs es) p ∙ q,
        Moved-live fresh es moved r k h v table placed spot.below spot.free others m,
      )

  abbrev no_entry : Entry K V
  no_entry = empty

  abbrev blank : ℕ → List (Entry K V)
  blank n = replicate n no_entry

  empty-IsTable : (n : ℕ) → 0 < n → IsTable key (blank n)
  empty-IsTable n some_slot = record {
    hashed = λ i k h v at. absurd (cc (sym (get_or-replicate n no_entry i) ∙ at));
    reached = λ i k h v at. absurd (cc (sym (get_or-replicate n no_entry i) ∙ at));
    unique = λ i j k g h v w at there. absurd (cc (sym (get_or-replicate n no_entry i) ∙ at));
    room =
        (0, omega (arith, some_slot, length-replicate n no_entry), get_or-replicate n no_entry 0);
  }

  empty_new : (n : ℕ) (k : K) → HasNone key laws (blank n) k
  empty_new n k i h v at = cc (sym (get_or-replicate n no_entry i) ∙ at)

  -- A new map with at least two slots is valid, and finds nothing.
  pub new_lem :
      (n : ℕ) (k : K)
      → 2 ≤ n
      → IsValid key (new {K = K} {V = V} n) × (search key (new {K = K} {V = V} n).entries k ≡ none)
  unfolding new
  new_lem n k wide =
      let len = length-replicate n no_entry in
      (
        record {
          table = empty-IsTable n (omega (arith, wide));
          size = sym (count-replicate {K = K} {V = V} live_weight n refl);
          occupied = sym (count-replicate {K = K} {V = V} full_weight n refl);
          half = omega arith;
          wide = omega (arith, len, wide);
        },
        search-absent key laws (blank n) k (empty_new n k),
      )

  first_of-none : (o : Option V) → first_of o none ≡ o
  first_of-none none = refl
  first_of-none (some v) = refl

  -- Resizing a valid map ends with a valid map that has room, and that finds the same.
  pub resize_lem :
      (map : HashMap K V)
      → IsValid key map
      → (grown : HashMap K V) × (resize key map ≡ some grown)
        × IsValid key grown
        × (grown.occupied * 2 < capacity grown)
        × ((l : K) → search key grown.entries l ≡ search key map.entries l)
  unfolding resize
  resize_lem map valid =
      let n = new_capacity map.size (capacity map) in
      let few = live-le-full map.entries in
      let (small, wide) =
        new_capacity_lem map.size (capacity map)
          (omega (arith, few, valid.size, valid.occupied, valid.half)) valid.wide in
      let len = length-replicate n no_entry in
      let fulls = count-replicate {K = K} {V = V} full_weight n refl in
      let lives = count-replicate {K = K} {V = V} live_weight n refl in
      let (moved, p, m) =
        move_entries_lem (blank n) map.entries (empty-IsTable n (omega (arith, wide)))
          (distinct map.entries valid.table.hashed valid.table.unique) (λ i k h v at. empty_new n k)
          (fulls ∙ sym lives) (omega (arith, lives, len, valid.size, small, wide)) in
      (
        record { entries = moved; size = map.size; occupied = map.size },
        ap (resized key map.size) p,
        record {
          table = m.table;
          size = omega (arith, m.lives, lives, valid.size);
          occupied = omega (arith, m.clean, m.lives, lives, valid.size);
          half = omega (arith, m.same_length, len, small);
          wide = omega (arith, m.same_length, len, wide);
        },
        omega (arith, m.same_length, len, small),
        λ l.
            m.view l
            ∙ ap (first_of (search key map.entries l))
                (search-absent key laws (blank n) l (empty_new n l))
            ∙ first_of-none (search key map.entries l),
      )

  -- In a valid map, `insert` ends with a valid map where the key is found with the value it had, or
  -- else with the new one, every other key gives what it gave, and tells whether the key was new.
  pub insert_lem :
      (map : HashMap K V) (k l : K) (v : V)
      → IsValid key map
      → (after : HashMap K V) × (inserted : Bool) × (insert key map k v ≡ some (after, inserted))
        × IsValid key after
        × (search key after.entries l ≡ (
            if key.equals k l
            then first_of (search key map.entries k) (some v)
            else search key map.entries l))
        × (is_some (search key map.entries k) ≡ not inserted)
  unfolding insert
  insert_lem map k l v valid = elim (Bool-cases (leb (capacity map) (map.occupied * 2))) [
    | inl crowded ↦
        let (grown, p, sound, room, view) = resize_lem map valid in
        let (after, inserted, q, valid', found, told) =
          insert_here_lem key laws grown k l v sound room in
        (
          after,
          inserted,
          rw crowded (ap (λ (o : Option (HashMap K V)). o >>= λ g. insert_here key g k v) p ∙ q),
          valid',
          found ∙ (λ i. if key.equals k l then first_of (view k i) (some v) else view l i),
          ap is_some (sym (view k)) ∙ told,
        )
    | inr fits ↦
        let (after, inserted, q, valid', found, told) =
          insert_here_lem key laws map k l v valid
            (has_room (capacity map) (map.occupied * 2) fits) in
        (after, inserted, rw fits q, valid', found, told)
  ]
