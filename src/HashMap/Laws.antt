-- ===== src/HashMap/Laws.antt =====
-- What `lookup`, `delete` and an insertion that has room do, measured by a search of the array.
use gab.Prelude.{
  ℕ, ◌+◌, ◌-◌, ◌*◌, ◌<◌, ◌≤◌, ◌≡◌, refl, inl, inr, Bool, true, false, Option, none, some, List,
  arith, Bool-cases, sym, ◌∙◌, ap, if◌then◌else◌, ◌==◌, set, length-set,
}
use gab.HashMap.{
  Entry, empty, live, dead, HashMap, Key, entry_at, capacity, value_of, lookup, lookup_at, delete,
  delete_at, clear_slot, probe,
}
use gab.HashMap.Probe.{IsKey, IsFree, IsTable}
use gab.HashMap.Probe
use gab.HashMap.Count.{count, full_weight, live_weight, count-set, gap, none_live, live_below}
use gab.HashMap.Place
use gab.HashMap.Search.{search, search-cases, search-clear}

module _ {ℓ} {K V : Type ℓ} (key : Key K) where
  -- The map's counters are right, half of the slots, rounded up, are in use at most, and there are two
  -- slots.
  pub record IsValid (map : HashMap K V) : Type ℓ where
    pub table : IsTable key map.entries
    pub size : map.size ≡ count live_weight map.entries
    pub occupied : map.occupied ≡ count full_weight map.entries
    pub half : map.occupied * 2 ≤ capacity map + 1
    pub wide : 2 ≤ capacity map

  free_value : (e : Entry K V) → IsFree e → value_of key e ≡ none
  free_value empty f = refl
  free_value (dead _ _ _) f = refl
  free_value (live _ _ _) f = absurd f

abbrev pub is_some {ℓ} : {A : Type ℓ} → Option A → Bool
is_some none = false
is_some (some _) = true

-- The first value, or else the second.
abbrev pub first_of {ℓ} : {A : Type ℓ} → Option A → Option A → Option A
first_of none second = second
first_of (some v) second = some v

not_zero : (n : ℕ) → 0 < n → (n == 0) ≡ false
not_zero n h = ground arith

module _ {ℓ} {K V : Type ℓ} (key : Key K) (laws : IsKey key) where
  pub hashed_entry :
      (es : List (Entry K V)) (table : IsTable key es) (i : ℕ) (k : K) (h : ℕ) (v : V)
      → entry_at es i ≡ live k h v
      → entry_at es i ≡ live k (key.hash k) v
  hashed_entry es table i k h v at = at ∙ ap (λ (g : ℕ). live k g v) (table.hashed i k h v at)

  -- In a valid map, `lookup` ends, with what a search of the whole array for the key finds.
  pub lookup_lem :
      (map : HashMap K V) (k : K)
      → IsValid key map
      → lookup key map k ≡ some (search key map.entries k)
  unfolding lookup probe
  lookup_lem map k valid = elim (search-cases key laws map.entries k) [
    | inl (i, h, v, at, s) ↦
        let here = hashed_entry map.entries valid.table i k h v at in
        ap (lookup_at key map) (Probe.probe-found key laws map.entries valid.table i k v here)
        ∙ ap (λ (e : Entry K V). some (value_of key e)) here
        ∙ ap some (sym s)
    | inr (others, s) ↦
        let (r, p, spot) =
          Probe.probe-absent key laws map.entries valid.table k (key.hash k) others in
        ap (lookup_at key map) p
        ∙ ap some (free_value key (entry_at map.entries r) spot.free ∙ sym s)
  ]

  abbrev cleared_map : HashMap K V → ℕ → K → ℕ → V → HashMap K V
  cleared_map map i k h v = record map {
    entries = set map.entries i (dead k h v);
    size = map.size - 1;
  }

  cleared-IsValid :
      (map : HashMap K V) (i : ℕ) (k : K) (h : ℕ) (v : V)
      → IsValid key map
      → entry_at map.entries i ≡ live k h v
      → IsValid key (cleared_map map i k h v)
  cleared-IsValid map i k h v valid at =
      let es = map.entries in
      let tomb : Entry K V = dead k h v in
      let below = live_below es i k h v at in
      let same = length-set es i tomb in
      let lives = count-set live_weight es i tomb below in
      let fulls = count-set full_weight es i tomb below in
      let was_live : live_weight (entry_at es i) ≡ 1 = ap live_weight at in
      let was_full : full_weight (entry_at es i) ≡ 1 = ap full_weight at in
      let (e, lt, free) =
        gap (set es i tomb)
          (omega (arith, same, fulls, was_full, valid.occupied, valid.half, valid.wide)) in
      record {
        table =
            Place.clear-IsTable key laws es valid.table k h v i (e, omega (arith, same, lt), free);
        size = omega (arith, lives, was_live, valid.size);
        occupied = omega (arith, fulls, was_full, valid.occupied);
        half = omega (arith, same, valid.half);
        wide = omega (arith, same, valid.wide);
      }

  clear_free :
      (map : HashMap K V) (i : ℕ) (e : Entry K V) → IsFree e → clear_slot key map i e ≡ (map, false)
  clear_free map i empty f = refl
  clear_free map i (dead _ _ _) f = refl
  clear_free map i (live _ _ _) f = absurd f

  nothing_deleted :
      (map : HashMap K V) (found : Option ℕ) (r : ℕ)
      → found ≡ some r
      → IsFree (entry_at map.entries r)
      → (if map.size == 0 then some (map, false) else delete_at key map found) ≡ some (map, false)
  nothing_deleted map found r p free = elim (Bool-cases (map.size == 0)) [
    | inl zero_size ↦ rw zero_size refl
    | inr more ↦
        rw more
          (ap (delete_at key map) p ∙ ap some (clear_free map r (entry_at map.entries r) free))
  ]

  still_absent :
      (es : List (Entry K V)) (k l : K)
      → search key es k ≡ none
      → search key es l ≡ (if key.equals k l then none else search key es l)
  still_absent es k l s = elim (Bool-cases (key.equals k l)) [
    | inl e ↦ rw e (ap (search key es) (sym (laws.equals_eq k l e)) ∙ s)
    | inr ne ↦ rw ne refl
  ]

  -- In a valid map, `delete` ends with a valid map where the key is not found, every other key gives
  -- what it gave, and tells whether the key was there.
  pub delete_lem :
      (map : HashMap K V) (k l : K)
      → IsValid key map
      → (after : HashMap K V) × (deleted : Bool) × (delete key map k ≡ some (after, deleted))
        × IsValid key after
        × (search key after.entries l ≡ (if key.equals k l then none else search key map.entries l))
        × (deleted ≡ is_some (search key map.entries k))
  unfolding delete probe
  delete_lem map k l valid = elim (search-cases key laws map.entries k) [
    | inl (i, h, v, at, s) ↦
        let es = map.entries in
        let here = hashed_entry es valid.table i k h v at in
        let cleared = cleared-IsValid map i k h v valid at in
        (
          cleared_map map i k h v,
          true,
          rw (not_zero map.size (omega (arith, valid.size, none_live es i k h v at))) (
              ap (delete_at key map) (Probe.probe-found key laws es valid.table i k v here)
              ∙ ap (λ (e : Entry K V). some (clear_slot key map i e)) at),
          cleared,
          search-clear key laws es i k l h v cleared.table valid.table (live_below es i k h v at)
              at,
          ap is_some (sym s),
        )
    | inr (others, s) ↦
        let (r, p, spot) =
          Probe.probe-absent key laws map.entries valid.table k (key.hash k) others in
        (
          map,
          false,
          nothing_deleted map (probe key map.entries k (key.hash k)) r p spot.free,
          valid,
          still_absent map.entries k l s,
          ap is_some (sym s),
        )
  ]
