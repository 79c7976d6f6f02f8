-- ===== src/HashMap/Insert.antt =====
-- An insertion that finds room: the key takes the slot that the probe ends at, unless it is there.
use gab.Prelude.{
  ℕ, ◌+◌, ◌*◌, ◌%◌, ◌<◌, ◌≤◌, ◌≡◌, refl, inl, inr, Bool, true, false, Option, none, some, List,
  arith, Bool-cases, sym, ◌∙◌, ap, subst, if◌then◌else◌, not, length, set, length-set,
}
use gab.HashMap.{
  Entry, empty, live, dead, HashMap, Key, entry_at, capacity, fill_slot, insert_here, insert_at,
  probe,
}
use gab.HashMap.Probe.{IsKey, IsFree, IsTable}
use gab.HashMap.Probe
use gab.HashMap.Count.{count, full_weight, live_weight, count-set, gap}
use gab.HashMap.Place
use gab.HashMap.Search.{search, HasNone, search-cases, search-place}
use gab.HashMap.Laws.{IsValid, is_some, first_of, hashed_entry}

module _ {ℓ} {K V : Type ℓ} (key : Key K) (laws : IsKey key) where
  still_there :
      (es : List (Entry K V)) (k l : K) (w v : V)
      → search key es k ≡ some w
      → search key es l
        ≡ (if key.equals k l then first_of (search key es k) (some v) else search key es l)
  still_there es k l w v s = elim (Bool-cases (key.equals k l)) [
    | inl e ↦ rw (e, s) (ap (search key es) (sym (laws.equals_eq k l e)) ∙ s)
    | inr ne ↦ rw ne refl
  ]

  fill_told :
      (map : HashMap K V) (k : K) (v : V) (r : ℕ) (e : Entry K V)
      → IsFree e
      → fill_slot key map k v r e ≡ ((fill_slot key map k v r e).0, true)
  fill_told map k v r empty f = refl
  fill_told map k v r (dead _ _ _) f = refl
  fill_told map k v r (live _ _ _) f = absurd f

  fill_entries :
      (map : HashMap K V) (k : K) (v : V) (r : ℕ) (e : Entry K V)
      → IsFree e
      → ((fill_slot key map k v r e).0.entries ≡ set map.entries r (live k (key.hash k) v))
        × ((fill_slot key map k v r e).0.size + live_weight e ≡ map.size + 1)
        × ((fill_slot key map k v r e).0.occupied + full_weight e ≡ map.occupied + 1)
  fill_entries map k v r empty f = (refl, omega arith, omega arith)
  fill_entries map k v r (dead _ _ _) f = (refl, omega arith, omega arith)
  fill_entries map k v r (live _ _ _) f = absurd f

  IsValid-parts :
      (map : HashMap K V) (es : List (Entry K V))
      → map.entries ≡ es
      → IsTable key es
      → map.size ≡ count live_weight es
      → map.occupied ≡ count full_weight es
      → map.occupied * 2 ≤ length es + 1
      → 2 ≤ length es
      → IsValid key map
  IsValid-parts map es e table size occupied half wide = record {
    table = subst (IsTable key) (sym e) table;
    size = size ∙ ap (count live_weight) (sym e);
    occupied = occupied ∙ ap (count full_weight) (sym e);
    half = rw e half;
    wide = rw e wide;
  }

  -- Filling a slot that the key can take, in a map with room, gives a valid map.
  filled-IsValid :
      (map : HashMap K V) (k : K) (v : V) (r : ℕ) (valid : IsValid key map)
      → map.occupied * 2 < capacity map
      → (others : HasNone key laws map.entries k)
      → Probe.Spot key laws map.entries valid.table (key.hash k % capacity map) r
      → IsValid key (fill_slot key map k v r (entry_at map.entries r)).0
  filled-IsValid map k v r valid room others spot =
      let es = map.entries in
      let new : Entry K V = live k (key.hash k) v in
      let same = length-set es r new in
      let lives = count-set live_weight es r new spot.below in
      let fulls = count-set full_weight es r new spot.below in
      let (entries, size, occupied) = fill_entries map k v r (entry_at es r) spot.free in
      let (e, lt, free) =
        gap (set es r new) (omega (arith, same, fulls, valid.occupied, room, valid.wide)) in
      IsValid-parts (fill_slot key map k v r (entry_at es r)).0 (set es r new) entries
        (Place.place-IsTable key laws es valid.table k (key.hash k) v r refl others spot
          (e, omega (arith, same, lt), free))
        (omega (arith, size, lives, valid.size)) (omega (arith, occupied, fulls, valid.occupied))
        (omega (arith, occupied, same, room)) (omega (arith, same, valid.wide))

  filled_search :
      (map : HashMap K V) (k l : K) (v : V) (r : ℕ) (valid : IsValid key map)
      → IsValid key (fill_slot key map k v r (entry_at map.entries r)).0
      → search key map.entries k ≡ none
      → Probe.Spot key laws map.entries valid.table (key.hash k % capacity map) r
      → search key (fill_slot key map k v r (entry_at map.entries r)).0.entries l ≡ (
          if key.equals k l
          then first_of (search key map.entries k) (some v)
          else search key map.entries l)
  filled_search map k l v r valid filled s spot =
      let es = map.entries in
      let entries = (fill_entries map k v r (entry_at es r) spot.free).0 in
      ap (λ (fs : List (Entry K V)). search key fs l) entries
      ∙ search-place key laws es r k l (key.hash k) v (subst (IsTable key) entries filled.table)
          valid.table spot.below spot.free
      ∙ ap (λ (o : Option V). if key.equals k l then first_of o (some v) else search key es l)
          (sym s)

  -- An insertion that finds room.
  pub insert_here_lem :
      (map : HashMap K V) (k l : K) (v : V)
      → IsValid key map
      → map.occupied * 2 < capacity map
      → (after : HashMap K V) × (inserted : Bool) × (insert_here key map k v
          ≡ some (after, inserted))
        × IsValid key after
        × (search key after.entries l ≡ (
            if key.equals k l
            then first_of (search key map.entries k) (some v)
            else search key map.entries l))
        × (is_some (search key map.entries k) ≡ not inserted)
  unfolding insert_here probe
  insert_here_lem map k l v valid room = elim (search-cases key laws map.entries k) [
    | inl (i, h, w, at, s) ↦
        let here = hashed_entry key laws map.entries valid.table i k h w at in
        (
          map,
          false,
          ap (insert_at key map k v) (Probe.probe-found key laws map.entries valid.table i k w here)
              ∙ ap (λ (e : Entry K V). some (fill_slot key map k v i e)) at,
          valid,
          still_there map.entries k l w v s,
          ap is_some s,
        )
    | inr (others, s) ↦
        let (r, p, spot) =
          Probe.probe-absent key laws map.entries valid.table k (key.hash k) others in
        let filled = filled-IsValid map k v r valid room others spot in
        (
          (fill_slot key map k v r (entry_at map.entries r)).0,
          true,
          ap (insert_at key map k v) p
              ∙ ap some (fill_told map k v r (entry_at map.entries r) spot.free),
          filled,
          filled_search map k l v r valid filled s spot,
          ap is_some s,
        )
  ]
