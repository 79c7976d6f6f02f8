-- ===== src/HashMap.antt =====
-- src/util/hash_map.h: the hash map that `GAB_HASH_MAP` generates, an open-addressing table with
-- linear probing and tombstones.
--
-- The macro's key type, its hash and its comparison are a `Key`. A slot of the array is one of the
-- three states; an empty slot, which the source fills with zeros, has no key. The capacity is the
-- length of the array, a power of two, so that masking with `capacity - 1` is the remainder. A pointer
-- to a slot is its index. The comparisons with `capacity * 0.5` and `capacity * 0.25` are made
-- exactly. The probe has no bound in the source: here it has fuel, and `none` means that it ran out.
pub mod Count
pub mod Insert
pub mod Laws
pub mod Place
pub mod Probe
pub mod Resize
pub mod Search
mod Tests
use gab.Prelude.{
  ℕ, zero, suc, ◌+◌, ◌-◌, ◌*◌, ◌%◌, Bool, true, false, ◌&&◌, Option, none, some, List, [], ◌∷◌,
  ◌==◌, leb, if◌then◌else◌, length, get_or, set, replicate,
}

pub data Entry {ℓ} (K V : Type ℓ) : Type ℓ where
  empty : Entry K V
  live : K → ℕ → V → Entry K V
  dead : K → ℕ → V → Entry K V

pub record HashMap {ℓ} (K V : Type ℓ) : Type ℓ where
  pub entries : List (Entry K V)
  pub size : ℕ
  pub occupied : ℕ

pub record Key {ℓ} (K : Type ℓ) : Type ℓ where
  pub hash : K → ℕ
  pub equals : K → K → Bool

abbrev pub capacity {ℓ} : {K V : Type ℓ} → HashMap K V → ℕ
capacity map = length map.entries

-- `init_alloc`.
unfoldable pub new {ℓ} : {K V : Type ℓ} → ℕ → HashMap K V
new capacity = record { entries = replicate capacity empty; size = 0; occupied = 0 }

abbrev pub entry_at {ℓ} : {K V : Type ℓ} → List (Entry K V) → ℕ → Entry K V
entry_at entries i = get_or entries i empty

abbrev pub next_index : ℕ → ℕ → ℕ
next_index capacity i = (i + 1) % capacity

-- The first tombstone seen, or else this slot.
abbrev pub or_here : Option ℕ → ℕ → ℕ
or_here (some tombstone) i = tombstone
or_here none i = i

infixl 5 ◌>>=◌
abbrev pub ◌>>=◌ {ℓ} : {A B : Type ℓ} → Option A → (A → Option B) → Option B
none >>= f = none
some x >>= f = f x

module _ {ℓ} {K V : Type ℓ} (key : Key K) where
  -- One turn of the loop: what follows the slot, without a tombstone and with the slot as one.
  abbrev pub probe_step : Entry K V → ℕ → Option ℕ → K → ℕ → Option ℕ → Option ℕ → Option ℕ
  probe_step empty i tombstone k h past past_dead = some (or_here tombstone i)
  probe_step (dead _ _ _) i tombstone k h past past_dead = past_dead
  probe_step (live other hash _) i tombstone k h past past_dead =
      if (hash == h) && key.equals k other then some i else past

  pub probe_from : ℕ → List (Entry K V) → ℕ → Option ℕ → K → ℕ → Option ℕ
  probe_from zero entries i tombstone k h = none
  probe_from (suc fuel) entries i tombstone k h =
      let past = probe_from fuel entries (next_index (length entries) i) tombstone k h in
      let past_dead =
        probe_from fuel entries (next_index (length entries) i) (some (or_here tombstone i)) k h in
      probe_step (entry_at entries i) i tombstone k h past past_dead

  -- `probe`. As many turns as there are slots.
  unfoldable pub probe : List (Entry K V) → K → ℕ → Option ℕ
  unfolding probe_from
  probe entries k h = probe_from (length entries) entries (h % length entries) none k h

  -- The body of the loop of `resize`.
  abbrev pub written : List (Entry K V) → Entry K V → Option ℕ → Option (List (Entry K V))
  written fresh e none = none
  written fresh e (some i) = some (set fresh i e)

  unfoldable pub move_entry : List (Entry K V) → Entry K V → Option (List (Entry K V))
  unfolding probe
  move_entry fresh (live k h v) = written fresh (live k h v) (probe fresh k h)
  move_entry fresh empty = some fresh
  move_entry fresh (dead _ _ _) = some fresh

  pub move_entries : List (Entry K V) → List (Entry K V) → Option (List (Entry K V))
  move_entries fresh [] = some fresh
  move_entries fresh (e ∷ es) = move_entry fresh e >>= λ moved. move_entries moved es

  abbrev pub resized : ℕ → Option (List (Entry K V)) → Option (HashMap K V)
  resized size none = none
  resized size (some fresh) = some (record { entries = fresh; size = size; occupied = size })

  -- `resize`.
  unfoldable pub resize : HashMap K V → Option (HashMap K V)
  unfolding move_entries
  resize map =
      let n = if leb (capacity map) (map.size * 4) then capacity map * 2 else capacity map in
      resized map.size (move_entries (replicate n empty) map.entries)

  -- The slot that `insert` found: a live one refuses the insertion.
  abbrev pub fill_slot : HashMap K V → K → V → ℕ → Entry K V → HashMap K V × Bool
  fill_slot map k v i (live _ _ _) = (map, false)
  fill_slot map k v i empty = (
    record {
      entries = set map.entries i (live k (key.hash k) v);
      size = map.size + 1;
      occupied = map.occupied + 1;
    },
    true,
  )
  fill_slot map k v i (dead _ _ _) = (
    record {
      entries = set map.entries i (live k (key.hash k) v);
      size = map.size + 1;
      occupied = map.occupied;
    },
    true,
  )

  abbrev pub insert_at : HashMap K V → K → V → Option ℕ → Option (HashMap K V × Bool)
  insert_at map k v none = none
  insert_at map k v (some i) = some (fill_slot map k v i (entry_at map.entries i))

  unfoldable pub insert_here : HashMap K V → K → V → Option (HashMap K V × Bool)
  unfolding probe
  insert_here map k v = insert_at map k v (probe map.entries k (key.hash k))

  -- `insert`, with whether it inserted.
  unfoldable pub insert : HashMap K V → K → V → Option (HashMap K V × Bool)
  unfolding resize insert_here
  insert map k v =
      if leb (capacity map) (map.occupied * 2)
      then (resize map >>= λ grown. insert_here grown k v)
      else insert_here map k v

  abbrev pub value_of : Entry K V → Option V
  value_of (live _ _ v) = some v
  value_of empty = none
  value_of (dead _ _ _) = none

  abbrev pub lookup_at : HashMap K V → Option ℕ → Option (Option V)
  lookup_at map none = none
  lookup_at map (some i) = some (value_of (entry_at map.entries i))

  -- `lookup`.
  unfoldable pub lookup : HashMap K V → K → Option (Option V)
  unfolding probe
  lookup map k = lookup_at map (probe map.entries k (key.hash k))

  abbrev pub clear_slot : HashMap K V → ℕ → Entry K V → HashMap K V × Bool
  clear_slot map i (live k h v) =
      (record map { entries = set map.entries i (dead k h v); size = map.size - 1 }, true)
  clear_slot map i empty = (map, false)
  clear_slot map i (dead _ _ _) = (map, false)

  abbrev pub delete_at : HashMap K V → Option ℕ → Option (HashMap K V × Bool)
  delete_at map none = none
  delete_at map (some i) = some (clear_slot map i (entry_at map.entries i))

  -- `delete`, with whether it deleted.
  unfoldable pub delete : HashMap K V → K → Option (HashMap K V × Bool)
  unfolding probe
  delete map k =
      if map.size == 0 then some (map, false) else delete_at map (probe map.entries k (key.hash k))
