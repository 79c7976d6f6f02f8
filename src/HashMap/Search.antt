-- ===== src/HashMap/Search.antt =====
-- A search of the whole array, as the view that the operations of the map are measured by.
use gab.Prelude.{
  ℕ, zero, suc, ◌<◌, ◌≡◌, ◌≢◌, refl, ◌⊎◌, inl, inr, Bool, false, Option, none, some, List, [], ◌∷◌,
  Bool-cases, sym, ◌∙◌, ap, if◌then◌else◌, length, set, get_or-set, get_or-set_self,
}
use gab.HashMap.{Entry, empty, live, dead, Key, entry_at, value_of}
use gab.HashMap.Probe.{IsKey, IsFree, IsTable}
use gab.HashMap.Place.{same_key, same_value, dead_not_live}

module _ {ℓ} {K V : Type ℓ} (key : Key K) where
  abbrev pub holds_key : Entry K V → K → Bool
  holds_key (live l _ _) k = key.equals k l
  holds_key empty k = false
  holds_key (dead _ _ _) k = false

  -- The value of the first live entry with the key.
  unfoldable pub search : List (Entry K V) → K → Option V
  search [] k = none
  search (e ∷ es) k = if holds_key e k then value_of key e else search es k

pub differs {ℓ} :
    {K : Type ℓ} (key : Key K) → IsKey key → (k l : K) → key.equals k l ≡ false → k ≢ l
differs key laws k l ne e = absurd (cc (sym (laws.equals_refl k) ∙ ap (key.equals k) e ∙ ne))

pub equals_sym {ℓ} :
    {K : Type ℓ} (key : Key K) → IsKey key → (k l : K) → key.equals k l ≡ key.equals l k
equals_sym key laws k l = elim (Bool-cases (key.equals k l)) [
  | inl e ↦ e ∙ sym (laws.equals_refl k) ∙ ap (λ x. key.equals x k) (laws.equals_eq k l e)
  | inr ne ↦ elim (Bool-cases (key.equals l k)) [
    | inl e ↦ absurd (differs key laws k l ne (sym (laws.equals_eq l k e)))
    | inr ne' ↦ ne ∙ sym ne'
  ]
]

module _ {ℓ} {K V : Type ℓ} (key : Key K) (laws : IsKey key) where
  abbrev pub HasNone : List (Entry K V) → K → Type ℓ
  HasNone es k = (i : ℕ) (h : ℕ) (v : V) → entry_at es i ≢ live k h v

  HasNone-cons :
      (e : Entry K V) (es : List (Entry K V)) (k : K)
      → ((h : ℕ) (v : V) → e ≢ live k h v)
      → HasNone es k
      → HasNone (e ∷ es) k
  HasNone-cons e es k here others zero h v at = here h v at
  HasNone-cons e es k here others (suc i) h v at = others i h v at

  -- Either the search finds a live entry with the key, or there is none.
  pub search-cases :
      (es : List (Entry K V)) (k : K)
      → ((i : ℕ) × (h : ℕ) × (v : V) × (entry_at es i ≡ live k h v) × (search key es k ≡ some v))
        ⊎ HasNone es k × (search key es k ≡ none)
  unfolding search
  search-cases [] k = inr ((λ i h v at. absurd (cc at)), refl)
  search-cases (empty ∷ es) k = elim (search-cases es k) [
    | inl (i, h, v, at, s) ↦ inl (suc i, h, v, at, s)
    | inr (others, s) ↦ inr (HasNone-cons empty es k (λ h v at. absurd (cc at)) others, s)
  ]
  search-cases (dead l g w ∷ es) k = elim (search-cases es k) [
    | inl (i, h, v, at, s) ↦ inl (suc i, h, v, at, s)
    | inr (others, s) ↦
        inr (HasNone-cons (dead l g w) es k (λ h v at. dead_not_live refl at) others, s)
  ]
  search-cases (live l g w ∷ es) k = elim (Bool-cases (key.equals k l)) [
    | inl e ↦ inl (0, g, w, ap (λ (x : K). live x g w) (sym (laws.equals_eq k l e)), rw e refl)
    | inr ne ↦ elim (search-cases es k) [
      | inl (i, h, v, at, s) ↦ inl (suc i, h, v, at, rw ne s)
      | inr (others, s) ↦ inr (
        HasNone-cons (live l g w) es k (λ h v at. differs key laws k l ne (sym (same_key refl at)))
            others,
        rw ne s,
      )
    ]
  ]

  -- In a table, the search finds what any live entry with the key holds.
  pub search-found :
      (es : List (Entry K V)) (table : IsTable key es) (i : ℕ) (k : K) (h : ℕ) (v : V)
      → entry_at es i ≡ live k h v
      → search key es k ≡ some v
  search-found es table i k h v at = elim (search-cases es k) [
    | inl (j, g, w, there, s) ↦
        s ∙ ap some (same_value there (ap (entry_at es) (table.unique j i k g h w v there at) ∙ at))
    | inr (others, s) ↦ absurd (others i h v at)
  ]

  pub search-absent : (es : List (Entry K V)) (k : K) → HasNone es k → search key es k ≡ none
  search-absent es k no_entry = elim (search-cases es k) [
    | inl (i, h, v, at, s) ↦ absurd (no_entry i h v at)
    | inr (others, s) ↦ s
  ]

  free_not_live : (e : Entry K V) (k : K) (h : ℕ) (v : V) → IsFree e → e ≢ live k h v
  free_not_live empty k h v f at = absurd (cc at)
  free_not_live (dead _ _ _) k h v f at = dead_not_live refl at
  free_not_live (live _ _ _) k h v f at = f

  -- What is found after a live entry is written to a free slot of a table.
  pub search-place :
      (es : List (Entry K V)) (r : ℕ) (k l : K) (h : ℕ) (v : V)
      → IsTable key (set es r (live k h v))
      → IsTable key es
      → r < length es
      → IsFree (entry_at es r)
      → search key (set es r (live k h v)) l ≡ (if key.equals k l then some v else search key es l)
  search-place es r k l h v placed table below free = elim (Bool-cases (key.equals k l)) [
    | inl e ↦ rw e (
        search-found (set es r (live k h v)) placed r l h v (
          get_or-set_self es r (live k h v) empty below
          ∙ ap (λ (x : K). live x h v) (laws.equals_eq k l e)))
    | inr ne ↦ elim (search-cases es l) [
      | inl (i, g, w, at, s) ↦ elim (get_or-set es r i (live k h v) empty) [
        | inl (here, _) ↦
            absurd (free_not_live (entry_at es r) l g w free (ap (entry_at es) here ∙ at))
        | inr old ↦ rw ne (search-found (set es r (live k h v)) placed i l g w (old ∙ at) ∙ sym s)
      ]
      | inr (others, s) ↦ rw ne (
          search-absent (set es r (live k h v)) l (λ i g w at.
            elim (get_or-set es r i (live k h v) empty) [
              | inl (_, new) ↦ differs key laws k l ne (same_key new at)
              | inr old ↦ others i g w (sym old ∙ at)
            ])
          ∙ sym s)
    ]
  ]

  -- What is found after a live entry of a table becomes a tombstone.
  pub search-clear :
      (es : List (Entry K V)) (r : ℕ) (k l : K) (h : ℕ) (v : V)
      → IsTable key (set es r (dead k h v))
      → IsTable key es
      → r < length es
      → entry_at es r ≡ live k h v
      → search key (set es r (dead k h v)) l ≡ (if key.equals k l then none else search key es l)
  search-clear es r k l h v cleared table below at = elim (Bool-cases (key.equals k l)) [
    | inl e ↦ rw e (
        search-absent (set es r (dead k h v)) l (λ i g w there.
          elim (get_or-set es r i (dead k h v) empty) [
            | inl (_, new) ↦ dead_not_live new there
            | inr old ↦
                let same =
                  table.unique i r l g h w v (sym old ∙ there)
                    (at ∙ ap (λ (x : K). live x h v) (laws.equals_eq k l e)) in
                dead_not_live (get_or-set_self es r (dead k h v) empty below)
                  (ap (entry_at (set es r (dead k h v))) (sym same) ∙ there)
          ]))
    | inr ne ↦ elim (search-cases es l) [
      | inl (i, g, w, there, s) ↦ elim (get_or-set es r i (dead k h v) empty) [
        | inl (here, _) ↦
            absurd (differs key laws k l ne (same_key (ap (entry_at es) (sym here) ∙ at) there))
        | inr old ↦
            rw ne (search-found (set es r (dead k h v)) cleared i l g w (old ∙ there) ∙ sym s)
      ]
      | inr (others, s) ↦ rw ne (
          search-absent (set es r (dead k h v)) l (λ i g w there.
            elim (get_or-set es r i (dead k h v) empty) [
              | inl (_, new) ↦ dead_not_live new there
              | inr old ↦ others i g w (sym old ∙ there)
            ])
          ∙ sym s)
    ]
  ]
