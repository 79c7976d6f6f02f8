-- ===== src/HashMap/Place.antt =====
-- Writing a live entry for a new key, and turning a live entry into a tombstone, keep a table.
use gab.Prelude.{
  ℕ, zero, suc, ◌%◌, ◌<◌, ◌≡◌, refl, inl, inr, List, sym, ◌∙◌, ap, subst, subst₂, length, set,
  get_or-set, length-set,
}
use gab.HashMap.{Entry, empty, live, dead, Key, entry_at, next_index}
use gab.HashMap.Probe.{IsKey, IsFull, IsFree, Walk, IsTable}
use gab.HashMap.Probe

module _ {ℓ} {K V : Type ℓ} where
  IsFull-set :
      (es : List (Entry K V)) (r i : ℕ) (e : Entry K V)
      → IsFull e
      → IsFull (entry_at es i)
      → IsFull (entry_at (set es r e) i)
  IsFull-set es r i e new old = elim (get_or-set es r i e empty) [
    | inl (_, at) ↦ subst IsFull (sym at) new
    | inr at ↦ subst IsFull (sym at) old
  ]

  -- A walk is still one after a slot is filled.
  pub Walk-set :
      (es : List (Entry K V)) (r : ℕ) (e : Entry K V) (n i j : ℕ)
      → IsFull e
      → Walk es n i j
      → Walk (set es r e) n i j
  Walk-set es r e zero i j full walk = walk
  Walk-set es r e (suc n) i j full (here, walk) = (
    IsFull-set es r i e full here,
    rw (length-set es r e) (Walk-set es r e n (next_index (length es) i) j full walk),
  )

  reached-set :
      (es : List (Entry K V)) (r : ℕ) (e : Entry K V) (g h i j n : ℕ)
      → IsFull e
      → n < length es
      → Walk es n (g % length es) i
      → g ≡ h
      → i ≡ j
      → (m : ℕ) × (m < length (set es r e)) × Walk (set es r e) m (h % length (set es r e)) j
  reached-set es r e g h i j n full lt walk eq here = rw (length-set es r e) (
      (
        n,
        lt,
        subst₂ (λ (x y : ℕ). Walk (set es r e) n (x % length es) y) eq here
            (Walk-set es r e n (g % length es) i full walk),
      ))

  -- What one entry and another in the same slot have in common.
  pub same_key :
      {e : Entry K V} {k l : K} {g h : ℕ} {v w : V} → e ≡ live k g v → e ≡ live l h w → k ≡ l
  same_key p q = cc

  pub same_hash :
      {e : Entry K V} {k l : K} {g h : ℕ} {v w : V} → e ≡ live k g v → e ≡ live l h w → g ≡ h
  same_hash p q = cc

  pub same_value :
      {e : Entry K V} {k l : K} {g h : ℕ} {v w : V} → e ≡ live k g v → e ≡ live l h w → v ≡ w
  same_value p q = cc

  pub dead_not_live :
      {e : Entry K V} {k l : K} {g h : ℕ} {v w : V} → e ≡ dead k g v → e ≡ live l h w → ⊥
  dead_not_live p q = absurd (cc (sym p ∙ q))

module _ {ℓ} {K V : Type ℓ} (key : Key K) (laws : IsKey key) (es : List (Entry K V))
    (table : IsTable key es) where
  -- After a live entry for an absent key is written to a slot that the key can take, the array is
  -- still a table, if it has room.
  pub place-IsTable :
      (k : K) (h : ℕ) (v : V) (r : ℕ)
      → h ≡ key.hash k
      → Probe.IsAbsent key laws es table k
      → Probe.Spot key laws es table (h % length es) r
      → (e : ℕ) × (e < length es) × (entry_at (set es r (live k h v)) e ≡ empty)
      → IsTable key (set es r (live k h v))
  place-IsTable k h v r hh absent spot room = record {
    hashed = λ i l g w at. elim (get_or-set es r i (live k h v) empty) [
      | inl (_, new) ↦ sym (same_hash new at) ∙ hh ∙ ap key.hash (same_key new at)
      | inr old ↦ table.hashed i l g w (sym old ∙ at)
    ];
    reached = λ i l g w at. elim (get_or-set es r i (live k h v) empty) [
      | inl (here, new) ↦
          let (n, lt, walk) = spot.walked in
          reached-set es r (live k h v) h g r i n tt lt walk (same_hash new at) here
      | inr old ↦
          let (n, lt, walk) = table.reached i l g w (sym old ∙ at) in
          reached-set es r (live k h v) g g i i n tt lt walk refl refl
    ];
    unique = λ i j l g g' w x at at'. elim (get_or-set es r i (live k h v) empty) [
      | inl (here, new) ↦ elim (get_or-set es r j (live k h v) empty) [
        | inl (there, _) ↦ sym here ∙ there
        | inr old ↦
            absurd
              (absent j g' x (sym old ∙ at' ∙ ap (λ (y : K). live y g' x) (sym (same_key new at))))
      ]
      | inr old ↦ elim (get_or-set es r j (live k h v) empty) [
        | inl (there, new) ↦
            absurd
              (absent i g w (sym old ∙ at ∙ ap (λ (y : K). live y g w) (sym (same_key new at'))))
        | inr old' ↦ table.unique i j l g g' w x (sym old ∙ at) (sym old' ∙ at')
      ]
    ];
    room = rw (length-set es r (live k h v)) room;
  }

  -- After a live entry becomes a tombstone, the array is still a table, if it has room.
  pub clear-IsTable :
      (k : K) (h : ℕ) (v : V) (r : ℕ)
      → (e : ℕ) × (e < length es) × (entry_at (set es r (dead k h v)) e ≡ empty)
      → IsTable key (set es r (dead k h v))
  clear-IsTable k h v r room = record {
    hashed = λ i l g w at. table.hashed i l g w (still i l g w at);
    reached = λ i l g w at.
        let (n, lt, walk) = table.reached i l g w (still i l g w at) in
        reached-set es r (dead k h v) g g i i n tt lt walk refl refl;
    unique = λ i j l g g' w x at at'.
        table.unique i j l g g' w x (still i l g w at) (still j l g' x at');
    room = rw (length-set es r (dead k h v)) room;
  }
    where
      still :
          (i : ℕ) (l : K) (g : ℕ) (w : V)
          → entry_at (set es r (dead k h v)) i ≡ live l g w
          → entry_at es i ≡ live l g w
      still i l g w at = elim (get_or-set es r i (dead k h v) empty) [
        | inl (_, new) ↦ absurd (dead_not_live new at)
        | inr old ↦ sym old ∙ at
      ]
