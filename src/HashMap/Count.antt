-- ===== src/HashMap/Count.antt =====
-- Counting the slots of an array: those that are not empty, and those that are live.
use gab.Prelude.{
  ℕ, zero, suc, ◌+◌, ◌<◌, ◌≤◌, ◌≡◌, refl, List, [], ◌∷◌, arith, ap, length, set, replicate,
}
use gab.HashMap.{Entry, empty, live, dead, entry_at}

module _ {ℓ} {K V : Type ℓ} where
  abbrev pub full_weight : Entry K V → ℕ
  full_weight empty = 0
  full_weight (live _ _ _) = 1
  full_weight (dead _ _ _) = 1

  abbrev pub live_weight : Entry K V → ℕ
  live_weight empty = 0
  live_weight (live _ _ _) = 1
  live_weight (dead _ _ _) = 0

  abbrev pub count : (Entry K V → ℕ) → List (Entry K V) → ℕ
  count weight [] = 0
  count weight (e ∷ es) = weight e + count weight es

  -- A write exchanges the weight of the old entry for the new one's.
  pub count-set :
      (weight : Entry K V → ℕ) (es : List (Entry K V)) (i : ℕ) (e : Entry K V)
      → i < length es
      → count weight (set es i e) + weight (entry_at es i) ≡ count weight es + weight e
  count-set weight [] i e h = absurd (omega (arith, h))
  count-set weight (x ∷ es) zero e h = omega arith
  count-set weight (x ∷ es) (suc i) e h = omega (arith, count-set weight es i e (omega (arith, h)))

  pub count-replicate :
      (weight : Entry K V → ℕ) (n : ℕ) → weight empty ≡ 0 → count weight (replicate n empty) ≡ 0
  count-replicate weight zero h = refl
  count-replicate weight (suc n) h = omega (arith, count-replicate weight n h, h)

  pub live-le-full : (es : List (Entry K V)) → count live_weight es ≤ count full_weight es
  live-le-full [] = omega arith
  live-le-full (empty ∷ es) = omega (arith, live-le-full es)
  live-le-full (live _ _ _ ∷ es) = omega (arith, live-le-full es)
  live-le-full (dead _ _ _ ∷ es) = omega (arith, live-le-full es)

  -- Where not every slot is counted, one is empty.
  pub gap :
      (es : List (Entry K V))
      → count full_weight es < length es
      → (i : ℕ) × (i < length es) × (entry_at es i ≡ empty)
  gap [] h = absurd (omega (arith, h))
  gap (empty ∷ es) h = (0, omega arith, refl)
  gap (live _ _ _ ∷ es) h =
      let (i, lt, at) = gap es (omega (arith, h)) in (suc i, omega (arith, lt), at)
  gap (dead _ _ _ ∷ es) h =
      let (i, lt, at) = gap es (omega (arith, h)) in (suc i, omega (arith, lt), at)

  -- Where nothing is counted as live, no slot is live.
  pub none_live :
      (es : List (Entry K V)) (i : ℕ) (k : K) (h : ℕ) (v : V)
      → entry_at es i ≡ live k h v
      → 0 < count live_weight es
  none_live [] i k h v at = absurd (cc at)
  none_live (x ∷ es) zero k h v at = omega (arith, ap live_weight at)
  none_live (x ∷ es) (suc i) k h v at = omega (arith, none_live es i k h v at)

  -- A live entry stands inside the array.
  pub live_below :
      (es : List (Entry K V)) (i : ℕ) (k : K) (h : ℕ) (v : V)
      → entry_at es i ≡ live k h v
      → i < length es
  live_below [] i k h v at = absurd (cc at)
  live_below (x ∷ es) zero k h v at = omega arith
  live_below (x ∷ es) (suc i) k h v at = omega (arith, live_below es i k h v at)

  -- Without tombstones, a slot that is not live is empty.
  pub clean_slot :
      (es : List (Entry K V)) (i : ℕ)
      → count full_weight es ≡ count live_weight es
      → live_weight (entry_at es i) ≡ full_weight (entry_at es i)
  clean_slot [] i h = refl
  clean_slot (empty ∷ es) zero h = refl
  clean_slot (live _ _ _ ∷ es) zero h = refl
  clean_slot (dead _ _ _ ∷ es) zero h = absurd (omega (arith, h, live-le-full es))
  clean_slot (empty ∷ es) (suc i) h = clean_slot es i (omega (arith, h))
  clean_slot (live _ _ _ ∷ es) (suc i) h = clean_slot es i (omega (arith, h))
  clean_slot (dead _ _ _ ∷ es) (suc i) h = absurd (omega (arith, h, live-le-full es))
