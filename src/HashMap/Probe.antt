-- ===== src/HashMap/Probe.antt =====
-- The probe ends, at the slot that holds the key if one does and else at a slot that the key can take.
use gab.Prelude.{
  ℕ, zero, suc, ◌+◌, ◌-◌, ◌%◌, ◌<◌, ◌≤◌, ◌≡◌, ◌≢◌, refl, ◌⊎◌, inl, inr, Bool, true, ◌&&◌, Option,
  none, some, List, arith, Bool-cases, sym, ◌∙◌, ap, subst, ◌==◌, length, ltb,
}
use native.Mathlib.Nat.{mod_self, mod-eq_of_lt, mod-lt}
use gab.HashMap.{
  Entry, empty, live, dead, Key, entry_at, next_index, or_here, probe_step, probe_from, probe,
}

-- The comparison of keys is equality.
pub record IsKey {ℓ} {K : Type ℓ} (key : Key K) : Type ℓ where
  pub equals_refl : (k : K) → key.equals k k ≡ true
  pub equals_eq : (k l : K) → key.equals k l ≡ true → k ≡ l

-- From the first index, so many steps lead to the second.
abbrev pub Away : ℕ → ℕ → ℕ → ℕ → Type 0
Away capacity zero i j = i ≡ j
Away capacity (suc n) i j = Away capacity n (next_index capacity i) j

Away-length : (capacity i j m n : ℕ) → m ≡ n → Away capacity m i j → Away capacity n i j
Away-length capacity i j m n e = subst (λ (d : ℕ). Away capacity d i j) e

Away-add :
    (capacity a b i j k : ℕ) → Away capacity a i j → Away capacity b j k → Away capacity (a + b) i k
Away-add capacity zero b i j k p q =
    Away-length capacity i k b (0 + b) (omega arith)
      (subst (λ (x : ℕ). Away capacity b x k) (sym p) q)
Away-add capacity (suc a) b i j k p q =
    Away-length capacity i k (suc (a + b)) (suc a + b) (omega arith)
      (Away-add capacity a b (next_index capacity i) j k p q)

next-up : (capacity i : ℕ) → i + 1 < capacity → next_index capacity i ≡ i + 1
next-up capacity i h = mod-eq_of_lt h

next-wrap : (capacity i : ℕ) → i + 1 ≡ capacity → next_index capacity i ≡ 0
next-wrap capacity i h = ap (λ (n : ℕ). n % capacity) h ∙ mod_self capacity

Away-up : (capacity d i j : ℕ) → i + d ≡ j → j < capacity → Away capacity d i j
Away-up capacity zero i j e h = omega (arith, e)
Away-up capacity (suc d) i j e h =
    Away-up capacity d (next_index capacity i) j
      (ap (λ (n : ℕ). n + d) (next-up capacity i (omega (arith, e, h))) ∙ omega (arith, e)) h

-- Past the last index comes the first.
Away-around : (capacity d i : ℕ) → i + suc d ≡ capacity → Away capacity (suc d) i 0
Away-around capacity zero i e = next-wrap capacity i (omega (arith, e))
Away-around capacity (suc d) i e =
    Away-around capacity d (next_index capacity i)
      (ap (λ (n : ℕ). n + suc d) (next-up capacity i (omega (arith, e))) ∙ omega (arith, e))

-- From every index, fewer steps than there are slots lead to every other.
pub Away-cases :
    (capacity i j : ℕ)
    → i < capacity
    → j < capacity
    → (d : ℕ) × (d < capacity) × Away capacity d i j
Away-cases capacity i j hi hj = elim (Bool-cases (ltb j i)) [
  | inl below ↦ (
    suc (capacity - i - 1) + j,
    ground arith,
    Away-add capacity (suc (capacity - i - 1)) j i 0 j
        (Away-around capacity (capacity - i - 1) i (omega arith))
        (Away-up capacity j 0 j (omega arith) hj),
  )
  | inr above ↦ (j - i, ground arith, Away-up capacity (j - i) i j (ground arith) hj)
]

-- The slot is not empty.
abbrev pub IsFull {ℓ} : {K V : Type ℓ} → Entry K V → Type 0
IsFull empty = ⊥
IsFull (live _ _ _) = Unit
IsFull (dead _ _ _) = Unit

-- The slot can be taken.
abbrev pub IsFree {ℓ} : {K V : Type ℓ} → Entry K V → Type 0
IsFree empty = Unit
IsFree (live _ _ _) = ⊥
IsFree (dead _ _ _) = Unit

module _ {ℓ} {K V : Type ℓ} where
  -- From the first index, so many steps over slots that are not empty lead to the second.
  abbrev pub Walk : List (Entry K V) → ℕ → ℕ → ℕ → Type 0
  Walk es zero i j = i ≡ j
  Walk es (suc n) i j = IsFull (entry_at es i) × Walk es n (next_index (length es) i) j

  pub Walk-step :
      (es : List (Entry K V)) (n i j : ℕ)
      → Walk es n i j
      → IsFull (entry_at es j)
      → Walk es (suc n) i (next_index (length es) j)
  Walk-step es zero i j e full =
      (subst (λ (x : ℕ). IsFull (entry_at es x)) (sym e) full, ap (next_index (length es)) e)
  Walk-step es (suc n) i j (here, rest) full =
      (here, Walk-step es n (next_index (length es) i) j rest full)

  -- An array of slots where each live entry can be reached from the place that its hash names, and no
  -- two hold the same key, and where a slot is empty.
  pub record IsTable (key : Key K) (es : List (Entry K V)) : Type ℓ where
    pub hashed : (i : ℕ) (k : K) (h : ℕ) (v : V) → entry_at es i ≡ live k h v → h ≡ key.hash k
    pub reached :
        (i : ℕ) (k : K) (h : ℕ) (v : V)
        → entry_at es i ≡ live k h v
        → (n : ℕ) × (n < length es) × Walk es n (h % length es) i
    pub unique :
        (i j : ℕ) (k : K) (g h : ℕ) (v w : V)
        → entry_at es i ≡ live k g v
        → entry_at es j ≡ live k h w
        → i ≡ j
    pub room : (e : ℕ) × (e < length es) × (entry_at es e ≡ empty)

and_right : (a b : Bool) → (a && b) ≡ true → b ≡ true
and_right a b h = ground arith

same_test : (h : ℕ) → ((h == h) && true) ≡ true
same_test h = ground arith

-- What a slot is.
pub Entry-cases {ℓ} :
    {K V : Type ℓ}
    → (e : Entry K V)
    → (e ≡ empty)
      ⊎ ((k : K) × (h : ℕ) × (v : V) × (e ≡ dead k h v))
      ⊎ ((k : K) × (h : ℕ) × (v : V) × (e ≡ live k h v))
Entry-cases empty = inl refl
Entry-cases (dead k h v) = inr (inl (k, h, v, refl))
Entry-cases (live k h v) = inr (inr (k, h, v, refl))

module _ {ℓ} {K : Type ℓ} (key : Key K) (laws : IsKey key) where
  matches : (k l : K) (g h : ℕ) → ((g == h) && key.equals k l) ≡ true → k ≡ l
  matches k l g h e = laws.equals_eq k l (and_right (g == h) (key.equals k l) e)

  matches_self : (k : K) (h : ℕ) → ((h == h) && key.equals k k) ≡ true
  matches_self k h = rw (laws.equals_refl k) (same_test h)

  module _ {V : Type ℓ} (es : List (Entry K V)) (table : IsTable key es) where
    hit_step :
        (e : Entry K V) (i j : ℕ) (t : Option ℕ) (k : K) (h : ℕ) (v : V) (past past_dead : Option ℕ)
        → entry_at es i ≡ e
        → IsFull e
        → entry_at es j ≡ live k h v
        → past ≡ some j
        → past_dead ≡ some j
        → probe_step key e i t k h past past_dead ≡ some j
    hit_step empty i j t k h v past past_dead e full at p q = absurd full
    hit_step (dead _ _ _) i j t k h v past past_dead e full at p q = q
    hit_step (live l g w) i j t k h v past past_dead e full at p q =
        elim (Bool-cases ((g == h) && key.equals k l)) [
          | inl m ↦ rw m (
              ap some (
                table.unique i j k g h w v
                  (e ∙ ap (λ (x : K). live x g w) (sym (matches k l g h m))) at))
          | inr ne ↦ rw ne p
        ]

    -- A walk to the slot that holds the key ends the probe there.
    probe-hit :
        (fuel n i j : ℕ) (t : Option ℕ) (k : K) (h : ℕ) (v : V)
        → Walk es n i j
        → n < fuel
        → entry_at es j ≡ live k h v
        → probe_from key fuel es i t k h ≡ some j
    unfolding probe_from
    probe-hit zero n i j t k h v walk lt at = absurd (omega (arith, lt))
    probe-hit (suc fuel) zero i j t k h v walk lt at =
        rw (ap (entry_at es) walk ∙ at, matches_self k h) (ap some walk)
    probe-hit (suc fuel) (suc n) i j t k h v (full, walk) lt at =
        let next = next_index (length es) i in
        hit_step (entry_at es i) i j t k h v _ _ refl full at
          (probe-hit fuel n next j t k h v walk (omega (arith, lt)) at)
          (probe-hit fuel n next j (some (or_here t i)) k h v walk (omega (arith, lt)) at)

    -- A slot that a key can take, on the way from the place its hash names.
    pub record Spot (home r : ℕ) : Type ℓ where
      pub below : r < length es
      pub free : IsFree (entry_at es r)
      pub walked : (n : ℕ) × (n < length es) × Walk es n home r

    abbrev IsSeen : ℕ → Option ℕ → Type ℓ
    IsSeen home none = Unit
    IsSeen home (some r) = Spot home r

    seen-Spot : (home i : ℕ) (t : Option ℕ) → IsSeen home t → Spot home i → Spot home (or_here t i)
    seen-Spot home i none seen here = here
    seen-Spot home i (some r) seen here = seen

    abbrev pub IsAbsent : K → Type ℓ
    IsAbsent k = (i : ℕ) (h : ℕ) (v : V) → entry_at es i ≢ live k h v

    -- A slot that is not empty is not the gap.
    Away-step :
        (d i e : ℕ)
        → Away (length es) d i e
        → IsFull (entry_at es i)
        → entry_at es e ≡ empty
        → (d' : ℕ) × (suc d' ≡ d) × Away (length es) d' (next_index (length es) i) e
    Away-step zero i e away full gap = absurd (subst IsFull (ap (entry_at es) away ∙ gap) full)
    Away-step (suc d) i e away full gap = (d, refl, away)

    -- Without the key, the probe ends at a slot that the key can take.
    probe-miss :
        (fuel d i n home e : ℕ) (t : Option ℕ) (k : K) (h : ℕ)
        → IsAbsent k
        → entry_at es e ≡ empty
        → Away (length es) d i e
        → d < fuel
        → Walk es n home i
        → n + fuel ≤ length es
        → i < length es
        → IsSeen home t
        → (r : ℕ) × (probe_from key fuel es i t k h ≡ some r) × Spot home r
    unfolding probe_from
    probe-miss zero d i n home e t k h absent gap away lt walk room below seen =
        absurd (omega (arith, lt))
    probe-miss (suc fuel) d i n home e t k h absent gap away lt walk room below seen =
        elim (Entry-cases (entry_at es i)) [
          | inl eq ↦
              (or_here t i, rw eq refl, seen-Spot home i t seen (here (subst IsFree (sym eq) tt)))
          | inr (inl (l, g, w, eq)) ↦
              let full : IsFull (entry_at es i) = subst IsFull (sym eq) tt in
              let (d', ds, further) = Away-step d i e away full gap in
              let (r, p, s) =
                probe-miss fuel d' (next_index (length es) i) (suc n) home e (some (or_here t i)) k
                  h absent gap further (omega (arith, ds, lt)) (Walk-step es n home i walk full)
                  (omega (arith, room)) (mod-lt (i + 1) (omega (arith, below)))
                  (seen-Spot home i t seen (here (subst IsFree (sym eq) tt))) in
              (r, rw eq p, s)
          | inr (inr (l, g, w, eq)) ↦
              let full : IsFull (entry_at es i) = subst IsFull (sym eq) tt in
              let (d', ds, further) = Away-step d i e away full gap in
              let (r, p, s) =
                probe-miss fuel d' (next_index (length es) i) (suc n) home e t k h absent gap
                  further (omega (arith, ds, lt)) (Walk-step es n home i walk full)
                  (omega (arith, room)) (mod-lt (i + 1) (omega (arith, below))) seen in
              elim (Bool-cases ((g == h) && key.equals k l)) [
                | inl m ↦
                    absurd
                      (absent i g w (eq ∙ ap (λ (x : K). live x g w) (sym (matches k l g h m))))
                | inr ne ↦ (r, rw (eq, ne) p, s)
              ]
        ]
      where
        here : IsFree (entry_at es i) → Spot home i
        here free = record { below = below; free = free; walked = (n, omega (arith, room), walk) }

    -- What `probe` finds of a key that a live entry holds: that entry.
    pub probe-found :
        (i : ℕ) (k : K) (v : V)
        → entry_at es i ≡ live k (key.hash k) v
        → probe key es k (key.hash k) ≡ some i
    unfolding probe
    probe-found i k v at =
        let (n, lt, walk) = table.reached i k (key.hash k) v at in
        probe-hit (length es) n (key.hash k % length es) i none k (key.hash k) v walk lt at

    -- What `probe` finds of a key that no entry holds: a slot that it can take.
    pub probe-absent :
        (k : K) (h : ℕ)
        → IsAbsent k
        → (r : ℕ) × (probe key es k h ≡ some r) × Spot (h % length es) r
    unfolding probe
    probe-absent k h absent =
        let (e, lt, gap) = table.room in
        let home = h % length es in
        let below = mod-lt h {m = length es} (omega (arith, lt)) in
        let (d, near, away) = Away-cases (length es) home e below lt in
        probe-miss (length es) d home 0 home e none k h absent gap away near refl (omega arith)
          below tt
