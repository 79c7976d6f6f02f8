-- ===== src/Mir/Liveness/Unions.antt =====
-- The loops that grow a set: how many bits are left, and whether anything has changed.
use gab.Prelude.{
  ℕ, zero, suc, ◌+◌, ◌≤◌, ◌<◌, ◌≡◌, refl, ap, ap₂, ◌∙◌, Bool, true, false, not, ◌&&◌, ◌||◌, List,
  [], ◌∷◌, length, get_or, arith,
}
use gab.Mir.{BlockId}
use gab.Mir.Liveness.{PlaceSet, set_test, union_into, merge_successors}

abbrev pub one : Bool → ℕ
one true = 1
one false = 0

unfoldable pub zeros : PlaceSet → ℕ
zeros [] = 0
zeros (true ∷ xs) = zeros xs
zeros (false ∷ xs) = suc (zeros xs)

-- The union of a set into another: the bits it has, the change it tells, and the bits that are left.
pub record Union (xs ys : PlaceSet) (r : PlaceSet × Bool) : Type 0 where
  pub left : zeros r.0 + one r.1 ≤ zeros xs
  pub same : r.1 ≡ false → r.0 ≡ xs
  pub size : length r.0 ≡ length xs
  pub bit : (p : ℕ) → p < length xs → set_test r.0 p ≡ (set_test xs p || set_test ys p)

or_false : (x : Bool) → x ≡ (x || false)
or_false true = refl
or_false false = refl

pub one_or : (a b : Bool) → one (a || b) ≤ one a + one b
one_or true b = omega arith
one_or false b = omega arith

pub or_eq_false : (a b : Bool) → (a || b) ≡ false → (a ≡ false) × (b ≡ false)
or_eq_false true b h = absurd (cc h)
or_eq_false false b h = (refl, h)

head_left :
    (x y : Bool) (xs : PlaceSet) (zs : PlaceSet) (c : Bool)
    → zeros zs + one c ≤ zeros xs
    → zeros ((x || y) ∷ zs) + one (not x && y || c) ≤ zeros (x ∷ xs)
unfolding zeros
head_left true y xs zs c h = h
head_left false true xs zs c h = omega (arith, h, one_or true c)
head_left false false xs zs c h = omega (arith, h)

head_same : (x y : Bool) → (not x && y) ≡ false → (x || y) ≡ x
head_same true y h = refl
head_same false y h = h

cons-bit :
    (x y : Bool) (xs ys zs : PlaceSet)
    → ((p : ℕ) → p < length xs → set_test zs p ≡ (set_test xs p || set_test ys p))
    → (p : ℕ) → p < suc (length xs)
    → set_test ((x || y) ∷ zs) p ≡ (set_test (x ∷ xs) p || set_test (y ∷ ys) p)
cons-bit x y xs ys zs rest zero h = refl
cons-bit x y xs ys zs rest (suc p) h = rest p (omega (arith, h))

pub union_into-Union : (xs ys : PlaceSet) → Union xs ys (union_into xs ys)
unfolding union_into
union_into-Union [] ys = record {
  left = omega arith;
  same = λ h. refl;
  size = refl;
  bit = λ p h. absurd (omega (arith, h));
}
union_into-Union (x ∷ xs) [] = record {
  left = omega arith;
  same = λ h. refl;
  size = refl;
  bit = λ p h. or_false (set_test (x ∷ xs) p);
}
union_into-Union (x ∷ xs) (y ∷ ys) =
    let u = union_into-Union xs ys in
    record {
      left = head_left x y xs (union_into xs ys).0 (union_into xs ys).1 u.left;
      same = λ h.
          let (first, rest) = or_eq_false (not x && y) (union_into xs ys).1 h in
          ap₂ (λ (b : Bool) (bs : PlaceSet). b ∷ bs) (head_same x y first) (u.same rest);
      size = ap suc u.size;
      bit = λ p h. cons-bit x y xs ys (union_into xs ys).0 u.bit p h;
    }

-- Whether the set of one of these blocks has a place.
unfoldable pub any_entry : List PlaceSet → List BlockId → ℕ → Bool
any_entry entry [] p = false
any_entry entry (s ∷ ss) p = set_test (get_or entry s []) p || any_entry entry ss p

pub record Merged (entry : List PlaceSet) (ss : List BlockId) (places : PlaceSet) (changed : Bool)
    (r : PlaceSet × Bool) : Type 0 where
  pub left : zeros r.0 + one r.1 ≤ zeros places + one changed
  pub same : r.1 ≡ false → (r.0 ≡ places) × (changed ≡ false)
  pub size : length r.0 ≡ length places
  pub bit :
      (p : ℕ) → p < length places → set_test r.0 p ≡ (set_test places p || any_entry entry ss p)

or_assoc : (a b c : Bool) → ((a || b) || c) ≡ (a || (b || c))
or_assoc true b c = refl
or_assoc false b c = refl

pub merge_successors-Merged :
    (entry : List PlaceSet) (ss : List BlockId) (places : PlaceSet) (changed : Bool)
    → Merged entry ss places changed (merge_successors entry ss (places, changed))
unfolding merge_successors any_entry
merge_successors-Merged entry [] places changed = record {
  left = omega arith;
  same = λ h. (refl, h);
  size = refl;
  bit = λ p h. or_false (set_test places p);
}
merge_successors-Merged entry (s ∷ ss) places changed =
    let r = union_into places (get_or entry s []) in
    let u = union_into-Union places (get_or entry s []) in
    let m = merge_successors-Merged entry ss r.0 (changed || r.1) in
    record {
      left = omega (arith, m.left, u.left, one_or changed r.1);
      same = λ h.
          let (e, c) = m.same h in
          let (before, here) = or_eq_false changed r.1 c in (e ∙ u.same here, before);
      size = m.size ∙ u.size;
      bit = λ p h.
          m.bit p (omega (arith, h, u.size))
          ∙ ap (λ (b : Bool). b || any_entry entry ss p) (u.bit p h)
          ∙ or_assoc (set_test places p) (set_test (get_or entry s []) p) (any_entry entry ss p);
    }
