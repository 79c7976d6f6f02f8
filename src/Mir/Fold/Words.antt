-- ===== src/Mir/Fold/Words.antt =====
-- Words of at most 32 bits: computing at 32 bits, widening to 64 and narrowing to the type's width
-- gives what computing at the type's width gives.
use gab.Prelude.{ℕ, ◌+◌, ◌-◌, ◌*◌, ◌%◌, ◌^◌, ◌<◌, ◌≡◌, ◌⊎◌, inl, inr, arith}
use gab.Word.{add_word, sub_word, mul_word, neg_word, extend_32_to_64}
use gab.Word.Laws.{mul-mod}

pub extend-truncate : (x : ℕ) → x < 2 ^ 32 → extend_32_to_64 x % 2 ^ 32 ≡ x
unfolding extend_32_to_64
extend-truncate x h = ground arith

extend-truncate_8 : (x : ℕ) → extend_32_to_64 x % 2 ^ 8 ≡ x % 2 ^ 8
unfolding extend_32_to_64
extend-truncate_8 x = ground arith

add-32 :
    (x y : ℕ)
    → extend_32_to_64 (add_word 32 (x % 2 ^ 32) (y % 2 ^ 32)) % 2 ^ 32
      ≡ add_word 32 (x % 2 ^ 32) (y % 2 ^ 32)
unfolding add_word
add-32 x y = extend-truncate _ (omega arith)

add-8 :
    (x y : ℕ)
    → extend_32_to_64 (add_word 32 (x % 2 ^ 32) (y % 2 ^ 32)) % 2 ^ 8
      ≡ add_word 8 (x % 2 ^ 8) (y % 2 ^ 8)
unfolding add_word
add-8 x y = omega (arith, extend-truncate_8 (((x % 2 ^ 32) + (y % 2 ^ 32)) % 2 ^ 32))

sub-8 :
    (x y : ℕ)
    → extend_32_to_64 (sub_word 32 (x % 2 ^ 32) (y % 2 ^ 32)) % 2 ^ 8
      ≡ sub_word 8 (x % 2 ^ 8) (y % 2 ^ 8)
unfolding sub_word
sub-8 x y = omega (arith, extend-truncate_8 (((x % 2 ^ 32) + 2 ^ 32 - (y % 2 ^ 32)) % 2 ^ 32))

neg-8 : (x : ℕ) → extend_32_to_64 (neg_word 32 (x % 2 ^ 32)) % 2 ^ 8 ≡ neg_word 8 (x % 2 ^ 8)
unfolding neg_word
neg-8 x = omega (arith, extend-truncate_8 ((2 ^ 32 - (x % 2 ^ 32)) % 2 ^ 32))

mul-8 :
    (x y : ℕ)
    → extend_32_to_64 (mul_word 32 (x % 2 ^ 32) (y % 2 ^ 32)) % 2 ^ 8
      ≡ mul_word 8 (x % 2 ^ 8) (y % 2 ^ 8)
unfolding mul_word
mul-8 x y = omega (
  arith,
  extend-truncate_8 ((x % 2 ^ 32) * (y % 2 ^ 32) % 2 ^ 32),
  mul-mod x y (2 ^ 32),
  mul-mod x y (2 ^ 8),
)

-- The widths at which the fold's 32-bit arithmetic is right.
abbrev pub IsNarrow : ℕ → Type 0
IsNarrow w = (w ≡ 32) ⊎ (w ≡ 8)

pub add_narrow :
    (w x y : ℕ)
    → IsNarrow w
    → extend_32_to_64 (add_word 32 (x % 2 ^ 32) (y % 2 ^ 32)) % 2 ^ w
      ≡ add_word w (x % 2 ^ w) (y % 2 ^ w)
add_narrow w x y (inl e) = rw e (add-32 x y)
add_narrow w x y (inr e) = rw e (add-8 x y)

pub sub_narrow :
    (w x y : ℕ)
    → IsNarrow w
    → extend_32_to_64 (sub_word 32 (x % 2 ^ 32) (y % 2 ^ 32)) % 2 ^ w
      ≡ sub_word w (x % 2 ^ w) (y % 2 ^ w)
unfolding sub_word
sub_narrow w x y (inl e) = rw e (extend-truncate _ (omega arith))
sub_narrow w x y (inr e) = rw e (sub-8 x y)

pub mul_narrow :
    (w x y : ℕ)
    → IsNarrow w
    → extend_32_to_64 (mul_word 32 (x % 2 ^ 32) (y % 2 ^ 32)) % 2 ^ w
      ≡ mul_word w (x % 2 ^ w) (y % 2 ^ w)
unfolding mul_word
mul_narrow w x y (inl e) = rw e (extend-truncate _ (omega arith))
mul_narrow w x y (inr e) = rw e (mul-8 x y)

pub neg_narrow :
    (w x : ℕ)
    → IsNarrow w
    → extend_32_to_64 (neg_word 32 (x % 2 ^ 32)) % 2 ^ w ≡ neg_word w (x % 2 ^ w)
unfolding neg_word
neg_narrow w x (inl e) = rw e (extend-truncate _ (omega arith))
neg_narrow w x (inr e) = rw e (neg-8 x)
