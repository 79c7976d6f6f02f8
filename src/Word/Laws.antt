-- ===== src/Word/Laws.antt =====
-- Products of words: the low bits of a product depend on the low bits of its factors.
use native.Mathlib.Nat.{div-add-mod, mul-add-mod_self_left, mul_comm}
use gab.Prelude.{ℕ, ◌*◌, ◌/◌, ◌%◌, ◌≡◌, sym, ap, ◌∙◌, arith}

mod-mul_left : (x y m : ℕ) → x % m * y % m ≡ x * y % m
mod-mul_left x y m =
    sym (mul-add-mod_self_left m (x / m * y) (x % m * y))
    ∙ ap (λ (t : ℕ). t % m) (omega (arith, ap (λ (t : ℕ). t * y) (div-add-mod x m)))

-- Factors may be reduced before they are multiplied.
pub mul-mod : (x y m : ℕ) → (x % m) * (y % m) % m ≡ x * y % m
mul-mod x y m =
    mod-mul_left x (y % m) m
    ∙ ap (λ (t : ℕ). t % m) (mul_comm x (y % m))
    ∙ mod-mul_left y x m
    ∙ ap (λ (t : ℕ). t % m) (mul_comm y x)
