-- ===== src/Word.antt =====
-- Machine words of `w` bits as bit patterns below `2 ^ w`, with the arithmetic of C and of the target.
pub mod Laws
use gab.Prelude.{ℕ, ◌+◌, ◌-◌, ◌*◌, ◌/◌, ◌%◌, ◌^◌, Bool, true, false, ltb, leb, ◌==◌, if◌then◌else◌}
use gab.Types.{bool_eq}

-- The low `w` bits.
abbrev pub truncate : ℕ → ℕ → ℕ
truncate w x = x % 2 ^ w

unfoldable pub add_word : ℕ → ℕ → ℕ → ℕ
add_word w a b = (a + b) % 2 ^ w

unfoldable pub sub_word : ℕ → ℕ → ℕ → ℕ
sub_word w a b = (a + 2 ^ w - b) % 2 ^ w

unfoldable pub mul_word : ℕ → ℕ → ℕ → ℕ
mul_word w a b = (a * b) % 2 ^ w

unfoldable pub neg_word : ℕ → ℕ → ℕ
neg_word w a = (2 ^ w - a) % 2 ^ w

-- The sign bit of a pattern.
abbrev pub is_negative : ℕ → ℕ → Bool
is_negative w a = leb (2 ^ (w - 1)) a

abbrev pub magnitude : ℕ → ℕ → ℕ
magnitude w a = if is_negative w a then 2 ^ w - a else a

-- C's signed `/`, which truncates towards zero, where the divisor is not zero.
unfoldable pub div_word : ℕ → ℕ → ℕ → ℕ
unfolding neg_word
div_word w a b =
    let q = magnitude w a / magnitude w b in
    if bool_eq (is_negative w a) (is_negative w b) then truncate w q else neg_word w q

-- C's signed `%`, which has the sign of the dividend.
unfoldable pub rem_word : ℕ → ℕ → ℕ → ℕ
unfolding neg_word
rem_word w a b =
    let r = magnitude w a % magnitude w b in if is_negative w a then neg_word w r else truncate w r

-- The conversion of an `int32_t` to an `int64_t`.
unfoldable pub extend_32_to_64 : ℕ → ℕ
extend_32_to_64 a = if ltb a (2 ^ 31) then a else a + (2 ^ 64 - 2 ^ 32)
