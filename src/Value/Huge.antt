-- ===== src/Value/Huge.antt =====
-- The tests on wide integers: when a HUGEINT or UHUGEINT becomes an integer of PHP, and when a DECIMAL
-- becomes a float. `lower` is a word of 64 bits and `upper` the bits of an `int64_t` or `uint64_t`.
use pdo_duckdb_php.Common.{
  ℕ, ◌+◌, ◌-◌, ◌*◌, ◌%◌, ◌^◌, ◌≤◌, ◌<◌, Bool, true, ◌&&◌, ◌||◌, ◌≡◌, ◌↔◌, ◌⊎◌, arith, leb, ltb,
  ◌==◌, if◌then◌else◌,
}
use pdo_duckdb_php.Common.Int.{ℤ, pos, negsuc, ◌≤ℤ◌, signed64}

pub record Huge : Type 0 where
  pub upper : ℕ
  pub lower : ℕ

-- Both words have 64 bits.
pub record IsWords (h : Huge) : Type 0 where
  pub upper_fits : h.upper < 2 ^ 64
  pub lower_fits : h.lower < 2 ^ 64

-- `upper == -1`, and the bounds of `zend_long` as unsigned words.
abbrev pub minus_one : ℕ
minus_one = 2 ^ 64 - 1

abbrev pub long_max : ℕ
long_max = 2 ^ 63 - 1

abbrev pub long_min_word : ℕ
long_min_word = 2 ^ 63

-- The test of `case DUCKDB_TYPE_HUGEINT`.
unfoldable pub hugeint_is_long : Huge → Bool
hugeint_is_long h =
    (h.upper == 0 && leb h.lower long_max) || (h.upper == minus_one && leb long_min_word h.lower)

-- The test of `case DUCKDB_TYPE_UHUGEINT`.
unfoldable pub uhugeint_is_long : Huge → Bool
uhugeint_is_long h = h.upper == 0 && leb h.lower long_max

-- The test of `case DUCKDB_TYPE_DECIMAL`; `~x` is `2 ^ 64 - 1 - x`, and the sum wraps.
unfoldable pub decimal_is_double : Huge → Bool
decimal_is_double h =
    (h.upper == 0 && leb h.lower (2 ^ 53))
    || ((2 ^ 64 - 1 - h.upper) == 0 && leb ((2 ^ 64 - 1 - h.lower + 1) % 2 ^ 64) (2 ^ 53))

-- The integer that the words stand for, upper * 2 ^ 64 + lower, with a signed upper word.
abbrev pub huge_value : Huge → ℤ
huge_value h =
    if ltb h.upper (2 ^ 63)
    then pos (h.upper * 2 ^ 64 + h.lower)
    else negsuc ((2 ^ 64 - h.upper) * 2 ^ 64 - h.lower - 1)

-- For two words of 64 bits, the test of a HUGEINT holds exactly if its value is an integer of PHP.
pub hugeint_is_long_iff :
    (h : Huge)
    → IsWords h
    → (hugeint_is_long h ≡ true)
      ↔ ((negsuc (2 ^ 63 - 1) ≤ℤ huge_value h) × (huge_value h ≤ℤ pos (2 ^ 63 - 1)))
unfolding hugeint_is_long
hugeint_is_long_iff h w = (λ e. ground arith, λ b. ground arith)

-- On that path the lower word, read as a signed integer, is the value.
pub hugeint_value :
    (h : Huge) → IsWords h → hugeint_is_long h ≡ true → signed64 h.lower ≡ huge_value h
unfolding hugeint_is_long
hugeint_value h w e = ground arith

pub uhugeint_is_long_iff :
    (h : Huge) → IsWords h → (uhugeint_is_long h ≡ true) ↔ (h.upper * 2 ^ 64 + h.lower ≤ 2 ^ 63 - 1)
unfolding uhugeint_is_long
uhugeint_is_long_iff h w = (λ e. ground arith, λ b. ground arith)

pub uhugeint_value :
    (h : Huge)
    → IsWords h
    → uhugeint_is_long h ≡ true
    → signed64 h.lower ≡ pos (h.upper * 2 ^ 64 + h.lower)
unfolding uhugeint_is_long
uhugeint_value h w e = ground arith

-- The test for floats holds for the words of a DECIMAL exactly if its unscaled value lies within 2 ^ 53 of zero, where floats are
-- exact, or is -2 ^ 64, for which the negation in the test wraps to zero.
pub decimal_is_double_iff :
    (h : Huge)
    → IsWords h
    → (decimal_is_double h ≡ true) ↔ (
        ((negsuc (2 ^ 53 - 1) ≤ℤ huge_value h) × (huge_value h ≤ℤ pos (2 ^ 53)))
        ⊎ (huge_value h ≡ negsuc (2 ^ 64 - 1)))
unfolding decimal_is_double
decimal_is_double_iff h w = (λ e. ground arith, λ b. ground arith)
