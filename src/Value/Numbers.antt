-- ===== src/Value/Numbers.antt =====
-- duckdb_statement.c: what UBIGINT and HUGEINT columns become.
use pdo_duckdb_php.Common.{
  ◌≢◌, All, ℕ, zero, suc, ◌+◌, ◌-◌, ◌*◌, ◌/◌, ◌%◌, ◌^◌, ◌≤◌, ◌<◌, [], ◌∷◌, ◌++◌, ◌≡◌, refl, inl,
  inr, arith, ltb, leb, Bytes, Bool-cases,
}
use pdo_duckdb_php.Common.Int.{ℤ, pos, negsuc, ◌≤ℤ◌}
use pdo_duckdb_php.Value.{Zval}
use pdo_duckdb_php.Value.Huge.{long_max}
use pdo_duckdb_php.Value.Convert.{Columns, digits, convert_ubigint}

-- The number that decimal digits spell, behind the number that was read so far.
abbrev pub read_digits : ℕ → Bytes → ℕ
read_digits n [] = n
read_digits n (c ∷ cs) = read_digits (n * 10 + (c - 48)) cs

read_digits-append :
    (n : ℕ) (s : Bytes) (c : ℕ) → read_digits n (s ++ c ∷ []) ≡ read_digits n s * 10 + (c - 48)
read_digits-append n [] c = refl
read_digits-append n (x ∷ s) c = read_digits-append (n * 10 + (x - 48)) s c

abbrev power_of_ten : ℕ → ℕ
power_of_ten zero = 1
power_of_ten (suc f) = 10 * power_of_ten f

read_digits-digits : (f n : ℕ) → n < power_of_ten f → read_digits 0 (digits f n) ≡ n
unfolding digits
read_digits-digits zero n h = omega arith
read_digits-digits (suc f) n h = elim (Bool-cases (ltb n 10)) [
  | inl e ↦ rw (e, digits) (ground arith)
  | inr e ↦
      rw (e, digits)
        (omega (
          arith,
          read_digits-append 0 (digits f (n / 10)) (n % 10 + 48),
          read_digits-digits f (n / 10) (omega arith),
        ))
]

-- Decimal digits, the first of which is not 0.
abbrev pub IsNumeral : Bytes → Type 0
IsNumeral [] = ⊥
IsNumeral (c ∷ cs) = (c ≢ b'0') × All (λ x. (b'0' ≤ x) × (x ≤ b'9')) (c ∷ cs)

IsNumeral-append : (s : Bytes) (c : ℕ) → IsNumeral s → b'0' ≤ c → c ≤ b'9' → IsNumeral (s ++ c ∷ [])
IsNumeral-append [] c h low high = elim h [ ]
IsNumeral-append (x ∷ s) c (n, (first, others)) low high = (n, (first, numeral_append s others))
  where
    numeral_append :
        (s : Bytes)
        → All (λ x. (b'0' ≤ x) × (x ≤ b'9')) s
        → All (λ x. (b'0' ≤ x) × (x ≤ b'9')) (s ++ c ∷ [])
    numeral_append [] h = ((low, high), tt)
    numeral_append (y ∷ s) h = (h.0, numeral_append s h.1)

digits-IsNumeral : (f n : ℕ) → 0 < n → n < power_of_ten f → IsNumeral (digits f n)
unfolding digits
digits-IsNumeral zero n p h = absurd (omega arith)
digits-IsNumeral (suc f) n p h = elim (Bool-cases (ltb n 10)) [
  | inl e ↦ rw (e, digits) (ground arith, ((ground arith, ground arith), tt))
  | inr e ↦
      rw (e, digits)
        (IsNumeral-append (digits f (n / 10)) (n % 10 + 48)
          (digits-IsNumeral f (n / 10) (ground arith) (omega arith)) (omega arith) (omega arith))
]

-- What a value shows of a number: itself as an integer of PHP, or its decimal digits.
abbrev pub Shows : Zval → ℕ → Type 0
Shows (Zval.long m) n = (m ≡ pos n) × (n ≤ 2 ^ 63 - 1)
Shows (Zval.string s) n = IsNumeral s × (read_digits 0 s ≡ n) × (2 ^ 63 - 1 < n)
Shows _ n = ⊥

-- A UBIGINT is an integer of PHP where it fits, and else the string of its decimal digits, without
-- anything in front of them.
pub convert_ubigint-Shows : (k : Columns) (w : ℕ) → w < 2 ^ 64 → Shows (convert_ubigint k w) w
unfolding convert_ubigint
convert_ubigint-Shows k w h = elim (Bool-cases (leb w long_max)) [
  | inl e ↦ rw (e, convert_ubigint) (refl, ground arith)
  | inr e ↦
      rw (e, convert_ubigint)
        (
          digits-IsNumeral 20 w (ground arith) (omega arith),
          read_digits-digits 20 w (omega arith),
          ground arith,
        )
]

-- An integer of PHP.
abbrev pub IsLong : ℤ → Type 0
IsLong n = (negsuc (2 ^ 63 - 1) ≤ℤ n) × (n ≤ℤ pos (2 ^ 63 - 1))
