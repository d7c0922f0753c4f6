-- ===== src/Api/Ints.antt =====
-- The signed integers of the C interface: an `int` is a number of -2 ^ 31 to 2 ^ 31 - 1, an `int64_t` one
-- of -2 ^ 63 to 2 ^ 63 - 1. A product is reduced to its range, which is what the compilers do where the
-- language leaves it undefined.
use flag_fft.Prelude.{
  ℕ, zero, suc, ◌+◌, ◌-◌, ◌*◌, ◌/◌, ◌%◌, ◌^◌, Bool, false, ltb, leb, ◌==◌, if◌then◌else◌,
}

-- `negsuc n` is -(n + 1).
pub data ℤ : Type 0 where
  pos negsuc : ℕ → ℤ

unfoldable pub same_int : ℤ → ℤ → Bool
same_int (pos m) (pos n) = m == n
same_int (negsuc m) (negsuc n) = m == n
same_int _ _ = false

unfoldable pub is_pos : ℤ → Bool
is_pos (pos n) = ltb 0 n
is_pos (negsuc n) = false

unfoldable pub neg : ℕ → ℤ
neg zero = pos 0
neg (suc n) = negsuc n

unfoldable pub times : ℤ → ℤ → ℤ
unfolding neg
times (pos m) (pos n) = pos (m * n)
times (pos m) (negsuc n) = neg (m * suc n)
times (negsuc m) (pos n) = neg (suc m * n)
times (negsuc m) (negsuc n) = pos (suc m * suc n)

-- The `int` with these 32 bits.
unfoldable pub int_of_bits : ℕ → ℤ
int_of_bits bits = if ltb bits (2 ^ 31) then pos bits else negsuc (2 ^ 32 - 1 - bits)

unfoldable pub wrap : ℤ → ℤ
unfolding int_of_bits
wrap (pos n) = int_of_bits (n % 2 ^ 32)
wrap (negsuc n) = int_of_bits (2 ^ 32 - 1 - n % 2 ^ 32)

-- The `int64_t` with the low 64 bits of a product.
unfoldable pub wrap64 : ℕ → ℤ
wrap64 n =
    let bits = n % 2 ^ 64 in if ltb bits (2 ^ 63) then pos bits else negsuc (2 ^ 64 - 1 - bits)

-- `i / 2 + 1`, where the division drops the fraction.
unfoldable pub half_plus_one : ℤ → ℤ
half_plus_one (pos n) = pos (n / 2 + 1)
half_plus_one (negsuc n) =
    let half = suc n / 2 in if leb half 1 then pos (1 - half) else negsuc (half - 2)
