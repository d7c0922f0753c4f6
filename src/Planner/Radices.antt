-- ===== src/Planner/Radices.antt =====
-- `factorize_supported_radices` and `factorize_or_raise` of `src/plan/factorization.cpp`.
pub mod Greedy
pub mod Smooth
use flag_fft.Prelude.{
  ℕ, zero, suc, ◌/◌, ◌%◌, List, [], ◌∷◌, Option, none, some, ltb, ◌==◌, if◌then◌else◌, Result, ok,
  throws, ◌>>=◌, length_not_positive, not_factorable, no_radix_stage,
}
use flag_fft.Base.{supported_radices}

pub record Factorization : Type 0 where
  pub factors : List ℕ
  pub remainder : ℕ

-- The inner loop of `factorize_supported_radices`: the first radix of the list that divides.
unfoldable pub first_radix : List ℕ → ℕ → Option ℕ
first_radix [] rem = none
first_radix (radix ∷ radices) rem = if rem % radix == 0 then some radix else first_radix radices rem

-- The outer loop. A radix is at least 2, so the remainder halves at least, and bounds the rounds.
unfoldable pub divide_out : (fuel rem : ℕ) → Factorization
divide_out zero rem = record { factors = []; remainder = rem }
divide_out (suc fuel) rem =
    if ltb 1 rem
    then elim (first_radix supported_radices rem) [
      | none ↦ record { factors = []; remainder = rem }
      | some radix ↦
          let rest = divide_out fuel (rem / radix) in
          record { factors = radix ∷ rest.factors; remainder = rest.remainder }
    ]
    else record { factors = []; remainder = rem }

unfoldable pub factorize_supported_radices : ℕ → Result Factorization
factorize_supported_radices n = if n == 0 then throws length_not_positive else ok (divide_out n n)

-- The checks of `factorize_or_raise` on a factorization.
unfoldable pub checked_factors : Factorization → Result (List ℕ)
checked_factors (f) =
    if f.remainder == 1
    then elim f.factors [ [] ↦ throws no_radix_stage | radix ∷ radices ↦ ok (radix ∷ radices) ]
    else throws not_factorable

unfoldable pub factorize_or_raise : ℕ → Result (List ℕ)
factorize_or_raise n = factorize_supported_radices n >>= checked_factors
