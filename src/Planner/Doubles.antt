-- ===== src/Planner/Doubles.antt =====
-- The floating-point arithmetic of the cost model, as an interface: `double`, its operations and the
-- functions of `<cmath>` that the planner calls.
use flag_fft.Prelude.{ℕ, Bool, when◌then◌else◌}
use flag_fft.Api.Ints.{ℤ}

pub record Doubles : Type 1 where
  pub Double : Type 0
  -- A conversion from an integer, which is also how the literals that are integers are written.
  pub of_int : ℕ → Double
  -- The literals 0.25 and 0.99.
  pub quarter : Double
  pub most : Double
  pub add : Double → Double → Double
  pub subtract : Double → Double → Double
  pub times : Double → Double → Double
  pub divide : Double → Double → Double
  pub less : Double → Double → Bool
  pub equal : Double → Double → Bool
  pub log : Double → Double
  pub abs : Double → Double
  -- `std::numeric_limits<double>::infinity()`
  pub infinity : Double
  pub llround : Double → ℤ
  -- The integer part of `std::sqrt`.
  pub floor_sqrt : ℕ → ℕ

module _ (doubles : Doubles) where
  -- `std::max(a, b)` is `a` unless `a < b`, and `std::min(a, b)` is `a` unless `b < a`.
  unfoldable pub max_double : doubles.Double → doubles.Double → doubles.Double
  max_double a b = when doubles.less a b then b else a

  unfoldable pub min_double : doubles.Double → doubles.Double → doubles.Double
  min_double a b = when doubles.less b a then b else a
