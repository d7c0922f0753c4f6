-- ===== src/Planner/Divisors.antt =====
-- `PlanBuilder::enumerate_divisors` of `src/plan/auto_candidates.cpp`, with its memo table.
pub mod Exact
pub mod Divided
use flag_fft.Prelude.{
  ℕ, zero, suc, ◌+◌, ◌/◌, ◌%◌, List, [], ◌∷◌, Option, none, some, ◌==◌, if◌then◌else◌,
}
use flag_fft.Plan.{sort_numbers}

-- `divisor_cache_`, the newest entry first.
abbrev pub DivisorCache : Type 0
DivisorCache = List (ℕ × List ℕ)

unfoldable pub find_divisors : ℕ → DivisorCache → Option (List ℕ)
find_divisors n [] = none
find_divisors n ((m, divisors) ∷ cache) = if m == n then some divisors else find_divisors n cache

-- The loop over the divisors up to the root, each with its mate, with the rounds that are left.
unfoldable pub divisors_from : (rounds divisor n : ℕ) → List ℕ
divisors_from zero divisor n = []
divisors_from (suc rounds) divisor n =
    let rest = divisors_from rounds (suc divisor) n in
    if n % divisor == 0
    then (if n / divisor == divisor then divisor ∷ rest else divisor ∷ n / divisor ∷ rest)
    else rest

unfoldable pub divisors_or :
    (root : ℕ → ℕ) → DivisorCache → ℕ → Option (List ℕ) → List ℕ × DivisorCache
unfolding divisors_from
divisors_or root cache n (some divisors) = (divisors, cache)
divisors_or root cache n none =
    let divisors = sort_numbers (divisors_from (root n) 1 n) in (divisors, (n, divisors) ∷ cache)

-- `root` is the integer part of the floating-point square root.
unfoldable pub enumerate_divisors : (root : ℕ → ℕ) → DivisorCache → ℕ → List ℕ × DivisorCache
unfolding find_divisors divisors_or
enumerate_divisors root cache n = divisors_or root cache n (find_divisors n cache)
