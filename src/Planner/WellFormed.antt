-- ===== src/Planner/WellFormed.antt =====
-- What a plan tree has to be, whatever device and costs it was picked for, and what the planner's
-- memo tables may hold.
use mathlib.Core.Option.{some-injective}
use flag_fft.Prelude.{
  ==_iff, ℕ, ◌-◌, ◌*◌, ◌%◌, ◌≤◌, List, [], ◌∷◌, ◌≡◌, ok, product, All, In, subst, true, ◌==◌, inl,
  inr, Bool-cases, all_of-In, some, arith,
}
use flag_fft.Base.{contains, supported_radices}
use flag_fft.Rader.{find_primitive_root, build_rader_index_table}
use flag_fft.Plan.{
  PlanNode, leaf_plan, direct_dft_plan, stockham_plan, four_step_plan, bluestein_plan, rader_plan,
  two_dim_plan, three_dim_plan, length_of,
}
use flag_fft.Planner.Context.{BuilderState}
use flag_fft.Planner.Enumerate.Exact.{AllSupported, IsSound}
use flag_fft.Planner.Measured.Splits.{IsSplit}
use flag_fft.Planner.Leaves.{look_up}

-- Supported radices with this product.
abbrev pub IsFactors : ℕ → List ℕ → Type 0
IsFactors n factors = (product factors ≡ n) × AllSupported factors

-- Leaves multiply to their length by supported radices; the children of a four-step plan have the lengths
-- of its two sides; a Bluestein plan has a convolution that is long enough, and a Rader plan has
-- the index table of a primitive root and a convolution of its prime less one.
abbrev pub IsPlan : PlanNode → Type 0
IsPlan (leaf_plan n factors remainder lanes num_warps generic_radices smem_size) =
    IsFactors n factors
IsPlan (direct_dft_plan n) = Unit
IsPlan (stockham_plan n factors) = product factors ≡ n
IsPlan (four_step_plan n n1 n2 row_plan col_plan) =
    (n1 * n2 ≡ n)
    × (length_of row_plan ≡ n1)
    × (length_of col_plan ≡ n2)
    × IsPlan row_plan
    × IsPlan col_plan
IsPlan (bluestein_plan n conv_length fft_plan) =
    (2 * n - 1 ≤ conv_length) × (length_of fft_plan ≡ conv_length) × IsPlan fft_plan
IsPlan (rader_plan p root idx conv_plan) =
    (find_primitive_root p ≡ ok root)
    × (build_rader_index_table p root ≡ ok idx)
    × (length_of conv_plan ≡ p - 1)
    × IsPlan conv_plan
IsPlan (two_dim_plan n0 n1 strategy row_plan col_plan) =
    (length_of row_plan ≡ n1) × (length_of col_plan ≡ n0) × IsPlan row_plan × IsPlan col_plan
IsPlan (three_dim_plan n0 n1 n2 strategy n2_plan n1_plan n0_plan) =
    (length_of n2_plan ≡ n2)
    × (length_of n1_plan ≡ n1)
    × (length_of n0_plan ≡ n0)
    × IsPlan n2_plan
    × IsPlan n1_plan
    × IsPlan n0_plan

-- A plan for a length.
abbrev pub IsPlanOf : ℕ → PlanNode → Type 0
IsPlanOf n node = IsPlan node × (length_of node ≡ n)

abbrev pub IsDivided : ℕ → List ℕ → Type 0
IsDivided n divisors = All (λ d. n % d ≡ 0) divisors

-- Every memo table of the planner answers its own questions.
pub record IsGood {Cost : Type 0} (state : BuilderState PlanNode Cost) : Type 0 where
  pub nodes : All (λ entry. IsPlanOf (entry).0 (entry).1) state.node_cache
  pub divisors : All (λ entry. IsDivided (entry).0 (entry).1) state.divisor_cache
  pub factorizations : IsSound state.factorization_cache
  pub leaves : All (λ entry. IsFactors (entry).0 (entry).1) state.best_leaf_factors_cache

pub In-of_contains : (xs : List ℕ) (x : ℕ) → contains xs x ≡ true → In x xs
unfolding contains
In-of_contains [] x h = cc
In-of_contains (y ∷ ys) x h = elim (Bool-cases (y == x)) [
  | inl e ↦ inl (ground arith)
  | inr e ↦ inr (In-of_contains ys x (rw e at h))
]

pub IsFactors-of_IsSplit : (n : ℕ) (factors : List ℕ) → IsSplit n factors → IsFactors n factors
IsFactors-of_IsSplit n factors (whole, all) =
    (whole, λ r m. In-of_contains supported_radices r (all_of-In _ factors r all m))

-- A look-up gives what all entries have.
pub look_up_lem :
    {A : Type 0} (P : ℕ → A → Type 0) (n : ℕ) (table : List (ℕ × A)) (a : A)
    → All (λ entry. P (entry).0 (entry).1) table
    → look_up n table ≡ some a
    → P n a
unfolding look_up
look_up_lem P n [] a h e = cc
look_up_lem P n ((m, b) ∷ table) a (p, h) e = elim (Bool-cases (m == n)) [
  | inl same ↦
      subst (λ k. P k a) ((==_iff m n).0 same) (subst (P m) (some-injective b a (rw same at e)) p)
  | inr other ↦ look_up_lem P n table a h (rw other at e)
]
