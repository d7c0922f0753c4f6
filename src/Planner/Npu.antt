-- ===== src/Planner/Npu.antt =====
-- The candidates on Ascend devices: the first branch of `build_auto_candidates` of
-- `src/plan/auto_candidates.cpp`. Each group of tests and early returns is a definition; `none` stands for
-- going on to the next one.
pub mod Factors
pub mod Sound
pub mod Returns
pub mod Total
pub mod Ends
pub mod Powers
pub mod Unset
use Prim.Native.String.{String}
use text.Mathlib.Text.{◌==◌ as str_eq}
use flag_fft.Prelude.{
  ℕ, zero, suc, ◌+◌, ◌*◌, ◌/◌, ◌%◌, List, [], ◌∷◌, ◌++◌, Option, none, some, Bool, true, false, not,
  ◌&&◌, ◌||◌, ltb, leb, ◌==◌, if◌then◌else◌, when◌then◌else◌, length, Env, Result, ok, throws,
  bad_setting, unsupported_radix,
}
use flag_fft.Plan.{PlanNode, direct_dft_plan, stockham_plan, four_step_plan}
use flag_fft.Policy.{is_value}
use flag_fft.Api.Ints.{ℤ, pos, negsuc, same_int, is_pos}
use flag_fft.Api.Request.{magnitude}
use flag_fft.Planner.Action.{Action, pure, raise, visit, ◌>>=◌, lift}
use flag_fft.Planner.Context.{RequestContext}
use flag_fft.Planner.Convolution.{
  is_empty, is_complete, is_refused, make_bluestein_plan, not_off, is_given,
}
use flag_fft.Planner.Costs.{Recursive, priority, estimate_direct_dft_cost}
use flag_fft.Planner.Divisors.{enumerate_divisors}
use flag_fft.Planner.Doubles.{Doubles}
use flag_fft.Planner.Lanes.{should_use_leaf}
use flag_fft.Planner.Leaves.{
  State, current_context, select_leaf_factors, make_leaf_plan, estimate_leaf_warm_cost,
}
use flag_fft.Planner.Radices.{Factorization, factorize_supported_radices}
use flag_fft.Planner.Strings.{Strings, read_number, accepted}

-- `PlanCandidate`
pub record PlanCandidate (doubles : Doubles) : Type 0 where
  pub node : PlanNode
  pub cost : doubles.Double
  pub rank : ℕ

unfoldable pub checked_switch : Env → String → Result Bool
unfolding is_refused
checked_switch env name =
    when is_refused (env name) ("0" ∷ "1" ∷ [])
    then throws (bad_setting name)
    else ok (is_value (env name) "1")

-- FLAGFFT_NPU_2D_DIRECT_DFT_MAX: 0, 64 or 128, which is also the value when it is unset.
unfoldable pub is_direct_max : ℤ → Bool
is_direct_max value = same_int value (pos 0) || same_int value (pos 64) || same_int value (pos 128)

unfoldable pub direct_dft_max : Strings → Option String → Result ℤ
unfolding read_number accepted is_direct_max
direct_dft_max strings none = ok (pos 128)
direct_dft_max strings (some text) =
    accepted is_direct_max "FLAGFFT_NPU_2D_DIRECT_DFT_MAX" (read_number strings text)

unfoldable pub is_complex64 : RequestContext → Bool
is_complex64 context =
    str_eq context.input_dtype "complex64" && str_eq context.output_dtype "complex64"

-- The length of a two-dimensional leaf: measured, or set.
unfoldable pub is_above_one : ℤ → Bool
is_above_one (pos n) = ltb 1 n
is_above_one (negsuc n) = false

unfoldable pub leaf_length : Strings → Option String → ℕ → Bool → Result ℤ
unfolding read_number accepted is_above_one
leaf_length strings none n measured = ok (pos (if measured then n else 0))
leaf_length strings (some text) n measured =
    accepted is_above_one "FLAGFFT_NPU_2D_LEAF_LENGTH" (read_number strings text)

-- The loop over the radices that a setting lists; their product so far does not exceed `n`.
unfoldable pub add_radix :
    ℕ → ℕ → List ℕ → Result ℤ → (ℕ → List ℕ → Result (List ℕ)) → Result (List ℕ)
add_radix n product factors (throws e) next = throws e
add_radix n product factors (ok (negsuc radix)) next =
    throws (bad_setting "FLAGFFT_NPU_2D_LEAF_FACTORS")
add_radix n product factors (ok (pos radix)) next =
    if ltb (n / radix) product
    then throws (bad_setting "FLAGFFT_NPU_2D_LEAF_FACTORS")
    else next (product * radix) (factors ++ (radix ∷ []))

unfoldable pub listed_radices : Strings → ℕ → (product : ℕ) → List ℕ → List String → Result (List ℕ)
unfolding add_radix read_number accepted is_above_one
listed_radices strings n product factors [] =
    if product == n then ok factors else throws (bad_setting "FLAGFFT_NPU_2D_LEAF_FACTORS")
listed_radices strings n product factors (token ∷ tokens) =
    add_radix n product factors
      (accepted is_above_one "FLAGFFT_NPU_2D_LEAF_FACTORS" (read_number strings token))
      (λ product' factors'. listed_radices strings n product' factors' tokens)

-- The factors of a two-dimensional leaf: those of the setting, 8 by 8, or the selected ones.
unfoldable pub leaf_factors : Strings → Option String → ℕ → List ℕ → Result (List ℕ)
unfolding listed_radices
leaf_factors strings none n selected = ok (if n == 64 then 8 ∷ 8 ∷ [] else selected)
leaf_factors strings (some spec) n selected = listed_radices strings n 1 [] (strings.split "x" spec)

abbrev pub natural_radices : List ℕ
natural_radices = 19 ∷ 17 ∷ 15 ∷ 13 ∷ 12 ∷ 11 ∷ 10 ∷ 9 ∷ 8 ∷ 7 ∷ 6 ∷ 5 ∷ 4 ∷ 3 ∷ 2 ∷ []

-- The loop `while (factor % radix == 0)`, with what it pushes and what is left.
unfoldable pub take_radix : (fuel radix factor : ℕ) → List ℕ × ℕ
take_radix zero radix factor = ([], factor)
take_radix (suc fuel) radix factor =
    let rest = take_radix fuel radix (factor / radix) in
    if factor % radix == 0 then (radix ∷ rest.0, rest.1) else ([], factor)

unfoldable pub take_radices : List ℕ → ℕ → List ℕ × ℕ
unfolding take_radix
take_radices [] factor = ([], factor)
take_radices (radix ∷ radices) factor =
    let here = take_radix factor radix factor in
    let later = take_radices radices here.1 in (here.0 ++ later.0, later.1)

unfoldable pub join_taken : List ℕ → Bool → Result (List ℕ) → Result (List ℕ)
join_taken taken true (ok rest) = ok (taken ++ rest)
join_taken taken true (throws e) = throws e
join_taken taken false rest = throws unsupported_radix

-- The loop that splits composite radices.
unfoldable pub natural_factors : List ℕ → Result (List ℕ)
unfolding take_radices join_taken
natural_factors [] = ok []
natural_factors (factor ∷ factors) =
    let rest = natural_factors factors in
    let taken = take_radices natural_radices factor in join_taken taken.0 (taken.1 == 1) rest

unfoldable pub has_other_than_two : List ℕ → Bool
has_other_than_two [] = false
has_other_than_two (radix ∷ factors) = not (radix == 2) || has_other_than_two factors

unfoldable pub is_small_prime_setting : Env → ℕ → Bool
unfolding not_off
is_small_prime_setting env n =
    let prime_mode = env "FLAGFFT_NPU_STOCKHAM_PRIME" in
    (is_given prime_mode && not_off prime_mode)
    || (not (n % 13 == 0) && not (n % 17 == 0) && not (n % 19 == 0))

-- The best balanced split so far: its sides with their factors.
pub record Split : Type 0 where
  pub n1 : ℕ
  pub n2 : ℕ
  pub row_factors : List ℕ
  pub col_factors : List ℕ

abbrev pub make_split : ℕ → ℕ → List ℕ → List ℕ → Split
make_split n1 n2 row_factors col_factors = record {
  n1 = n1;
  n2 = n2;
  row_factors = row_factors;
  col_factors = col_factors;
}

module _ (doubles : Doubles) where
  abbrev pub Candidates : Type 0
  Candidates = List (PlanCandidate doubles)

  abbrev pub candidate_of : PlanNode → doubles.Double → PlanCandidate doubles
  candidate_of node cost = record { node = node; cost = cost; rank = priority node }

  -- `return {{node, cost, priority(node)}}`
  unfoldable pub only : PlanNode → doubles.Double → Action (State doubles) Candidates
  only node cost = pure (candidate_of node cost ∷ [])

  -- The statements after a group that may return.
  unfoldable pub or_else :
      Option Candidates → Action (State doubles) Candidates → Action (State doubles) Candidates
  or_else (some candidates) next = pure candidates
  or_else none next = next

  unfoldable pub direct_only : ℕ → Action (State doubles) Candidates
  unfolding only estimate_direct_dft_cost
  direct_only n = only (direct_dft_plan n) (estimate_direct_dft_cost doubles n)

  unfoldable pub leaf_only : ℕ → List ℕ → Action (State doubles) Candidates
  unfolding only
  leaf_only n factors = do
    node ← make_leaf_plan doubles n factors
    cost ← estimate_leaf_warm_cost doubles n factors
    only node cost

  -- `enumerate_divisors(n)` with `divisor_cache_`.
  unfoldable pub divisors_of : ℕ → State doubles → List ℕ × State doubles
  divisors_of n state =
      let (divisors, cache) = enumerate_divisors doubles.floor_sqrt state.divisor_cache n in
      (
        divisors,
        record {
          context = state.context;
          parallel_leaf_heuristic_enabled = state.parallel_leaf_heuristic_enabled;
          node_cache = state.node_cache;
          cost_cache = state.cost_cache;
          divisor_cache = cache;
          factorization_cache = state.factorization_cache;
          best_leaf_factors_cache = state.best_leaf_factors_cache;
        },
      )

  unfoldable pub balance_of : ℕ → ℕ → doubles.Double
  balance_of n1 n2 =
      doubles.abs
        (doubles.subtract (doubles.log (doubles.of_int n2)) (doubles.log (doubles.of_int n1)))

  unfoldable pub balanced_split :
      ℕ → Option Split → doubles.Double → List ℕ → Action (State doubles) (Option Split)
  unfolding is_complete balance_of
  balanced_split n best best_balance [] = pure best
  balanced_split n best best_balance (n1 ∷ divisors) =
      let n2 = n / n1 in
      when leb n1 1 || leb n2 n1 then balanced_split n best best_balance divisors else do
        row ← lift (factorize_supported_radices n1)
        col ← lift (factorize_supported_radices n2)
        when not (is_complete row) || not (is_complete col)
            then balanced_split n best best_balance divisors
            else when doubles.less (balance_of n1 n2) best_balance
            then balanced_split n (some (make_split n1 n2 row.factors col.factors))
                (balance_of n1 n2) divisors
            else balanced_split n best best_balance divisors

  unfoldable pub split_only : ℕ → Option Split → Action (State doubles) (Option Candidates)
  split_only n none = pure none
  split_only n (some split) =
      let node =
        four_step_plan n split.n1 split.n2 (stockham_plan split.n1 split.row_factors)
          (stockham_plan split.n2 split.col_factors) in
      pure (
        some (
          candidate_of node (
            doubles.times (doubles.of_int n)
              (doubles.of_int (length split.row_factors + length split.col_factors + 2)))
          ∷ []))

  module _ (env : Env) (strings : Strings) (recursive : Recursive doubles) where
    -- The leaves of two dimensions.
    unfoldable pub leaf_2d : ℕ → Action (State doubles) Candidates
    unfolding leaf_factors leaf_only
    leaf_2d n = do
      context ← current_context doubles
      selected ← select_leaf_factors doubles env n
      factors ← lift (leaf_factors strings (env "FLAGFFT_NPU_2D_LEAF_FACTORS") n selected)
      when not (should_use_leaf context n factors)
          then raise (bad_setting "FLAGFFT_NPU_2D_LEAF_LENGTH")
          else leaf_only n factors

    -- The leaves of three dimensions.
    unfoldable pub leaf_3d : RequestContext → Bool → ℕ → Action (State doubles) (Option Candidates)
    unfolding leaf_only is_complex64
    leaf_3d context use_leaf n =
        when use_leaf && context.origin_rank == 3 && is_complex64 context && (n == 16 || n == 256)
        then (do
          factors ← select_leaf_factors doubles env n
          when should_use_leaf context n factors
              then (do found ← leaf_only n factors; pure (some found))
              else pure none)
        else pure none

    unfoldable pub is_cube_dft : RequestContext → Bool → Factorization → ℕ → Bool
    unfolding is_complex64 is_complete
    is_cube_dft context use_cube_dft factorization n =
        let cube_supported_length = leb 32 n && leb n 64 && is_complete factorization in
        let cube_high_batch = leb 1024 context.batch in
        let cube_small_batch_64 = n == 64 && leb context.batch 512 in
        use_cube_dft
        && context.origin_rank == 2
        && is_complex64 context
        && str_eq context.real_transform_kind ""
        && cube_supported_length
        && (cube_high_batch || cube_small_batch_64)

    unfoldable pub factor_split :
        RequestContext → Bool → Factorization → ℕ → Action (State doubles) (Option Candidates)
    unfolding is_complex64 is_complete has_other_than_two divisors_of balanced_split split_only
    factor_split context use_split factorization n =
        when use_split
          && context.origin_rank == 2
          && is_complex64 context
          && leb 1024 n
          && is_complete factorization
          && has_other_than_two factorization.factors
        then (do
          divisors ← visit (divisors_of n)
          best ← balanced_split n none doubles.infinity divisors
          split_only n best)
        else pure none

    -- Stockham stages where the radices allow them, a short transform by its definition, or Bluestein.
    unfoldable pub stockham_or_bluestein : Factorization → ℕ → Action (State doubles) Candidates
    unfolding is_small_prime_setting natural_factors only estimate_direct_dft_cost direct_only
    stockham_or_bluestein factorization n =
        when ltb 1 n && factorization.remainder == 1 && is_small_prime_setting env n
        then (do
          factors ← lift (natural_factors factorization.factors)
          only (stockham_plan n factors) (doubles.of_int (n * length factors)))
        else when leb n 128
        then direct_only n
        else do
          node ← make_bluestein_plan doubles env recursive n
          only node (estimate_direct_dft_cost doubles n)

    -- From the tests of short transforms in two dimensions on.
    unfoldable pub npu_rest : RequestContext → ℤ → ℕ → Action (State doubles) Candidates
    unfolding is_complex64 direct_only factor_split or_else stockham_or_bluestein checked_switch
    npu_rest context direct_max n =
        when context.origin_rank == 2
          && is_complex64 context
          && leb context.batch 512
          && ltb 1 n
          && leb n (magnitude direct_max)
        then direct_only n
        else do
          factorization ← lift (factorize_supported_radices n)
          use_split ← lift (checked_switch env "FLAGFFT_NPU_2D_FACTOR_SPLIT")
          found ← factor_split context use_split factorization n
          or_else found (stockham_or_bluestein factorization n)

    -- From the setting of the cube kernels on.
    unfoldable pub npu_2d : RequestContext → ℤ → ℕ → Action (State doubles) Candidates
    unfolding checked_switch is_cube_dft direct_only leaf_length is_complex64 leaf_2d npu_rest
    npu_2d context direct_max n = do
      use_cube_dft ← lift (checked_switch env "FLAGFFT_NPU_2D_CUBE_DFT")
      cube ← lift (factorize_supported_radices n)
      when is_cube_dft context use_cube_dft cube n then direct_only n else do
        let transform =
            str_eq context.real_transform_kind "r2c"
            || str_eq context.real_transform_kind "c2r"
            || str_eq context.real_transform_kind ""
        let measured = context.origin_rank == 2 && n == 64 && transform
        let setting = env "FLAGFFT_NPU_2D_LEAF_LENGTH"
        length ← lift (leaf_length strings setting n measured)
        when context.origin_rank == 2
              && is_complex64 context
              && (measured || is_given setting)
              && same_int length (pos n)
            then leaf_2d n
            else npu_rest context direct_max n

    unfoldable pub npu_candidates : ℕ → Action (State doubles) Candidates
    unfolding direct_dft_max checked_switch is_complex64 leaf_only leaf_3d or_else npu_2d
    npu_candidates n = do
      context ← current_context doubles
      direct_max ← lift (direct_dft_max strings (env "FLAGFFT_NPU_2D_DIRECT_DFT_MAX"))
      use_leaf ← lift (checked_switch env "FLAGFFT_NPU_3D_LEAF")
      use_aiv_small ← lift (checked_switch env "FLAGFFT_NPU_3D_AIV_SMALL")
      when use_aiv_small && context.origin_rank == 3 && is_complex64 context && (n == 16 || n == 32)
          then (do factors ← select_leaf_factors doubles env n; leaf_only n factors)
          else do found ← leaf_3d context use_leaf n; or_else found (npu_2d context direct_max n)
