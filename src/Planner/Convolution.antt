-- ===== src/Planner/Convolution.antt =====
-- The plans over a convolution, of `src/plan/auto_candidates.cpp`: `next_supported_convolution_length`,
-- `make_bluestein_plan` and `make_rader_plan`.
pub mod Sound
use Prim.Native.String.{String}
use text.Mathlib.Text.{◌==◌ as str_eq}
use flag_fft.Prelude.{
  ℕ, zero, suc, ◌+◌, ◌-◌, ◌*◌, ◌/◌, List, [], ◌∷◌, ◌++◌, Option, none, some, Bool, true, false, not,
  ◌&&◌, ◌||◌, ltb, leb, ◌==◌, if◌then◌else◌, when◌then◌else◌, Result, ok, throws, Env, bad_setting,
}
use flag_fft.Base.{contains, ceil_power_of_two, is_double_dtype}
use flag_fft.Plan.{PlanNode, four_step_plan, bluestein_plan, rader_plan}
use flag_fft.Policy.{is_value}
use flag_fft.Rader.{find_primitive_root, build_rader_index_table}
use flag_fft.Planner.Action.{Action, pure, raise, ◌>>=◌, lift}
use flag_fft.Planner.Context.{RequestContext}
use flag_fft.Planner.Costs.{Recursive}
use flag_fft.Planner.Doubles.{Doubles}
use flag_fft.Planner.Leaves.{State, current_context}
use flag_fft.Planner.Radices.{Factorization, factorize_supported_radices}

unfoldable pub is_empty : {A : Type 0} → List A → Bool
is_empty [] = true
is_empty (x ∷ xs) = false

-- `factorization.remainder == 1 && !factorization.factors.empty()`
unfoldable pub is_complete : Factorization → Bool
unfolding is_empty
is_complete factorization = factorization.remainder == 1 && not (is_empty factorization.factors)

-- A setting that is there, and is none of these values.
unfoldable pub is_refused : Option String → List String → Bool
is_refused none values = false
is_refused (some text) [] = true
is_refused (some text) (value ∷ values) =
    let rest = is_refused (some text) values in if str_eq text value then false else rest

-- A pointer that is not null.
unfoldable pub is_given : Option String → Bool
is_given none = false
is_given (some text) = true

-- Unset, or not "0".
unfoldable pub not_off : Option String → Bool
not_off setting = not (is_value setting "0")

-- The loop `while (candidate <= power / prime)`; the candidate doubles at least.
unfoldable pub multiples : (fuel candidate prime power : ℕ) → List ℕ
multiples zero candidate prime power = []
multiples (suc fuel) candidate prime power =
    let rest = multiples fuel (candidate * prime) prime power in
    if leb candidate (power / prime) then candidate * prime ∷ rest else []

unfoldable pub all_multiples : List ℕ → ℕ → ℕ → List ℕ
unfolding multiples
all_multiples [] prime power = []
all_multiples (base ∷ bases) prime power =
    multiples power base prime power ++ all_multiples bases prime power

-- The products of 2, 3, 5 and 7 up to a power of two.
unfoldable pub small_products : List ℕ → List ℕ → ℕ → List ℕ
unfolding all_multiples
small_products candidates [] power = candidates
small_products candidates (prime ∷ primes) power =
    small_products (candidates ++ all_multiples candidates prime power) primes power

unfoldable pub is_maca_c550_3d_997_fp64 : RequestContext → ℕ → Bool
is_maca_c550_3d_997_fp64 context n =
    str_eq context.device_type "maca"
    && str_eq context.device_arch "102"
    && context.origin_rank == 3
    && is_double_dtype context.input_dtype
    && n == 997

unfoldable pub is_balanced_maca_batch : Env → RequestContext → ℕ → ℕ → Bool
unfolding not_off
is_balanced_maca_batch env context n conv_length =
    str_eq context.device_type "maca"
    && str_eq context.device_arch "102"
    && leb context.origin_rank 1
    && context.batch == 64
    && str_eq context.input_dtype "complex128"
    && n == 524287
    && not_off (env "FLAGFFT_MACA_1D_BATCH")
    && not_off (env "FLAGFFT_MACA_BATCH_PRIME_BALANCED")
    && conv_length == 1048576

unfoldable pub is_tuned_split : Env → RequestContext → ℕ → Bool
unfolding not_off
is_tuned_split env context n =
    str_eq context.device_type "maca"
    && str_eq context.device_arch "102"
    && leb context.origin_rank 1
    && context.batch == 64
    && context.requested_n == n
    && (str_eq context.input_dtype "complex64" || str_eq context.input_dtype "complex128")
    && not_off (env "FLAGFFT_MACA_1D_BATCH")
    && not_off (env "FLAGFFT_MACA_BATCH_RADER_SPLIT")
    && (n == 8191 || n == 16381)

module _ (doubles : Doubles) where
  -- `3.0 * cost + static_cast<double>(length)`
  unfoldable pub convolution_cost : doubles.Double → ℕ → doubles.Double
  convolution_cost cost length =
      doubles.add (doubles.times (doubles.of_int 3) cost) (doubles.of_int length)

  -- The test of a candidate against the best one so far.
  unfoldable pub is_cheaper : doubles.Double → doubles.Double → ℕ → ℕ → Bool
  is_cheaper cost best_cost candidate best =
      doubles.less cost best_cost || (doubles.equal cost best_cost && ltb candidate best)

  -- `add_supported_candidate`
  unfoldable pub add_supported_candidate : List ℕ → ℕ → Action (State doubles) (List ℕ)
  unfolding is_complete
  add_supported_candidate candidates candidate =
      when contains candidates candidate then pure candidates else do
        factorization ← lift (factorize_supported_radices candidate)
        pure (if is_complete factorization then candidates ++ (candidate ∷ []) else candidates)

  -- The loop over the window, with the rounds that are left.
  unfoldable pub add_window : (rounds candidate : ℕ) → List ℕ → Action (State doubles) (List ℕ)
  unfolding add_supported_candidate
  add_window zero candidate candidates = pure candidates
  add_window (suc rounds) candidate candidates = do
    more ← add_supported_candidate candidates candidate
    add_window rounds (suc candidate) more

  module _ (env : Env) (recursive : Recursive doubles) where
    -- The loop over the candidates of the window.
    unfoldable pub cheapest : ℕ → doubles.Double → List ℕ → Action (State doubles) ℕ
    unfolding convolution_cost is_cheaper
    cheapest best best_cost [] = pure best
    cheapest best best_cost (candidate ∷ candidates) = do
      cost ← recursive.cost_for candidate
      let candidate_cost = convolution_cost cost candidate
      when is_cheaper candidate_cost best_cost candidate best
          then cheapest candidate candidate_cost candidates
          else cheapest best best_cost candidates

    unfoldable pub cheapest_of : ℕ → List ℕ → Action (State doubles) ℕ
    unfolding cheapest
    cheapest_of power [] = pure power
    cheapest_of power (front ∷ candidates) = do
      cost ← recursive.cost_for front
      cheapest front (convolution_cost cost front) (front ∷ candidates)

    -- The loop over the products of small primes.
    unfoldable pub cheapest_product : ℕ → ℕ → doubles.Double → List ℕ → Action (State doubles) ℕ
    unfolding convolution_cost is_cheaper is_complete
    cheapest_product minimum best best_cost [] = pure best
    cheapest_product minimum best best_cost (candidate ∷ candidates) =
        when ltb candidate minimum || leb best candidate
        then cheapest_product minimum best best_cost candidates
        else do
          factorization ← lift (factorize_supported_radices candidate)
          when not (is_complete factorization)
              then cheapest_product minimum best best_cost candidates
              else do
                cost ← recursive.cost_for candidate
                let candidate_cost = convolution_cost cost candidate
                when is_cheaper candidate_cost best_cost candidate best
                    then cheapest_product minimum candidate candidate_cost candidates
                    else cheapest_product minimum best best_cost candidates

    unfoldable pub npu_convolution_length : RequestContext → ℕ → ℕ → Action (State doubles) ℕ
    unfolding cheapest_product small_products is_refused not_off is_given
    npu_convolution_length context minimum power =
        let smooth_setting = env "FLAGFFT_NPU_2D_BLUESTEIN_SMOOTH_CONV" in
        when is_refused smooth_setting ("0" ∷ "1" ∷ "auto" ∷ [])
        then raise (bad_setting "FLAGFFT_NPU_2D_BLUESTEIN_SMOOTH_CONV")
        else when context.origin_rank == 2 && is_given smooth_setting && not_off smooth_setting
        then (do
          cost ← recursive.cost_for power
          cheapest_product minimum power (convolution_cost cost power)
              (small_products (1 ∷ []) (2 ∷ 3 ∷ 5 ∷ 7 ∷ []) power))
        else pure power

    unfoldable pub window_length : RequestContext → ℕ → ℕ → Action (State doubles) ℕ
    unfolding add_window cheapest_of
    window_length context minimum power =
        let is_fp32 =
          str_eq context.input_dtype "complex64" || str_eq context.input_dtype "float32" in
        let local_limit = if ltb 4096 (power - minimum) then minimum + 4096 else power in
        when is_fp32 && leb power 1048576 then pure power else do
          window ← add_window (local_limit + 1 - minimum) minimum []
          candidates ← add_supported_candidate window power
          cheapest_of power candidates

    unfoldable pub next_supported_convolution_length : ℕ → Action (State doubles) ℕ
    unfolding npu_convolution_length window_length
    next_supported_convolution_length minimum = when leb minimum 1 then pure 1 else do
      context ← current_context doubles
      let power = ceil_power_of_two minimum
      when str_eq context.device_type "npu"
          then npu_convolution_length context minimum power
          else window_length context minimum power

    -- A four-step plan of two automatic children.
    unfoldable pub split_node : ℕ → ℕ → ℕ → Action (State doubles) PlanNode
    split_node n n1 n2 = do
      row ← recursive.build_auto_node n1 false
      col ← recursive.build_auto_node n2 false
      pure (four_step_plan n n1 n2 row col)

    unfoldable pub make_bluestein_plan : ℕ → Action (State doubles) PlanNode
    unfolding next_supported_convolution_length is_maca_c550_3d_997_fp64 is_balanced_maca_batch
        split_node
    make_bluestein_plan n = do
      supported ← next_supported_convolution_length (2 * n - 1)
      context ← current_context doubles
      let conv_length = if is_maca_c550_3d_997_fp64 context n then 2048 else supported
      fft_plan ←
          when is_balanced_maca_batch env context n conv_length
          then split_node conv_length 1024 1024
          else recursive.build_auto_node conv_length false
      pure (bluestein_plan n conv_length fft_plan)

    unfoldable pub make_rader_plan : ℕ → Action (State doubles) PlanNode
    unfolding is_tuned_split split_node
    make_rader_plan n = do
      root ← lift (find_primitive_root n)
      idx ← lift (build_rader_index_table n root)
      context ← current_context doubles
      let n1 = if n == 8191 then 90 else 91
      let n2 = if n == 8191 then 91 else 180
      conv_plan ←
          when is_tuned_split env context n
          then split_node (n - 1) n1 n2
          else recursive.build_auto_node (n - 1) false
      pure (rader_plan n root idx conv_plan)
