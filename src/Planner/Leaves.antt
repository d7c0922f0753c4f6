-- ===== src/Planner/Leaves.antt =====
-- Leaf plans: the cost of a leaf of `src/plan/cost_model.cpp`, and `score_leaf_factorization`,
-- `select_leaf_factors` and `make_leaf_plan` of `src/plan/factorization.cpp`.
pub mod Factors
use Prim.Native.String.{String}
use text.Mathlib.Text.{◌==◌ as str_eq}
use flag_fft.Prelude.{
  ℕ, zero, suc, ◌+◌, ◌*◌, ◌/◌, ◌%◌, min, max, List, [], ◌∷◌, map, Option, none, some, Bool, true,
  false, not, ◌&&◌, ◌||◌, ltb, leb, ◌==◌, if◌then◌else◌, when◌then◌else◌, all_of, length, Env,
  unsupported_dtype,
}
use flag_fft.Base.{
  contains, supported_radices, specialized_butterfly_radices, specialized_direct_codelet_radices,
  ceil_power_of_two, lane_block_for, is_double_dtype,
}
use flag_fft.Plan.{PlanNode, leaf_plan, generic_radices_of}
use flag_fft.Api.Ints.{ℤ, pos, negsuc, neg, same_int}
use flag_fft.Planner.Action.{Action, pure, raise, stop, read, modify, visit, ◌>>=◌, ◌>>◌, lift}
use flag_fft.Planner.Context.{RequestContext, BuilderState, request_context}
use flag_fft.Planner.Doubles.{Doubles, max_double}
use flag_fft.Planner.Enumerate.{enumerate_supported_factorizations}
use flag_fft.Planner.Lanes.{
  choose_lanes, choose_num_warps, divisor_below, leaf_smem_elements, should_use_leaf,
}
use flag_fft.Planner.Measured.{measured_factors}
use flag_fft.Planner.Radices.{factorize_or_raise}

-- A radix without a codelet of its own, and the number of such stages.
unfoldable pub is_generic : ℕ → Bool
is_generic radix =
    not (contains specialized_butterfly_radices radix)
    && not (contains specialized_direct_codelet_radices radix)

unfoldable pub generic_stage_count : List ℕ → ℕ
unfolding is_generic
generic_stage_count [] = 0
generic_stage_count (radix ∷ factors) =
    (if is_generic radix then 1 else 0) + generic_stage_count factors

-- `std::vector<int64_t>(size, value)`
unfoldable pub repeat : ℕ → ℕ → List ℕ
repeat zero value = []
repeat (suc size) value = value ∷ repeat size value

-- `std::max_element` and `std::min_element` of the elements and one more.
unfoldable pub greatest : ℕ → List ℕ → ℕ
greatest x [] = x
greatest x (y ∷ ys) = greatest (max x y) ys

unfoldable pub least : ℕ → List ℕ → ℕ
least x [] = x
least x (y ∷ ys) = least (min x y) ys

-- The test `*min * 4 < *max` on a vector that is not empty.
unfoldable pub is_uneven : List ℕ → Bool
unfolding greatest least
is_uneven [] = false
is_uneven (x ∷ xs) = ltb (least x xs * 4) (greatest x xs)

-- The lanes of each stage on its own: the greatest divisor of its codelets that is not above 128.
unfoldable pub stage_lanes_of : ℕ → List ℕ → List ℕ
unfolding divisor_below
stage_lanes_of n factors = map (λ radix. divisor_below (n / radix) (min (n / radix) 128)) factors

unfoldable pub estimated_stage_lanes : ℕ → List ℕ → ℕ → Bool → List ℕ
unfolding repeat stage_lanes_of is_uneven
estimated_stage_lanes n factors base_lanes is_double =
    let fixed_lanes_are_compatible = all_of (λ radix. (n / radix) % base_lanes == 0) factors in
    let result = stage_lanes_of n factors in
    if ltb n 128
      || ltb 4096 n
      || ltb (length factors) 2
      || (ltb 32 base_lanes && fixed_lanes_are_compatible)
    then repeat (length factors) base_lanes
    else if not is_double && fixed_lanes_are_compatible && is_uneven result
    then repeat (length factors) base_lanes
    else result

-- `-value`
unfoldable pub negate : ℤ → ℤ
unfolding neg
negate (pos n) = neg n
negate (negsuc n) = pos (suc n)

unfoldable pub less_int : ℤ → ℤ → Bool
less_int (pos m) (pos n) = ltb m n
less_int (pos m) (negsuc n) = false
less_int (negsuc m) (pos n) = true
less_int (negsuc m) (negsuc n) = ltb n m

-- `score > other`, in the order of `std::vector`.
unfoldable pub is_better : List ℤ → List ℤ → Bool
unfolding less_int same_int
is_better [] other = false
is_better (x ∷ xs) [] = true
is_better (x ∷ xs) (y ∷ ys) =
    let rest = is_better xs ys in
    if less_int y x then true else if same_int x y then rest else false

-- A look-up in a table whose newest entry stands first.
unfoldable pub look_up : {A : Type 0} → ℕ → List (ℕ × A) → Option A
look_up n [] = none
look_up n ((m, a) ∷ table) = let rest = look_up n table in if m == n then some a else rest

module _ (doubles : Doubles) where
  -- The state of `PlanBuilder`.
  abbrev pub State : Type 0
  State = BuilderState PlanNode doubles.Double

  unfoldable pub current_context : Action State RequestContext
  current_context state = lift (request_context state) state

  -- `base` and what the stages add to it.
  unfoldable pub stage_cost : ℕ → doubles.Double → List ℕ → doubles.Double
  stage_cost work base [] = base
  stage_cost work base (lanes ∷ stage_lanes) =
      stage_cost work
        (doubles.add base (doubles.divide (doubles.of_int work) (doubles.of_int lanes))) stage_lanes

  unfoldable pub warm_cost :
      Option RequestContext → Bool → ℕ → List ℕ → (active_lanes : ℕ) → List ℕ → doubles.Double
  unfolding stage_cost max_double generic_stage_count
  warm_cost context is_double n factors active_lanes stage_lanes =
      let warps = choose_num_warps context active_lanes in
      let base = stage_cost (n * warps) (doubles.of_int 0) stage_lanes in
      let real_bytes = if is_double then 8 else 4 in
      let shared_bytes = 4 * ceil_power_of_two n * real_bytes in
      let shared_pressure =
        max_double doubles (doubles.of_int 1)
          (doubles.divide (doubles.of_int shared_bytes) (doubles.of_int (64 * 1024))) in
      doubles.times (doubles.add base (doubles.of_int (generic_stage_count factors * n)))
        shared_pressure

  -- The greatest element of an empty vector is undefined behaviour.
  unfoldable pub cost_of_stages :
      RequestContext → Bool → ℕ → List ℕ → List ℕ → Action State doubles.Double
  unfolding warm_cost greatest
  cost_of_stages context is_double n factors [] = stop
  cost_of_stages context is_double n factors (lanes ∷ stage_lanes) = pure (
      warm_cost (some context) is_double n factors (greatest lanes stage_lanes)
        (lanes ∷ stage_lanes))

  -- `choose_lanes` of no factors is undefined behaviour.
  unfoldable pub lanes_of : RequestContext → ℕ → List ℕ → Action State ℕ
  lanes_of context n [] = stop
  lanes_of context n (factor ∷ factors) = lift (choose_lanes (some context) n (factor ∷ factors))

  -- `estimate_leaf_warm_cost(n, factors)`
  unfoldable pub estimate_leaf_warm_cost : ℕ → List ℕ → Action State doubles.Double
  unfolding current_context lanes_of estimated_stage_lanes cost_of_stages
  estimate_leaf_warm_cost n factors = do
    context ← current_context
    lanes ← lanes_of context n factors
    let is_double = is_double_dtype context.input_dtype
    let stage_lanes =
        if str_eq context.device_type "maca"
        then map (λ radix. n / radix) factors
        else estimated_stage_lanes n factors lanes is_double
    cost_of_stages context is_double n factors stage_lanes

  unfoldable pub score_leaf_factorization : ℕ → List ℕ → Action State (List ℤ)
  unfolding current_context lanes_of estimate_leaf_warm_cost generic_stage_count negate
  score_leaf_factorization n factors = do
    context ← current_context
    lanes ← lanes_of context n factors
    cost ← estimate_leaf_warm_cost n factors
    let warm = doubles.llround (doubles.times cost (doubles.of_int 1024))
    pure (
        negate warm
        ∷ neg (length factors)
        ∷ pos lanes
        ∷ neg (lane_block_for lanes)
        ∷ neg (generic_stage_count factors)
        ∷ map pos factors)

  -- The loop over the candidates, with the best one so far and its score.
  unfoldable pub best_of : ℕ → List ℕ → List ℤ → List (List ℕ) → Action State (List ℕ)
  unfolding score_leaf_factorization is_better
  best_of n best best_score [] = pure best
  best_of n best best_score (candidate ∷ candidates) = do
    score ← score_leaf_factorization n candidate
    when is_better score best_score
        then best_of n candidate score candidates
        else best_of n best best_score candidates

  unfoldable pub best_candidate : ℕ → List (List ℕ) → Action State (List ℕ)
  unfolding best_of score_leaf_factorization
  best_candidate n [] = lift (factorize_or_raise n)
  best_candidate n (front ∷ candidates) = do
    best_score ← score_leaf_factorization n front
    best_of n front best_score (front ∷ candidates)

  -- `enumerate_supported_factorizations(n)` with `factorization_cache_`.
  unfoldable pub enumerate_factorizations : ℕ → State → List (List ℕ) × State
  enumerate_factorizations n state =
      let (found, cache) = enumerate_supported_factorizations state.factorization_cache n in
      (
        found,
        record {
          context = state.context;
          parallel_leaf_heuristic_enabled = state.parallel_leaf_heuristic_enabled;
          node_cache = state.node_cache;
          cost_cache = state.cost_cache;
          divisor_cache = state.divisor_cache;
          factorization_cache = cache;
          best_leaf_factors_cache = state.best_leaf_factors_cache;
        },
      )

  -- `best_leaf_factors_cache_[n] = factors`
  unfoldable pub keep_factors : ℕ → List ℕ → State → State
  keep_factors n factors state = record {
    context = state.context;
    parallel_leaf_heuristic_enabled = state.parallel_leaf_heuristic_enabled;
    node_cache = state.node_cache;
    cost_cache = state.cost_cache;
    divisor_cache = state.divisor_cache;
    factorization_cache = state.factorization_cache;
    best_leaf_factors_cache = (n, factors) ∷ state.best_leaf_factors_cache;
  }

  unfoldable pub remember : ℕ → List ℕ → Action State (List ℕ)
  unfolding keep_factors
  remember n factors = modify (keep_factors n factors) >> pure factors

  -- What follows the look-up: the single radix of MACA, the heuristic for a batch of one, and the
  -- scores.
  unfoldable pub computed_factors : RequestContext → ℕ → Action State (List ℕ)
  unfolding remember enumerate_factorizations best_candidate
  computed_factors context n = do
    heuristic ← read (λ state. state.parallel_leaf_heuristic_enabled)
    let parallel = not (str_eq context.device_type "maca") && context.batch == 1 && heuristic
    when str_eq context.device_type "maca" && contains supported_radices n
        then remember n (n ∷ [])
        else when parallel && n == 256
        then remember n (4 ∷ 4 ∷ 4 ∷ 4 ∷ [])
        else when parallel && n == 1024
        then remember n (8 ∷ 8 ∷ 4 ∷ 4 ∷ [])
        else do
          candidates ← visit (enumerate_factorizations n)
          best ← best_candidate n candidates
          remember n best

  unfoldable pub cached_factors : RequestContext → ℕ → Option (List ℕ) → Action State (List ℕ)
  unfolding computed_factors
  cached_factors context n (some factors) = pure factors
  cached_factors context n none = computed_factors context n

  unfoldable pub factors_after : RequestContext → ℕ → Option (List ℕ) → Action State (List ℕ)
  unfolding cached_factors look_up
  factors_after context n (some factors) = pure factors
  factors_after context n none = do
    cached ← read (λ state. look_up n state.best_leaf_factors_cache)
    cached_factors context n cached

  module _ (env : Env) where
    unfoldable pub select_leaf_factors : ℕ → Action State (List ℕ)
    unfolding current_context factors_after
    select_leaf_factors n = do
      context ← current_context
      measured ← lift (measured_factors env context n)
      factors_after context n measured

  -- The lanes that a leaf of MACA runs: the most of any stage.
  unfoldable pub execution_lanes : RequestContext → ℕ → ℕ → List ℕ → ℕ
  unfolding greatest
  execution_lanes context n lanes factors =
      if str_eq context.device_type "maca"
      then greatest lanes (map (λ radix. n / radix) factors)
      else lanes

  unfoldable pub elements_or_raise : Option ℕ → Action State ℕ
  elements_or_raise none = raise unsupported_dtype
  elements_or_raise (some elements) = pure elements

  unfoldable pub make_leaf_plan : ℕ → List ℕ → Action State PlanNode
  unfolding current_context elements_or_raise lanes_of execution_lanes
  make_leaf_plan n factors = do
    context ← current_context
    elements ← elements_or_raise (leaf_smem_elements n factors context.input_dtype)
    lanes ← lanes_of context n factors
    pure (
        leaf_plan n factors 1 lanes
          (choose_num_warps (some context) (execution_lanes context n lanes factors))
          (generic_radices_of factors) elements)
