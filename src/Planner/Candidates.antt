-- ===== src/Planner/Candidates.antt =====
-- `build_auto_candidates` of `src/plan/auto_candidates.cpp`, `select_candidate` and `build_auto_node` of
-- `src/plan/tune_candidates.cpp`, and `cost_for` of `src/plan/builder_context.cpp`.
pub mod ThreadLocal
pub mod Sound
use Prim.Native.String.{String}
use text.Mathlib.Text.{◌==◌ as str_eq}
use flag_fft.Prelude.{
  ℕ, zero, suc, ◌+◌, ◌-◌, ◌*◌, ◌/◌, ◌%◌, List, [], ◌∷◌, ◌++◌, Option, none, some, Bool, true, false,
  not, ◌&&◌, ◌||◌, ltb, leb, ◌==◌, if◌then◌else◌, when◌then◌else◌, Env, length_not_positive,
  no_candidates, no_route,
}
use flag_fft.Base.{contains, ceil_power_of_two, is_double_dtype}
use flag_fft.Rader.{is_prime_length}
use flag_fft.Plan.{
  PlanNode, leaf_plan, direct_dft_plan, stockham_plan, four_step_plan, bluestein_plan, rader_plan,
  two_dim_plan, three_dim_plan,
}
use flag_fft.Planner.Action.{
  Action, pure, raise, stop, read, modify, visit, ◌>>=◌, ◌>>◌, lift, attempt, guarded,
}
use flag_fft.Planner.Context.{RequestContext}
use flag_fft.Planner.Convolution.{
  is_empty, is_complete, make_bluestein_plan, make_rader_plan, split_node,
}
use flag_fft.Planner.Costs.{
  Recursive, estimate_direct_dft_cost, four_step_cost, bluestein_cost, rader_cost,
  generated_composite_radices,
}
use flag_fft.Planner.Doubles.{Doubles, min_double}
use flag_fft.Planner.Lanes.{should_use_leaf}
use flag_fft.Planner.Leaves.{
  State, current_context, select_leaf_factors, make_leaf_plan, estimate_leaf_warm_cost, look_up,
}
use flag_fft.Planner.Npu.{PlanCandidate, Candidates, candidate_of, divisors_of, npu_candidates}
use flag_fft.Planner.Radices.{Factorization, factorize_supported_radices}
use flag_fft.Planner.Strings.{Strings}

-- `make_thread_local_leaf`
unfoldable pub thread_local_leaf : ℕ → PlanNode
thread_local_leaf register_radix =
    let length = register_radix * 32 in
    leaf_plan length (register_radix ∷ 32 ∷ []) 1 register_radix
      (if register_radix == 32 then 2 else 1) (if register_radix == 32 then 32 ∷ [] else [])
      (ceil_power_of_two length)

unfoldable pub is_thread_local_complex : RequestContext → Bool
is_thread_local_complex context =
    (str_eq context.input_dtype "complex64" && str_eq context.output_dtype "complex64")
    || (str_eq context.input_dtype "complex128" && str_eq context.output_dtype "complex128")

unfoldable pub is_thread_local : RequestContext → ℕ → Bool
is_thread_local context n =
    not (str_eq context.device_type "maca")
    && is_thread_local_complex context
    && n % 1024 == 0
    && (n / 1024) % 32 == 0
    && contains generated_composite_radices (n / 1024 / 32)

-- The convolution of a Bluestein plan, and whether it is a leaf.
unfoldable pub conv_length_of : PlanNode → ℕ
conv_length_of (bluestein_plan n conv_length fft_plan) = conv_length
conv_length_of _ = 0

unfoldable pub is_leaf : PlanNode → Bool
is_leaf (leaf_plan n factors remainder lanes num_warps generic_radices smem_size) = true
is_leaf _ = false

unfoldable pub has_leaf_convolution : PlanNode → Bool
unfolding is_leaf
has_leaf_convolution (bluestein_plan n conv_length fft_plan) = is_leaf fft_plan
has_leaf_convolution _ = false

unfoldable pub prefers_bluestein : RequestContext → PlanNode → ℕ → Bool
unfolding has_leaf_convolution
prefers_bluestein context node n =
    let fp64_input = is_double_dtype context.input_dtype in
    let fp64_output = is_double_dtype context.output_dtype in
    let has_a100_fp64_fused_leaf =
      str_eq context.device_arch "sm_80"
      && context.batch == 1
      && fp64_input
      && fp64_output
      && has_leaf_convolution node in
    let has_musa_s5000_fp64_fused_leaf =
      str_eq context.device_type "musa"
      && str_eq context.device_arch "31"
      && context.batch == 1
      && fp64_input
      && fp64_output
      && has_leaf_convolution node in
    let prefer_musa_batched_bluestein =
      str_eq context.device_type "musa"
      && str_eq context.device_arch "31"
      && leb 16 context.batch
      && fp64_input
      && fp64_output
      && n == 8191 in
    (not (str_eq context.device_type "maca")
      && str_eq context.input_dtype "complex64"
      && str_eq context.output_dtype "complex64")
    || has_a100_fp64_fused_leaf
    || has_musa_s5000_fp64_fused_leaf
    || prefer_musa_batched_bluestein

module _ (doubles : Doubles) where
  -- The comparison of `select_candidate`.
  unfoldable pub comes_before : PlanCandidate doubles → PlanCandidate doubles → Bool
  comes_before a b =
      if not (doubles.equal a.cost b.cost) then doubles.less a.cost b.cost else ltb a.rank b.rank

  -- `std::min_element`: the first of the least candidates.
  unfoldable pub least_candidate :
      PlanCandidate doubles → Candidates doubles → PlanCandidate doubles
  unfolding comes_before
  least_candidate best [] = best
  least_candidate best (candidate ∷ candidates) =
      when comes_before candidate best
      then least_candidate candidate candidates
      else least_candidate best candidates

  unfoldable pub select_candidate :
      Candidates doubles → Action (State doubles) (PlanCandidate doubles)
  unfolding least_candidate
  select_candidate [] = raise no_candidates
  select_candidate (front ∷ candidates) = pure (least_candidate front candidates)

  unfoldable pub set_heuristic : Bool → State doubles → State doubles
  set_heuristic enabled state = record {
    context = state.context;
    parallel_leaf_heuristic_enabled = enabled;
    node_cache = state.node_cache;
    cost_cache = state.cost_cache;
    divisor_cache = state.divisor_cache;
    factorization_cache = state.factorization_cache;
    best_leaf_factors_cache = state.best_leaf_factors_cache;
  }

  unfoldable pub keep_node : ℕ → PlanNode → State doubles → State doubles
  keep_node n node state = record {
    context = state.context;
    parallel_leaf_heuristic_enabled = state.parallel_leaf_heuristic_enabled;
    node_cache = (n, node) ∷ state.node_cache;
    cost_cache = state.cost_cache;
    divisor_cache = state.divisor_cache;
    factorization_cache = state.factorization_cache;
    best_leaf_factors_cache = state.best_leaf_factors_cache;
  }

  unfoldable pub keep_cost : ℕ → doubles.Double → State doubles → State doubles
  keep_cost n cost state = record {
    context = state.context;
    parallel_leaf_heuristic_enabled = state.parallel_leaf_heuristic_enabled;
    node_cache = state.node_cache;
    cost_cache = (n, cost) ∷ state.cost_cache;
    divisor_cache = state.divisor_cache;
    factorization_cache = state.factorization_cache;
    best_leaf_factors_cache = state.best_leaf_factors_cache;
  }

  -- The candidates with the one that a `try` block gave.
  unfoldable pub with_attempt :
      Candidates doubles → Option (PlanCandidate doubles) → Candidates doubles
  with_attempt candidates none = candidates
  with_attempt candidates (some candidate) = candidates ++ (candidate ∷ [])

  module _ (env : Env) (strings : Strings) (recursive : Recursive doubles) where
    unfoldable pub leaf_candidates :
        RequestContext → ℕ → Action (State doubles) (Candidates doubles)
    unfolding is_complete
    leaf_candidates context n = do
      factorization ← lift (factorize_supported_radices n)
      when is_complete factorization && should_use_leaf context n factorization.factors
          then (do
            factors ← select_leaf_factors doubles env n
            node ← make_leaf_plan doubles n factors
            again ← select_leaf_factors doubles env n
            cost ← estimate_leaf_warm_cost doubles n again
            pure (candidate_of doubles node cost ∷ []))
          else pure []

    unfoldable pub direct_candidates : ℕ → Candidates doubles
    unfolding estimate_direct_dft_cost
    direct_candidates n =
        if leb n 128
        then candidate_of doubles (direct_dft_plan n) (estimate_direct_dft_cost doubles n) ∷ []
        else []

    unfoldable pub thread_local_candidates :
        RequestContext → ℕ → Action (State doubles) (Candidates doubles)
    unfolding is_thread_local thread_local_leaf
    thread_local_candidates context n =
        when is_thread_local context n
        then (do
          let n1 = n / 1024
          let node = four_step_plan n n1 1024 (thread_local_leaf (n1 / 32)) (thread_local_leaf 32)
          cost ← four_step_cost doubles env recursive n1 1024
          pure (candidate_of doubles node (doubles.times cost doubles.quarter) ∷ []))
        else pure []

    -- The body of the `try` block.
    unfoldable pub split_candidate : ℕ → ℕ → ℕ → Action (State doubles) (PlanCandidate doubles)
    unfolding split_node
    split_candidate n n1 n2 = do
      node ← split_node doubles env recursive n n1 n2
      let balance =
          doubles.abs
            (doubles.subtract (doubles.log (doubles.of_int n1)) (doubles.log (doubles.of_int n2)))
      cost ← four_step_cost doubles env recursive n1 n2
      pure (candidate_of doubles node (doubles.add cost balance))

    unfoldable pub split_candidates :
        ℕ → Candidates doubles → List ℕ → Action (State doubles) (Candidates doubles)
    unfolding split_candidate with_attempt
    split_candidates n candidates [] = pure candidates
    split_candidates n candidates (n1 ∷ divisors) =
        when leb n1 1 || leb n n1 then split_candidates n candidates divisors else do
          found ← attempt (split_candidate n n1 (n / n1))
          split_candidates n (with_attempt candidates found) divisors

    unfoldable pub rader_candidates :
        RequestContext → PlanNode → doubles.Double → ℕ → Action (State doubles) (Candidates doubles)
    unfolding prefers_bluestein is_complete min_double
    rader_candidates context bluestein bluestein_candidate_cost n =
        when not (prefers_bluestein context bluestein n) && is_prime_length n && leb n 16384
        then (do
          rader ← make_rader_plan doubles env recursive n
          cost ← rader_cost doubles env recursive n
          factorization ← lift (factorize_supported_radices (n - 1))
          let limit = doubles.times bluestein_candidate_cost doubles.most
          pure (
              candidate_of doubles rader
                (if is_complete factorization then min_double doubles cost limit else cost)
              ∷ []))
        else pure []

    -- Bluestein and Rader, where there is no other candidate.
    unfoldable pub convolution_candidates :
        RequestContext → ℕ → Candidates doubles → Action (State doubles) (Candidates doubles)
    unfolding rader_candidates conv_length_of
    convolution_candidates context n candidates =
        when is_empty candidates && ltb 128 n
        then (do
          node ← make_bluestein_plan doubles env recursive n
          cost ← bluestein_cost doubles env recursive n (conv_length_of node)
          rader ← rader_candidates context node cost n
          pure (candidate_of doubles node cost ∷ rader))
        else pure candidates

    unfoldable pub general_candidates : ℕ → Action (State doubles) (Candidates doubles)
    unfolding leaf_candidates direct_candidates thread_local_candidates split_candidates
        convolution_candidates
    general_candidates n = do
      context ← current_context doubles
      leaves ← leaf_candidates context n
      thread_local ← thread_local_candidates context n
      divisors ← visit (divisors_of doubles n)
      candidates ← split_candidates n (leaves ++ direct_candidates n ++ thread_local) divisors
      convolution_candidates context n candidates

    unfoldable pub build_auto_candidates : ℕ → Action (State doubles) (Candidates doubles)
    unfolding general_candidates
    build_auto_candidates n = when n == 0 then raise length_not_positive else do
      context ← current_context doubles
      when str_eq context.device_type "npu"
          then npu_candidates doubles env strings recursive n
          else general_candidates n

    -- With the heuristic set to a value, which is set back afterwards, also if the block throws.
    unfoldable pub with_heuristic :
        {Value : Type 0} → Bool → Action (State doubles) Value → Action (State doubles) Value
    unfolding set_heuristic
    with_heuristic enabled body = do
      previous ← read (λ state. state.parallel_leaf_heuristic_enabled)
      modify (set_heuristic enabled)
      guarded (set_heuristic previous) body

    unfoldable pub new_node : ℕ → Bool → Action (State doubles) PlanNode
    unfolding with_heuristic build_auto_candidates select_candidate keep_node keep_cost
    new_node n allow_parallel_leaf_heuristic = do
      candidate ←
          with_heuristic allow_parallel_leaf_heuristic
            (do candidates ← build_auto_candidates n; select_candidate candidates)
      modify (keep_node n candidate.node)
      modify (keep_cost n candidate.cost)
      pure candidate.node

    unfoldable pub node_after : ℕ → Bool → Option PlanNode → Action (State doubles) PlanNode
    unfolding new_node
    node_after n heuristic (some node) = pure node
    node_after n heuristic none = new_node n heuristic

    unfoldable pub build_auto_node : ℕ → Bool → Action (State doubles) PlanNode
    unfolding node_after
    build_auto_node n heuristic = do
      cached ← read (λ state. look_up n state.node_cache)
      node_after n heuristic cached

    unfoldable pub new_cost : ℕ → Action (State doubles) doubles.Double
    unfolding with_heuristic build_auto_candidates select_candidate keep_cost
    new_cost n = do
      candidates ← with_heuristic false (build_auto_candidates n)
      when is_empty candidates
          then raise no_route
          else do best ← select_candidate candidates; modify (keep_cost n best.cost); pure best.cost

    unfoldable pub cost_after : ℕ → Option doubles.Double → Action (State doubles) doubles.Double
    unfolding new_cost
    cost_after n (some cost) = pure cost
    cost_after n none = new_cost n

    unfoldable pub cost_for : ℕ → Action (State doubles) doubles.Double
    unfolding cost_after
    cost_for n = do cached ← read (λ state. look_up n state.cost_cache); cost_after n cached

  -- The calls of the planner on itself, to a depth.
  unfoldable pub planner : Env → Strings → (depth : ℕ) → Recursive doubles
  unfolding build_auto_node cost_for
  planner env strings zero = record { build_auto_node = λ n heuristic. stop; cost_for = λ n. stop }
  planner env strings (suc depth) =
      let recursive = planner env strings depth in
      record {
        build_auto_node = build_auto_node env strings recursive;
        cost_for = cost_for env strings recursive;
      }
