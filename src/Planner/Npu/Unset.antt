-- ===== src/Planner/Npu/Unset.antt =====
-- The groups of the Ascend branch one after the other, where nothing is set and the transform is not
-- two-dimensional.
use Prim.Native.String.{String}
use flag_fft.Prelude.{
  ℕ, ◌≤◌, [], ◌∷◌, Option, none, some, Bool, true, false, ◌==◌, ◌≡◌, refl, Env, Result, ok,
  if◌then◌else◌, when◌then◌else◌, arith,
}
use flag_fft.Plan.{PlanNode}
use flag_fft.Policy.{is_value}
use flag_fft.Api.Ints.{ℤ, pos}
use flag_fft.Planner.Action.{Action, Exit, returned, ◌>>=◌, ◌>>◌, continue, pure, lift}
use flag_fft.Planner.Context.{RequestContext, request_context}
use flag_fft.Planner.Convolution.{is_refused}
use flag_fft.Planner.Costs.{Recursive}
use flag_fft.Planner.Doubles.{Doubles}
use flag_fft.Planner.Leaves.{State, current_context}
use flag_fft.Planner.Radices.{Factorization, factorize_supported_radices}
use flag_fft.Planner.Strings.{Strings}
use flag_fft.Planner.Npu.{
  Candidates, candidate_of, checked_switch, direct_dft_max, leaf_length, leaf_3d, or_else,
  is_cube_dft, factor_split, stockham_or_bluestein, npu_rest, npu_2d, npu_candidates,
}
use text.Mathlib.Text.{◌==◌ as str_eq}
use flag_fft.Planner.Candidates.{
  build_auto_candidates, set_heuristic, with_heuristic, new_node, node_after, build_auto_node,
  select_candidate, least_candidate, keep_node, keep_cost,
}
use flag_fft.Planner.Action.{read, modify, guarded, restored}
use flag_fft.Planner.Leaves.{look_up}

module _ {State' : Type 0} where
  -- The statements after one that returns.
  pub bind_lem :
      {Value Next : Type 0} (first : Action State' Value) (next : Value → Action State' Next)
      (state state' : State') (value : Value) (result : Exit Next × State')
      → first state ≡ (returned value, state')
      → next value state' ≡ result
      → (first >>= next) state ≡ result
  unfolding ◌>>=◌ continue
  bind_lem first next state state' value result e h = rw e h

  pub lift_lem :
      {Value : Type 0} (result : Result Value) (state : State') (value : Value)
      → result ≡ ok value
      → lift result state ≡ (returned value, state)
  unfolding lift
  lift_lem result state value e = rw e refl

  pub taken :
      {Value : Type 0} (test : Bool) (a b : Action State' Value) (state : State')
      (result : Exit Value × State')
      → test ≡ true
      → a state ≡ result
      → (when test then a else b) state ≡ result
  unfolding when◌then◌else◌
  taken test a b state result e h = rw e h

  pub skipped :
      {Value : Type 0} (test : Bool) (a b : Action State' Value) (state : State')
      (result : Exit Value × State')
      → test ≡ false
      → b state ≡ result
      → (when test then a else b) state ≡ result
  unfolding when◌then◌else◌
  skipped test a b state result e h = rw e h

switch_lem : (env : Env) (name : String) → env name ≡ none → checked_switch env name ≡ ok false
unfolding checked_switch is_refused is_value when◌then◌else◌
switch_lem env name e = rw e refl

direct_max_lem :
    (strings : Strings) (setting : Option String)
    → setting ≡ none
    → direct_dft_max strings setting ≡ ok (pos 128)
unfolding direct_dft_max
direct_max_lem strings setting e = rw e refl

leaf_length_lem :
    (strings : Strings) (setting : Option String) (n : ℕ) (measured : Bool)
    → setting ≡ none
    → leaf_length strings setting n measured ≡ ok (pos (if measured then n else 0))
unfolding leaf_length
leaf_length_lem strings setting n measured e = rw e refl

pub context_lem :
    (doubles : Doubles) (state : State doubles) (context : RequestContext)
    → state.context ≡ some context
    → request_context state ≡ ok context
unfolding request_context
context_lem doubles state context h = rw h refl

-- The state that a new node leaves.
abbrev pub with_node :
    (doubles : Doubles) → ℕ → PlanNode → doubles.Double → State doubles → State doubles
with_node doubles n node cost state = record {
  context = state.context;
  parallel_leaf_heuristic_enabled = state.parallel_leaf_heuristic_enabled;
  node_cache = (n, node) ∷ state.node_cache;
  cost_cache = (n, cost) ∷ state.cost_cache;
  divisor_cache = state.divisor_cache;
  factorization_cache = state.factorization_cache;
  best_leaf_factors_cache = state.best_leaf_factors_cache;
}

module _ (doubles : Doubles) (env : Env) (strings : Strings) (recursive : Recursive doubles)
    (unset : (name : String) → env name ≡ none) (n : ℕ) (positive : 1 ≤ n) (f : Factorization)
    (factored : factorize_supported_radices n ≡ ok f) (node : PlanNode)
    (cost : doubles.Double) where
  abbrev the_plan : Candidates doubles
  the_plan = candidate_of doubles node cost ∷ []

  -- What the last group gives.
  abbrev pub Ends : State doubles → State doubles → Type 0
  Ends state state' =
      stockham_or_bluestein doubles env strings recursive f n state ≡ (returned the_plan, state')

  rest_lem :
      (context : RequestContext) (direct_max : ℤ) (state state' : State doubles)
      → context.origin_rank == 2 ≡ false
      → Ends state state'
      → npu_rest doubles env strings recursive context direct_max n state
        ≡ (returned the_plan, state')
  unfolding npu_rest factor_split or_else pure
  rest_lem context direct_max state state' rank ends = skipped _ _ _ state _ (rw rank refl) (
      bind_lem _ _ state state f _ (lift_lem _ state f factored) (
        bind_lem _ _ state state false _ (lift_lem _ state false (switch_lem env _ (unset _)))
          (bind_lem _ _ state state none _ (skipped _ _ _ state _ refl refl) ends)))

  plane_lem :
      (context : RequestContext) (direct_max : ℤ) (state state' : State doubles)
      → context.origin_rank == 2 ≡ false
      → Ends state state'
      → npu_2d doubles env strings recursive context direct_max n state
        ≡ (returned the_plan, state')
  unfolding npu_2d is_cube_dft
  plane_lem context direct_max state state' rank ends =
      bind_lem _ _ state state false _ (lift_lem _ state false (switch_lem env _ (unset _))) (
        bind_lem _ _ state state f _ (lift_lem _ state f factored) (
          skipped _ _ _ state _ refl (
            bind_lem _ _ state state _ _
              (lift_lem _ state _ (leaf_length_lem strings _ n _ (unset _)))
              (skipped _ _ _ state _ (rw rank refl)
                (rest_lem context direct_max state state' rank ends)))))

  candidates_lem :
      (context : RequestContext) (state state' : State doubles)
      → state.context ≡ some context
      → context.origin_rank == 2 ≡ false
      → Ends state state'
      → npu_candidates doubles env strings recursive n state ≡ (returned the_plan, state')
  unfolding npu_candidates leaf_3d or_else pure current_context request_context
  candidates_lem context state state' here rank ends =
      bind_lem _ _ state state context _
        (lift_lem _ state context (context_lem doubles state context here))
        (bind_lem _ _ state state _ _ (lift_lem _ state _ (direct_max_lem strings _ (unset _))) (
          bind_lem _ _ state state false _ (lift_lem _ state false (switch_lem env _ (unset _))) (
            bind_lem _ _ state state false _ (lift_lem _ state false (switch_lem env _ (unset _))) (
              skipped _ _ _ state _ refl (
                bind_lem _ _ state state none _ (skipped _ _ _ state _ refl refl)
                  (plane_lem context _ state state' rank ends))))))

  auto_lem :
      (context : RequestContext) (state state' : State doubles)
      → state.context ≡ some context
      → str_eq context.device_type "npu" ≡ true
      → context.origin_rank == 2 ≡ false
      → Ends state state'
      → build_auto_candidates doubles env strings recursive n state ≡ (returned the_plan, state')
  unfolding build_auto_candidates current_context
  auto_lem context state state' here npu rank ends =
      skipped _ _ _ state _ (ground (arith, positive)) (
        bind_lem _ _ state state context _
          (lift_lem _ state context (context_lem doubles state context here))
          (taken _ _ _ state _ npu (candidates_lem context state state' here rank ends)))

  chosen_lem :
      (context : RequestContext) (heuristic : Bool) (state state' : State doubles)
      → state.context ≡ some context
      → str_eq context.device_type "npu" ≡ true
      → context.origin_rank == 2 ≡ false
      → Ends (set_heuristic doubles heuristic state) state'
      → with_heuristic doubles env strings recursive heuristic
          (build_auto_candidates doubles env strings recursive n >>= select_candidate doubles)
          state
        ≡ (
          returned (candidate_of doubles node cost),
          set_heuristic doubles state.parallel_leaf_heuristic_enabled state',
        )
  unfolding with_heuristic set_heuristic select_candidate least_candidate pure read modify guarded
      restored ◌>>=◌ ◌>>◌ continue
  chosen_lem context heuristic state state' here npu rank ends =
      rw (auto_lem context (set_heuristic doubles heuristic state) state' here npu rank ends) refl

  pub node_lem :
      (context : RequestContext) (heuristic : Bool) (state state' : State doubles)
      → state.context ≡ some context
      → str_eq context.device_type "npu" ≡ true
      → context.origin_rank == 2 ≡ false
      → Ends (set_heuristic doubles heuristic state) state'
      → look_up n state.node_cache ≡ none
      → build_auto_node doubles env strings recursive n heuristic state ≡ (
        returned node,
        with_node doubles n node cost
            (set_heuristic doubles state.parallel_leaf_heuristic_enabled state'),
      )
  unfolding build_auto_node node_after new_node keep_node keep_cost pure read modify ◌>>◌ ◌>>=◌
      continue
  node_lem context heuristic state state' here npu rank ends new =
      rw (new, chosen_lem context heuristic state state' here npu rank ends) refl
