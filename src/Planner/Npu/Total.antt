-- ===== src/Planner/Npu/Total.antt =====
-- The calls of the planner on itself on Ascend devices, where nothing is set and the transform is not
-- two-dimensional.
use Prim.Native.String.{String}
use text.Mathlib.Text.{◌==◌ as str_eq}
use flag_fft.Prelude.{
  ℕ, suc, ◌-◌, ◌*◌, ◌^◌, ◌%◌, ◌<◌, ◌≤◌, none, some, Bool, true, false, not, ◌&&◌, ltb, leb, ◌==◌,
  ◌≡◌, refl, subst, inl, inr, Bool-cases, Option-cases, Env, ok, length, arith,
}
use flag_fft.Base.{ceil_power_of_two}
use flag_fft.Base.Powers.{ceil_power_of_two_lem}
use flag_fft.Plan.{PlanNode, stockham_plan, direct_dft_plan, bluestein_plan}
use flag_fft.Planner.Action.{Exit, returned, ◌>>=◌, continue, pure, read}
use flag_fft.Planner.Context.{RequestContext, BuilderState}
use flag_fft.Planner.Convolution.{is_given}
use flag_fft.Planner.Costs.{Recursive, estimate_direct_dft_cost}
use flag_fft.Planner.Candidates.{set_heuristic, node_after, build_auto_node, planner}
use flag_fft.Planner.Doubles.{Doubles}
use flag_fft.Planner.Leaves.{State, look_up}
use flag_fft.Planner.Radices.{Factorization, factorize_supported_radices}
use flag_fft.Planner.Radices.Greedy.{IsFactored, factorize_supported_radices-IsFactored}
use flag_fft.Planner.Radices.Smooth.{IsSmooth, remainder-one_iff}
use flag_fft.Planner.Strings.{Strings}
use flag_fft.Planner.Npu.{is_small_prime_setting}
use flag_fft.Planner.Action.Maintains.{Left}
use flag_fft.Planner.Candidates.Sound.{planner-IsSoundly}
use flag_fft.Planner.Leaves.Factors.{Good}
use flag_fft.Planner.WellFormed.{IsPlanOf, IsGood}
use flag_fft.Planner.Npu.Returns.{natural_factors-returns}
use flag_fft.Planner.Npu.Unset.{Ends, node_lem}
use flag_fft.Planner.Npu.Ends.{stockham-Ends, direct-Ends, bluestein-Ends}
use flag_fft.Planner.Npu.Powers.{pow-IsSmooth, pow_small}

-- The run returns, and leaves the context that it had.
abbrev pub Returns :
    {Cost Value : Type 0} → RequestContext → Exit Value × BuilderState PlanNode Cost → Type 0
Returns {Cost} {Value} context result =
    (value : Value) × (state' : BuilderState PlanNode Cost) × (result ≡ (returned value, state'))
    × (state'.context ≡ some context)

module _ (doubles : Doubles) (env : Env) (strings : Strings)
    (unset : (name : String) → env name ≡ none) where
  cached_lem :
      (recursive : Recursive doubles) (n : ℕ) (heuristic : Bool) (state : State doubles)
      (node : PlanNode)
      → look_up n state.node_cache ≡ some node
      → build_auto_node doubles env strings recursive n heuristic state ≡ (returned node, state)
  unfolding build_auto_node node_after pure read ◌>>=◌ continue
  cached_lem recursive n heuristic state node found = rw found refl

  module _ (context : RequestContext) (npu : context.device_type ≡ "npu")
      (rank : context.origin_rank == 2 ≡ false) (heuristic : Bool) (state : State doubles)
      (here : state.context ≡ some context) (recursive : Recursive doubles) (n : ℕ) where
    is_npu : str_eq context.device_type "npu" ≡ true
    is_npu = rw npu refl

    -- A length that is in the memo table, or whose last group returns, returns.
    look_up-Returns :
        (f : Factorization) (factored : factorize_supported_radices n ≡ ok f) (positive : 1 ≤ n)
        → ((node : PlanNode) × (cost : doubles.Double) × (state' : State doubles) × Ends doubles env
              strings recursive unset n positive f factored node cost
              (set_heuristic doubles heuristic state)
              state'
            × (state'.context ≡ some context))
        → Returns context (build_auto_node doubles env strings recursive n heuristic state)
    unfolding set_heuristic
    look_up-Returns f factored positive (node, cost, state', ends, kept) =
        elim (Option-cases (look_up n state.node_cache)) [
          | inr (old, found) ↦ (old, state, cached_lem recursive n heuristic state old found, here)
          | inl new ↦ (
            node,
            _,
            node_lem doubles env strings recursive unset n positive f factored node cost context
                heuristic state state' here is_npu rank ends new,
            kept,
          )
        ]

    stages-Returns :
        (f : Factorization)
        → factorize_supported_radices n ≡ ok f
        → IsFactored n f
        → 1 ≤ n
        → ltb 1 n && f.remainder == 1 && is_small_prime_setting env n ≡ true
        → Returns context (build_auto_node doubles env strings recursive n heuristic state)
    unfolding set_heuristic
    stages-Returns f factored h positive test =
        let (found, split, same) = natural_factors-returns f.factors h.supported in
        look_up-Returns f factored positive (
          stockham_plan n found,
          doubles.of_int (n * length found),
          set_heuristic doubles heuristic state,
          stockham-Ends doubles env strings unset recursive n f factored positive found _ split
              test,
          here,
        )

    smooth-Returns :
        1 < n
        → IsSmooth n
        → not (n % 13 == 0) && not (n % 17 == 0) && not (n % 19 == 0) ≡ true
        → Returns context (build_auto_node doubles env strings recursive n heuristic state)
    unfolding is_small_prime_setting is_given
    smooth-Returns large smooth small =
        let positive : 1 ≤ n = omega (arith, large) in
        let (f, factored, h) = factorize_supported_radices-IsFactored n positive in
        let one = (remainder-one_iff n f positive factored).1 smooth in
        stages-Returns f factored h positive (test f one)
      where
        test :
            (f : Factorization)
            → f.remainder ≡ 1
            → ltb 1 n && f.remainder == 1 && is_small_prime_setting env n ≡ true
        test f one = rw (unset "FLAGFFT_NPU_STOCKHAM_PRIME", one, small) ground (arith, large)

    any-Returns :
        1 ≤ n
        → (leb n 128 ≡ false
            → Returns context (
                recursive.build_auto_node
                  (ceil_power_of_two (2 * n - 1))
                  false
                  (set_heuristic doubles heuristic state)))
        → Returns context (build_auto_node doubles env strings recursive n heuristic state)
    unfolding set_heuristic
    any-Returns positive child =
        let (f, factored, h) = factorize_supported_radices-IsFactored n positive in
        elim (Bool-cases (ltb 1 n && f.remainder == 1 && is_small_prime_setting env n)) [
          | inl test ↦ stages-Returns f factored h positive test
          | inr test ↦ elim (Bool-cases (leb n 128)) [
            | inl short ↦ look_up-Returns f factored positive (
              direct_dft_plan n,
              estimate_direct_dft_cost doubles n,
              set_heuristic doubles heuristic state,
              direct-Ends doubles env strings unset recursive n f factored positive _ test short,
              here,
            )
            | inr long ↦
                let (fft, state', e, kept) = child long in
                look_up-Returns f factored positive (
                  bluestein_plan n (ceil_power_of_two (2 * n - 1)) fft,
                  estimate_direct_dft_cost doubles n,
                  state',
                  bluestein-Ends doubles env strings unset recursive n context npu rank long
                      (set_heuristic doubles heuristic state) here f factored positive state' fft e
                      test,
                  kept,
                )
          ]
        ]

-- Two calls of the planner are enough.
pub planner-Returns :
    (doubles : Doubles) (env : Env) (strings : Strings) (depth n : ℕ) (heuristic : Bool)
    (context : RequestContext) (state : State doubles)
    → ((name : String) → env name ≡ none)
    → context.device_type ≡ "npu"
    → context.origin_rank == 2 ≡ false
    → state.context ≡ some context
    → 1 ≤ n
    → Returns context
        ((planner doubles env strings (suc (suc depth))).build_auto_node n heuristic state)
unfolding planner set_heuristic
planner-Returns doubles env strings depth n heuristic context state unset npu rank here positive =
    any-Returns doubles env strings unset context npu rank heuristic state here
      (planner doubles env strings (suc depth)) n positive child
  where
    child :
        leb n 128 ≡ false
        → Returns context (
            (planner doubles env strings (suc depth)).build_auto_node
              (ceil_power_of_two (2 * n - 1))
              false
              (set_heuristic doubles heuristic state))
    child long =
        let (j, e, enough, rest) = ceil_power_of_two_lem (2 * n - 1) in
        rw e (
          smooth-Returns doubles env strings unset context npu rank false
            (set_heuristic doubles heuristic state) here (planner doubles env strings depth) (2 ^ j)
            (ground (arith, long, enough)) (pow-IsSmooth j) (pow_small j))

-- On an Ascend device, where nothing is set and the transform is not two-dimensional, two calls of the
-- planner are enough: from right memo tables, `build_auto_node` returns for every positive length, and it
-- returns a plan of that length and leaves the memo tables right.
pub build_auto_node-Returns :
    (doubles : Doubles) (env : Env) (strings : Strings) (depth n : ℕ) (heuristic : Bool)
    (context : RequestContext) (state : State doubles)
    → ((name : String) → env name ≡ none)
    → context.device_type ≡ "npu"
    → context.origin_rank == 2 ≡ false
    → state.context ≡ some context
    → IsGood state
    → 1 ≤ n
    → (node : PlanNode) × (state' : State doubles) × ((planner doubles env strings
            (suc (suc depth))).build_auto_node
          n heuristic state
        ≡ (returned node, state'))
      × IsPlanOf n node
      × IsGood state'
build_auto_node-Returns doubles env strings depth n heuristic context state unset npu rank here good
      positive =
    let (node, state', e, kept) =
      planner-Returns doubles env strings depth n heuristic context state unset npu rank here
        positive in
    let sound = planner-IsSoundly doubles env strings (suc (suc depth)) (unset _) in
    let (right, good') =
      subst (Left (Good doubles) (IsPlanOf n)) e ((sound.nodes n heuristic).left state good) in
    (node, state', e, right, good')
