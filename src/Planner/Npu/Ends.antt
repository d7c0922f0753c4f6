-- ===== src/Planner/Npu/Ends.antt =====
-- The last group of the Ascend branch, where nothing is set.
use Prim.Native.String.{String}
use flag_fft.Prelude.{
  ℕ, ◌-◌, ◌*◌, ◌≤◌, List, none, some, true, false, ◌&&◌, ltb, leb, ◌==◌, ◌≡◌, refl, Env, ok, length,
  arith,
}
use flag_fft.Base.{ceil_power_of_two}
use flag_fft.Plan.{PlanNode, stockham_plan, direct_dft_plan, bluestein_plan}
use flag_fft.Planner.Action.{returned, pure}
use flag_fft.Planner.Context.{RequestContext}
use flag_fft.Planner.Convolution.{
  is_refused, next_supported_convolution_length, npu_convolution_length, make_bluestein_plan,
  is_maca_c550_3d_997_fp64, is_balanced_maca_batch,
}
use flag_fft.Planner.Costs.{Recursive, estimate_direct_dft_cost}
use flag_fft.Planner.Doubles.{Doubles}
use flag_fft.Planner.Leaves.{State, current_context}
use flag_fft.Planner.Radices.{Factorization, factorize_supported_radices}
use flag_fft.Planner.Strings.{Strings}
use flag_fft.Planner.Npu.{
  is_small_prime_setting, stockham_or_bluestein, only, direct_only, natural_factors,
}
use flag_fft.Planner.Npu.Unset.{bind_lem, lift_lem, taken, skipped, context_lem, Ends}

module _ (doubles : Doubles) (env : Env) (strings : Strings)
    (unset : (name : String) → env name ≡ none) where
  module _ (recursive : Recursive doubles) (n : ℕ) (f : Factorization) where
    pub stockham-Ends :
        (factored : factorize_supported_radices n ≡ ok f) (positive : 1 ≤ n) (found : List ℕ)
        (state : State doubles)
        → natural_factors f.factors ≡ ok found
        → ltb 1 n && f.remainder == 1 && is_small_prime_setting env n ≡ true
        → Ends doubles env strings recursive unset n positive f factored
            (stockham_plan n found)
            (doubles.of_int (n * length found))
            state
            state
    unfolding stockham_or_bluestein only pure
    stockham-Ends factored positive found state split test =
        taken _ _ _ state _ test
          (bind_lem _ _ state state found _ (lift_lem _ state found split) refl)

    pub direct-Ends :
        (factored : factorize_supported_radices n ≡ ok f) (positive : 1 ≤ n) (state : State doubles)
        → ltb 1 n && f.remainder == 1 && is_small_prime_setting env n ≡ false
        → leb n 128 ≡ true
        → Ends doubles env strings recursive unset n positive f factored
            (direct_dft_plan n)
            (estimate_direct_dft_cost doubles n)
            state
            state
    unfolding stockham_or_bluestein direct_only only pure
    direct-Ends factored positive state test short =
        skipped _ _ _ state _ test (taken _ _ _ state _ short refl)

  module _ (recursive : Recursive doubles) (n : ℕ) (context : RequestContext)
      (npu : context.device_type ≡ "npu") (rank : context.origin_rank == 2 ≡ false)
      (long : leb n 128 ≡ false) (state : State doubles) (here : state.context ≡ some context) where
    length_lem :
        next_supported_convolution_length doubles env recursive (2 * n - 1) state
        ≡ (returned (ceil_power_of_two (2 * n - 1)), state)
    unfolding next_supported_convolution_length npu_convolution_length current_context pure
        is_refused
    length_lem = skipped _ _ _ state _ (ground (arith, long)) (
        bind_lem _ _ state state context _
          (lift_lem _ state context (context_lem doubles state context here))
          (taken _ _ _ state _ (rw npu refl) (
            skipped _ _ _ state _ (rw (unset "FLAGFFT_NPU_2D_BLUESTEIN_SMOOTH_CONV") refl)
              (skipped _ _ _ state _ (rw rank refl) refl))))

    bluestein_lem :
        (state' : State doubles) (fft : PlanNode)
        → recursive.build_auto_node (ceil_power_of_two (2 * n - 1)) false state
          ≡ (returned fft, state')
        → make_bluestein_plan doubles env recursive n state
          ≡ (returned (bluestein_plan n (ceil_power_of_two (2 * n - 1)) fft), state')
    unfolding make_bluestein_plan current_context pure is_maca_c550_3d_997_fp64
        is_balanced_maca_batch
    bluestein_lem state' fft child = bind_lem _ _ state state _ _ length_lem (
        bind_lem _ _ state state context _
          (lift_lem _ state context (context_lem doubles state context here))
          (rw other
            (bind_lem _ _ state state' fft _ (skipped _ _ _ state _ unbalanced child) refl)))
      where
        other : is_maca_c550_3d_997_fp64 context n ≡ false
        other = rw npu refl

        unbalanced : is_balanced_maca_batch env context n (ceil_power_of_two (2 * n - 1)) ≡ false
        unbalanced = rw npu refl

    pub bluestein-Ends :
        (f : Factorization) (factored : factorize_supported_radices n ≡ ok f) (positive : 1 ≤ n)
        (state' : State doubles) (fft : PlanNode)
        → recursive.build_auto_node (ceil_power_of_two (2 * n - 1)) false state
          ≡ (returned fft, state')
        → ltb 1 n && f.remainder == 1 && is_small_prime_setting env n ≡ false
        → Ends doubles env strings recursive unset n positive f factored
            (bluestein_plan n (ceil_power_of_two (2 * n - 1)) fft)
            (estimate_direct_dft_cost doubles n)
            state
            state'
    unfolding stockham_or_bluestein only pure
    bluestein-Ends f factored positive state' fft child test = skipped _ _ _ state _ test (
        skipped _ _ _ state _ long
          (bind_lem _ _ state state' _ _ (bluestein_lem state' fft child) refl))
