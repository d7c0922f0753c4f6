-- ===== src/Planner/Costs.antt =====
-- The costs of the composed plans, of `src/plan/cost_model.cpp`, over the planner's recursive calls.
use Prim.Native.String.{String}
use text.Mathlib.Text.{◌==◌ as str_eq}
use flag_fft.Prelude.{
  ℕ, ◌+◌, ◌-◌, ◌*◌, ◌^◌, List, [], ◌∷◌, Bool, not, ◌&&◌, ltb, leb, ◌==◌, if◌then◌else◌,
  when◌then◌else◌, all_of, Env,
}
use flag_fft.Base.{contains, ceil_power_of_two, is_double_dtype}
use flag_fft.Plan.{
  PlanNode, leaf_plan, direct_dft_plan, stockham_plan, four_step_plan, bluestein_plan, rader_plan,
  two_dim_plan, three_dim_plan,
}
use flag_fft.Planner.Action.{Action, pure, ◌>>=◌}
use flag_fft.Planner.Context.{RequestContext}
use flag_fft.Planner.Doubles.{Doubles, max_double}
use flag_fft.Planner.Leaves.{State, current_context, select_leaf_factors}

abbrev pub generated_composite_radices : List ℕ
generated_composite_radices = 18 ∷ 20 ∷ 24 ∷ 25 ∷ 27 ∷ 28 ∷ 30 ∷ 32 ∷ []

-- The side that was measured to be the best one, 0 where none was.
unfoldable pub measured_small_batch_four_step_n1 : ℕ → ℕ → String → ℕ
measured_small_batch_four_step_n1 n batch device_arch =
    if not (str_eq device_arch "sm_80")
    then 0
    else if n == 8192 && ltb 1 batch
    then 128
    else if n == 16384
    then 256
    else if n == 2 ^ 20
    then 1024
    else 0

unfoldable pub measured_large_batch_four_step_n1 : ℕ → String → String → ℕ
measured_large_batch_four_step_n1 n dtype device_arch =
    let is_double = is_double_dtype dtype in
    if not (str_eq device_arch "sm_80")
    then 0
    else if n == 8192
    then (if is_double then 256 else 128)
    else if n == 16384
    then (if is_double then 512 else 256)
    else if n == 2 ^ 20
    then 1024
    else 0

unfoldable pub is_warp_aligned_generated_composite_leaf : List ℕ → Bool
is_warp_aligned_generated_composite_leaf factors =
    contains factors 32 && all_of (contains generated_composite_radices) factors

unfoldable pub preferred_n1 : RequestContext → ℕ → ℕ
unfolding measured_small_batch_four_step_n1 measured_large_batch_four_step_n1
preferred_n1 context n =
    if leb context.batch 8
    then measured_small_batch_four_step_n1 n context.batch context.device_arch
    else if leb 65 context.batch
    then measured_large_batch_four_step_n1 n context.input_dtype context.device_arch
    else 0

unfoldable pub priority : PlanNode → ℕ
priority (leaf_plan n factors remainder lanes num_warps generic_radices smem_size) = 0
priority (four_step_plan n n1 n2 row_plan col_plan) = 1
priority (stockham_plan n factors) = 2
priority (bluestein_plan n conv_length fft_plan) = 3
priority (rader_plan p root idx conv_plan) = 3
priority (direct_dft_plan n) = 4
priority (two_dim_plan n0 n1 strategy row_plan col_plan) = 5
priority (three_dim_plan n0 n1 n2 strategy n2_plan n1_plan n0_plan) = 99

-- The calls of the planner on itself: `build_auto_node` and `cost_for`.
pub record Recursive (doubles : Doubles) : Type 0 where
  pub build_auto_node : ℕ → Bool → Action (State doubles) PlanNode
  pub cost_for : ℕ → Action (State doubles) doubles.Double

module _ (doubles : Doubles) where
  unfoldable pub estimate_direct_dft_cost : ℕ → doubles.Double
  estimate_direct_dft_cost n = doubles.of_int (n * n)

  -- What a row that is wider than the packs costs more.
  unfoldable pub row_pack_cost : ℕ → ℕ → doubles.Double → doubles.Double
  unfolding max_double
  row_pack_cost n n1 cost =
      let tiers = max_double doubles (doubles.of_int 0) (
        doubles.subtract
          (doubles.divide (doubles.of_int (ceil_power_of_two n1)) (doubles.of_int 512))
          (doubles.of_int 1)) in
      doubles.add cost (doubles.times (doubles.times (doubles.of_int n) tiers) doubles.quarter)

  module _ (env : Env) (recursive : Recursive doubles) where
    unfoldable pub packed_cost :
        Bool → ℕ → ℕ → doubles.Double → Action (State doubles) doubles.Double
    unfolding row_pack_cost
    packed_cost is_double n n1 cost =
        when is_double
        then (do
          row_factors ← select_leaf_factors doubles env n1
          pure (
              if is_warp_aligned_generated_composite_leaf row_factors
              then cost
              else row_pack_cost n n1 cost))
        else pure cost

    unfoldable pub four_step_cost : ℕ → ℕ → Action (State doubles) doubles.Double
    unfolding packed_cost preferred_n1
    four_step_cost n1 n2 = do
      let n = n1 * n2
      cost1 ← recursive.cost_for n1
      cost2 ← recursive.cost_for n2
      let cost =
          doubles.add
            (doubles.add (doubles.times (doubles.of_int n2) cost1)
              (doubles.times (doubles.of_int n1) cost2))
            (doubles.of_int n)
      context ← current_context doubles
      packed ← packed_cost (is_double_dtype context.input_dtype) n n1 cost
      let preferred = preferred_n1 context n
      pure (
          if ltb 0 preferred && not (n1 == preferred)
          then doubles.add packed (doubles.times (doubles.of_int n) (doubles.of_int 100))
          else packed)

    unfoldable pub bluestein_cost : ℕ → ℕ → Action (State doubles) doubles.Double
    bluestein_cost n conv_length = do
      cost ← recursive.cost_for conv_length
      pure (doubles.add (doubles.times (doubles.of_int 3) cost) (doubles.of_int (n + conv_length)))

    unfoldable pub rader_cost : ℕ → Action (State doubles) doubles.Double
    rader_cost n = do
      let conv_length = n - 1
      cost ← recursive.cost_for conv_length
      pure (
          doubles.add (doubles.times (doubles.of_int 3) cost)
            (doubles.of_int (n + 3 * conv_length)))
