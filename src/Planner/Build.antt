-- ===== src/Planner/Build.antt =====
-- `PlanBuilder::build` of `src/plan/builder_context.cpp`: the splits of a root that settings and
-- measurements name, and else the automatic plan. `build_maca_tail_plan` of
-- `src/plan/maca_tail_plans.hpp`. An exception of `std::stoll` is the refusal of its setting.
pub mod Splits
pub mod Returns
pub mod Sound
use Prim.Native.String.{String}
use text.Mathlib.Text.{◌==◌ as str_eq}
use flag_fft.Prelude.{
  ℕ, ◌-◌, ◌*◌, ◌/◌, ◌%◌, List, [], ◌∷◌, Option, none, some, Bool, true, false, not, ◌&&◌, ◌||◌, ltb,
  leb, ◌==◌, if◌then◌else◌, when◌then◌else◌, Env, Result, ok, throws, bad_setting,
  length_not_positive,
}
use flag_fft.Base.{FftRequest}
use flag_fft.Plan.{PlanNode, four_step_plan, bluestein_plan, rader_plan}
use flag_fft.Policy.{MacaTailPlan, maca_tail_plans, is_set, is_value}
use flag_fft.Rader.{find_primitive_root, build_rader_index_table}
use flag_fft.Api.Ints.{ℤ, pos, negsuc, same_int}
use flag_fft.Planner.Action.{Action, pure, raise, ◌>>=◌, ◌>>◌, lift}
use flag_fft.Planner.Candidates.{planner}
use flag_fft.Planner.Context.{Adaptor, RequestContext, set_request_context}
use flag_fft.Planner.Convolution.{split_node, not_off}
use flag_fft.Planner.Costs.{Recursive}
use flag_fft.Planner.Doubles.{Doubles}
use flag_fft.Planner.Lanes.{should_use_leaf}
use flag_fft.Planner.Leaves.{State, current_context, select_leaf_factors, make_leaf_plan}
use flag_fft.Planner.Strings.{Strings, read_number}

unfoldable pub is_first_dim : Option ℕ → Bool
is_first_dim none = false
is_first_dim (some dim) = dim == 1

unfoldable pub is_inverse_real : FftRequest → Bool
is_inverse_real request =
    str_eq request.real_transform_kind "c2r"
    || str_eq request.real_transform_kind "z2d"
    || str_eq request.origin_real_transform_kind "c2r"
    || str_eq request.origin_real_transform_kind "z2d"

unfoldable pub is_hcu_single_c2r_root : FftRequest → ℕ → Bool
unfolding is_first_dim is_inverse_real
is_hcu_single_c2r_root request n =
    str_eq request.device_type "hcu"
    && is_first_dim request.raw_dim
    && request.origin_rank == 1
    && request.requested_n == n
    && request.real_transform
    && is_inverse_real request

-- Both types are single precision.
unfoldable pub is_complex64_request : FftRequest → Bool
is_complex64_request request =
    str_eq request.input_dtype "complex64" && str_eq request.output_dtype "complex64"

-- A divisor that is neither 1 nor the length.
unfoldable pub checked_side : String → ℕ → ℤ → Result (Option ℕ)
checked_side name n (negsuc n1) = throws (bad_setting name)
checked_side name n (pos n1) =
    if leb n1 1 || leb n n1 || not (n % n1 == 0) then throws (bad_setting name) else ok (some n1)

unfoldable pub side_for : String → ℕ → Option ℤ → Option ℤ → Result (Option ℕ)
unfolding checked_side
side_for name n (some target) (some n1) =
    when same_int target (pos n) then checked_side name n n1 else ok none
side_for name n _ _ = throws (bad_setting name)

unfoldable pub cut_side : Strings → String → ℕ → Option (String × String) → Result (Option ℕ)
unfolding side_for read_number
cut_side strings name n none = throws (bad_setting name)
cut_side strings name n (some (target, n1)) =
    side_for name n (read_number strings target) (read_number strings n1)

-- A setting `<length>:<n1>`: the side for this length, or `none` where it is for another length.
unfoldable pub set_side : Strings → String → ℕ → Option String → Result (Option ℕ)
unfolding cut_side
set_side strings name n none = ok none
set_side strings name n (some spec) =
    when str_eq spec "" then ok none else cut_side strings name n (strings.cut ":" spec)

-- The measured sides of one-dimensional roots on Ascend, 0 for any other length.
unfoldable pub npu_operator_side : ℕ → ℕ
npu_operator_side n =
    if n == 16384
    then 128
    else if n == 46189
    then 209
    else if n == 185640
    then 420
    else if n == 340200
    then 567
    else if n == 524288
    then 512
    else if n == 663000
    then 663
    else 0

unfoldable pub is_maca_batch_c2c : Env → FftRequest → ℕ → Bool
unfolding is_first_dim is_complex64_request not_off
is_maca_batch_c2c env request n =
    str_eq request.device_type "maca"
    && str_eq request.device_arch "102"
    && is_first_dim request.raw_dim
    && leb request.origin_rank 1
    && request.batch == 64
    && n == request.requested_n
    && not request.real_transform
    && is_complex64_request request
    && not_off (env "FLAGFFT_MACA_1D_BATCH")

module _ (doubles : Doubles) where
  -- `set_request_context(request)`
  unfoldable pub left_context : Result (State doubles) → Action (State doubles) (Unit {0})
  left_context (ok next) state = pure tt next
  left_context (throws e) state = raise e state

  unfoldable pub switch_context : Env → Adaptor → FftRequest → Action (State doubles) (Unit {0})
  unfolding left_context
  switch_context env adaptor request state =
      left_context (set_request_context env adaptor request state) state

  -- The statements after a group that may return a node.
  unfoldable pub or_node :
      Option PlanNode → Action (State doubles) PlanNode → Action (State doubles) PlanNode
  or_node (some node) next = pure node
  or_node none next = next

  module _ (env : Env) (strings : Strings) (recursive : Recursive doubles) where
    -- A leaf, or the exception that names the setting which asks for it.
    unfoldable pub leaf_child : ℕ → Action (State doubles) PlanNode
    leaf_child n = do
      context ← current_context doubles
      factors ← select_leaf_factors doubles env n
      when should_use_leaf context n factors
          then make_leaf_plan doubles n factors
          else raise (bad_setting "FLAGFFT_NPU_FOURSTEP_LEAF")

    -- Both leaves are selected and tested before the first one is made.
    unfoldable pub leaf_split : ℕ → ℕ → ℕ → Action (State doubles) PlanNode
    leaf_split n n1 n2 = do
      context ← current_context doubles
      row_factors ← select_leaf_factors doubles env n1
      col_factors ← select_leaf_factors doubles env n2
      when not (should_use_leaf context n1 row_factors)
            || not (should_use_leaf context n2 col_factors)
          then raise (bad_setting "FLAGFFT_NPU_FOURSTEP_LEAF")
          else do
            row ← make_leaf_plan doubles n1 row_factors
            col ← make_leaf_plan doubles n2 col_factors
            pure (four_step_plan n n1 n2 row col)

    unfoldable pub leaf_or_auto_split : ℕ → ℕ → Action (State doubles) PlanNode
    unfolding leaf_split split_node
    leaf_or_auto_split n n1 =
        when is_value (env "FLAGFFT_NPU_FOURSTEP_LEAF") "1"
        then leaf_split n n1 (n / n1)
        else split_node doubles env recursive n n1 (n / n1)

    -- A leaf of 64 points on the vector cores, if it fits.
    unfoldable pub aiv64_leaf : Bool → ℕ → Action (State doubles) (Option PlanNode)
    aiv64_leaf use_aiv64 n =
        when use_aiv64 && n == 64
        then (do
          context ← current_context doubles
          factors ← select_leaf_factors doubles env n
          when should_use_leaf context n factors
              then (do node ← make_leaf_plan doubles n factors; pure (some node))
              else pure none)
        else pure none

    -- `build_3d_child`
    unfoldable pub child_3d : Bool → ℕ → Action (State doubles) PlanNode
    unfolding aiv64_leaf or_node leaf_child
    child_3d use_aiv64 n = do
      found ← aiv64_leaf use_aiv64 n
      or_node found (
          when is_value (env "FLAGFFT_NPU_FOURSTEP_LEAF") "1"
          then leaf_child n
          else recursive.build_auto_node n false)

    unfoldable pub split_3d : Bool → ℕ → ℕ → Action (State doubles) PlanNode
    unfolding child_3d
    split_3d use_aiv64 n n1 = do
      row ← child_3d use_aiv64 n1
      col ← child_3d use_aiv64 (n / n1)
      pure (four_step_plan n n1 (n / n1) row col)

    -- The split that a setting names, if it is for this length.
    unfoldable pub split_at :
        (ℕ → Action (State doubles) PlanNode) → Option ℕ → Action (State doubles) (Option PlanNode)
    split_at build_split none = pure none
    split_at build_split (some n1) = do node ← build_split n1; pure (some node)

    -- A group that reads a setting where a test holds.
    unfoldable pub setting_split :
        Bool
        → String
        → ℕ
        → (ℕ → Action (State doubles) PlanNode)
        → Action (State doubles) (Option PlanNode)
    unfolding set_side split_at
    setting_split test name n build_split =
        when test
        then (do side ← lift (set_side strings name n (env name)); split_at build_split side)
        else pure none

    -- The fixed split of a length.
    unfoldable pub fixed_split : Bool → ℕ → ℕ → Action (State doubles) (Option PlanNode)
    unfolding split_node
    fixed_split test n n1 =
        when test
        then (do node ← split_node doubles env recursive n n1 (n / n1); pure (some node))
        else pure none

    unfoldable pub build_maca_tail_plan : ℕ → MacaTailPlan → Action (State doubles) PlanNode
    unfolding split_node
    build_maca_tail_plan n plan =
        when str_eq plan.name "default"
        then recursive.build_auto_node n true
        else when not (plan.second == 0)
        then split_node doubles env recursive n plan.first plan.second
        else when str_eq plan.name "rader1008"
        then (do
          root ← lift (find_primitive_root n)
          idx ← lift (build_rader_index_table n root)
          conv ← recursive.build_auto_node (n - 1) false
          pure (rader_plan n root idx conv))
        else do
          fft ← recursive.build_auto_node plan.first false
          pure (bluestein_plan n plan.first fft)

    unfoldable pub first_experiment :
        ℕ → List MacaTailPlan → Action (State doubles) (Option PlanNode)
    unfolding build_maca_tail_plan
    first_experiment n [] = pure none
    first_experiment n (plan ∷ plans) = do node ← build_maca_tail_plan n plan; pure (some node)

    -- From the MACA experiments on.
    unfoldable pub build_last : FftRequest → ℕ → Action (State doubles) PlanNode
    unfolding first_experiment or_node is_maca_batch_c2c fixed_split
    build_last request n = do
      experiments ← lift (maca_tail_plans env n request false)
      experiment ← first_experiment n experiments
      or_node experiment (do
        batch ←
            fixed_split (is_maca_batch_c2c env request n && (n == 16384 || n == 663000)) n
              (if n == 16384 then 256 else 884)
        or_node batch (recursive.build_auto_node n true))

    -- From the splits of three dimensions on Ascend on.
    unfoldable pub build_3d : FftRequest → ℕ → Action (State doubles) PlanNode
    unfolding is_complex64_request is_first_dim aiv64_leaf or_node setting_split split_3d
        npu_operator_side fixed_split build_last
    build_3d request n = do
      let npu = str_eq request.device_type "npu"
      let line = is_first_dim request.raw_dim
      let use_aiv64 =
          npu
          && request.origin_rank == 3
          && line
          && is_complex64_request request
          && is_value (env "FLAGFFT_NPU_3D_AIV64") "1"
      leaf ← aiv64_leaf use_aiv64 n
      or_node leaf (do
        block ←
            setting_split
              (npu
                && request.origin_rank == 3
                && line
                && request.requested_n == n
                && is_complex64_request request)
              "FLAGFFT_NPU_3D_FOURSTEP_SPLIT" n (split_3d use_aiv64 n)
        or_node block (do
          let side = npu_operator_side n
          operator ←
              fixed_split
                (npu
                  && line
                  && request.origin_rank == 1
                  && request.requested_n == n
                  && (str_eq request.input_dtype "complex64"
                      || str_eq request.output_dtype "complex64")
                  && not (side == 0))
                n side
          or_node operator (build_last request n)))

    -- After the context is set.
    unfoldable pub build_root : FftRequest → ℕ → Action (State doubles) PlanNode
    unfolding is_hcu_single_c2r_root is_complex64_request is_first_dim setting_split split_node
        fixed_split leaf_or_auto_split or_node build_3d
    build_root request n = do
      let npu = str_eq request.device_type "npu"
      let hcu = is_hcu_single_c2r_root request n
      set ←
          setting_split hcu "FLAGFFT_HCU_C2R_FOURSTEP_SPLIT" n
            (λ n1. split_node doubles env recursive n n1 (n / n1))
      or_node set (do
        measured ← fixed_split (hcu && n == 340200) n 567
        or_node measured (do
          line ←
              setting_split (npu && request.origin_rank == 1) "FLAGFFT_NPU_FOURSTEP_SPLIT" n
                (leaf_or_auto_split n)
          or_node line (do
            plane ←
                setting_split
                  (npu
                    && request.origin_rank == 2
                    && is_first_dim request.raw_dim
                    && request.requested_n == n
                    && is_complex64_request request)
                  "FLAGFFT_NPU_2D_FOURSTEP_SPLIT" n (leaf_or_auto_split n)
            or_node plane (build_3d request n))))

  -- `build(n, request)`, with a depth for the planner's calls of itself.
  unfoldable pub build :
      Env → Strings → Adaptor → (depth n : ℕ) → FftRequest → Action (State doubles) PlanNode
  unfolding switch_context build_root planner
  build env strings adaptor depth n request = do
    switch_context env adaptor request
    when n == 0
        then raise length_not_positive
        else build_root env strings (planner doubles env strings depth) request n
