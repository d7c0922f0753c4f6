-- ===== src/Policy.antt =====
-- Request-level policies: `src/codegen/request_policy.cpp`, `src/utils/include/flagfft/maca_tail_policy.hpp`
-- and the experiment matrix of `src/plan/maca_tail_plans.hpp`.
pub mod Experiments
use Prim.Native.String.{String}
use text.Mathlib.Text.{◌==◌ as str_eq}
use flag_fft.Prelude.{
  ℕ, List, [], ◌∷◌, Option, none, some, Bool, true, false, not, ◌&&◌, ◌||◌, ltb, leb, ◌==◌,
  if◌then◌else◌, Result, ok, throws, ◌>>=◌, bad_setting, unsupported_experiment,
  compare_only_for_tune, experiment_prerequisites, Env, is_some_of, last_is,
}
use flag_fft.Base.{FftRequest}

-- `setting` is unset or "1", is "0", or is refused.
unfoldable pub on_unless_zero : Env → String → Result Bool
on_unless_zero env name = elim (env name) [
  | none ↦ ok true
  | some setting ↦
      if str_eq setting "1"
      then ok true
      else if str_eq setting "0"
      then ok false
      else throws (bad_setting name)
]

-- A pointer to a non-empty text.
unfoldable pub is_set : Option String → Bool
is_set none = false
is_set (some value) = not (str_eq value "")

unfoldable pub is_value : Option String → String → Bool
is_value none expected = false
is_value (some value) expected = str_eq value expected

-- The conditions that the IX policies share, but for the lengths and the batch.
unfoldable pub is_ix_dense_1d : FftRequest → ℕ → Bool
unfolding is_some_of last_is
is_ix_dense_1d request batch =
    str_eq request.device_type "ix"
    && str_eq request.device_arch "71"
    && is_some_of request.raw_dim 1
    && request.batch == batch
    && request.fft_length == request.requested_n
    && str_eq request.input_dtype "complex64"
    && str_eq request.output_dtype "complex64"
    && last_is request.input_strides 1

unfoldable pub ix_ct_single_policy_enabled : Env → FftRequest → Result Bool
unfolding is_ix_dense_1d on_unless_zero
ix_ct_single_policy_enabled env request =
    if is_ix_dense_1d request 1
      && (request.requested_n == 1024
          || request.requested_n == 2048
          || request.requested_n == 16384)
    then on_unless_zero env "FLAGFFT_IX_CT_SINGLE"
    else ok false

unfoldable pub ix_ct_batch_policy_enabled : Env → FftRequest → Result Bool
unfolding is_ix_dense_1d on_unless_zero
ix_ct_batch_policy_enabled env request =
    let measured_1d_batch =
      leb request.origin_rank 1
      && (request.requested_n == 16384
          || request.requested_n == 8191
          || request.requested_n == 16381
          || (request.requested_n == 8192 && request.packed_real_child)) in
    let qualified_length =
      request.requested_n == 1024 || request.requested_n == 2048 || measured_1d_batch in
    if is_ix_dense_1d request 64 && qualified_length
    then on_unless_zero env "FLAGFFT_IX_CT_BATCH"
    else ok false

unfoldable pub ix_packed_real_policy_enabled : Env → FftRequest → Result Bool
unfolding is_ix_dense_1d on_unless_zero
ix_packed_real_policy_enabled env request =
    if is_ix_dense_1d request 1
      && (request.requested_n == 328050
          || request.requested_n == 340200
          || request.requested_n == 663000
          || request.requested_n == 1048576)
    then on_unless_zero env "FLAGFFT_IX_CT_SINGLE"
    else ok false

unfoldable pub ix_ct_single_tle_policy : Env → FftRequest → Result ℕ
unfolding is_ix_dense_1d on_unless_zero
ix_ct_single_tle_policy env request =
    let policy =
      if request.requested_n == 1048576
      then 2
      else if request.requested_n == 328050 || request.requested_n == 340200
      then 1
      else 0 in
    if not (is_ix_dense_1d request 1)
    then ok 0
    else if policy == 0
    then ok 0
    else on_unless_zero env "FLAGFFT_IX_CT_SINGLE" >>= λ on. ok (if on then policy else 0)

unfoldable pub maca_tail_policy_enabled : Env → FftRequest → Result Bool
unfolding is_set is_value is_some_of
maca_tail_policy_enabled env request =
    let value = env "FLAGFFT_MACA_TAIL_POLICY" in
    if not (
      str_eq request.device_type "maca"
      && is_some_of request.raw_dim 1
      && request.batch == 1
      && (request.origin_rank == 0 || request.origin_rank == 1))
    then ok false
    else if is_set value
    then (if is_value value "0"
        then ok false
        else if is_value value "1"
        then ok true
        else throws (bad_setting "FLAGFFT_MACA_TAIL_POLICY"))
    else ok true

-- The automatic plans: a root for a length, or none (the empty text of the source).
pub data AutomaticPlan : Type 0 where
  bs2048 ct1024x1024 ct405x810 : AutomaticPlan

-- The choice once the policy applies.
unfoldable pub automatic_choice : FftRequest → Option AutomaticPlan
automatic_choice request =
    let n = request.requested_n in
    let kind = request.real_transform_kind in
    let fp64 = str_eq request.input_dtype "complex128" in
    let fp32 = str_eq request.input_dtype "complex64" in
    if request.real_transform
    then (if fp64 && n == 997 && (str_eq kind "d2z" || str_eq kind "z2d")
        then some bs2048
        else if fp32 && n == 1009 && (str_eq kind "r2c" || str_eq kind "c2r")
        then some bs2048
        else none)
    else if not (str_eq request.input_dtype request.output_dtype)
    then none
    else if fp64
    then (if n == 997 then some bs2048 else if n == 1048576 then some ct1024x1024 else none)
    else if fp32 && n == 1009
    then some bs2048
    else none

unfoldable pub maca_tail_automatic_plan : Env → FftRequest → Result (Option AutomaticPlan)
unfolding maca_tail_policy_enabled automatic_choice is_set
maca_tail_automatic_plan env request = maca_tail_policy_enabled env request >>= λ enabled. ok (
    if not enabled || is_set (env "FLAGFFT_MACA_TAIL_PLAN") then none else automatic_choice request)

unfoldable pub maca_tail_real_direct_dft : Env → FftRequest → Result Bool
unfolding maca_tail_policy_enabled
maca_tail_real_direct_dft env request = maca_tail_policy_enabled env request >>= λ enabled. ok (
    enabled
    && request.real_transform
    && (str_eq request.input_dtype "complex64" || str_eq request.input_dtype "complex128")
    && ((leb 2 request.requested_n && leb request.requested_n 23)
        || (leb 24 request.requested_n
            && leb request.requested_n 37
            && (str_eq request.real_transform_kind "r2c"
                || str_eq request.real_transform_kind "c2r"))))

-- `MacaTailPlan`; `first` and `second` are 0 where the source leaves them so.
pub record MacaTailPlan : Type 0 where
  pub name : String
  pub first : ℕ
  pub second : ℕ

abbrev pub tail_plan : String → ℕ → ℕ → MacaTailPlan
tail_plan name first second = record { name = name; first = first; second = second }

unfoldable pub automatic_tail_plan : AutomaticPlan → MacaTailPlan
automatic_tail_plan bs2048 = tail_plan "bs2048" 2048 0
automatic_tail_plan ct1024x1024 = tail_plan "ct1024x1024" 1024 1024
automatic_tail_plan ct405x810 = tail_plan "ct405x810" 405 810

unfoldable pub is_fp32 : FftRequest → Bool
is_fp32 request =
    (str_eq request.input_dtype "complex64" && str_eq request.output_dtype "complex64")
    || (str_eq request.input_dtype "float32" && str_eq request.output_dtype "complex64")
    || (str_eq request.input_dtype "complex64" && str_eq request.output_dtype "float32")

unfoldable pub is_fp64 : FftRequest → Bool
is_fp64 request =
    (str_eq request.input_dtype "complex128" && str_eq request.output_dtype "complex128")
    || (str_eq request.input_dtype "float64" && str_eq request.output_dtype "complex128")
    || (str_eq request.input_dtype "complex128" && str_eq request.output_dtype "float64")

-- The closed experiment matrix.
unfoldable pub experiment_plans : ℕ → Bool → Bool → List MacaTailPlan
experiment_plans n fp32 fp64 =
    if n == 997 && fp64
    then tail_plan "bs2000" 2000 0 ∷ tail_plan "bs2048" 2048 0 ∷ []
    else if n == 1009 && fp32
    then tail_plan "rader1008" 1008 0 ∷ tail_plan "bs2048" 2048 0 ∷ []
    else if n == 1048576 && fp64
    then tail_plan "ct512x2048" 512 2048 ∷ tail_plan "ct1024x1024" 1024 1024 ∷ []
    else if n == 663000 && (fp32 || fp64)
    then tail_plan "ct375x1768" 375 1768
      ∷ tail_plan "ct650x1020" 650 1020
      ∷ tail_plan "ct780x850" 780 850
      ∷ []
    else if n == 328050 && (fp32 || fp64)
    then tail_plan "ct450x729" 450 729
      ∷ tail_plan "ct486x675" 486 675
      ∷ tail_plan "ct405x810" 405 810
      ∷ []
    else []

-- The loop that looks an explicit setting up among the plans.
unfoldable pub plan_of_name : String → List MacaTailPlan → Result (List MacaTailPlan)
plan_of_name setting [] = throws (bad_setting "FLAGFFT_MACA_TAIL_PLAN")
plan_of_name setting (plan ∷ plans) =
    if str_eq plan.name setting then ok (plan ∷ []) else plan_of_name setting plans

-- What an explicit setting selects from the plans of its experiment.
unfoldable pub selected_plans : String → Bool → List MacaTailPlan → Result (List MacaTailPlan)
unfolding plan_of_name
selected_plans setting tuning [] = throws unsupported_experiment
selected_plans setting tuning (plan ∷ plans) =
    if str_eq setting "compare"
    then (if tuning then ok (plan ∷ plans) else throws compare_only_for_tune)
    else if str_eq setting "default"
    then ok (tail_plan "default" 0 0 ∷ [])
    else plan_of_name setting (plan ∷ plans)

-- `maca_tail_plans` behind the automatic plan, by the setting FLAGFFT_MACA_TAIL_PLAN.
unfoldable pub explicit_plans :
    Env → ℕ → FftRequest → Bool → Option String → Result (List MacaTailPlan)
unfolding is_value is_fp32 is_fp64 experiment_plans selected_plans is_some_of
explicit_plans env n request tuning none = ok []
explicit_plans env n request tuning (some setting) =
    if str_eq setting ""
      || not (
          str_eq request.device_type "maca"
          && is_some_of request.raw_dim 1
          && request.batch == 1
          && n == request.requested_n)
    then ok []
    else if not
        (is_value (env "FLAGFFT_TUNE_DISABLE") "1" && is_value (env "FLAGFFT_PACKED_REAL") "0")
    then throws experiment_prerequisites
    else selected_plans setting tuning (experiment_plans n (is_fp32 request) (is_fp64 request))

-- `maca_tail_plans` once the automatic plan is known.
unfoldable pub tail_plans_after :
    Env → ℕ → FftRequest → Bool → Option AutomaticPlan → Result (List MacaTailPlan)
unfolding automatic_tail_plan explicit_plans
tail_plans_after env n request tuning none =
    explicit_plans env n request tuning (env "FLAGFFT_MACA_TAIL_PLAN")
tail_plans_after env n request tuning (some plan) =
    if n == request.requested_n
    then ok (automatic_tail_plan plan ∷ [])
    else explicit_plans env n request tuning (env "FLAGFFT_MACA_TAIL_PLAN")

unfoldable pub maca_tail_plans : Env → ℕ → FftRequest → Bool → Result (List MacaTailPlan)
unfolding maca_tail_automatic_plan tail_plans_after
maca_tail_plans env n request tuning =
    maca_tail_automatic_plan env request >>= tail_plans_after env n request tuning
