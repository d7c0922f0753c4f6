-- ===== src/Planner/Context.antt =====
-- `PlanBuilder::RequestContext` and the operations on it of `src/plan/builder_context.cpp`.
pub mod Switch
use Prim.Native.String.{String}
use text.Mathlib.Text.{◌==◌ as str_eq}
use flag_fft.Prelude.{
  ℕ, List, [], Option, none, some, Bool, true, false, ◌&&◌, ◌==◌, if◌then◌else◌, Result, ok, throws,
  ◌>>=◌, Env, no_request_context,
}
use flag_fft.Base.{FftRequest, dynamic_smem_fallback_bytes}
use flag_fft.Policy.{ix_ct_single_policy_enabled, ix_ct_batch_policy_enabled}
use flag_fft.Planner.Enumerate.{Cache}
use flag_fft.Planner.Divisors.{DivisorCache}

pub record RequestContext : Type 0 where
  pub input_dtype : String
  pub output_dtype : String
  pub real_transform_kind : String
  pub origin_real_transform_kind : String
  pub device_type : String
  pub device_index : Option ℕ
  pub device_arch : String
  pub origin_rank : ℕ
  pub requested_n : ℕ
  pub batch : ℕ
  pub maca_3d_c2c32_single_cube : Bool
  pub ix_short_single : Bool
  pub ix_ct_batch : Bool
  pub max_dynamic_smem_bytes : ℕ

unfoldable pub same_index : Option ℕ → Option ℕ → Bool
same_index none none = true
same_index (some i) (some j) = i == j
same_index _ _ = false

unfoldable pub same_flag : Bool → Bool → Bool
same_flag true b = b
same_flag false true = false
same_flag false false = true

unfoldable pub same_context : RequestContext → RequestContext → Bool
unfolding same_index same_flag
same_context context other =
    str_eq context.input_dtype other.input_dtype
    && str_eq context.output_dtype other.output_dtype
    && str_eq context.real_transform_kind other.real_transform_kind
    && str_eq context.origin_real_transform_kind other.origin_real_transform_kind
    && str_eq context.device_type other.device_type
    && same_index context.device_index other.device_index
    && str_eq context.device_arch other.device_arch
    && context.origin_rank == other.origin_rank
    && context.requested_n == other.requested_n
    && context.batch == other.batch
    && same_flag context.maca_3d_c2c32_single_cube other.maca_3d_c2c32_single_cube
    && same_flag context.ix_short_single other.ix_short_single
    && same_flag context.ix_ct_batch other.ix_ct_batch
    && context.max_dynamic_smem_bytes == other.max_dynamic_smem_bytes

-- What the planner asks of the device adaptor that the build selects.
pub record Adaptor : Type 0 where
  pub backend_name : String
  pub max_dynamic_smem_bytes : Option ℕ → ℕ

unfoldable pub make_request_context : Env → Adaptor → FftRequest → Result RequestContext
make_request_context env adaptor request =
    (if request.requested_n == 1024 then ix_ct_single_policy_enabled env request else ok false)
    >>= λ single. ix_ct_batch_policy_enabled env request >>= λ batch. ok (record {
      input_dtype = request.input_dtype;
      output_dtype = request.output_dtype;
      real_transform_kind = request.real_transform_kind;
      origin_real_transform_kind = request.origin_real_transform_kind;
      device_type = request.device_type;
      device_index = request.device_index;
      device_arch = request.device_arch;
      origin_rank = request.origin_rank;
      requested_n = request.requested_n;
      batch = request.batch;
      maca_3d_c2c32_single_cube = request.maca_3d_c2c32_single_cube;
      ix_short_single = single;
      ix_ct_batch = batch;
      max_dynamic_smem_bytes =
          if str_eq request.device_type adaptor.backend_name
          then adaptor.max_dynamic_smem_bytes request.device_index
          else dynamic_smem_fallback_bytes;
    })

-- The part of the builder's state that planning leaves reads; `Node` is what the node cache holds
-- and `Cost` what the cost cache holds.
pub record BuilderState (Node Cost : Type 0) : Type 0 where
  pub context : Option RequestContext
  pub parallel_leaf_heuristic_enabled : Bool
  pub node_cache : List (ℕ × Node)
  pub cost_cache : List (ℕ × Cost)
  pub divisor_cache : DivisorCache
  pub factorization_cache : Cache
  pub best_leaf_factors_cache : List (ℕ × List ℕ)

unfoldable pub is_current : Option RequestContext → RequestContext → Bool
unfolding same_context
is_current none next = false
is_current (some context) next = same_context context next

-- `tune_candidate_cache_` is cleared with the two other caches and is not part of this state.
unfoldable pub set_request_context :
    {Node Cost : Type 0}
    → Env
    → Adaptor
    → FftRequest
    → BuilderState Node Cost
    → Result (BuilderState Node Cost)
unfolding make_request_context is_current
set_request_context env adaptor request state = make_request_context env adaptor request >>= λ next.
    ok (
      if is_current state.context next then state else record {
        context = some next;
        parallel_leaf_heuristic_enabled = state.parallel_leaf_heuristic_enabled;
        node_cache = [];
        cost_cache = [];
        divisor_cache = state.divisor_cache;
        factorization_cache = state.factorization_cache;
        best_leaf_factors_cache = state.best_leaf_factors_cache;
      })

unfoldable pub request_context :
    {Node Cost : Type 0} → BuilderState Node Cost → Result RequestContext
request_context state = elim state.context [
  | none ↦ throws no_request_context
  | some context ↦ ok context
]
