-- ===== src/Tests/Policy.antt =====
-- The automatic MACA plan for 997 points, and names of kinds.
use flag_fft.Prelude.{ℕ, Option, List, ◌⊎◌, [], ◌∷◌, none, some, false, ◌≡◌, refl, ok, Env}
use flag_fft.Base.{FftRequest}
use flag_fft.Base.Kernels.{leaf}
use flag_fft.Base.Kernels.Distinguished.{kernel_kind_name-injective}
use flag_fft.Base.PlanKinds.{plan_node_kind_name-injective, bluestein}
use flag_fft.Policy.{
  ix_ct_batch_policy_enabled, maca_tail_plans, tail_plan, maca_tail_automatic_plan,
  maca_tail_policy_enabled, automatic_choice, automatic_tail_plan, tail_plans_after,
}
use flag_fft.Planner.Context.{
  RequestContext, Adaptor, BuilderState, make_request_context, set_request_context,
}
use flag_fft.Planner.Context.Switch.{Forgets, set_request_context_lem}
use flag_fft.Policy.Experiments.{IsOffered, maca_tail_plans-IsOffered}

abbrev no_settings : Env
no_settings name = none

abbrev request : FftRequest
request = record {
  fft_length = 997;
  input_shape = 1 ∷ 997 ∷ [];
  input_strides = 997 ∷ 1 ∷ [];
  n = none;
  requested_n = 997;
  raw_dim = some 1;
  origin_rank = 1;
  real_transform = false;
  real_transform_kind = "";
  origin_real_transform_kind = "";
  packed_real_child = false;
  maca_3d_c2c32_single_cube = false;
  normalized_dim = some 1;
  norm = "backward";
  input_dtype = "complex128";
  output_dtype = "complex128";
  device_type = "maca";
  device_index = some 0;
  device_arch = "102";
  input_layout = "contiguous";
  requires_contiguous_copy = false;
  direction = "forward";
  batch = 1;
  hcu_3d_middle_batch_pack = 0;
}

automatic_997 : maca_tail_plans no_settings 997 request false ≡ ok (tail_plan "bs2048" 2048 0 ∷ [])
unfolding maca_tail_plans maca_tail_automatic_plan maca_tail_policy_enabled automatic_choice
    automatic_tail_plan tail_plans_after
automatic_997 = refl

maca_tail_plans-IsOffered_example : IsOffered 997 false (tail_plan "bs2048" 2048 0 ∷ [])
maca_tail_plans-IsOffered_example =
    maca_tail_plans-IsOffered no_settings 997 request false (tail_plan "bs2048" 2048 0 ∷ [])
      automatic_997

kernel_kind_name-injective_example : leaf ≡ leaf
kernel_kind_name-injective_example = kernel_kind_name-injective leaf leaf refl

plan_node_kind_name-injective_example : bluestein ≡ bluestein
plan_node_kind_name-injective_example = plan_node_kind_name-injective bluestein bluestein refl

abbrev adaptor : Adaptor
adaptor = record { backend_name = "maca"; max_dynamic_smem_bytes = λ index. 65536 }

abbrev context_997 : RequestContext
context_997 = record {
  input_dtype = "complex128";
  output_dtype = "complex128";
  real_transform_kind = "";
  origin_real_transform_kind = "";
  device_type = "maca";
  device_index = some 0;
  device_arch = "102";
  origin_rank = 1;
  requested_n = 997;
  batch = 1;
  maca_3d_c2c32_single_cube = false;
  ix_short_single = false;
  ix_ct_batch = false;
  max_dynamic_smem_bytes = 65536;
}

-- A builder that has planned nothing for a context, with factors left from an earlier one.
abbrev state_of : Option RequestContext → List (ℕ × ℕ) → BuilderState ℕ ℕ
state_of context nodes = record {
  context = context;
  parallel_leaf_heuristic_enabled = false;
  node_cache = nodes;
  cost_cache = nodes;
  divisor_cache = [];
  factorization_cache = [];
  best_leaf_factors_cache = (256, 4 ∷ 4 ∷ 4 ∷ 4 ∷ []) ∷ [];
}

switched :
    set_request_context no_settings adaptor request (state_of none ((256, 1) ∷ []))
    ≡ ok (state_of (some context_997) [])
unfolding set_request_context make_request_context ix_ct_batch_policy_enabled
switched = refl

set_request_context_lem_example :
    (next : RequestContext) × (make_request_context no_settings adaptor request ≡ ok next)
    × (some context_997 ≡ some next)
    × (((none ≡ some next) × (state_of (some context_997) [] ≡ state_of none ((256, 1) ∷ [])))
        ⊎ ((¬ (none ≡ some next))
            × Forgets (state_of none ((256, 1) ∷ [])) (state_of (some context_997) [])))
set_request_context_lem_example =
    set_request_context_lem no_settings adaptor request (state_of none ((256, 1) ∷ []))
      (state_of (some context_997) []) switched
