-- ===== src/Tests/Builder.antt =====
-- Roots built with a toy arithmetic, whole numbers in place of `double`.
use Prim.Native.String.{String}
use flag_fft.Prelude.{
  true, ℕ, ◌+◌, ◌-◌, ◌*◌, ◌/◌, List, [], ◌∷◌, none, some, false, ltb, ◌==◌, ◌≡◌, refl, Env, ok,
  product, arith,
}
use flag_fft.Planner.Radices.{Factorization, factorize_supported_radices}
use flag_fft.Planner.Npu.{natural_factors}
use flag_fft.Planner.Npu.Returns.{natural_factors-factorize_supported_radices}
use flag_fft.Base.{FftRequest}
use flag_fft.Api.Ints.{pos}
use flag_fft.Planner.Context.{Adaptor, RequestContext}
use flag_fft.Planner.Doubles.{Doubles}
use flag_fft.Planner.Strings.{Strings}
use flag_fft.Planner.Leaves.{State}
use flag_fft.Planner.WellFormed.{IsPlanOf}
use flag_fft.Plan.{PlanNode}
use flag_fft.Planner.Action.{returned}
use flag_fft.Planner.Candidates.{planner}
use flag_fft.Planner.WellFormed.{IsGood}
use flag_fft.Planner.Npu.Total.{build_auto_node-Returns}
use flag_fft.Planner.Build.{build}
use flag_fft.Planner.Build.Returns.{build-Returns}

abbrev toy : Doubles
toy = record {
  Double = ℕ;
  of_int = λ n. n;
  quarter = 1;
  most = 1;
  add = λ a b. a + b;
  subtract = λ a b. a - b;
  times = λ a b. a * b;
  divide = λ a b. a / b;
  less = ltb;
  equal = λ a b. a == b;
  log = λ a. a;
  abs = λ a. a;
  infinity = 1000000;
  llround = pos;
  floor_sqrt = λ n. n;
}

abbrev no_strings : Strings
no_strings = record {
  stoll = λ text. none;
  size = λ text. 0;
  cut = λ separator text. none;
  split = λ separator text. [];
}

abbrev no_settings : Env
no_settings name = none

abbrev request_for : String → ℕ → FftRequest
request_for device n = record {
  fft_length = n;
  input_shape = 1 ∷ n ∷ [];
  input_strides = n ∷ 1 ∷ [];
  n = none;
  requested_n = n;
  raw_dim = some 1;
  origin_rank = 1;
  real_transform = false;
  real_transform_kind = "";
  origin_real_transform_kind = "";
  packed_real_child = false;
  maca_3d_c2c32_single_cube = false;
  normalized_dim = some 1;
  norm = "backward";
  input_dtype = "complex64";
  output_dtype = "complex64";
  device_type = device;
  device_index = some 0;
  device_arch = "";
  input_layout = "contiguous";
  requires_contiguous_copy = false;
  direction = "forward";
  batch = 1;
  hcu_3d_middle_batch_pack = 0;
}

abbrev adaptor : Adaptor
adaptor = record { backend_name = "npu"; max_dynamic_smem_bytes = λ index. 65536 }

abbrev empty : State toy
empty = record {
  context = none;
  parallel_leaf_heuristic_enabled = false;
  node_cache = [];
  cost_cache = [];
  divisor_cache = [];
  factorization_cache = [];
  best_leaf_factors_cache = [];
}

natural_factors-factorize_supported_radices_example :
    (f : Factorization) × (found : List ℕ) × (factorize_supported_radices 360 ≡ ok f)
    × (natural_factors f.factors ≡ ok found)
    × (product found * f.remainder ≡ 360)
natural_factors-factorize_supported_radices_example =
    natural_factors-factorize_supported_radices 360 (omega arith)

abbrev npu_context : RequestContext
npu_context = record {
  input_dtype = "complex64";
  output_dtype = "complex64";
  real_transform_kind = "";
  origin_real_transform_kind = "";
  device_type = "npu";
  device_index = some 0;
  device_arch = "";
  origin_rank = 1;
  requested_n = 331;
  batch = 1;
  maca_3d_c2c32_single_cube = false;
  ix_short_single = false;
  ix_ct_batch = false;
  max_dynamic_smem_bytes = 65536;
}

-- A builder that has planned nothing.
abbrev fresh : State toy
fresh = record {
  context = some npu_context;
  parallel_leaf_heuristic_enabled = false;
  node_cache = [];
  cost_cache = [];
  divisor_cache = [];
  factorization_cache = [];
  best_leaf_factors_cache = [];
}

-- A prime length, which takes a convolution.
build_auto_node-Returns_example :
    (node : PlanNode) × (state' : State toy) × ((planner toy no_settings no_strings
          2).build_auto_node
        331 true fresh
      ≡ (returned node, state'))
    × IsPlanOf 331 node
    × IsGood state'
build_auto_node-Returns_example =
    build_auto_node-Returns toy no_settings no_strings 0 331 true npu_context fresh (λ name. refl)
      refl refl refl (record { nodes = tt; divisors = tt; factorizations = tt; leaves = tt })
      (omega arith)

-- A length with a measured side, whose children are Stockham stages.
build-Returns_example :
    (node : PlanNode) × (state' : State toy) × (build toy no_settings no_strings adaptor 2 16384
        (request_for "npu" 16384)
        empty
      ≡ (returned node, state'))
    × IsPlanOf 16384 node
    × IsGood state'
build-Returns_example =
    build-Returns toy no_settings no_strings adaptor 0 16384 (request_for "npu" 16384) empty
      (λ name. refl) refl refl
      (record { nodes = tt; divisors = tt; factorizations = tt; leaves = tt }) (omega arith)
