-- ===== src/Api/Request.antt =====
-- `request_from_desc` and `raw_supported_node` of `src/exec/c_api_internal.cpp`. `build_plan` asks for a
-- request only where a descriptor is supported, so that its numbers are not negative.
pub mod Dense
use Prim.Native.String.{String}
use flag_fft.Prelude.{
  ℕ, ◌*◌, ◌-◌, List, [], ◌∷◌, Option, none, some, Bool, true, false, ◌&&◌, ◌||◌, ◌==◌,
  if◌then◌else◌, when◌then◌else◌, product, map, ltb, ◌^◌, Result, ok, throws, undefined_behaviour,
}
use flag_fft.Base.{FftRequest}
use flag_fft.Planner.Context.{Adaptor}
use flag_fft.Plan.{
  PlanNode, leaf_plan, direct_dft_plan, stockham_plan, four_step_plan, bluestein_plan, rader_plan,
  two_dim_plan, three_dim_plan,
}
use flag_fft.Api.Ints.{ℤ, pos, negsuc}
use flag_fft.Api.{
  FftType, r2c, c2r, d2z, z2d, Precision, float32, float64, PlanDesc, is_real_forward,
  is_real_inverse,
}

-- The value of a number that is not negative.
unfoldable pub magnitude : ℤ → ℕ
magnitude (pos n) = n
magnitude (negsuc n) = 0

unfoldable pub real_kind : FftType → String
real_kind r2c = "r2c"
real_kind c2r = "c2r"
real_kind d2z = "d2z"
real_kind z2d = "z2d"
real_kind _ = ""

unfoldable pub is_double : Precision → Bool
is_double float64 = true
is_double float32 = false

-- The element of a vector at an index; past its end the source reads out of bounds.
unfoldable pub nth : List ℕ → ℕ → ℕ
nth [] i = 0
nth (x ∷ xs) i = if i == 0 then x else nth xs (i - 1)

-- The shape and the strides by rank.
unfoldable pub shape_of : ℕ → ℕ → List ℕ → List ℕ
unfolding nth
shape_of rank batch n =
    if rank == 1
    then batch ∷ nth n 0 ∷ []
    else if rank == 2
    then batch ∷ nth n 0 ∷ nth n 1 ∷ []
    else batch ∷ nth n 0 ∷ nth n 1 ∷ nth n 2 ∷ []

unfoldable pub strides_of : ℕ → ℕ → ℕ → List ℕ → List ℕ
unfolding nth
strides_of rank idist istride n =
    if rank == 1
    then idist ∷ istride ∷ []
    else if rank == 2
    then idist ∷ nth n 1 * istride ∷ istride ∷ []
    else idist ∷ nth n 1 * nth n 2 * istride ∷ nth n 2 * istride ∷ istride ∷ []

unfoldable pub dim_of : ℕ → ℕ
dim_of rank = if rank == 1 then 1 else if rank == 2 then 2 else 3

-- An `int64_t` holds these products of positive lengths.
unfoldable pub all_fit : List ℕ → Bool
all_fit [] = true
all_fit (x ∷ xs) = ltb x (2 ^ 63) && all_fit xs

-- The fields of the request.
unfoldable pub request_of : Adaptor → PlanDesc → String → ℕ → FftRequest
unfolding magnitude real_kind is_double nth shape_of strides_of dim_of
request_of adaptor desc direction origin_rank =
    let n = map magnitude desc.n in
    let fft_length = if desc.rank == 1 then nth n 0 else product n in
    let dtype = if is_double desc.precision then "complex128" else "complex64" in
    record {
      fft_length = fft_length;
      input_shape = shape_of desc.rank (magnitude desc.batch) n;
      input_strides = strides_of desc.rank (magnitude desc.idist) (magnitude desc.istride) n;
      n = none;
      requested_n = fft_length;
      raw_dim = some (dim_of desc.rank);
      origin_rank = if origin_rank == 0 then desc.rank else origin_rank;
      real_transform = is_real_forward desc.fft_type || is_real_inverse desc.fft_type;
      real_transform_kind = real_kind desc.fft_type;
      origin_real_transform_kind = real_kind desc.fft_type;
      packed_real_child = false;
      maca_3d_c2c32_single_cube = false;
      normalized_dim = some (dim_of desc.rank);
      norm = "backward";
      input_dtype = dtype;
      output_dtype = dtype;
      device_type = adaptor.backend_name;
      device_index = some desc.device_index;
      device_arch = desc.device_arch;
      input_layout = "contiguous";
      requires_contiguous_copy = false;
      direction = direction;
      batch = magnitude desc.batch;
      hcu_3d_middle_batch_pack = 0;
    }

-- The overflow of a product is undefined.
unfoldable pub request_from_desc : Adaptor → PlanDesc → String → ℕ → Result FftRequest
unfolding request_of all_fit magnitude strides_of
request_from_desc adaptor desc direction origin_rank =
    let n = map magnitude desc.n in
    when ltb (product n) (2 ^ 63)
      && all_fit (strides_of desc.rank (magnitude desc.idist) (magnitude desc.istride) n)
    then ok (request_of adaptor desc direction origin_rank)
    else throws undefined_behaviour

-- `none` is a null pointer; the children of a node are not null.
unfoldable pub raw_supported_tree : PlanNode → Bool
raw_supported_tree (stockham_plan n factors) = true
raw_supported_tree (leaf_plan n factors remainder lanes num_warps generic_radices smem_size) = true
raw_supported_tree (direct_dft_plan n) = true
raw_supported_tree (four_step_plan n n1 n2 row_plan col_plan) =
    raw_supported_tree row_plan && raw_supported_tree col_plan
raw_supported_tree (bluestein_plan n conv_length fft_plan) = raw_supported_tree fft_plan
raw_supported_tree (rader_plan p root idx conv_plan) = raw_supported_tree conv_plan
raw_supported_tree (two_dim_plan n0 n1 strategy row_plan col_plan) =
    raw_supported_tree row_plan && raw_supported_tree col_plan
raw_supported_tree (three_dim_plan n0 n1 n2 strategy n2_plan n1_plan n0_plan) =
    raw_supported_tree n2_plan && raw_supported_tree n1_plan && raw_supported_tree n0_plan

unfoldable pub raw_supported_node : Option PlanNode → Bool
unfolding raw_supported_tree
raw_supported_node none = false
raw_supported_node (some node) = raw_supported_tree node
