-- ===== src/Base.antt =====
-- `src/utils/include/flagfft/base.hpp` and `src/utils/base.cpp`: the constants, the request and the small
-- integer functions that the planner shares. An `int64_t` that the code keeps non-negative is a
-- number; an overflow of such a number is undefined behaviour in the source and is not modelled here.
pub mod Kernels
pub mod PlanKinds
pub mod Powers
use Prim.Native.String.{String}
use text.Mathlib.Text.{◌==◌ as str_eq}
use flag_fft.Prelude.{
  ℕ, zero, suc, ◌+◌, ◌-◌, ◌*◌, ◌/◌, ◌^◌, Bool, true, false, ◌||◌, List, [], ◌∷◌, Option, ltb, leb,
  ◌==◌, if◌then◌else◌,
}

abbrev pub direct_dft_max_n : ℕ
direct_dft_max_n = 128

abbrev pub leaf_max_n : ℕ
leaf_max_n = 4096

abbrev pub dynamic_smem_fallback_bytes : ℕ
dynamic_smem_fallback_bytes = 48 * 1024

abbrev pub max_lanes : ℕ
max_lanes = 128

abbrev pub supported_radices : List ℕ
supported_radices =
    32 ∷ 30 ∷ 28 ∷ 27 ∷ 25 ∷ 24 ∷ 20 ∷ 19 ∷ 18 ∷ 17 ∷ 16 ∷ 15 ∷ 13 ∷ 12 ∷ 11 ∷ 10 ∷ 9 ∷ 8 ∷ 7 ∷ 6
    ∷ 5 ∷ 4 ∷ 3 ∷ 2 ∷ []

abbrev pub specialized_butterfly_radices : List ℕ
specialized_butterfly_radices = 2 ∷ 4 ∷ 8 ∷ 16 ∷ []

abbrev pub specialized_direct_codelet_radices : List ℕ
specialized_direct_codelet_radices =
    3 ∷ 5 ∷ 6 ∷ 7 ∷ 9 ∷ 10 ∷ 11 ∷ 12 ∷ 13 ∷ 15 ∷ 17 ∷ 18 ∷ 19 ∷ 20 ∷ 24 ∷ 25 ∷ 27 ∷ 28 ∷ 30 ∷ 32
    ∷ []

-- `FFTRequest`; `raw_dim`, `normalized_dim` and `device_index` are -1 when unset, here `none`.
pub record FftRequest : Type 0 where
  pub fft_length : ℕ
  pub input_shape : List ℕ
  pub input_strides : List ℕ
  pub n : Option ℕ
  pub requested_n : ℕ
  pub raw_dim : Option ℕ
  pub origin_rank : ℕ
  pub real_transform : Bool
  pub real_transform_kind : String
  pub origin_real_transform_kind : String
  pub packed_real_child : Bool
  pub maca_3d_c2c32_single_cube : Bool
  pub normalized_dim : Option ℕ
  pub norm : String
  pub input_dtype : String
  pub output_dtype : String
  pub device_type : String
  pub device_index : Option ℕ
  pub device_arch : String
  pub input_layout : String
  pub requires_contiguous_copy : Bool
  pub direction : String
  pub batch : ℕ
  pub hcu_3d_middle_batch_pack : ℕ

unfoldable pub ceil_div : ℕ → ℕ → ℕ
ceil_div numerator denominator = (numerator + denominator - 1) / denominator

unfoldable pub contains : List ℕ → ℕ → Bool
contains [] value = false
contains (x ∷ values) value = x == value || contains values value

-- The loop of `ceil_power_of_two`. The result doubles, so `value` bounds the rounds. For a value above
-- 2 ^ 62 the shift of the source overflows; the model has the result without a bound.
pub double_until : (fuel result value : ℕ) → ℕ
double_until zero result value = result
double_until (suc fuel) result value =
    let rest = double_until fuel (result * 2) value in if ltb result value then rest else result

unfoldable pub ceil_power_of_two : ℕ → ℕ
unfolding double_until
ceil_power_of_two value = if leb value 1 then 1 else double_until value 1 value

unfoldable pub lane_block_for : ℕ → ℕ
unfolding ceil_power_of_two
lane_block_for lanes = if leb lanes 1 then 1 else ceil_power_of_two lanes

unfoldable pub is_double_dtype : String → Bool
is_double_dtype dtype = str_eq dtype "complex128" || str_eq dtype "float64"

unfoldable pub complex_element_bytes : String → ℕ
unfolding is_double_dtype
complex_element_bytes input_dtype = if is_double_dtype input_dtype then 16 else 8

unfoldable pub complex_dtype_for : String → String
unfolding is_double_dtype
complex_dtype_for input_dtype = if is_double_dtype input_dtype then "complex128" else "complex64"
