-- ===== src/Api.antt =====
-- The C interface: `include/flagfft.h`, `src/exec/c_api_internal.cpp` and the planning functions of
-- `src/exec/c_api_plan.cpp`.
pub mod Ints
pub mod Describe
pub mod Request
pub mod Guards
pub mod Handles
pub mod Setup
use Prim.Native.String.{String}
use text.Mathlib.Text.{◌==◌ as str_eq}
use flag_fft.Prelude.{
  ℕ, zero, suc, ◌+◌, ◌*◌, ◌/◌, List, [], ◌∷◌, Option, none, some, Bool, true, false, not, ◌&&◌,
  ◌||◌, ltb, ◌==◌, if◌then◌else◌,
}
use flag_fft.Api.Ints.{ℤ, pos, negsuc, same_int, is_pos, wrap64}

-- `flagfftType`; the enumeration has no fixed underlying range, so that a caller may pass another value.
pub data FftType : Type 0 where
  r2c c2r c2c d2z z2d z2z : FftType
  other_type : ℕ → FftType

-- The codes of `flagfftResult` that the modelled functions return.
pub data ApiResult : Type 0 where
  success invalid_plan alloc_failed invalid_type invalid_value internal_error exec_failed
        setup_failed :
      ApiResult
  invalid_size not_supported : ApiResult

pub data Precision : Type 0 where
  float32 float64 : Precision

-- `FlagFFTPlanDesc`
pub record PlanDesc : Type 0 where
  pub rank : ℕ
  pub n : List ℤ
  pub inembed : List ℤ
  pub istride : ℤ
  pub idist : ℤ
  pub onembed : List ℤ
  pub ostride : ℤ
  pub odist : ℤ
  pub batch : ℤ
  pub fft_type : FftType
  pub precision : Precision
  pub kind : FftType
  pub real_input : Bool
  pub real_output : Bool
  pub device_index : ℕ
  pub device_arch : String

-- What `type_metadata` writes; `FlagFFTTransformKind` is the type itself.
pub record TypeMetadata : Type 0 where
  pub precision : Precision
  pub kind : FftType
  pub real_input : Bool
  pub real_output : Bool

abbrev metadata : Precision → FftType → Bool → Bool → Option TypeMetadata
metadata p k i o = some (record { precision = p; kind = k; real_input = i; real_output = o })

-- `none` is FLAGFFT_INVALID_TYPE.
unfoldable pub type_metadata : FftType → Option TypeMetadata
type_metadata c2c = metadata float32 c2c false false
type_metadata z2z = metadata float64 z2z false false
type_metadata r2c = metadata float32 r2c true false
type_metadata d2z = metadata float64 d2z true false
type_metadata c2r = metadata float32 c2r false true
type_metadata z2d = metadata float64 z2d false true
type_metadata (other_type code) = none

unfoldable pub is_real_forward : FftType → Bool
is_real_forward r2c = true
is_real_forward d2z = true
is_real_forward _ = false

unfoldable pub is_real_inverse : FftType → Bool
is_real_inverse c2r = true
is_real_inverse z2d = true
is_real_inverse _ = false

unfoldable pub is_known_type : FftType → Bool
is_known_type (other_type code) = false
is_known_type _ = true

unfoldable pub is_one : ℤ → Bool
is_one i = same_int i (pos 1)

-- The tests on the distances and embeddings of a one-dimensional descriptor.
unfoldable pub is_line : FftType → ℕ → ℤ → Bool
is_line fft_type n distance =
    let compact_length = n / 2 + 1 in
    let input_length = if is_real_inverse fft_type then compact_length else n in
    same_int distance (pos input_length)
    || (is_real_forward fft_type && same_int distance (pos (2 * compact_length)))

unfoldable pub is_output_line : FftType → ℕ → ℤ → Bool
is_output_line fft_type n distance =
    let compact_length = n / 2 + 1 in
    let output_length = if is_real_forward fft_type then compact_length else n in
    same_int distance (pos output_length)
    || (is_real_inverse fft_type && same_int distance (pos (2 * compact_length)))

-- A vector of one element that passes a test.
unfoldable pub is_single : (ℤ → Bool) → List ℤ → Bool
is_single test (i ∷ []) = test i
is_single test _ = false

unfoldable pub is_supported_line : PlanDesc → List ℤ → Bool
unfolding is_line is_output_line is_single is_one
is_supported_line desc (pos n ∷ []) =
    ltb 0 n
    && is_one desc.istride
    && is_one desc.ostride
    && is_line desc.fft_type n desc.idist
    && is_output_line desc.fft_type n desc.odist
    && is_single (is_line desc.fft_type n) desc.inembed
    && is_single (is_output_line desc.fft_type n) desc.onembed
is_supported_line desc _ = false

unfoldable pub is_supported_minimal_desc : PlanDesc → Bool
unfolding is_pos is_supported_line is_known_type
is_supported_minimal_desc desc =
    desc.rank == 1
    && is_pos desc.batch
    && is_known_type desc.fft_type
    && is_supported_line desc desc.n

-- The number of elements of a block: the innermost axis is halved on the complex side of a real
-- transform.
unfoldable pub input_logical : FftType → ℕ → ℕ → ℕ
input_logical fft_type outer inner =
    if is_real_inverse fft_type then outer * (inner / 2 + 1) else outer * inner

unfoldable pub output_logical : FftType → ℕ → ℕ → ℕ
output_logical fft_type outer inner =
    if is_real_forward fft_type then outer * (inner / 2 + 1) else outer * inner

unfoldable pub is_supported_plane : PlanDesc → List ℤ → Bool
unfolding is_one input_logical output_logical wrap64
is_supported_plane desc (pos n0 ∷ pos n1 ∷ []) =
    ltb 0 n0
    && ltb 0 n1
    && is_one desc.istride
    && is_one desc.ostride
    && same_int desc.idist (wrap64 (input_logical desc.fft_type n0 n1))
    && same_int desc.odist (wrap64 (output_logical desc.fft_type n0 n1))
is_supported_plane desc _ = false

unfoldable pub is_supported_2d_desc : PlanDesc → Bool
unfolding is_pos is_known_type is_supported_plane
is_supported_2d_desc desc =
    desc.rank == 2
    && is_pos desc.batch
    && is_known_type desc.fft_type
    && is_supported_plane desc desc.n

unfoldable pub is_supported_block : PlanDesc → List ℤ → Bool
unfolding is_one input_logical output_logical wrap64
is_supported_block desc (pos n0 ∷ pos n1 ∷ pos n2 ∷ []) =
    ltb 0 n0
    && ltb 0 n1
    && ltb 0 n2
    && is_one desc.istride
    && is_one desc.ostride
    && same_int desc.idist (wrap64 (input_logical desc.fft_type (n0 * n1) n2))
    && same_int desc.odist (wrap64 (output_logical desc.fft_type (n0 * n1) n2))
is_supported_block desc _ = false

unfoldable pub is_supported_3d_desc : PlanDesc → Bool
unfolding is_pos is_known_type is_supported_block
is_supported_3d_desc desc =
    desc.rank == 3
    && is_pos desc.batch
    && is_known_type desc.fft_type
    && is_supported_block desc desc.n
