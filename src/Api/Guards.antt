-- ===== src/Api/Guards.antt =====
-- The first tests of `build_plan` of `src/exec/c_api_plan.cpp`, up to its `try` block. The pointer `out` is
-- not null. What `adaptor::ensure_device` returns is an argument, as is the name of the backend.
use Prim.Native.String.{String}
use text.Mathlib.Text.{◌==◌ as str_eq}
use flag_fft.Prelude.{Bool, true, false, not, ◌&&◌, ◌||◌, ◌≡◌, refl, if◌then◌else◌}
use flag_fft.Api.{
  FftType, z2z, d2z, z2d, ApiResult, success, not_supported, PlanDesc, is_supported_minimal_desc,
  is_supported_2d_desc, is_supported_3d_desc,
}

-- The types that Ascend refuses.
unfoldable pub is_fp64_type : FftType → Bool
is_fp64_type z2z = true
is_fp64_type d2z = true
is_fp64_type z2d = true
is_fp64_type _ = false

unfoldable pub after_device : String → ApiResult → FftType → ApiResult
unfolding is_fp64_type
after_device backend success fft_type =
    if str_eq backend "npu" && is_fp64_type fft_type then not_supported else success
after_device backend device_result fft_type = device_result

-- `success` stands for going on to plan.
unfoldable pub guards : String → ApiResult → PlanDesc → ApiResult
unfolding after_device
guards backend device_result desc =
    if not (is_supported_minimal_desc desc)
      && not (is_supported_2d_desc desc)
      && not (is_supported_3d_desc desc)
    then not_supported
    else after_device backend device_result desc.fft_type

-- What the tests give for a supported transform on a device that is there.
abbrev pub on_device : String → FftType → ApiResult
on_device backend fft_type =
    if str_eq backend "npu" && is_fp64_type fft_type then not_supported else success

not_line : (desc : PlanDesc) → desc.rank ≡ 2 → is_supported_minimal_desc desc ≡ false
unfolding is_supported_minimal_desc
not_line desc two = rw two refl

not_block : (desc : PlanDesc) → desc.rank ≡ 2 → is_supported_3d_desc desc ≡ false
unfolding is_supported_3d_desc
not_block desc two = rw two refl

either :
    {A : Type 0} (a b c : Bool) (x y : A)
    → a || b || c ≡ true
    → (if not a && not b && not c then x else y) ≡ y
either true b c x y h = refl
either false true c x y h = refl
either false false true x y h = refl
either false false false x y h = cc

pub guards-supported :
    (backend : String) (desc : PlanDesc)
    → is_supported_minimal_desc desc || is_supported_2d_desc desc || is_supported_3d_desc desc
      ≡ true
    → guards backend success desc ≡ on_device backend desc.fft_type
unfolding guards after_device
guards-supported backend desc h =
    either (is_supported_minimal_desc desc) (is_supported_2d_desc desc) (is_supported_3d_desc desc)
      not_supported (on_device backend desc.fft_type) h

only_middle :
    {A : Type 0} (b : Bool) (x y : A)
    → (if not false && not b && not false then x else y) ≡ (if b then y else x)
only_middle true x y = refl
only_middle false x y = refl

-- Of rank 2, only one of the tests counts.
pub guards-plane :
    (backend : String) (desc : PlanDesc)
    → desc.rank ≡ 2
    → guards backend success desc
      ≡ (if is_supported_2d_desc desc then on_device backend desc.fft_type else not_supported)
unfolding guards after_device
guards-plane backend desc two =
    rw (not_line desc two, not_block desc two)
      (only_middle (is_supported_2d_desc desc) not_supported (on_device backend desc.fft_type))
