-- ===== src/Tests/Api.antt =====
-- Descriptors of transforms of 1000 points, of 32 by 48 and of 16 by 997 by 64 points.
use Prim.Native.String.{String}
use flag_fft.Api.Guards.{guards, on_device}
use flag_fft.Api.{success, not_supported}
use flag_fft.Base.{FftRequest}
use flag_fft.Prelude.{product, if◌then◌else◌, ok, ◌*◌, ◌^◌, [], ◌∷◌, false, ltb, ◌≡◌, refl, arith}
use flag_fft.Planner.Context.{Adaptor}
use flag_fft.Api.Ints.{pos, same_int}
use flag_fft.Api.{
  c2c, r2c, PlanDesc, float32, is_supported_minimal_desc, is_supported_2d_desc,
  is_supported_3d_desc, c2r, is_known_type, is_real_inverse, is_real_forward,
}
use flag_fft.Api.Describe.{described, plan_1d, plan_2d, plan_3d}
use flag_fft.Api.Describe.Blocks.{plan_3d-IsAccepted}
use flag_fft.Api.Describe.Accepted.{IsAccepted, plan_1d-IsAccepted, plan_2d-supported}
use flag_fft.Api.Request.{request_from_desc, magnitude}
use flag_fft.Api.Request.Dense.{IsDense, request_from_desc-IsDense}

plan_1d-IsAccepted_example :
    IsAccepted r2c is_supported_minimal_desc (plan_1d (pos 1000) r2c (pos 64))
unfolding is_known_type
plan_1d-IsAccepted_example = plan_1d-IsAccepted 1000 64 r2c (omega arith) (omega arith) refl

plan_2d-supported_example :
    (desc : PlanDesc) × (plan_2d (pos 32) (pos 48) c2c ≡ described desc)
    × (is_supported_2d_desc desc ≡ ltb (32 * 48) (2 ^ 31))
    × ((backend : String)
        → guards backend success desc
          ≡ (if ltb (32 * 48) (2 ^ 31) then on_device backend c2c else not_supported))
unfolding is_known_type
plan_2d-supported_example =
    plan_2d-supported 32 48 c2c (omega arith) (omega arith) (omega arith) (omega arith) refl

abbrev plane : PlanDesc
plane = record {
  rank = 2;
  n = pos 32 ∷ pos 48 ∷ [];
  inembed = pos 32 ∷ pos 48 ∷ [];
  istride = pos 1;
  idist = pos 1536;
  onembed = pos 32 ∷ pos 48 ∷ [];
  ostride = pos 1;
  odist = pos 1536;
  batch = pos 1;
  fft_type = c2c;
  precision = float32;
  kind = c2c;
  real_input = false;
  real_output = false;
  device_index = 0;
  device_arch = "";
}

abbrev adaptor : Adaptor
adaptor = record { backend_name = "maca"; max_dynamic_smem_bytes = λ index. 65536 }

request_from_desc-IsDense_example :
    (asked : FftRequest) × (request_from_desc adaptor plane "forward" 0 ≡ ok asked) × IsDense asked
unfolding is_supported_2d_desc same_int is_real_inverse is_real_forward product magnitude
request_from_desc-IsDense_example =
    request_from_desc-IsDense adaptor plane "forward" 0 refl refl (omega arith)

plan_3d-IsAccepted_example :
    IsAccepted c2r is_supported_3d_desc (plan_3d (pos 16) (pos 997) (pos 64) c2r)
unfolding is_known_type
plan_3d-IsAccepted_example =
    plan_3d-IsAccepted 16 997 64 c2r (omega arith) (omega arith) (omega arith) (omega arith) refl
