-- ===== src/Api/Describe.antt =====
-- `flagfftPlanMany` up to its call of `build_plan`, and `flagfftPlan1d`, `flagfftPlan2d` and
-- `flagfftPlan3d`, of `src/exec/c_api_plan.cpp`. The pointer `plan` is not null; a null pointer for
-- an embedding is `none`, and the arrays hold `rank` numbers.
pub mod Accepted
pub mod Blocks
use Prim.Native.String.{String}
use flag_fft.Prelude.{
  ℕ, zero, suc, ◌+◌, ◌*◌, ◌/◌, List, [], ◌∷◌, Option, none, some, Bool, true, false, not, ◌&&◌,
  ◌||◌, leb, ◌==◌, if◌then◌else◌, all_of, length,
}
use flag_fft.Api.Ints.{ℤ, pos, is_pos, times, wrap, half_plus_one}
use flag_fft.Api.{
  FftType, ApiResult, invalid_value, invalid_size, invalid_type, PlanDesc, TypeMetadata,
  type_metadata, is_real_forward, is_real_inverse,
}

-- A code that is returned at once, or the descriptor that `build_plan` gets.
pub data Described : Type 0 where
  refused : ApiResult → Described
  described : PlanDesc → Described

-- The lengths with the innermost one halved, up to three dimensions; `whole` in any other case.
unfoldable pub half_embed : List ℤ → List ℤ
half_embed (n0 ∷ []) = half_plus_one n0 ∷ []
half_embed (n0 ∷ n1 ∷ []) = n0 ∷ half_plus_one n1 ∷ []
half_embed (n0 ∷ n1 ∷ n2 ∷ []) = n0 ∷ n1 ∷ half_plus_one n2 ∷ []
half_embed n = n

unfoldable pub embed_or : Option (List ℤ) → List ℤ → List ℤ
embed_or none default = default
embed_or (some embed) default = embed

-- `inembed`, which a complex-to-real transform halves, and `onembed`, which a real-to-complex one does.
unfoldable pub input_embed : FftType → List ℤ → Option (List ℤ) → List ℤ
unfolding half_embed embed_or
input_embed fft_type n inembed =
    embed_or inembed (if is_real_inverse fft_type then half_embed n else n)

unfoldable pub output_embed : FftType → List ℤ → Option (List ℤ) → List ℤ
unfolding half_embed embed_or
output_embed fft_type n onembed =
    embed_or onembed (if is_real_forward fft_type then half_embed n else n)

-- The arguments of `flagfftPlanMany`; the rank is the length of `n`, and an empty list stands for a
-- rank that is not positive and for a null pointer, which have the same outcome.
pub record PlanArguments : Type 0 where
  pub n : List ℤ
  pub inembed : Option (List ℤ)
  pub istride : ℤ
  pub idist : ℤ
  pub onembed : Option (List ℤ)
  pub ostride : ℤ
  pub odist : ℤ
  pub fft_type : FftType
  pub batch : ℤ

unfoldable pub desc_with : PlanArguments → TypeMetadata → PlanDesc
unfolding input_embed output_embed
desc_with arguments metadata = record {
  rank = length arguments.n;
  n = arguments.n;
  inembed = input_embed arguments.fft_type arguments.n arguments.inembed;
  istride = arguments.istride;
  idist = arguments.idist;
  onembed = output_embed arguments.fft_type arguments.n arguments.onembed;
  ostride = arguments.ostride;
  odist = arguments.odist;
  batch = arguments.batch;
  fft_type = arguments.fft_type;
  precision = metadata.precision;
  kind = metadata.kind;
  real_input = metadata.real_input;
  real_output = metadata.real_output;
  device_index = 0;
  device_arch = "";
}

unfoldable pub desc_of : PlanArguments → Option TypeMetadata → Described
unfolding desc_with
desc_of arguments none = refused invalid_type
desc_of arguments (some metadata) = described (desc_with arguments metadata)

unfoldable pub plan_many : PlanArguments → Described
unfolding desc_of is_pos
plan_many arguments =
    if length arguments.n == 0 || not (is_pos arguments.batch)
    then refused invalid_value
    else if not (all_of is_pos arguments.n)
    then refused invalid_size
    else desc_of arguments (type_metadata arguments.fft_type)

-- The arguments that the functions for one, two and three dimensions pass on.
abbrev pub packed : List ℤ → ℤ → ℤ → FftType → ℤ → PlanArguments
packed n idist odist fft_type batch = record {
  n = n;
  inembed = none;
  istride = pos 1;
  idist = idist;
  onembed = none;
  ostride = pos 1;
  odist = odist;
  fft_type = fft_type;
  batch = batch;
}

unfoldable pub plan_1d : ℤ → FftType → ℤ → Described
unfolding plan_many
plan_1d nx fft_type batch =
    let half = half_plus_one nx in
    plan_many (
      packed (nx ∷ []) (if is_real_inverse fft_type then half else nx)
        (if is_real_forward fft_type then half else nx) fft_type batch)

-- The products are of type `int`.
unfoldable pub plan_2d : ℤ → ℤ → FftType → Described
unfolding plan_many
plan_2d nx ny fft_type =
    let half_ny = half_plus_one ny in
    let half_block = wrap (times nx half_ny) in
    let block = wrap (times nx ny) in
    plan_many (
      packed (nx ∷ ny ∷ []) (if is_real_inverse fft_type then half_block else block)
        (if is_real_forward fft_type then half_block else block) fft_type (pos 1))

unfoldable pub plan_3d : ℤ → ℤ → ℤ → FftType → Described
unfolding plan_many
plan_3d nx ny nz fft_type =
    let half_nz = half_plus_one nz in
    let half_block = wrap (times (wrap (times nx ny)) half_nz) in
    let block = wrap (times (wrap (times nx ny)) nz) in
    plan_many (
      packed (nx ∷ ny ∷ nz ∷ []) (if is_real_inverse fft_type then half_block else block)
        (if is_real_forward fft_type then half_block else block) fft_type (pos 1))
