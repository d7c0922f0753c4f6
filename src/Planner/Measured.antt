-- ===== src/Planner/Measured.antt =====
-- The measured factor orders and their overrides: `PlanBuilder::select_leaf_factors` of
-- `src/plan/factorization.cpp` up to the look-up in `best_leaf_factors_cache_`. Each group of early
-- returns is a definition; `ok none` stands for going on to the next one.
pub mod Splits
use Prim.Native.String.{String}
use text.Mathlib.Text.{◌==◌ as str_eq}
use flag_fft.Prelude.{
  ℕ, List, [], ◌∷◌, Option, none, some, Bool, true, false, not, ◌&&◌, ◌||◌, leb, ◌==◌,
  if◌then◌else◌, Result, ok, throws, bad_setting, Env,
}
use flag_fft.Policy.{is_value}
use flag_fft.Planner.Context.{RequestContext}

abbrev pub Factors : Type 0
Factors = Result (Option (List ℕ))

-- The next group of tests is reached where the one before does not return.
infixl 3 ◌otherwise◌
unfoldable pub ◌otherwise◌ : Factors → Factors → Factors
ok none otherwise next = next
ok (some factors) otherwise next = ok (some factors)
throws e otherwise next = throws e

-- A test with the factors of its two outcomes.
infixr 4 when◌then◌else◌
unfoldable pub when◌then◌else◌ : Bool → Factors → Factors → Factors
when◌then◌else◌ test factors other = if test then factors else other

-- A chain of comparisons of the choice with the names of factor lists.
unfoldable pub choose : String → List (String × List ℕ) → Factors → Factors
choose choice [] fallback = fallback
choose choice ((name, factors) ∷ table) fallback =
    when str_eq choice name then ok (some factors) else choose choice table fallback

abbrev pub hcu_256_table : List (String × List ℕ)
hcu_256_table =
    ("auto", 16 ∷ 16 ∷ [])
    ∷ ("16,16", 16 ∷ 16 ∷ [])
    ∷ ("8,8,4", 8 ∷ 8 ∷ 4 ∷ [])
    ∷ ("4,8,8", 4 ∷ 8 ∷ 8 ∷ [])
    ∷ ("8,4,8", 8 ∷ 4 ∷ 8 ∷ [])
    ∷ ("4,16,4", 4 ∷ 16 ∷ 4 ∷ [])
    ∷ ("4,4,4,4", 4 ∷ 4 ∷ 4 ∷ 4 ∷ [])
    ∷ []

unfoldable pub hcu_256 : Option String → Factors
unfolding choose
hcu_256 none = ok none
hcu_256 (some choice) =
    choose choice hcu_256_table (throws (bad_setting "FLAGFFT_HCU_3D_256_FACTORS"))

abbrev pub hcu_128_table : List (String × List ℕ)
hcu_128_table =
    ("4,4,8", 4 ∷ 4 ∷ 8 ∷ [])
    ∷ ("4,8,4", 4 ∷ 8 ∷ 4 ∷ [])
    ∷ ("8,8,2", 8 ∷ 8 ∷ 2 ∷ [])
    ∷ ("16,8", 16 ∷ 8 ∷ [])
    ∷ ("8,16", 8 ∷ 16 ∷ [])
    ∷ []

unfoldable pub hcu_128 : Option String → Factors
unfolding choose
hcu_128 none = ok none
hcu_128 (some choice) =
    choose choice hcu_128_table (
      when str_eq choice "auto" then ok none else throws (bad_setting "FLAGFFT_HCU_3D_128_FACTORS"))

-- A setting of a real FP64 override is absent or one of the orders.
unfoldable pub is_2048_order : Option String → Bool
is_2048_order none = true
is_2048_order (some value) =
    str_eq value "auto"
    || str_eq value "16,16,8"
    || str_eq value "8,16,16"
    || str_eq value "16,8,16"

unfoldable pub or_setting : Option String → Option String → Option String
or_setting (some value) other = some value
or_setting none other = other

unfoldable pub or_text : Option String → String → String
or_text (some value) text = value
or_text none text = text

-- The tests on the choice for 2048 points.
unfoldable pub hcu_2048_choice : RequestContext → String → Factors
hcu_2048_choice context choice =
    when str_eq choice "8,16,16"
    then ok (some (8 ∷ 16 ∷ 16 ∷ []))
    else when str_eq choice "16,8,16"
    then ok (some (16 ∷ 8 ∷ 16 ∷ []))
    else when str_eq choice "auto"
        && (str_eq context.real_transform_kind "r2c" || str_eq context.real_transform_kind "c2r")
    then ok (some (8 ∷ 16 ∷ 16 ∷ []))
    else when not (str_eq choice "auto") && not (str_eq choice "16,16,8")
    then throws (bad_setting "FLAGFFT_HCU_3D_2048_FACTORS")
    else ok none

unfoldable pub hcu_2048 : Env → RequestContext → ℕ → Factors
unfolding is_2048_order or_setting or_text hcu_2048_choice
hcu_2048 env context n =
    let c2r_fp64 =
      (str_eq context.origin_real_transform_kind "c2r"
        || str_eq context.origin_real_transform_kind "z2d")
      && str_eq context.input_dtype "complex128"
      && context.requested_n == n in
    let r2c_fp64 =
      (str_eq context.origin_real_transform_kind "r2c"
        || str_eq context.origin_real_transform_kind "d2z")
      && str_eq context.input_dtype "complex128"
      && context.requested_n == n in
    let c2r_fp64_override = if c2r_fp64 then env "FLAGFFT_HCU_3D_C2R_FP64_2048_FACTORS" else none in
    let r2c_fp64_override = if r2c_fp64 then env "FLAGFFT_HCU_3D_R2C_FP64_2048_FACTORS" else none in
    let override_value =
      or_setting (or_setting r2c_fp64_override c2r_fp64_override)
        (env "FLAGFFT_HCU_3D_2048_FACTORS") in
    when not (is_2048_order c2r_fp64_override)
    then throws (bad_setting "FLAGFFT_HCU_3D_C2R_FP64_2048_FACTORS")
    else when not (is_2048_order r2c_fp64_override)
    then throws (bad_setting "FLAGFFT_HCU_3D_R2C_FP64_2048_FACTORS")
    else hcu_2048_choice context
        (or_text override_value (if c2r_fp64 || r2c_fp64 then "8,16,16" else "auto"))

-- The three groups for HCU devices.
unfoldable pub hcu_3d : Env → RequestContext → ℕ → Factors
unfolding hcu_256 hcu_128 hcu_2048 ◌otherwise◌
hcu_3d env context n =
    let on = str_eq context.device_type "hcu" && context.origin_rank == 3 in
    (when on && n == 256 then hcu_256 (env "FLAGFFT_HCU_3D_256_FACTORS") else ok none)
    otherwise (when on && n == 128 then hcu_128 (env "FLAGFFT_HCU_3D_128_FACTORS") else ok none)
    otherwise (when on && n == 2048 then hcu_2048 env context n else ok none)

unfoldable pub maca_cube : Option String → Factors
maca_cube none = ok (some (4 ∷ 4 ∷ 2 ∷ []))
maca_cube (some more_lanes) =
    when str_eq more_lanes "0"
    then ok (some (32 ∷ []))
    else when not (str_eq more_lanes "1")
    then throws (bad_setting "FLAGFFT_MACA_3D_C2C32_MORE_LANES")
    else ok (some (4 ∷ 4 ∷ 2 ∷ []))

unfoldable pub maca_3d : Env → RequestContext → ℕ → Factors
unfolding maca_cube ◌otherwise◌
maca_3d env context n =
    (when context.maca_3d_c2c32_single_cube && n == 32
      then maca_cube (env "FLAGFFT_MACA_3D_C2C32_MORE_LANES")
      else ok none)
    otherwise (when str_eq context.device_type "maca"
          && context.origin_rank == 3
          && (str_eq context.device_arch "102" && n == 2048 && context.requested_n == n)
        then ok (some (16 ∷ 8 ∷ 16 ∷ []))
        else ok none)
    otherwise (when (str_eq context.device_type "musa" || str_eq context.device_type "hcu")
          && context.origin_rank == 3
          && n == 32
        then ok (some (4 ∷ 8 ∷ []))
        else ok none)

-- Unset, or this value.
unfoldable pub unset_or : Option String → String → Bool
unset_or none expected = true
unset_or (some value) expected = str_eq value expected

-- The lengths of three-dimensional IX transforms.
unfoldable pub ix_3d_lengths : Env → ℕ → Factors
unfolding unset_or is_value ◌otherwise◌
ix_3d_lengths env n =
    (when n == 64 && is_value (env "FLAGFFT_IX_3D_64_FACTORS") "8x8"
      then ok (some (8 ∷ 8 ∷ []))
      else ok none)
    otherwise (when n == 128 && is_value (env "FLAGFFT_IX_3D_128_FACTORS") "8x16"
        then ok (some (8 ∷ 16 ∷ []))
        else ok none)
    otherwise (when n == 128 && unset_or (env "FLAGFFT_IX_3D_128_FACTORS") "16x8"
        then ok (some (16 ∷ 8 ∷ []))
        else ok none)
    otherwise (when n == 256 && is_value (env "FLAGFFT_IX_3D_256_FACTORS") "8x8x4"
        then ok (some (8 ∷ 8 ∷ 4 ∷ []))
        else ok none)
    otherwise (when n == 256 && is_value (env "FLAGFFT_IX_3D_256_FACTORS") "4x4x4x4"
        then ok (some (4 ∷ 4 ∷ 4 ∷ 4 ∷ []))
        else ok none)
    otherwise (when n == 2048 && is_value (env "FLAGFFT_IX_3D_2048_FACTORS") "16x8x16"
        then ok (some (16 ∷ 8 ∷ 16 ∷ []))
        else ok none)

unfoldable pub ix_3d : Env → RequestContext → ℕ → Factors
unfolding unset_or ix_3d_lengths ◌otherwise◌
ix_3d env context n =
    let on =
      str_eq context.device_type "ix"
      && str_eq context.device_arch "71"
      && context.origin_rank == 3
      && str_eq context.input_dtype "complex64" in
    (when on && n == 32 && unset_or (env "FLAGFFT_IX_3D_32_FACTORS") "1"
      then ok (some (4 ∷ 8 ∷ []))
      else ok none)
    otherwise (when on then ix_3d_lengths env n else ok none)

unfoldable pub ix_batch : RequestContext → ℕ → Factors
unfolding ◌otherwise◌
ix_batch context n =
    let ix_fp32_real_batch =
      str_eq context.device_type "ix"
      && str_eq context.device_arch "71"
      && leb context.origin_rank 1
      && context.requested_n == n
      && context.batch == 64
      && str_eq context.input_dtype "complex64"
      && str_eq context.output_dtype "complex64"
      && (str_eq context.real_transform_kind "r2c" || str_eq context.real_transform_kind "c2r") in
    (when ix_fp32_real_batch && n == 1024 then ok (some (8 ∷ 4 ∷ 8 ∷ 4 ∷ [])) else ok none)
    otherwise (when ix_fp32_real_batch && n == 2048 then ok (some (16 ∷ 8 ∷ 16 ∷ [])) else ok none)
    otherwise (when context.ix_ct_batch
          && context.requested_n == n
          && n == 2048
          && str_eq context.real_transform_kind ""
        then ok (some (16 ∷ 8 ∷ 16 ∷ []))
        else ok none)
    otherwise (when context.ix_short_single && n == 1024
        then ok (some (16 ∷ 8 ∷ 8 ∷ []))
        else ok none)
    otherwise (when context.ix_ct_batch && context.requested_n == n && n == 1024
        then ok (some (8 ∷ 8 ∷ 4 ∷ 4 ∷ []))
        else ok none)

abbrev pub hcu_16_table : List (String × List ℕ)
hcu_16_table =
    ("4,4", 4 ∷ 4 ∷ [])
    ∷ ("2,2,2,2", 2 ∷ 2 ∷ 2 ∷ 2 ∷ [])
    ∷ ("4,2,2", 4 ∷ 2 ∷ 2 ∷ [])
    ∷ ("2,2,4", 2 ∷ 2 ∷ 4 ∷ [])
    ∷ ("2,8", 2 ∷ 8 ∷ [])
    ∷ ("8,2", 8 ∷ 2 ∷ [])
    ∷ []

-- An outer axis of 16 points in three dimensions.
unfoldable pub hcu_16_outer : RequestContext → Option String → Factors
unfolding choose
hcu_16_outer context (some choice) =
    choose choice hcu_16_table
      (when str_eq choice "16" then ok none else throws (bad_setting "FLAGFFT_HCU_3D_16_FACTORS"))
hcu_16_outer context none = when leb 10000 context.batch then ok (some (4 ∷ 4 ∷ [])) else ok none

unfoldable pub hcu_16 : Env → RequestContext → Factors
unfolding hcu_16_outer ◌otherwise◌
hcu_16 env context =
    (when context.origin_rank == 3
      then hcu_16_outer context (env "FLAGFFT_HCU_3D_16_FACTORS")
      else ok none)
    otherwise ok (some (16 ∷ []))

unfoldable pub hcu_short : Env → RequestContext → ℕ → Factors
unfolding hcu_16 ◌otherwise◌
hcu_short env context n =
    (when str_eq context.device_type "hcu"
        && (leb context.origin_rank 1 || context.origin_rank == 3)
        && context.requested_n == n
        && n == 16
      then hcu_16 env context
      else ok none)
    otherwise (when str_eq context.device_type "hcu"
          && leb context.origin_rank 1
          && context.requested_n == n
          && n == 1024
          && context.batch == 64
        then ok (some (16 ∷ 8 ∷ 8 ∷ []))
        else ok none)

-- All the groups, in the order of the source.
unfoldable pub measured_factors : Env → RequestContext → ℕ → Factors
unfolding hcu_3d maca_3d ix_3d ix_batch hcu_short ◌otherwise◌
measured_factors env context n =
    hcu_3d env context n
    otherwise maca_3d env context n
    otherwise ix_3d env context n
    otherwise ix_batch context n
    otherwise hcu_short env context n
