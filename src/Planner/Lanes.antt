-- ===== src/Planner/Lanes.antt =====
-- Lanes, warps and shared memory of a leaf: `choose_lanes`, `choose_num_warps`, `leaf_smem_elements`,
-- `leaf_smem_bytes` and `should_use_leaf` of `src/plan/factorization.cpp`.
pub mod Gcd
pub mod Divisor
pub mod Warps
use Prim.Native.String.{String}
use text.Mathlib.Text.{◌==◌ as str_eq}
use flag_fft.Prelude.{
  ℕ, zero, suc, ◌*◌, ◌/◌, ◌%◌, ◌≤◌, min, max, List, [], ◌∷◌, Option, none, some, Bool, true, false,
  ◌&&◌, ◌||◌, ltb, leb, ◌==◌, if◌then◌else◌, Result, ok, throws, undefined_behaviour,
}
use flag_fft.Base.{leaf_max_n, max_lanes, ceil_div, ceil_power_of_two, lane_block_for}
use flag_fft.Planner.Context.{RequestContext}

-- `std::gcd`, by Euclid's algorithm. The second number decreases, and bounds the rounds.
unfoldable pub euclid_gcd : (fuel a b : ℕ) → ℕ
euclid_gcd zero a b = a
euclid_gcd (suc fuel) a b = let rest = euclid_gcd fuel b (a % b) in if b == 0 then a else rest

unfoldable pub gcd : ℕ → ℕ → ℕ
unfolding euclid_gcd
gcd a b = euclid_gcd (suc b) a b

-- The loop of `choose_lanes` over the factors after the first one. A factor is positive: the source
-- divides by it, and the quotient by 0 of the model has no counterpart.
unfoldable pub gcd_all : ℕ → ℕ → List ℕ → ℕ
gcd_all acc n [] = acc
gcd_all acc n (factor ∷ factors) = gcd_all (gcd acc (n / factor)) n factors

-- The loop that counts down to a divisor.
unfoldable pub divisor_below : ℕ → ℕ → ℕ
divisor_below value zero = 1
divisor_below value (suc candidate) =
    let rest = divisor_below value candidate in
    if value % suc candidate == 0 then suc candidate else rest

unfoldable pub is_ix_wide_4096 : Option RequestContext → ℕ → Bool
is_ix_wide_4096 none n = false
is_ix_wide_4096 (some context) n =
    str_eq context.device_type "ix"
    && context.batch == 1
    && str_eq context.input_dtype "complex64"
    && str_eq context.output_dtype "complex64"
    && n == 4096

-- The most lanes that a leaf may have.
unfoldable pub lane_limit : Option RequestContext → ℕ → ℕ
unfolding is_ix_wide_4096
lane_limit context n = if is_ix_wide_4096 context n then 256 else max_lanes

-- `factors.front()` of an empty vector is undefined behaviour.
unfoldable pub choose_lanes : Option RequestContext → ℕ → List ℕ → Result ℕ
unfolding gcd_all divisor_below lane_limit
choose_lanes context n [] = throws undefined_behaviour
choose_lanes context n (factor ∷ factors) =
    let all = gcd_all (n / factor) n factors in
    ok (divisor_below all (min all (lane_limit context n)))

unfoldable pub is_maca : Option RequestContext → Bool
is_maca none = false
is_maca (some context) = str_eq context.device_type "maca"

-- The loop of `choose_num_warps`; the choice doubles, so `warps` bounds the rounds.
unfoldable pub double_choice : (fuel choice warps : ℕ) → ℕ
double_choice zero choice warps = choice
double_choice (suc fuel) choice warps =
    let rest = double_choice fuel (choice * 2) warps in if ltb choice warps then rest else choice

unfoldable pub choose_num_warps : Option RequestContext → ℕ → ℕ
unfolding is_maca double_choice
choose_num_warps context lanes =
    let warp_size = if is_maca context then 64 else 32 in
    let warps = max 1 (ceil_div (lane_block_for lanes) warp_size) in
    min (double_choice warps (if is_maca context then 2 else 1) warps) 8

unfoldable pub is_single_stage : List ℕ → Bool
is_single_stage [] = true
is_single_stage (factor ∷ []) = true
is_single_stage (factor ∷ next ∷ factors) = false

unfoldable pub leaf_smem_elements : ℕ → List ℕ → String → Option ℕ
unfolding is_single_stage
leaf_smem_elements n factors input_dtype =
    if str_eq input_dtype "complex64"
      || str_eq input_dtype "float32"
      || str_eq input_dtype "complex128"
      || str_eq input_dtype "float64"
    then some (if is_single_stage factors then 0 else ceil_power_of_two n)
    else none

unfoldable pub bytes_of_elements : String → Option ℕ → Option ℕ
bytes_of_elements input_dtype none = none
bytes_of_elements input_dtype (some elements) = some (
    4
    * elements
    * (if str_eq input_dtype "complex128" || str_eq input_dtype "float64" then 8 else 4))

unfoldable pub leaf_smem_bytes : ℕ → List ℕ → String → Option ℕ
unfolding leaf_smem_elements bytes_of_elements
leaf_smem_bytes n factors input_dtype =
    bytes_of_elements input_dtype (leaf_smem_elements n factors input_dtype)

unfoldable pub fits : Option ℕ → ℕ → Bool
fits none limit = false
fits (some bytes) limit = leb bytes limit

unfoldable pub should_use_leaf : RequestContext → ℕ → List ℕ → Bool
unfolding leaf_smem_bytes fits
should_use_leaf context n factors =
    leb n leaf_max_n
    && fits (leaf_smem_bytes n factors context.input_dtype) context.max_dynamic_smem_bytes
