-- ===== src/Tests/Planner.antt =====
-- Factorizations, lanes and measured factor orders of small lengths.
use flag_fft.Prelude.{
  if◌then◌else◌, ℕ, ◌≤◌, ◌<◌, ◌^◌, ◌*◌, List, [], ◌∷◌, none, some, false, ◌≡◌, ◌↔◌, ◌⊎◌, refl, ok,
  In, Env, arith,
}
use flag_fft.Base.{ceil_power_of_two, dynamic_smem_fallback_bytes}
use flag_fft.Base.{lane_block_for}
use flag_fft.Base.Powers.{ceil_power_of_two_bounded}
use flag_fft.Planner.Radices.{Factorization, factorize_supported_radices, divide_out, first_radix}
use flag_fft.Planner.Radices.Greedy.{IsFactored, factorize_supported_radices-IsFactored}
use flag_fft.Planner.Radices.Smooth.{IsSmooth, remainder-one_iff}
use flag_fft.Planner.Enumerate.{enumerate_supported_factorizations}
use flag_fft.Planner.Enumerate.Exact.{
  IsFactorization, IsSound, enumerate_supported_factorizations-IsExact,
}
use flag_fft.Planner.Divisors.{enumerate_divisors}
use flag_fft.Planner.Divisors.Exact.{IsDivisors, KeepsDivisors, enumerate_divisors-IsDivisors}
use flag_fft.Planner.Context.{RequestContext}
use flag_fft.Planner.Lanes.{choose_lanes, choose_num_warps, is_maca}
use flag_fft.Planner.Lanes.Divisor.{IsLanes, choose_lanes-IsLanes}
use flag_fft.Planner.Lanes.Warps.{warp_size, choose_num_warps_lem}
use flag_fft.Planner.Measured.{
  measured_factors, hcu_3d, maca_3d, ix_3d, ix_batch, hcu_short, hcu_16, hcu_16_outer, ◌otherwise◌,
  when◌then◌else◌,
}
use flag_fft.Planner.Measured.Splits.{IsSplit, measured_factors-IsSplit}

abbrev of_12 : Factorization
of_12 = record { factors = 12 ∷ []; remainder = 1 }

factorize_12 : factorize_supported_radices 12 ≡ ok of_12
unfolding factorize_supported_radices divide_out first_radix
factorize_12 = refl

abbrev hundred : ℕ
hundred = 100

ceil_power_of_two_bounded_example :
    (j : ℕ) × (ceil_power_of_two hundred ≡ 2 ^ j)
    × (hundred ≤ 2 ^ j)
    × ((hundred ≡ 0) ⊎ (2 ^ j < 2 * hundred))
    × (j ≤ 62)
ceil_power_of_two_bounded_example = ceil_power_of_two_bounded hundred (omega arith)

factorize_supported_radices-IsFactored_example :
    (f : Factorization) × (factorize_supported_radices 94 ≡ ok f) × IsFactored 94 f
factorize_supported_radices-IsFactored_example =
    factorize_supported_radices-IsFactored 94 (omega arith)

remainder-one_iff_example : (of_12.remainder ≡ 1) ↔ IsSmooth 12
remainder-one_iff_example = remainder-one_iff 12 of_12 (omega arith) factorize_12

enumerate_supported_factorizations-IsExact_example :
    ((fs : List ℕ) → In fs (enumerate_supported_factorizations [] 8).0 ↔ IsFactorization 8 fs)
    × IsSound (enumerate_supported_factorizations [] 8).1
enumerate_supported_factorizations-IsExact_example =
    enumerate_supported_factorizations-IsExact 8 [] (omega arith) tt

choose_lanes-IsLanes_example :
    (lanes : ℕ) × (choose_lanes none 1024 (32 ∷ 32 ∷ []) ≡ ok lanes)
    × IsLanes none 1024 (32 ∷ 32 ∷ []) lanes
choose_lanes-IsLanes_example = choose_lanes-IsLanes none 1024 32 (32 ∷ []) (omega arith)

-- An axis of 16 points of a three-dimensional transform on an HCU device.
abbrev hcu_context : RequestContext
hcu_context = record {
  input_dtype = "complex64";
  output_dtype = "complex64";
  real_transform_kind = "";
  origin_real_transform_kind = "";
  device_type = "hcu";
  device_index = some 0;
  device_arch = "";
  origin_rank = 3;
  requested_n = 16;
  batch = 20000;
  maca_3d_c2c32_single_cube = false;
  ix_short_single = false;
  ix_ct_batch = false;
  max_dynamic_smem_bytes = dynamic_smem_fallback_bytes;
}

abbrev no_settings : Env
no_settings name = none

measured_16 : measured_factors no_settings hcu_context 16 ≡ ok (some (4 ∷ 4 ∷ []))
unfolding measured_factors hcu_3d maca_3d ix_3d ix_batch hcu_short hcu_16 hcu_16_outer ◌otherwise◌
    when◌then◌else◌
measured_16 = refl

measured_factors-IsSplit_example : IsSplit 16 (4 ∷ 4 ∷ [])
measured_factors-IsSplit_example =
    measured_factors-IsSplit no_settings hcu_context 16 (4 ∷ 4 ∷ []) measured_16

abbrev root_3 : ℕ → ℕ
root_3 n = 3

enumerate_divisors-IsDivisors_example :
    IsDivisors 12 (enumerate_divisors root_3 [] 12).0
    × KeepsDivisors (enumerate_divisors root_3 [] 12).1
enumerate_divisors-IsDivisors_example =
    enumerate_divisors-IsDivisors root_3 [] 12 (omega arith) (omega arith) tt

abbrev some_lanes : ℕ
some_lanes = 100

choose_num_warps_lem_example :
    ((if is_maca none then 2 else 1) ≤ choose_num_warps none some_lanes)
    × (choose_num_warps none some_lanes ≤ 8)
    × ((choose_num_warps none some_lanes ≡ 8)
        ⊎ (some_lanes ≤ choose_num_warps none some_lanes * warp_size none))
    × ((choose_num_warps none some_lanes ≡ (if is_maca none then 2 else 1))
        ⊎ ((half : ℕ) × (choose_num_warps none some_lanes ≡ half * 2)
            × (half * warp_size none < lane_block_for some_lanes)))
choose_num_warps_lem_example = choose_num_warps_lem none some_lanes
