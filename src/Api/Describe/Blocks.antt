-- ===== src/Api/Describe/Blocks.antt =====
-- Which three-dimensional transforms of `flagfftPlan3d` the interface accepts.
use native.Mathlib.Nat.{mul-le-mul_left}
use flag_fft.Prelude.{
  ℕ, ◌+◌, ◌*◌, ◌/◌, ◌%◌, ◌<◌, ◌≤◌, ◌^◌, [], ◌∷◌, true, ◌&&◌, ltb, ◌≡◌, refl, arith, Bool-cases, inl,
  inr, if◌then◌else◌, all_of,
}
use flag_fft.Api.Ints.{ℤ, pos, wrap64, same_int, is_pos, times, wrap, int_of_bits, half_plus_one}
use flag_fft.Api.{
  FftType, is_real_forward, is_real_inverse, is_known_type, is_one, input_logical, output_logical,
  is_supported_minimal_desc, is_supported_2d_desc, is_supported_block, is_supported_3d_desc,
}
use flag_fft.Api.Guards.{guards-supported}
use flag_fft.Api.Describe.{desc_with, packed, PlanArguments, plan_3d}
use flag_fft.Api.Describe.Accepted.{
  IsAccepted, wrap64_lem, by_last, known_metadata, plan_many-described, not_both,
}

wrap_small : (n : ℕ) → n < 2 ^ 31 → wrap (pos n) ≡ pos n
unfolding wrap int_of_bits
wrap_small n h = rw (small, in_range) refl
  where
    small : n % 2 ^ 32 ≡ n
    small = omega arith

    in_range : ltb n (2 ^ 31) ≡ true
    in_range = ground arith

half_small : (n : ℕ) → 0 < n → n / 2 + 1 ≤ n
half_small n h = omega arith

-- The `int` product of three numbers, taken from the left.
abbrev wrapped : ℕ → ℕ → ℕ → ℤ
wrapped a b c = wrap (times (wrap (pos (a * b))) (pos c))

wrapped_small : (a b c : ℕ) → 0 < c → a * b * c < 2 ^ 31 → wrapped a b c ≡ pos (a * b * c)
unfolding times
wrapped_small a b c lo h =
    rw (wrap_small (a * b) (omega (arith, mul-le-mul_left {m = 1} {n = c} (a * b) lo, h)))
      (wrap_small (a * b * c) h)

same_self : (n : ℕ) → same_int (pos n) (pos n) ≡ true
unfolding same_int
same_self n = ground arith

abbrev block_arguments : ℕ → ℕ → ℕ → FftType → PlanArguments
block_arguments nx ny nz t =
    packed (pos nx ∷ pos ny ∷ pos nz ∷ [])
      (if is_real_inverse t then wrapped nx ny (nz / 2 + 1) else wrapped nx ny nz)
      (if is_real_forward t then wrapped nx ny (nz / 2 + 1) else wrapped nx ny nz) t (pos 1)

block_lem :
    (t : FftType) (nx ny nz : ℕ)
    → 0 < nz
    → nx * ny * nz < 2 ^ 31
    → same_int
          (if is_real_inverse t then wrapped nx ny (nz / 2 + 1) else wrapped nx ny nz)
          (wrap64 (input_logical t (nx * ny) nz))
        && same_int
            (if is_real_forward t then wrapped nx ny (nz / 2 + 1) else wrapped nx ny nz)
            (wrap64 (output_logical t (nx * ny) nz))
      ≡ true
unfolding input_logical output_logical
block_lem t nx ny nz lo h =
    let half = nz / 2 + 1 in
    let fits : nx * ny * half < 2 ^ 31 =
      omega (arith, mul-le-mul_left (nx * ny) (half_small nz lo), h) in
    let a = wrapped_small nx ny nz lo h in
    let b = wrapped_small nx ny half (omega arith) fits in
    let whole = wrap64_lem (nx * ny * nz) (omega (arith, h)) in
    let halved = wrap64_lem (nx * ny * half) (omega (arith, fits)) in
    elim (Bool-cases (is_real_inverse t)) [
      | inl e ↦
          rw
            (
              e,
              not_both t e,
              a,
              b,
              whole,
              halved,
              same_self (nx * ny * half),
              same_self (nx * ny * nz),
            )
            refl
      | inr e ↦ elim (Bool-cases (is_real_forward t)) [
        | inl f ↦
            rw (e, f, a, b, whole, halved, same_self (nx * ny * half), same_self (nx * ny * nz))
              refl
        | inr f ↦ rw (e, f, a, whole, same_self (nx * ny * nz)) refl
      ]
    ]

-- `flagfftPlan3d` with positive lengths, fewer than 2 ^ 31 points and a type of the enumeration describes
-- a transform that passes `is_supported_3d_desc`. On a device that is there, `build_plan` goes on to plan
-- it, but for the double-precision types on Ascend, which it refuses as not supported.
pub plan_3d-IsAccepted :
    (nx ny nz : ℕ) (fft_type : FftType)
    → 0 < nx
    → 0 < ny
    → 0 < nz
    → nx * ny * nz < 2 ^ 31
    → is_known_type fft_type ≡ true
    → IsAccepted fft_type is_supported_3d_desc (plan_3d (pos nx) (pos ny) (pos nz) fft_type)
unfolding plan_3d is_supported_3d_desc is_supported_block desc_with is_one same_int is_pos all_of
    half_plus_one times
plan_3d-IsAccepted nx ny nz t a b c h known =
    let (metadata, m) = known_metadata t known in
    let arguments = block_arguments nx ny nz t in
    let passed : is_supported_3d_desc (desc_with arguments metadata) ≡ true =
      ground (arith, known, block_lem t nx ny nz c h) in
    (
      desc_with arguments metadata,
      plan_many-described arguments metadata refl refl (ground arith) m,
      passed,
      λ backend. guards-supported backend (desc_with arguments metadata) (
          by_last (is_supported_minimal_desc (desc_with arguments metadata))
            (is_supported_2d_desc (desc_with arguments metadata)) _ passed),
    )
