-- ===== src/Packing/Packs.antt =====
-- The packs of the two stages of a four-step plan.
use Prim.Native.String.{String}
use text.Mathlib.Text.{◌==◌ as str_eq}
use native.Mathlib.Nat.{mul-le-mul_left, mul-le-mul_right}
use flag_fft.Prelude.{
  ℕ, ◌*◌, ◌≤◌, ◌^◌, Bool, true, false, Bool-cases, not, ◌&&◌, ◌≡◌, inl, inr, refl, leb, ltb, arith,
}
use flag_fft.Base.{is_double_dtype}
use flag_fft.Packing.{
  use_tle_fused_twiddle, four_step_col_inner_pack_for, four_step_row_inner_pack_for,
}

-- Two sides of at most 1024 with a product of at least 2 ^ 18 are at least 256 long.
long_sides : (n1 n2 : ℕ) → 2 ^ 18 ≤ n1 * n2 → n1 ≤ 1024 → n2 ≤ 1024 → (256 ≤ n1) × (256 ≤ n2)
long_sides n1 n2 h a b =
    (omega (arith, h, mul-le-mul_left n1 b), omega (arith, h, mul-le-mul_right n2 a))

fused_side :
    (n1 n2 : ℕ) (single : Bool)
    → single && leb (2 ^ 18) (n1 * n2) && leb n1 1024 && leb n2 1024 ≡ true
    → (256 ≤ n1) × (256 ≤ n2)
fused_side n1 n2 single h = long_sides n1 n2 (ground arith) (ground arith) (ground arith)

-- Where a twiddle is fused, the backend is not MACA, the element type is single, the sides are at least
-- 256 long, and the rows and the columns are both packed by four.
pub use_tle_fused_twiddle_lem :
    (backend : String) (n1 n2 : ℕ) (dtype : String)
    → use_tle_fused_twiddle backend n1 n2 dtype ≡ true
    → (str_eq backend "maca" ≡ false)
      × (is_double_dtype dtype ≡ false)
      × (256 ≤ n1)
      × (256 ≤ n2)
      × (four_step_row_inner_pack_for backend n1 n2 dtype ≡ 4)
      × (four_step_col_inner_pack_for backend n1 n2 dtype ≡ 4)
unfolding use_tle_fused_twiddle four_step_row_inner_pack_for four_step_col_inner_pack_for
use_tle_fused_twiddle_lem backend n1 n2 dtype h = elim (Bool-cases (str_eq backend "maca")) [
  | inl e ↦ let bad : false ≡ true = rw e at h in cc
  | inr e ↦
      let fused : not (is_double_dtype dtype)
            && leb (2 ^ 18) (n1 * n2)
            && leb n1 1024
            && leb n2 1024
          ≡ true =
        rw e at h in
      let (a, b) = fused_side n1 n2 (not (is_double_dtype dtype)) fused in
      let long_row : ltb n1 128 ≡ false = ground arith in
      (e, ground arith, a, b, rw (e, fused) refl, rw (e, fused, long_row) refl)
]
