-- ===== src/Tests/Packing.antt =====
-- The packs of a 512 by 512 split in single precision.
use text.Mathlib.Text.{◌==◌ as str_eq}
use flag_fft.Prelude.{ℕ, ◌≤◌, true, false, ◌≡◌, refl}
use flag_fft.Base.{is_double_dtype}
use flag_fft.Packing.{
  use_tle_fused_twiddle, four_step_col_inner_pack_for, four_step_row_inner_pack_for,
}
use flag_fft.Packing.Packs.{use_tle_fused_twiddle_lem}

abbrev side : ℕ
side = 512

fused_512 : use_tle_fused_twiddle "cuda" side side "complex64" ≡ true
unfolding use_tle_fused_twiddle is_double_dtype
fused_512 = refl

use_tle_fused_twiddle_lem_example :
    (str_eq "cuda" "maca" ≡ false)
    × (is_double_dtype "complex64" ≡ false)
    × (256 ≤ side)
    × (256 ≤ side)
    × (four_step_row_inner_pack_for "cuda" side side "complex64" ≡ 4)
    × (four_step_col_inner_pack_for "cuda" side side "complex64" ≡ 4)
use_tle_fused_twiddle_lem_example = use_tle_fused_twiddle_lem "cuda" side side "complex64" fused_512
