-- ===== src/Packing.antt =====
-- How many transforms of a four-step stage share a program: the functions of `src/exec/tuned_plan.cpp`
-- that kernel selection calls. `backend` is the name of the adaptor that the build selects.
pub mod Packs
use Prim.Native.String.{String}
use text.Mathlib.Text.{◌==◌ as str_eq}
use flag_fft.Prelude.{ℕ, ◌*◌, ◌^◌, Bool, true, false, not, ◌&&◌, leb, ltb, if◌then◌else◌}
use flag_fft.Base.{is_double_dtype}

abbrev pub four_step_col_inner_pack : ℕ
four_step_col_inner_pack = 4

abbrev pub four_step_large_inner_pack : ℕ
four_step_large_inner_pack = 4

abbrev pub four_step_col_inner_pack_min_n1 : ℕ
four_step_col_inner_pack_min_n1 = 128

abbrev pub four_step_row_inner_pack_max_n1 : ℕ
four_step_row_inner_pack_max_n1 = 512

abbrev pub four_step_packed_col_leaf_max_n2 : ℕ
four_step_packed_col_leaf_max_n2 = 1024

abbrev pub tle_fused_twiddle_min_length : ℕ
tle_fused_twiddle_min_length = 2 ^ 18

abbrev pub tle_fused_twiddle_max_leaf : ℕ
tle_fused_twiddle_max_leaf = 1024

unfoldable pub use_tle_fused_twiddle : String → ℕ → ℕ → String → Bool
use_tle_fused_twiddle backend n1 n2 dtype =
    if str_eq backend "maca"
    then false
    else not (is_double_dtype dtype)
      && leb tle_fused_twiddle_min_length (n1 * n2)
      && leb n1 tle_fused_twiddle_max_leaf
      && leb n2 tle_fused_twiddle_max_leaf

unfoldable pub four_step_col_inner_pack_for : String → ℕ → ℕ → String → ℕ
four_step_col_inner_pack_for backend n1 n2 dtype =
    if str_eq backend "maca"
    then 1
    else if ltb n1 four_step_col_inner_pack_min_n1
    then 1
    else if use_tle_fused_twiddle backend n1 n2 dtype
    then four_step_large_inner_pack
    else if ltb four_step_packed_col_leaf_max_n2 n2
    then 1
    else four_step_col_inner_pack

unfoldable pub four_step_row_inner_pack_for : String → ℕ → ℕ → String → ℕ
four_step_row_inner_pack_for backend n1 n2 dtype =
    if str_eq backend "maca"
    then 1
    else if use_tle_fused_twiddle backend n1 n2 dtype
    then four_step_large_inner_pack
    else if not (is_double_dtype dtype)
        && leb n1 four_step_row_inner_pack_max_n1
        && ltb four_step_packed_col_leaf_max_n2 n2
    then four_step_large_inner_pack
    else 1
