-- ===== src/Base/Kernels/Distinguished.antt =====
-- The names of the kernel kinds.
use Prim.Native.String.{String}
use text.Mathlib.Text.{◌==◌ as str_eq}
use mathlib.Core.Option.{some-injective}
use flag_fft.Prelude.{◌≡◌, refl, sym, ap, ◌∙◌, Option, none, some, if◌then◌else◌, List, [], ◌∷◌}
use flag_fft.Base.Kernels.{
  KernelKind, kernel_kind_name, leaf, leaf_strided, leaf_permuted_store,
  leaf_strided_permuted_store, leaf_r2c, leaf_r2c_permuted_store, leaf_packed_r2c, leaf_c2r,
  leaf_bluestein, leaf_rader_full, leaf_bluestein_prepare, leaf_bluestein_finish,
  bluestein_four_step_prepare_row, bluestein_four_step_pointwise_row,
  bluestein_four_step_finish_col, direct_dft, direct_dft_strided, direct_dft_cube,
  direct_dft_cube_transposed, direct_dft_cube_strided, direct_dft_cube_2d_row,
  direct_dft_cube_2d_col, direct_dft_r2c, direct_dft_c2r, stockham_stage, four_step_row,
  four_step_row_strided, four_step_real_row, four_step_hermitian_row, four_step_col,
  four_step_col_strided, four_step_r2c_col, four_step_c2r_col, bluestein_prepare,
  bluestein_pointwise, bluestein_finalize, rader_prepare, rader_pointwise, rader_finalize,
  reshape_pack, twiddle_reshape_pack, real_to_complex, r2c_half_pack, r2c_packed_postprocess,
  c2r_packed_preprocess, compact_to_hermitian_full, complex_to_real, tiled_transpose, transpose3d,
  fused_16_plane, fused_rect_plane, fused_32_plane, fused_16_real_plane, fused_32_real_plane,
  fused_16_cube, fused_16_real_cube, fused_32_column, fused_2d, leaf_rader_prepare,
  leaf_rader_finish, leaf_packed_c2r,
}

-- The first kind of a list with a given name.
kind_named : String → List KernelKind → Option KernelKind
kind_named s [] = none
kind_named s (k ∷ ks) = if str_eq (kernel_kind_name k) s then some k else kind_named s ks

abbrev all_kernel_kinds : List KernelKind
all_kernel_kinds =
    leaf ∷ leaf_strided ∷ leaf_permuted_store ∷ leaf_strided_permuted_store ∷ leaf_r2c
    ∷ leaf_r2c_permuted_store ∷ leaf_packed_r2c ∷ leaf_c2r ∷ leaf_bluestein ∷ leaf_rader_full
    ∷ leaf_bluestein_prepare ∷ leaf_bluestein_finish ∷ bluestein_four_step_prepare_row
    ∷ bluestein_four_step_pointwise_row ∷ bluestein_four_step_finish_col ∷ direct_dft
    ∷ direct_dft_strided ∷ direct_dft_cube ∷ direct_dft_cube_transposed ∷ direct_dft_cube_strided
    ∷ direct_dft_cube_2d_row ∷ direct_dft_cube_2d_col ∷ direct_dft_r2c ∷ direct_dft_c2r
    ∷ stockham_stage ∷ four_step_row ∷ four_step_row_strided ∷ four_step_real_row
    ∷ four_step_hermitian_row ∷ four_step_col ∷ four_step_col_strided ∷ four_step_r2c_col
    ∷ four_step_c2r_col ∷ bluestein_prepare ∷ bluestein_pointwise ∷ bluestein_finalize
    ∷ rader_prepare ∷ rader_pointwise ∷ rader_finalize ∷ reshape_pack ∷ twiddle_reshape_pack
    ∷ real_to_complex ∷ r2c_half_pack ∷ r2c_packed_postprocess ∷ c2r_packed_preprocess
    ∷ compact_to_hermitian_full ∷ complex_to_real ∷ tiled_transpose ∷ transpose3d ∷ fused_16_plane
    ∷ fused_rect_plane ∷ fused_32_plane ∷ fused_16_real_plane ∷ fused_32_real_plane ∷ fused_16_cube
    ∷ fused_16_real_cube ∷ fused_32_column ∷ fused_2d ∷ leaf_rader_prepare ∷ leaf_rader_finish
    ∷ leaf_packed_c2r ∷ []

kind_named-kernel_kind_name :
    (k : KernelKind) → kind_named (kernel_kind_name k) all_kernel_kinds ≡ some k
unfolding kind_named kernel_kind_name
kind_named-kernel_kind_name leaf = refl
kind_named-kernel_kind_name _ = refl

-- Two kernel kinds with the same name are the same kind.
pub kernel_kind_name-injective :
    (a b : KernelKind) → kernel_kind_name a ≡ kernel_kind_name b → a ≡ b
kernel_kind_name-injective a b e = some-injective a b (
    sym (kind_named-kernel_kind_name a)
    ∙ ap (λ s. kind_named s all_kernel_kinds) e
    ∙ kind_named-kernel_kind_name b)
