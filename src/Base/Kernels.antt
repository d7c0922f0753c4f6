-- ===== src/Base/Kernels.antt =====
-- `KernelKind` of `base.hpp`, and its names in `base.cpp`.
pub mod Distinguished
use Prim.Native.String.{String}

pub data KernelKind : Type 0 where
  leaf leaf_strided leaf_permuted_store leaf_strided_permuted_store leaf_r2c : KernelKind
  leaf_r2c_permuted_store leaf_packed_r2c leaf_c2r leaf_bluestein leaf_rader_full : KernelKind
  leaf_bluestein_prepare leaf_bluestein_finish bluestein_four_step_prepare_row : KernelKind
  bluestein_four_step_pointwise_row bluestein_four_step_finish_col direct_dft : KernelKind
  direct_dft_strided direct_dft_cube direct_dft_cube_transposed direct_dft_cube_strided : KernelKind
  direct_dft_cube_2d_row direct_dft_cube_2d_col direct_dft_r2c direct_dft_c2r : KernelKind
  stockham_stage four_step_row four_step_row_strided four_step_real_row : KernelKind
  four_step_hermitian_row four_step_col four_step_col_strided four_step_r2c_col : KernelKind
  four_step_c2r_col bluestein_prepare bluestein_pointwise bluestein_finalize : KernelKind
  rader_prepare rader_pointwise rader_finalize reshape_pack twiddle_reshape_pack : KernelKind
  real_to_complex r2c_half_pack r2c_packed_postprocess c2r_packed_preprocess : KernelKind
  compact_to_hermitian_full complex_to_real tiled_transpose transpose3d fused_16_plane : KernelKind
  fused_rect_plane fused_32_plane fused_16_real_plane fused_32_real_plane fused_16_cube : KernelKind
  fused_16_real_cube fused_32_column fused_2d leaf_rader_prepare leaf_rader_finish : KernelKind
  leaf_packed_c2r : KernelKind

unfoldable pub kernel_kind_name : KernelKind → String
kernel_kind_name leaf = "leaf"
kernel_kind_name leaf_strided = "leaf_strided"
kernel_kind_name leaf_permuted_store = "leaf_permuted_store"
kernel_kind_name leaf_strided_permuted_store = "leaf_strided_permuted_store"
kernel_kind_name leaf_r2c = "leaf_r2c"
kernel_kind_name leaf_r2c_permuted_store = "leaf_r2c_permuted_store"
kernel_kind_name leaf_packed_r2c = "leaf_packed_r2c"
kernel_kind_name leaf_c2r = "leaf_c2r"
kernel_kind_name leaf_bluestein = "leaf_bluestein"
kernel_kind_name leaf_rader_full = "leaf_rader_full"
kernel_kind_name leaf_bluestein_prepare = "leaf_bluestein_prepare"
kernel_kind_name leaf_bluestein_finish = "leaf_bluestein_finish"
kernel_kind_name bluestein_four_step_prepare_row = "bluestein_four_step_prepare_row"
kernel_kind_name bluestein_four_step_pointwise_row = "bluestein_four_step_pointwise_row"
kernel_kind_name bluestein_four_step_finish_col = "bluestein_four_step_finish_col"
kernel_kind_name direct_dft = "direct_dft"
kernel_kind_name direct_dft_strided = "direct_dft_strided"
kernel_kind_name direct_dft_cube = "direct_dft_cube"
kernel_kind_name direct_dft_cube_transposed = "direct_dft_cube_transposed"
kernel_kind_name direct_dft_cube_strided = "direct_dft_cube_strided"
kernel_kind_name direct_dft_cube_2d_row = "direct_dft_cube_2d_row"
kernel_kind_name direct_dft_cube_2d_col = "direct_dft_cube_2d_col"
kernel_kind_name direct_dft_r2c = "direct_dft_r2c"
kernel_kind_name direct_dft_c2r = "direct_dft_c2r"
kernel_kind_name stockham_stage = "stockham_stage"
kernel_kind_name four_step_row = "four_step_row"
kernel_kind_name four_step_row_strided = "four_step_row_strided"
kernel_kind_name four_step_real_row = "four_step_real_row"
kernel_kind_name four_step_hermitian_row = "four_step_hermitian_row"
kernel_kind_name four_step_col = "four_step_col"
kernel_kind_name four_step_col_strided = "four_step_col_strided"
kernel_kind_name four_step_r2c_col = "four_step_r2c_col"
kernel_kind_name four_step_c2r_col = "four_step_c2r_col"
kernel_kind_name bluestein_prepare = "bluestein_prepare"
kernel_kind_name bluestein_pointwise = "bluestein_pointwise"
kernel_kind_name bluestein_finalize = "bluestein_finalize"
kernel_kind_name rader_prepare = "rader_prepare"
kernel_kind_name rader_pointwise = "rader_pointwise"
kernel_kind_name rader_finalize = "rader_finalize"
kernel_kind_name reshape_pack = "reshape_pack"
kernel_kind_name twiddle_reshape_pack = "twiddle_reshape_pack"
kernel_kind_name real_to_complex = "real_to_complex"
kernel_kind_name r2c_half_pack = "r2c_half_pack"
kernel_kind_name r2c_packed_postprocess = "r2c_packed_postprocess"
kernel_kind_name c2r_packed_preprocess = "c2r_packed_preprocess"
kernel_kind_name compact_to_hermitian_full = "compact_to_hermitian_full"
kernel_kind_name complex_to_real = "complex_to_real"
kernel_kind_name tiled_transpose = "tiled_transpose"
kernel_kind_name transpose3d = "transpose3d"
kernel_kind_name fused_16_plane = "fused_16_plane"
kernel_kind_name fused_rect_plane = "fused_rect_plane"
kernel_kind_name fused_32_plane = "fused_32_plane"
kernel_kind_name fused_16_real_plane = "fused_16_real_plane"
kernel_kind_name fused_32_real_plane = "fused_32_real_plane"
kernel_kind_name fused_16_cube = "fused_16_cube"
kernel_kind_name fused_16_real_cube = "fused_16_real_cube"
kernel_kind_name fused_32_column = "fused_32_column"
kernel_kind_name fused_2d = "fused_2d"
kernel_kind_name leaf_rader_prepare = "leaf_rader_prepare"
kernel_kind_name leaf_rader_finish = "leaf_rader_finish"
kernel_kind_name leaf_packed_c2r = "leaf_packed_c2r"
