-- ===== src/Plan.antt =====
-- The plan tree of `src/utils/include/flagfft/plan.hpp` and `src/plan/nodes.cpp`.
pub mod Json
use flag_fft.Prelude.{
  ℕ, ◌*◌, ◌+◌, List, [], ◌∷◌, Bool, true, false, not, ◌&&◌, leb, if◌then◌else◌, max,
}
use flag_fft.Base.{contains, specialized_butterfly_radices, specialized_direct_codelet_radices}
use flag_fft.Base.PlanKinds.{
  PlanNodeKind, ct_leaf, four_step, direct_dft, stockham_autosort, bluestein, rader, two_dim,
  three_dim,
}

-- `TwoDimStrategy` and `ThreeDimStrategy`, which have one value each.
pub data TwoDimStrategy : Type 0 where
  rtrt : TwoDimStrategy

pub data ThreeDimStrategy : Type 0 where
  rtrt_3d : ThreeDimStrategy

-- A node that a `PlanNodePtr` points to. The length that `PlanNode` stores is an argument where the
-- constructor of the class takes it, and `length_of` gives what the others compute.
pub data PlanNode : Type 0 where
  leaf_plan :
      (length : ℕ) (factors : List ℕ) (remainder lanes num_warps : ℕ) (generic_radices : List ℕ)
      (smem_size : ℕ)
      → PlanNode
  direct_dft_plan : (length : ℕ) → PlanNode
  stockham_plan : (length : ℕ) (factors : List ℕ) → PlanNode
  four_step_plan : (length n1 n2 : ℕ) (row_plan col_plan : PlanNode) → PlanNode
  bluestein_plan : (length conv_length : ℕ) (fft_plan : PlanNode) → PlanNode
  rader_plan : (prime root : ℕ) (idx : List ℕ) (conv_plan : PlanNode) → PlanNode
  two_dim_plan : (n0 n1 : ℕ) (strategy : TwoDimStrategy) (row_plan col_plan : PlanNode) → PlanNode
  three_dim_plan :
      (n0 n1 n2 : ℕ) (strategy : ThreeDimStrategy) (n2_plan n1_plan n0_plan : PlanNode) → PlanNode

unfoldable pub length_of : PlanNode → ℕ
length_of (leaf_plan n factors remainder lanes num_warps generic_radices smem_size) = n
length_of (direct_dft_plan n) = n
length_of (stockham_plan n factors) = n
length_of (four_step_plan n n1 n2 row_plan col_plan) = n
length_of (bluestein_plan n conv_length fft_plan) = n
length_of (rader_plan p root idx conv_plan) = p
length_of (two_dim_plan n0 n1 strategy row_plan col_plan) = n0 * n1
length_of (three_dim_plan n0 n1 n2 strategy n2_plan n1_plan n0_plan) = n0 * n1 * n2

unfoldable pub kind_of : PlanNode → PlanNodeKind
kind_of (leaf_plan n factors remainder lanes num_warps generic_radices smem_size) = ct_leaf
kind_of (direct_dft_plan n) = direct_dft
kind_of (stockham_plan n factors) = stockham_autosort
kind_of (four_step_plan n n1 n2 row_plan col_plan) = four_step
kind_of (bluestein_plan n conv_length fft_plan) = bluestein
kind_of (rader_plan p root idx conv_plan) = rader
kind_of (two_dim_plan n0 n1 strategy row_plan col_plan) = two_dim
kind_of (three_dim_plan n0 n1 n2 strategy n2_plan n1_plan n0_plan) = three_dim

-- `std::sort` on numbers, as an insertion sort.
unfoldable pub insert_number : ℕ → List ℕ → List ℕ
insert_number x [] = x ∷ []
insert_number x (y ∷ ys) = if leb x y then x ∷ y ∷ ys else y ∷ insert_number x ys

unfoldable pub sort_numbers : List ℕ → List ℕ
unfolding insert_number
sort_numbers [] = []
sort_numbers (x ∷ xs) = insert_number x (sort_numbers xs)

-- The loop that gathers the radices without a codelet of their own; `found` holds those met before.
unfoldable pub generic_of : List ℕ → List ℕ → List ℕ
generic_of found [] = found
generic_of found (radix ∷ factors) =
    if not (contains specialized_butterfly_radices radix)
      && not (contains specialized_direct_codelet_radices radix)
      && not (contains found radix)
    then generic_of (radix ∷ found) factors
    else generic_of found factors

unfoldable pub generic_radices_of : List ℕ → List ℕ
unfolding generic_of sort_numbers
generic_radices_of factors = sort_numbers (generic_of [] factors)

-- The number of levels of a tree.
unfoldable pub height : PlanNode → ℕ
height (four_step_plan n n1 n2 row_plan col_plan) = 1 + max (height row_plan) (height col_plan)
height (bluestein_plan n conv_length fft_plan) = 1 + height fft_plan
height (rader_plan p root idx conv_plan) = 1 + height conv_plan
height (two_dim_plan n0 n1 strategy row_plan col_plan) = 1 + max (height row_plan) (height col_plan)
height (three_dim_plan n0 n1 n2 strategy n2_plan n1_plan n0_plan) =
    1 + max (height n2_plan) (max (height n1_plan) (height n0_plan))
height _ = 1
