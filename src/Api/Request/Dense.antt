-- ===== src/Api/Request/Dense.antt =====
-- The strides and shapes of requests of two- and three-dimensional transforms.
use Prim.Native.String.{String}
use native.Mathlib.Nat.{mul-le-mul_right}
use flag_fft.Prelude.{
  ◌≤◌, ◌<◌, ◌^◌, ltb, when◌then◌else◌, ok, ℕ, ◌+◌, ◌*◌, ◌/◌, ◌||◌, List, [], ◌∷◌, true, false, ◌==◌,
  ◌≡◌, refl, ap, ◌∙◌, arith, Bool-cases, inl, inr, if◌then◌else◌, product, map,
}
use flag_fft.Base.{FftRequest}
use flag_fft.Planner.Context.{Adaptor}
use flag_fft.Api.Ints.{ℤ, wrap64, pos, negsuc, same_int}
use flag_fft.Api.{
  PlanDesc, is_real_inverse, is_one, input_logical, is_supported_plane, is_supported_2d_desc,
  is_supported_block, is_supported_3d_desc,
}
use flag_fft.Api.Describe.Accepted.{wrap64_lem}
use flag_fft.Api.Request.{
  magnitude, nth, shape_of, strides_of, request_of, request_from_desc, all_fit,
}

-- The strides of a row-major tensor without gaps: each is the product of the later extents.
unfoldable pub row_major : List ℕ → List ℕ
row_major [] = []
row_major (extent ∷ shape) = product shape ∷ row_major shape

-- A request for a dense tensor with as many points per batch entry as the transform has.
abbrev pub IsDense : FftRequest → Type 0
IsDense request =
    (request.input_strides ≡ row_major request.input_shape)
    × (product request.input_shape ≡ request.batch * request.fft_length)
    × (request.requested_n ≡ request.fft_length)

same_int-eq : (i : ℤ) (n : ℕ) → same_int i (pos n) ≡ true → i ≡ pos n
unfolding same_int
same_int-eq (pos m) n h = ap pos (ground arith)
same_int-eq (negsuc m) n h = cc

-- What the test of a two-dimensional descriptor leaves of its lengths, stride and distance.
plane_facts :
    (desc : PlanDesc) (lengths : List ℤ)
    → is_supported_plane desc lengths ≡ true
    → is_real_inverse desc.fft_type ≡ false
    → product (map magnitude lengths) < 2 ^ 63
    → (n0 n1 : ℕ) × (lengths ≡ pos n0 ∷ pos n1 ∷ [])
      × (desc.istride ≡ pos 1)
      × (desc.idist ≡ pos (n0 * n1))
      × (1 ≤ n0)
unfolding is_supported_plane is_one input_logical product magnitude
plane_facts desc (pos n0 ∷ pos n1 ∷ []) h real fits =
    let d : same_int desc.idist
          (wrap64 (if is_real_inverse desc.fft_type then n0 * (n1 / 2 + 1) else n0 * n1))
        ≡ true =
      ground arith in
    let whole = wrap64_lem (n0 * n1) (grind (arith, fits)) in
    (
      n0,
      n1,
      refl,
      same_int-eq desc.istride 1 (ground arith),
      same_int-eq desc.idist (n0 * n1) (rw (real, whole) at d),
      ground arith,
    )
plane_facts desc _ h real fits = cc

-- What the test of a three-dimensional descriptor leaves of them.
block_facts :
    (desc : PlanDesc) (lengths : List ℤ)
    → is_supported_block desc lengths ≡ true
    → is_real_inverse desc.fft_type ≡ false
    → product (map magnitude lengths) < 2 ^ 63
    → (n0 n1 n2 : ℕ) × (lengths ≡ pos n0 ∷ pos n1 ∷ pos n2 ∷ [])
      × (desc.istride ≡ pos 1)
      × (desc.idist ≡ pos (n0 * n1 * n2))
      × (1 ≤ n0)
      × (1 ≤ n1)
unfolding is_supported_block is_one input_logical product magnitude
block_facts desc (pos n0 ∷ pos n1 ∷ pos n2 ∷ []) h real fits =
    let d : same_int desc.idist
          (wrap64 (if is_real_inverse desc.fft_type then n0 * n1 * (n2 / 2 + 1) else n0 * n1 * n2))
        ≡ true =
      ground arith in
    let whole = wrap64_lem (n0 * n1 * n2) (grind (arith, fits)) in
    (
      n0,
      n1,
      n2,
      refl,
      same_int-eq desc.istride 1 (ground arith),
      same_int-eq desc.idist (n0 * n1 * n2) (rw (real, whole) at d),
      ground arith,
      ground arith,
    )
block_facts desc _ h real fits = cc

-- Strides that are row-major for a shape of as many points as the batch entries hold.
abbrev IsDenseShape : ℕ → ℕ → List ℕ → List ℕ → Type 0
IsDenseShape batch points strides shape =
    (strides ≡ row_major shape) × (product shape ≡ batch * points)

dense_plane :
    (batch n0 n1 : ℕ)
    → IsDenseShape batch
        (product (n0 ∷ n1 ∷ []))
        (strides_of 2 (n0 * n1) 1 (n0 ∷ n1 ∷ []))
        (shape_of 2 batch (n0 ∷ n1 ∷ []))
unfolding row_major product strides_of shape_of nth
dense_plane batch n0 n1 = (ap (λ s. s ∷ n1 * 1 ∷ 1 ∷ []) (omega arith), refl)

dense_block :
    (batch n0 n1 n2 : ℕ)
    → IsDenseShape batch
        (product (n0 ∷ n1 ∷ n2 ∷ []))
        (strides_of 3 (n0 * n1 * n2) 1 (n0 ∷ n1 ∷ n2 ∷ []))
        (shape_of 3 batch (n0 ∷ n1 ∷ n2 ∷ []))
unfolding row_major product strides_of shape_of nth
dense_block batch n0 n1 n2 = (
  ap (λ s. s ∷ n1 * n2 * 1 ∷ n2 * 1 ∷ 1 ∷ []) (grind arith)
      ∙ ap (λ s. n0 * (n1 * (n2 * 1)) ∷ s ∷ n2 * 1 ∷ 1 ∷ []) (grind arith),
  refl,
)

-- The points of a transform, as the request counts them.
abbrev points_of : ℕ → List ℕ → ℕ
points_of rank n = if rank == 1 then nth n 0 else product n

IsDense_of_plane :
    (rank batch : ℕ) (idist istride : ℤ) (n : List ℤ) (n0 n1 : ℕ)
    → rank ≡ 2
    → n ≡ pos n0 ∷ pos n1 ∷ []
    → istride ≡ pos 1
    → idist ≡ pos (n0 * n1)
    → IsDenseShape batch
        (points_of rank (map magnitude n))
        (strides_of rank (magnitude idist) (magnitude istride) (map magnitude n))
        (shape_of rank batch (map magnitude n))
unfolding magnitude
IsDense_of_plane rank batch idist istride n n0 n1 r e s d =
    rw (r, e, s, d) (dense_plane batch n0 n1)

IsDense_of_block :
    (rank batch : ℕ) (idist istride : ℤ) (n : List ℤ) (n0 n1 n2 : ℕ)
    → rank ≡ 3
    → n ≡ pos n0 ∷ pos n1 ∷ pos n2 ∷ []
    → istride ≡ pos 1
    → idist ≡ pos (n0 * n1 * n2)
    → IsDenseShape batch
        (points_of rank (map magnitude n))
        (strides_of rank (magnitude idist) (magnitude istride) (map magnitude n))
        (shape_of rank batch (map magnitude n))
unfolding magnitude
IsDense_of_block rank batch idist istride n n0 n1 n2 r e s d =
    rw (r, e, s, d) (dense_block batch n0 n1 n2)

-- The last part of the test that a descriptor passes.
tests_of_block :
    (desc : PlanDesc)
    → is_supported_3d_desc desc ≡ true
    → (desc.rank ≡ 3) × (is_supported_block desc desc.n ≡ true)
unfolding is_supported_3d_desc
tests_of_block desc h = (ground arith, ground arith)

below : (n : ℕ) → n < 2 ^ 63 → ltb n (2 ^ 63) ≡ true
below n h = ground (arith, h)

fit_plane :
    (n0 n1 : ℕ)
    → 1 ≤ n0
    → product (n0 ∷ n1 ∷ []) < 2 ^ 63
    → all_fit (strides_of 2 (n0 * n1) 1 (n0 ∷ n1 ∷ [])) ≡ true
unfolding all_fit strides_of nth product
fit_plane n0 n1 a h =
    let one : n1 ≤ n0 * n1 = omega (arith, mul-le-mul_right {m = 1} {n = n0} n1 a) in
    let whole : n0 * n1 < 2 ^ 63 = grind (arith, h) in
    rw (below (n0 * n1) whole, below (n1 * 1) (omega (arith, one, whole))) refl

fit_block :
    (n0 n1 n2 : ℕ)
    → 1 ≤ n0
    → 1 ≤ n1
    → product (n0 ∷ n1 ∷ n2 ∷ []) < 2 ^ 63
    → all_fit (strides_of 3 (n0 * n1 * n2) 1 (n0 ∷ n1 ∷ n2 ∷ [])) ≡ true
unfolding all_fit strides_of nth product
fit_block n0 n1 n2 a b h =
    let whole : n0 * (n1 * n2) < 2 ^ 63 = grind (arith, h) in
    let two : n1 * n2 ≤ n0 * (n1 * n2) =
      omega (arith, mul-le-mul_right {m = 1} {n = n0} (n1 * n2) a) in
    let one : n2 ≤ n1 * n2 = omega (arith, mul-le-mul_right {m = 1} {n = n1} n2 b) in
    let block : n0 * n1 * n2 < 2 ^ 63 = grind (arith, whole) in
    rw
      (
        below (n0 * n1 * n2) block,
        below (n1 * n2 * 1) (omega (arith, two, whole)),
        below (n2 * 1) (omega (arith, one, two, whole)),
      )
      refl

fits_plane :
    (rank : ℕ) (idist istride : ℤ) (n : List ℤ) (n0 n1 : ℕ)
    → rank ≡ 2
    → n ≡ pos n0 ∷ pos n1 ∷ []
    → istride ≡ pos 1
    → idist ≡ pos (n0 * n1)
    → 1 ≤ n0
    → product (map magnitude n) < 2 ^ 63
    → all_fit (strides_of rank (magnitude idist) (magnitude istride) (map magnitude n)) ≡ true
unfolding magnitude
fits_plane rank idist istride n n0 n1 r e s d a h = rw (r, e, s, d) (fit_plane n0 n1 a (rw e at h))

fits_block :
    (rank : ℕ) (idist istride : ℤ) (n : List ℤ) (n0 n1 n2 : ℕ)
    → rank ≡ 3
    → n ≡ pos n0 ∷ pos n1 ∷ pos n2 ∷ []
    → istride ≡ pos 1
    → idist ≡ pos (n0 * n1 * n2)
    → 1 ≤ n0
    → 1 ≤ n1
    → product (map magnitude n) < 2 ^ 63
    → all_fit (strides_of rank (magnitude idist) (magnitude istride) (map magnitude n)) ≡ true
unfolding magnitude
fits_block rank idist istride n n0 n1 n2 r e s d a b h =
    rw (r, e, s, d) (fit_block n0 n1 n2 a b (rw e at h))

-- The request is there if its products fit.
asked :
    (adaptor : Adaptor) (desc : PlanDesc) (direction : String) (origin_rank : ℕ)
    → product (map magnitude desc.n) < 2 ^ 63
    → all_fit (
        strides_of desc.rank (magnitude desc.idist) (magnitude desc.istride) (map magnitude desc.n))
      ≡ true
    → request_from_desc adaptor desc direction origin_rank
      ≡ ok (request_of adaptor desc direction origin_rank)
unfolding request_from_desc when◌then◌else◌
asked adaptor desc direction origin_rank h fit = rw (fits, fit) refl
  where
    fits : ltb (product (map magnitude desc.n)) (2 ^ 63) ≡ true
    fits = ground (arith, h)

-- A supported two- or three-dimensional descriptor whose input is not halved and whose number of points an
-- `int64_t` holds gives a request, for a dense tensor: its strides are row-major, and it has the length
-- of the transform for each batch entry.
pub request_from_desc-IsDense :
    (adaptor : Adaptor) (desc : PlanDesc) (direction : String) (origin_rank : ℕ)
    → is_supported_2d_desc desc || is_supported_3d_desc desc ≡ true
    → is_real_inverse desc.fft_type ≡ false
    → product (map magnitude desc.n) < 2 ^ 63
    → (request : FftRequest) × (request_from_desc adaptor desc direction origin_rank ≡ ok request)
      × IsDense request
unfolding request_of is_supported_2d_desc
request_from_desc-IsDense adaptor desc direction origin_rank h real fits =
    elim (Bool-cases (is_supported_2d_desc desc)) [
      | inl plane ↦
          let (n0, n1, n, stride, distance, a) = plane_facts desc desc.n (ground arith) real fits in
          let rank : desc.rank ≡ 2 = ground arith in
          let (strides, points) =
            IsDense_of_plane desc.rank (magnitude desc.batch) desc.idist desc.istride desc.n n0 n1
              rank n stride distance in
          (
            request_of adaptor desc direction origin_rank,
            asked adaptor desc direction origin_rank fits (
                fits_plane desc.rank desc.idist desc.istride desc.n n0 n1 rank n stride distance a
                  fits),
            (strides, points, refl),
          )
      | inr other ↦
          let (rank, block) = tests_of_block desc (rw other at h) in
          let (n0, n1, n2, n, stride, distance, a, b) = block_facts desc desc.n block real fits in
          let (strides, points) =
            IsDense_of_block desc.rank (magnitude desc.batch) desc.idist desc.istride desc.n n0 n1
              n2 rank n stride distance in
          (
            request_of adaptor desc direction origin_rank,
            asked adaptor desc direction origin_rank fits (
                fits_block desc.rank desc.idist desc.istride desc.n n0 n1 n2 rank n stride distance
                  a b fits),
            (strides, points, refl),
          )
    ]
