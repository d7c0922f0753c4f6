-- ===== src/Api/Describe/Accepted.antt =====
-- Which transforms of the three simple planning functions the interface accepts.
use native.Mathlib.Nat.{mul-le-mul_left, mul-le-mul_right}
use Prim.Native.String.{String}
use flag_fft.Prelude.{
  ap, ◌∙◌, ◌||◌, ℕ, ◌+◌, ◌*◌, ◌/◌, ◌%◌, ◌<◌, ◌≤◌, ◌^◌, [], ◌∷◌, none, some, Bool, true, false, ◌&&◌,
  ltb, ◌==◌, ◌≡◌, refl, arith, Bool-cases, inl, inr, if◌then◌else◌, all_of, length,
}
use flag_fft.Api.Ints.{pos, wrap64, same_int, is_pos, times, wrap, int_of_bits, half_plus_one}
use flag_fft.Api.{
  FftType, r2c, c2r, c2c, d2z, z2d, z2z, other_type, PlanDesc, TypeMetadata, type_metadata,
  is_real_forward, is_real_inverse, is_known_type, is_one, is_line, is_output_line, is_single,
  is_supported_line, is_supported_minimal_desc, input_logical, output_logical, is_supported_plane,
  is_supported_2d_desc,
}
use flag_fft.Api.{success, not_supported}
use flag_fft.Api.Guards.{guards, on_device, guards-supported, guards-plane}
use flag_fft.Api.Describe.{
  Described, described, half_embed, embed_or, input_embed, output_embed, desc_with, desc_of, packed,
  PlanArguments, plan_many, plan_1d, plan_2d,
}

-- A descriptor that passes this test, and with it the first tests of `build_plan` on a device that is
-- there, unless they refuse double precision on Ascend.
abbrev pub IsAccepted : FftType → (PlanDesc → Bool) → Described → Type 0
IsAccepted fft_type test outcome =
    (desc : PlanDesc) × (outcome ≡ described desc)
    × (test desc ≡ true)
    × ((backend : String) → guards backend success desc ≡ on_device backend fft_type)

pub known_metadata :
    (fft_type : FftType)
    → is_known_type fft_type ≡ true
    → (metadata : TypeMetadata) × (type_metadata fft_type ≡ some metadata)
unfolding is_known_type type_metadata
known_metadata c2c h = (_, refl)
known_metadata z2z h = (_, refl)
known_metadata r2c h = (_, refl)
known_metadata d2z h = (_, refl)
known_metadata c2r h = (_, refl)
known_metadata z2d h = (_, refl)
known_metadata (other_type code) h = cc

-- Arguments that pass the checks of `plan_many` are described.
pub plan_many-described :
    (arguments : PlanArguments) (metadata : TypeMetadata)
    → length arguments.n == 0 ≡ false
    → is_pos arguments.batch ≡ true
    → all_of is_pos arguments.n ≡ true
    → type_metadata arguments.fft_type ≡ some metadata
    → plan_many arguments ≡ described (desc_with arguments metadata)
unfolding plan_many desc_of
plan_many-described arguments metadata a b c d = rw (a, b, c, d) refl

is_line_lem :
    (t : FftType) (n : ℕ)
    → is_line t n (if is_real_inverse t then pos (n / 2 + 1) else pos n) ≡ true
unfolding is_line same_int
is_line_lem t n = elim (Bool-cases (is_real_inverse t)) [
  | inl e ↦ rw e (ground arith)
  | inr e ↦ rw e (ground arith)
]

is_output_line_lem :
    (t : FftType) (n : ℕ)
    → is_output_line t n (if is_real_forward t then pos (n / 2 + 1) else pos n) ≡ true
unfolding is_output_line same_int
is_output_line_lem t n = elim (Bool-cases (is_real_forward t)) [
  | inl e ↦ rw e (ground arith)
  | inr e ↦ rw e (ground arith)
]

input_embed_lem :
    (t : FftType) (n : ℕ) → is_single (is_line t n) (input_embed t (pos n ∷ []) none) ≡ true
unfolding is_single input_embed embed_or half_embed half_plus_one is_line same_int
input_embed_lem t n = elim (Bool-cases (is_real_inverse t)) [
  | inl e ↦ rw e (ground arith)
  | inr e ↦ rw e (ground arith)
]

output_embed_lem :
    (t : FftType) (n : ℕ) → is_single (is_output_line t n) (output_embed t (pos n ∷ []) none) ≡ true
unfolding is_single output_embed embed_or half_embed half_plus_one is_output_line same_int
output_embed_lem t n = elim (Bool-cases (is_real_forward t)) [
  | inl e ↦ rw e (ground arith)
  | inr e ↦ rw e (ground arith)
]

pub by_first : (a b c : Bool) → a ≡ true → a || b || c ≡ true
by_first a b c h = rw h refl

pub by_last : (a b c : Bool) → c ≡ true → a || b || c ≡ true
by_last true b c h = refl
by_last false true c h = refl
by_last false false c h = h

-- `flagfftPlan1d` with a positive length, a positive batch and a type of the enumeration describes a
-- transform that passes `is_supported_minimal_desc`. On a device that is there, `build_plan` goes on to plan
-- it, but for the double-precision types on Ascend, which it refuses as not supported.
pub plan_1d-IsAccepted :
    (nx batch : ℕ) (fft_type : FftType)
    → 0 < nx
    → 0 < batch
    → is_known_type fft_type ≡ true
    → IsAccepted fft_type is_supported_minimal_desc (plan_1d (pos nx) fft_type (pos batch))
unfolding plan_1d is_supported_minimal_desc is_supported_line desc_with is_one same_int is_pos
    all_of half_plus_one
plan_1d-IsAccepted nx batch t a b h =
    let (metadata, m) = known_metadata t h in
    let arguments =
      packed (pos nx ∷ []) (if is_real_inverse t then pos (nx / 2 + 1) else pos nx)
        (if is_real_forward t then pos (nx / 2 + 1) else pos nx) t (pos batch) in
    let passed : is_supported_minimal_desc (desc_with arguments metadata) ≡ true = ground (
      arith,
      h,
      is_line_lem t nx,
      is_output_line_lem t nx,
      input_embed_lem t nx,
      output_embed_lem t nx,
    ) in
    (
      desc_with arguments metadata,
      plan_many-described arguments metadata refl (ground arith) (ground arith) m,
      passed,
      λ backend. guards-supported backend (desc_with arguments metadata) (by_first _ _ _ passed),
    )

abbrev plane_arguments : ℕ → ℕ → FftType → PlanArguments
plane_arguments nx ny t =
    packed (pos nx ∷ pos ny ∷ [])
      (if is_real_inverse t then wrap (pos (nx * (ny / 2 + 1))) else wrap (pos (nx * ny)))
      (if is_real_forward t then wrap (pos (nx * (ny / 2 + 1))) else wrap (pos (nx * ny))) t (pos 1)

half-le : (nx ny : ℕ) → 0 < ny → nx * (ny / 2 + 1) ≤ nx * ny
half-le nx ny h = mul-le-mul_left nx (omega arith)

-- Two `int`s have a product that an `int64_t` holds.
small_product : (a b : ℕ) → a < 2 ^ 31 → b < 2 ^ 31 → a * b < 2 ^ 63
small_product a b h k = omega (
  arith,
  mul-le-mul_left {m = b} {n = 2 ^ 31} a (omega arith),
  mul-le-mul_right {m = a} {n = 2 ^ 31} (2 ^ 31) (omega arith),
  h,
  k,
)

pub wrap64_lem : (n : ℕ) → n < 2 ^ 63 → wrap64 n ≡ pos n
unfolding wrap64
wrap64_lem n h = rw (small, in_range) refl
  where
    small : n % 2 ^ 64 ≡ n
    small = omega arith

    in_range : ltb n (2 ^ 63) ≡ true
    in_range = ground arith

-- A product keeps its value as an `int` exactly when it is below 2 ^ 31.
pub same-wrap : (n : ℕ) → same_int (wrap (pos n)) (pos n) ≡ ltb n (2 ^ 31)
unfolding wrap int_of_bits same_int
same-wrap n = elim (Bool-cases (ltb (n % 2 ^ 32) (2 ^ 31))) [
  | inl e ↦ rw e (ground arith)
  | inr e ↦ rw e (ground arith)
]

pub not_both : (t : FftType) → is_real_inverse t ≡ true → is_real_forward t ≡ false
unfolding is_real_inverse is_real_forward
not_both c2r h = refl
not_both z2d h = refl
not_both c2c h = cc
not_both z2z h = cc
not_both r2c h = cc
not_both d2z h = cc
not_both (other_type code) h = cc

plane_lem :
    (t : FftType) (nx ny : ℕ)
    → 0 < ny
    → nx < 2 ^ 31
    → ny < 2 ^ 31
    → same_int
          (if is_real_inverse t then wrap (pos (nx * (ny / 2 + 1))) else wrap (pos (nx * ny)))
          (wrap64 (input_logical t nx ny))
        && same_int
            (if is_real_forward t then wrap (pos (nx * (ny / 2 + 1))) else wrap (pos (nx * ny)))
            (wrap64 (output_logical t nx ny))
      ≡ ltb (nx * ny) (2 ^ 31)
unfolding input_logical output_logical
plane_lem t nx ny h x y =
    let whole = wrap64_lem (nx * ny) (small_product nx ny x y) in
    let half =
      wrap64_lem (nx * (ny / 2 + 1)) (omega (arith, half-le nx ny h, small_product nx ny x y)) in
    elim (Bool-cases (is_real_inverse t)) [
      | inl e ↦
          rw (e, not_both t e, whole, half, same-wrap (nx * (ny / 2 + 1)), same-wrap (nx * ny))
            (ground (arith, half-le nx ny h))
      | inr e ↦ elim (Bool-cases (is_real_forward t)) [
        | inl f ↦
            rw (e, f, whole, half, same-wrap (nx * (ny / 2 + 1)), same-wrap (nx * ny))
              (ground (arith, half-le nx ny h))
        | inr f ↦ rw (e, f, whole, same-wrap (nx * ny)) (ground arith)
      ]
    ]

-- `flagfftPlan2d` with positive lengths, which are below 2 ^ 31, and a type of the enumeration describes a
-- transform. On a device that is there, `build_plan` goes on to plan it exactly when the number of points is
-- below 2 ^ 31, where the products of type `int` wrap around, but for the double-precision types on
-- Ascend; else it answers that it is not supported.
pub plan_2d-supported :
    (nx ny : ℕ) (fft_type : FftType)
    → 0 < nx
    → 0 < ny
    → nx < 2 ^ 31
    → ny < 2 ^ 31
    → is_known_type fft_type ≡ true
    → (desc : PlanDesc) × (plan_2d (pos nx) (pos ny) fft_type ≡ described desc)
      × (is_supported_2d_desc desc ≡ ltb (nx * ny) (2 ^ 31))
      × ((backend : String)
          → guards backend success desc
            ≡ (if ltb (nx * ny) (2 ^ 31) then on_device backend fft_type else not_supported))
unfolding plan_2d is_supported_2d_desc is_supported_plane desc_with is_one same_int is_pos all_of
    half_plus_one times
plan_2d-supported nx ny t a b x y h =
    let (metadata, m) = known_metadata t h in
    let arguments = plane_arguments nx ny t in
    let passed : is_supported_2d_desc (desc_with arguments metadata) ≡ ltb (nx * ny) (2 ^ 31) =
      ground (arith, h, plane_lem t nx ny b x y) in
    (
      desc_with arguments metadata,
      plan_many-described arguments metadata refl refl (ground arith) m,
      passed,
      λ backend.
          guards-plane backend (desc_with arguments metadata) refl
          ∙ ap (λ test. if test then on_device backend t else not_supported) passed,
    )
