-- ===== src/Planner/Lanes/Warps.antt =====
-- `choose_num_warps` and the threads for the lanes of a leaf.
use native.Mathlib.Nat.{mul-le-mul_right}
use flag_fft.Prelude.{
  ℕ, zero, suc, ◌+◌, ◌*◌, ◌≤◌, ◌<◌, ◌≡◌, refl, ◌⊎◌, inl, inr, Option, Bool-cases, ltb, leb, min,
  max, if◌then◌else◌, arith,
}
use flag_fft.Base.{ceil_div, lane_block_for, ceil_power_of_two}
use flag_fft.Base.Powers.{ceil_power_of_two_lem}
use flag_fft.Planner.Context.{RequestContext}
use flag_fft.Planner.Lanes.{is_maca, double_choice, choose_num_warps}

abbrev pub warp_size : Option RequestContext → ℕ
warp_size context = if is_maca context then 64 else 32

double_choice-le :
    (fuel choice warps : ℕ)
    → 1 ≤ choice
    → warps ≤ choice + fuel
    → warps ≤ double_choice fuel choice warps
unfolding double_choice
double_choice-le zero choice warps lo h = omega arith
double_choice-le (suc fuel) choice warps lo h = elim (Bool-cases (ltb choice warps)) [
  | inl more ↦ rw more (double_choice-le fuel (choice * 2) warps (omega arith) (omega arith))
  | inr done ↦ rw done (ground arith)
]

-- A result that is not the first choice is twice a choice that was too small.
abbrev pub IsLeast : (first warps result : ℕ) → Type 0
IsLeast first warps result =
    (result ≡ first) ⊎ ((half : ℕ) × (result ≡ half * 2) × (first ≤ half) × (half < warps))

double_choice-IsLeast :
    (fuel choice warps : ℕ) → IsLeast choice warps (double_choice fuel choice warps)
unfolding double_choice
double_choice-IsLeast zero choice warps = inl refl
double_choice-IsLeast (suc fuel) choice warps = elim (Bool-cases (ltb choice warps)) [
  | inl more ↦ elim (double_choice-IsLeast fuel (choice * 2) warps) [
    | inl same ↦ inr (choice, rw more same, omega arith, ground arith)
    | inr (half, e, le, less) ↦ inr (half, rw more e, omega arith, less)
  ]
  | inr done ↦ inl (rw done refl)
]

le-double_choice : (fuel choice warps : ℕ) → choice ≤ double_choice fuel choice warps
le-double_choice fuel choice warps = elim (double_choice-IsLeast fuel choice warps) [
  | inl e ↦ omega (arith, e)
  | inr (half, e, le, less) ↦ omega (arith, e, le)
]

le-choice : (lanes c : ℕ) → lanes ≤ c → lanes ≤ (if leb lanes 1 then 1 else c)
le-choice lanes c h = elim (Bool-cases (leb lanes 1)) [
  | inl few ↦ rw few (ground arith)
  | inr many ↦ rw many h
]

le-ceil_power_of_two : (lanes : ℕ) → lanes ≤ ceil_power_of_two lanes
le-ceil_power_of_two lanes = let (j, e, le, w) = ceil_power_of_two_lem lanes in omega (arith, e, le)

le-lane_block_for : (lanes : ℕ) → lanes ≤ lane_block_for lanes
unfolding lane_block_for
le-lane_block_for lanes = le-choice lanes (ceil_power_of_two lanes) (le-ceil_power_of_two lanes)

ceil_div-le : (n d : ℕ) → 1 ≤ d → n ≤ ceil_div n d * d
unfolding ceil_div
ceil_div-le n d lo = grind arith

-- The choice from a first one and a warp size, for a block of lanes.
abbrev chosen : ℕ → ℕ → ℕ → ℕ
chosen size choice block =
    let warps = max 1 (ceil_div block size) in min (double_choice warps choice warps) 8

chosen_lem :
    (size choice lanes block : ℕ)
    → 1 ≤ size
    → 1 ≤ choice
    → choice ≤ 2
    → lanes ≤ block
    → (choice ≤ chosen size choice block)
      × (chosen size choice block ≤ 8)
      × ((chosen size choice block ≡ 8) ⊎ (lanes ≤ chosen size choice block * size))
chosen_lem size choice lanes block s c two le =
    let warps = max 1 (ceil_div block size) in
    let least = le-double_choice warps choice warps in
    let enough = double_choice-le warps choice warps c (omega arith) in
    (
      omega (arith, least),
      omega arith,
      elim (Bool-cases (leb 8 (double_choice warps choice warps))) [
        | inl many ↦ inl (ground arith)
        | inr few ↦
            let some_choice : chosen size choice block ≡ double_choice warps choice warps =
              ground arith in
            inr (fit size lanes block _ _ some_choice enough (ceil_div-le block size s) le)
      ],
    )
  where
    fit :
        (size lanes block r d : ℕ)
        → r ≡ d
        → max 1 (ceil_div block size) ≤ d
        → block ≤ ceil_div block size * size
        → lanes ≤ block
        → lanes ≤ r * size
    fit size lanes block r d e h k l =
        let big = mul-le-mul_right {m = ceil_div block size} {n = d} size (omega arith) in
        rw e (omega (arith, big))

-- A number of warps below the rounded quotient has too few threads for the block.
too_few :
    (size block half : ℕ)
    → 1 ≤ size
    → 1 ≤ half
    → half < max 1 (ceil_div block size)
    → half * size < block
unfolding ceil_div
too_few size block half s c h =
    let more : half + 1 ≤ ceil_div block size = omega (arith, h) in
    let big = mul-le-mul_right {m = half + 1} {n = ceil_div block size} size more in
    grind (arith, big)

chosen-IsLeast :
    (size choice block : ℕ)
    → 1 ≤ size
    → 1 ≤ choice
    → choice ≤ 2
    → (chosen size choice block ≡ choice)
      ⊎ ((half : ℕ) × (chosen size choice block ≡ half * 2) × (half * size < block))
chosen-IsLeast size choice block s c two =
    let warps = max 1 (ceil_div block size) in
    elim (double_choice-IsLeast warps choice warps) [
      | inl e ↦ inl (omega (arith, e))
      | inr (half, e, le, less) ↦ elim (Bool-cases (leb half 4)) [
        | inl small ↦ inr (half, ground (arith, e), too_few size block half s (omega arith) less)
        | inr big ↦
            inr (4, ground (arith, e), too_few size block 4 s (omega arith) (ground (arith, less)))
      ]
    ]

-- A leaf gets at least one warp, two on a MACA device, and at most eight; fewer than eight only if they
-- have a thread for every lane. It gets more than the least number only if half as many warps have
-- fewer threads than the block of lanes.
pub choose_num_warps_lem :
    (context : Option RequestContext) (lanes : ℕ)
    → ((if is_maca context then 2 else 1) ≤ choose_num_warps context lanes)
      × (choose_num_warps context lanes ≤ 8)
      × ((choose_num_warps context lanes ≡ 8)
          ⊎ (lanes ≤ choose_num_warps context lanes * warp_size context))
      × ((choose_num_warps context lanes ≡ (if is_maca context then 2 else 1))
          ⊎ ((half : ℕ) × (choose_num_warps context lanes ≡ half * 2)
              × (half * warp_size context < lane_block_for lanes)))
unfolding choose_num_warps
choose_num_warps_lem context lanes = elim (Bool-cases (is_maca context)) [
  | inl e ↦ rw e (all_of_it 64 2 (omega arith) (omega arith) (omega arith))
  | inr e ↦ rw e (all_of_it 32 1 (omega arith) (omega arith) (omega arith))
]
  where
    all_of_it :
        (size choice : ℕ)
        → 1 ≤ size
        → 1 ≤ choice
        → choice ≤ 2
        → (choice ≤ chosen size choice (lane_block_for lanes))
          × (chosen size choice (lane_block_for lanes) ≤ 8)
          × ((chosen size choice (lane_block_for lanes) ≡ 8)
              ⊎ (lanes ≤ chosen size choice (lane_block_for lanes) * size))
          × ((chosen size choice (lane_block_for lanes) ≡ choice)
              ⊎ ((half : ℕ) × (chosen size choice (lane_block_for lanes) ≡ half * 2)
                  × (half * size < lane_block_for lanes)))
    all_of_it size choice s c two =
        let (a, b, d) =
          chosen_lem size choice lanes (lane_block_for lanes) s c two (le-lane_block_for lanes) in
        (a, b, d, chosen-IsLeast size choice (lane_block_for lanes) s c two)
