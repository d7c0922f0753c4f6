-- ===== src/Planner/Lanes/Divisor.antt =====
-- `choose_lanes`, its limit and the divisors of the stages.
use native.Mathlib.Nat.{
  one-dvd, dvd_of_mod-eq-zero, mod-eq-zero_of_dvd, dvd_trans, le_of_dvd, pos_of_dvd_of_pos,
}
use flag_fft.Prelude.{
  ℕ, zero, suc, ◌%◌, ◌/◌, ◌<◌, ◌≤◌, ◌∣◌, ◌==◌, ◌≡◌, ◌≢◌, inl, inr, refl, subst, Bool-cases, arith,
  List, ◌∷◌, min, ok, Option,
}
use flag_fft.Planner.Context.{RequestContext}
use flag_fft.Planner.Lanes.{divisor_below, gcd_all, lane_limit, choose_lanes}
use flag_fft.Planner.Lanes.Gcd.{IsCommon, gcd_all_lem, weaken}

-- The greatest divisor of `value` from 1 to `limit`.
abbrev IsGreatest : ℕ → ℕ → ℕ → Type 0
IsGreatest value limit d = (0 < d) × (d ∣ value) × ((e : ℕ) → e ∣ value → e ≤ limit → e ≤ d)

divisor_below-IsGreatest : (value c : ℕ) → 0 < value → IsGreatest value c (divisor_below value c)
unfolding divisor_below
divisor_below-IsGreatest value zero lo = (omega arith, one-dvd value, λ e h k. omega arith)
divisor_below-IsGreatest value (suc c) lo = elim (Bool-cases (value % suc c == 0)) [
  | inl hit ↦ rw hit (omega arith, dvd_of_mod-eq-zero (suc c) (ground arith), λ e h k. k)
  | inr miss ↦
      let (x, y, z) = divisor_below-IsGreatest value c lo in
      let apart : value % suc c ≢ 0 = ground arith in
      rw miss (
        x,
        y,
        λ e h k. elim (Bool-cases (e == suc c)) [
          | inl same ↦
              let s : e ≡ suc c = ground arith in
              absurd (apart (mod-eq-zero_of_dvd (suc c) (subst (λ t. t ∣ value) s h)))
          | inr other ↦ z e h (ground arith)
        ],
      )
]

-- What the lanes of a leaf promise.
abbrev pub IsLanes : Option RequestContext → ℕ → List ℕ → ℕ → Type 0
IsLanes context n factors lanes =
    (0 < lanes)
    × IsCommon n factors lanes
    × ((d : ℕ) → IsCommon n factors d → d ≤ lane_limit context n → d ≤ lanes)

-- For a leaf whose first stage is not empty, `choose_lanes` returns a positive number of lanes that
-- divides the number of butterflies `n / factor` of every stage, and the greatest such number within
-- the limit of the context.
pub choose_lanes-IsLanes :
    (context : Option RequestContext) (n factor : ℕ) (factors : List ℕ)
    → 0 < n / factor
    → (lanes : ℕ) × (choose_lanes context n (factor ∷ factors) ≡ ok lanes)
      × IsLanes context n (factor ∷ factors) lanes
unfolding choose_lanes
choose_lanes-IsLanes context n factor factors lo =
    let all = gcd_all (n / factor) n factors in
    let (x, y, z) = gcd_all_lem (n / factor) n factors in
    let some_lane : 0 < all = pos_of_dvd_of_pos x lo in
    let (p, q, r) = divisor_below-IsGreatest all (min all (lane_limit context n)) some_lane in
    (
      _,
      refl,
      (
        p,
        (dvd_trans _ q x, weaken n _ all factors y q),
        λ d h k.
            let divides = z d (h).0 (h).1 in
            r d divides (omega (arith, k, le_of_dvd some_lane divides)),
      ),
    )
