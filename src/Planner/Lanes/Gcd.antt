-- ===== src/Planner/Lanes/Gcd.antt =====
-- Euclid's algorithm and the greatest common divisor.
use native.Mathlib.Nat.{dvd_refl, dvd-zero, dvd-mod_iff, dvd_trans, mod-lt}
use flag_fft.Prelude.{
  ℕ, zero, suc, ◌%◌, ◌<◌, ◌∣◌, ◌/◌, ◌==◌, ◌≡◌, inl, inr, subst, Bool-cases, arith, List, [], ◌∷◌,
  All,
}
use flag_fft.Planner.Lanes.{euclid_gcd, gcd, gcd_all}

-- The divisors that a number and another one share are the ones of their gcd.
abbrev pub IsGcd : ℕ → ℕ → ℕ → Type 0
IsGcd a b g = (g ∣ a) × (g ∣ b) × ((d : ℕ) → d ∣ a → d ∣ b → d ∣ g)

euclid_gcd-IsGcd : (fuel a b : ℕ) → b < fuel → IsGcd a b (euclid_gcd fuel a b)
unfolding euclid_gcd
euclid_gcd-IsGcd zero a b h = absurd (omega arith)
euclid_gcd-IsGcd (suc fuel) a b h = elim (Bool-cases (b == 0)) [
  | inl last ↦
      let e : 0 ≡ b = ground arith in
      rw last (dvd_refl a, subst (λ t. a ∣ t) e (dvd-zero a), λ d h k. h)
  | inr more ↦
      let lo : 0 < b = ground arith in
      let (x, y, z) = euclid_gcd-IsGcd fuel b (a % b) (omega (arith, mod-lt a lo)) in
      rw more ((dvd-mod_iff _ x).0 y, x, λ d h k. z d k ((dvd-mod_iff d k).1 h))
]

pub gcd-IsGcd : (a b : ℕ) → IsGcd a b (gcd a b)
unfolding gcd
gcd-IsGcd a b = euclid_gcd-IsGcd (suc b) a b (omega arith)

-- `d` divides each of the quotients of `n` by the factors.
abbrev pub IsCommon : ℕ → List ℕ → ℕ → Type 0
IsCommon n factors d = All (λ factor. d ∣ n / factor) factors

pub weaken : (n d g : ℕ) (factors : List ℕ) → IsCommon n factors g → d ∣ g → IsCommon n factors d
weaken n d g [] h k = tt
weaken n d g (f ∷ fs) (h, hs) k = (dvd_trans d k h, weaken n d g fs hs k)

-- The loop over the factors gathers the greatest common divisor of all quotients.
pub gcd_all_lem :
    (acc n : ℕ) (factors : List ℕ)
    → (gcd_all acc n factors ∣ acc)
      × IsCommon n factors (gcd_all acc n factors)
      × ((d : ℕ) → d ∣ acc → IsCommon n factors d → d ∣ gcd_all acc n factors)
unfolding gcd_all
gcd_all_lem acc n [] = (dvd_refl acc, tt, λ d h k. h)
gcd_all_lem acc n (f ∷ fs) =
    let (x, y, z) = gcd-IsGcd acc (n / f) in
    let (u, v, w) = gcd_all_lem (gcd acc (n / f)) n fs in
    (dvd_trans _ u x, (dvd_trans _ u y, v), λ d h k. w d (z d h (k).0) (k).1)
