-- ===== src/Base/Powers.antt =====
-- The loop of `ceil_power_of_two`.
use native.Mathlib.Nat.{pow-suc}
use flag_fft.Prelude.{
  ℕ, zero, suc, ◌+◌, ◌*◌, ◌^◌, ◌≤◌, ◌<◌, ◌≡◌, ◌⊎◌, inl, inr, refl, sym, ap, ◌∙◌, ltb, leb,
  Bool-cases, ltb→lt, arith,
}
use flag_fft.Base.{double_until, ceil_power_of_two}

le-pow_two : (k : ℕ) → k < 2 ^ k
le-pow_two zero = omega arith
le-pow_two (suc k) = omega (arith, le-pow_two k, pow-suc 2 k)

-- The loop ends at the least power of two, from the k-th on, that reaches the value.
double_until_lem :
    (f k value : ℕ)
    → value ≤ k + f
    → (k ≡ 0) ⊎ (2 ^ k < 2 * value)
    → (j : ℕ) × (double_until f (2 ^ k) value ≡ 2 ^ j)
      × (value ≤ 2 ^ j)
      × ((j ≡ 0) ⊎ (2 ^ j < 2 * value))
unfolding double_until
double_until_lem zero k value h below = (k, refl, omega (arith, le-pow_two k), below)
double_until_lem (suc f) k value h below = elim (Bool-cases (ltb (2 ^ k) value)) [
  | inl more ↦
      let (j, e, le, small) =
        double_until_lem f (suc k) value (omega arith)
          (inr (omega (arith, ltb→lt (2 ^ k) value more, pow-suc 2 k))) in
      (j, rw more (ap (λ t. double_until f t value) (sym (pow-suc 2 k)) ∙ e), le, small)
  | inr done ↦ (k, rw done, ground arith, below)
]

-- What the loop of `ceil_power_of_two` ends with.
pub ceil_power_of_two_lem :
    (value : ℕ)
    → (j : ℕ) × (ceil_power_of_two value ≡ 2 ^ j)
      × (value ≤ 2 ^ j)
      × ((value ≡ 0) ⊎ (2 ^ j < 2 * value))
unfolding ceil_power_of_two
ceil_power_of_two_lem value = elim (Bool-cases (leb value 1)) [
  | inl small ↦ (0, rw small, ground arith, ground arith)
  | inr large ↦
      let (j, e, le, less) = double_until_lem value 0 value (omega arith) (inl refl) in
      (j, rw large e, le, inr (ground (arith, le, less)))
]

pow_two_mono : (j k : ℕ) → j ≤ k → 2 ^ j ≤ 2 ^ k
pow_two_mono j zero h = let e : j ≡ 0 = omega arith in rw e (omega arith)
pow_two_mono j (suc k) h = elim (Bool-cases (leb j k)) [
  | inl below ↦ omega (arith, pow-suc 2 k, pow_two_mono j k (ground (arith, below)))
  | inr same ↦ let e : j ≡ suc k = ground (arith, same) in rw e (omega arith)
]

-- For a value up to 2 ^ 62, `ceil_power_of_two` returns a power of two that is at least the value, and less
-- than twice the value unless the value is 0: the least power of two that is large enough. It is 2 ^ 62
-- at most, so that no shift of the loop leaves the range of `int64_t`.
pub ceil_power_of_two_bounded :
    (value : ℕ)
    → value ≤ 2 ^ 62
    → (j : ℕ) × (ceil_power_of_two value ≡ 2 ^ j)
      × (value ≤ 2 ^ j)
      × ((value ≡ 0) ⊎ (2 ^ j < 2 * value))
      × (j ≤ 62)
unfolding ceil_power_of_two
ceil_power_of_two_bounded value h =
    let (j, e, le, less) = ceil_power_of_two_lem value in
    (
      j,
      e,
      le,
      less,
      elim (Bool-cases (leb j 62)) [
        | inl small ↦ ground (arith, small)
        | inr many ↦ absurd (too_many j e less (pow_two_mono 63 j (ground (arith, many))))
      ],
    )
  where
    too_many :
        (j : ℕ)
        → ceil_power_of_two value ≡ 2 ^ j
        → (value ≡ 0) ⊎ (2 ^ j < 2 * value)
        → 2 ^ 63 ≤ 2 ^ j
        → ⊥
    too_many j e (inl none) big = let one : 1 ≡ 2 ^ j = rw none at e in omega (arith, one, big)
    too_many j e (inr less) big = omega (arith, less, big, h)
