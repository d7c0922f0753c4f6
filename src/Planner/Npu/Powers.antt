-- ===== src/Planner/Npu/Powers.antt =====
-- Powers of two and the radices that the Ascend branch avoids.
use flag_fft.Prelude.{
  ℕ, ◌^◌, ◌%◌, true, false, not, ◌&&◌, ltb, ◌==◌, ◌≡◌, ◌≢◌, refl, sym, subst, inl, inr, Bool-cases,
  arith, In,
}
use native.Mathlib.Decide.{ℕ_discrete}
use native.Mathlib.Nat.{mod-eq_of_lt}
use flag_fft.Base.{supported_radices}
use flag_fft.Rader.{is_prime_length, no_odd_divisor}
use flag_fft.Rader.Primes.{IsPrime, pow-not_divisible}
use flag_fft.Rader.Primality.{is_prime_length_iff}
use flag_fft.Planner.Radices.Smooth.{IsSmooth}

two_only : (q : ℕ) → IsPrime q → 2 % q ≡ 0 → q ≡ 2
two_only q (two, h) e = elim (Bool-cases (ltb 2 q)) [
  | inl more ↦ absurd (ground (arith, e, mod-eq_of_lt {n = 2} {m = q} (ground (arith, more))))
  | inr less ↦ ground (arith, two, less)
]

pub pow-IsSmooth : (j : ℕ) → IsSmooth (2 ^ j)
pow-IsSmooth j q prime e = elim (ℕ_discrete (2 % q) 0) [
  | yes divides ↦
      subst (λ r. In r supported_radices) (sym (two_only q prime divides)) (ground arith)
  | no apart ↦ absurd (pow-not_divisible q 2 j prime apart e)
]

odd_prime : (q j : ℕ) → is_prime_length q ≡ true → 2 % q ≢ 0 → (2 ^ j) % q == 0 ≡ false
odd_prime q j prime apart = elim (Bool-cases ((2 ^ j) % q == 0)) [
  | inl e ↦
      absurd (pow-not_divisible q 2 j ((is_prime_length_iff q).0 prime) apart (ground (arith, e)))
  | inr e ↦ e
]

pub pow_small :
    (j : ℕ) → not ((2 ^ j) % 13 == 0) && not ((2 ^ j) % 17 == 0) && not ((2 ^ j) % 19 == 0) ≡ true
unfolding is_prime_length no_odd_divisor
pow_small j =
    rw
      (
        odd_prime 13 j refl (omega arith),
        odd_prime 17 j refl (omega arith),
        odd_prime 19 j refl (omega arith),
      )
      refl
