-- ===== src/Rader/Primes.antt =====
-- Primes, and Euclid's lemma for them.
use native.Mathlib.Nat.{
  mul_comm, dvd_of_mod-eq-zero, mod-eq-zero_of_dvd, dvd-sub, dvd-mod_iff, dvd-mul_right_of_dvd,
  dvd_refl, dvd-zero, dvd-mul_right, le_of_dvd, mod-eq-sub-mul-div, mul-sub, pos_of_dvd_of_pos,
  one-mul, pow-suc, pow-zero, mod-eq_of_lt,
}
use native.Mathlib.Decide.{ℕ_discrete, dec_lt}
use flag_fft.Prelude.{
  ℕ, zero, suc, ◌-◌, ◌*◌, ◌/◌, ◌%◌, ◌^◌, ◌<◌, ◌≤◌, ◌∣◌, ◌≡◌, ◌≢◌, ◌⊎◌, sym, ap, subst, ◌∙◌, inl,
  inr, arith,
}

-- No number from 2 to `n - 1` divides `n`.
abbrev pub IsPrime : ℕ → Type 0
IsPrime n = (2 ≤ n) × ((d : ℕ) → 2 ≤ d → d < n → n % d ≢ 0)

-- Euclid's algorithm: a common divisor of `x` and `y` whose multiple by `b` is divisible by `p`.
common :
    (p b fuel x y : ℕ)
    → y < fuel
    → p ∣ x * b
    → p ∣ y * b
    → (g : ℕ) × (g ∣ x) × (g ∣ y) × (p ∣ g * b)
common p b zero x y h hx hy = absurd (omega arith)
common p b (suc fuel) x zero h hx hy = (x, dvd_refl x, dvd-zero x, hx)
common p b (suc fuel) x (suc y) h hx hy =
    let (g, gy, gr, gb) = common p b fuel (suc y) (x % suc y) (omega arith) hy rest in
    (g, (dvd-mod_iff g gy).0 gr, gy, gb)
  where
    expand : x % suc y * b ≡ x * b - suc y * b * (x / suc y)
    expand =
        ap (λ t. t * b) (mod-eq-sub-mul-div x (suc y))
        ∙ mul_comm _ b
        ∙ mul-sub b x (suc y * (x / suc y))
        ∙ omega arith

    rest : p ∣ x % suc y * b
    rest = subst (λ t. p ∣ t) (sym expand) (dvd-sub p hx (dvd-mul_right_of_dvd p hy (x / suc y)))

dvd-prime : (p g : ℕ) → IsPrime p → g ∣ p → (g ≡ 1) ⊎ (g ≡ p)
dvd-prime p g h d = elim (ℕ_discrete g 1) [
  | yes one ↦ inl one
  | no many ↦ elim (dec_lt g p) [
    | yes less ↦
        absurd
          (h.1 g (omega (arith, pos_of_dvd_of_pos d (omega arith))) less (mod-eq-zero_of_dvd g d))
    | no same ↦ inr (omega (arith, le_of_dvd (omega arith) d))
  ]
]

-- A prime that divides a product divides a factor.
pub euclid : (p a b : ℕ) → IsPrime p → p ∣ a * b → (p ∣ a) ⊎ (p ∣ b)
euclid p a b h d =
    let (g, ga, gp, gb) = common p b (suc p) a p (omega arith) d (dvd-mul_right p b) in
    elim (dvd-prime p g h gp) [
      | inl one ↦ inr (subst (λ t. p ∣ t) (ap (λ t. t * b) one ∙ one-mul b) gb)
      | inr same ↦ inl (subst (λ t. t ∣ a) same ga)
    ]

-- The same, with divisibility as the code tests it.
pub euclid_mod : (p a b : ℕ) → IsPrime p → (a * b) % p ≡ 0 → (a % p ≡ 0) ⊎ (b % p ≡ 0)
euclid_mod p a b h e = elim (euclid p a b h (dvd_of_mod-eq-zero p e)) [
  | inl d ↦ inl (mod-eq-zero_of_dvd p d)
  | inr d ↦ inr (mod-eq-zero_of_dvd p d)
]

-- A prime does not divide a power of a number that it does not divide.
pub pow-not_divisible : (p b n : ℕ) → IsPrime p → b % p ≢ 0 → (b ^ n) % p ≢ 0
pow-not_divisible p b zero h k e =
    absurd (omega (arith, mod-eq_of_lt {n = 1} {m = p} (omega arith), ap (λ t. t % p) (pow-zero b)))
pow-not_divisible p b (suc n) h k e =
    elim (euclid_mod p (b ^ n) b h (ap (λ t. t % p) (sym (pow-suc b n)) ∙ e)) [
      | inl d ↦ pow-not_divisible p b n h k d
      | inr d ↦ k d
    ]

-- A prime that divides a prime is that prime.
pub prime-dvd-prime : (p q : ℕ) → IsPrime p → IsPrime q → p % q ≡ 0 → q ≡ p
prime-dvd-prime p q h k e = elim (dvd-prime p q h (dvd_of_mod-eq-zero q e)) [
  | inl one ↦ absurd (omega (arith, k.0))
  | inr same ↦ same
]
