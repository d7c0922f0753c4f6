-- ===== src/Rader/Order.antt =====
-- The powers of a root that `find_primitive_root` returns.
use native.Mathlib.Nat.{
  mul-one, mod-add-div, mod-eq_of_lt, dvd_refl, dvd-zero, dvd-mod_iff, le_of_dvd,
  mod-eq-zero_of_dvd, div-eq_of_eq-mul_right, mod_self,
}
use flag_fft.Prelude.{
  ℕ, zero, suc, ◌-◌, ◌*◌, ◌/◌, ◌%◌, ◌^◌, ◌<◌, ◌≤◌, ◌∣◌, ◌≡◌, ◌≢◌, refl, sym, ap, ◌∙◌, inl, inr,
  Bool-cases, ◌==◌, arith, ok, mul-mod-mod, mod_trans, div-mul_self, pow-add, pow-mul, pow-mod,
  one-pow,
}
use flag_fft.Rader.{find_primitive_root, is_prime_length, no_odd_divisor}
use flag_fft.Rader.Primes.{IsPrime}
use flag_fft.Rader.Primality.{is_prime_length_iff, no_odd_divisor_complete}
use flag_fft.Rader.Root.{IsRoot, find_primitive_root-IsRoot}
use flag_fft.Rader.Factors.{quotient_divides}
use flag_fft.Rader.Fermat.{fermat}

-- Every number from 2 on has a prime divisor.
pub prime_divisor : (f m : ℕ) → 2 ≤ m → m ≤ f → (q : ℕ) × IsPrime q × (m % q ≡ 0)
unfolding is_prime_length
prime_divisor zero m two h = absurd (omega arith)
prime_divisor (suc f) m two h = elim (Bool-cases (m % 2 == 0)) [
  | inl even ↦ (2, (is_prime_length_iff 2).0 refl, ground arith)
  | inr odd ↦ elim (Bool-cases (no_odd_divisor m 3 m)) [
    | inl prime ↦ (m, (is_prime_length_iff m).0 (ground arith), mod_self m)
    | inr composite ↦
        let (k, lo, sq, e) = no_odd_divisor_complete m 3 m composite in
        let (q, pq, eq) = prime_divisor f k (omega arith) (grind arith) in
        (q, pq, mod_trans q k m eq e)
  ]
]

module _ (p r : ℕ) (big : 2 ≤ p) where
  -- A multiple of an exponent at which the power is 1.
  power_of_one : (x k : ℕ) → (r ^ x) % p ≡ 1 → (r ^ (x * k)) % p ≡ 1
  power_of_one x k e =
      ap (λ t. t % p) (pow-mul r x k)
      ∙ sym (pow-mod (r ^ x) k p)
      ∙ ap (λ t. (t ^ k) % p) e
      ∙ ap (λ t. t % p) (one-pow k)
      ∙ mod-eq_of_lt big

  power_rest : (x y : ℕ) → (r ^ x) % p ≡ 1 → (r ^ y) % p ≡ 1 → (r ^ (x % y)) % p ≡ 1
  power_rest x y ex ey =
      ap (λ t. t % p) (sym (mul-one (r ^ (x % y))))
      ∙ ap (λ t. (r ^ (x % y) * t) % p) (sym (power_of_one y (x / y) ey))
      ∙ mul-mod-mod (r ^ (x % y)) (r ^ (y * (x / y))) p
      ∙ ap (λ t. t % p) (sym (pow-add r (x % y) (y * (x / y))) ∙ ap (λ t. r ^ t) (mod-add-div x y))
      ∙ ex

  -- The greatest common divisor of two exponents at which the power is 1 is another.
  common_exponent :
      (f x y : ℕ)
      → y < f
      → (r ^ x) % p ≡ 1
      → (r ^ y) % p ≡ 1
      → (g : ℕ) × (g ∣ x) × (g ∣ y) × ((r ^ g) % p ≡ 1)
  common_exponent zero x y h ex ey = absurd (omega arith)
  common_exponent (suc f) x zero h ex ey = (x, dvd_refl x, dvd-zero x, ex)
  common_exponent (suc f) x (suc y) h ex ey =
      let (g, gy, gr, eg) =
        common_exponent f (suc y) (x % suc y) (omega arith) ey (power_rest x (suc y) ex ey) in
      (g, (dvd-mod_iff g gy).0 gr, gy, eg)

-- `(n / q) = g * ((n / g) / q)` where `g` divides `n` and `q` divides `n / g`.
quotient_split : (n g q : ℕ) → 1 ≤ q → n % g ≡ 0 → (n / g) % q ≡ 0 → n / q ≡ g * (n / g / q)
quotient_split n g q pos' eg eq =
    div-eq_of_eq-mul_right {n = q} {m = n} {k = g * (n / g / q)} pos'
      (sym (div-mul_self n g eg) ∙ ap (λ t. t * g) (sym (div-mul_self (n / g) q eq)) ∙ omega arith)

-- A proper divisor leaves a quotient of at least 2.
quotient_many : (n g j : ℕ) → g ≤ j → j < n → n % g ≡ 0 → 2 ≤ n / g
quotient_many n g j le lt e = grind (arith, div-mul_self n g e)

-- No proper divisor of p - 1 is an exponent at which the power is 1.
no_proper_divisor :
    (p r g j : ℕ) → 2 ≤ p → IsRoot p r → g ≤ j → j < p - 1 → (p - 1) % g ≡ 0 → (r ^ g) % p ≢ 1
no_proper_divisor p r g j big root le lt gz eg =
    let many = quotient_many (p - 1) g j le lt gz in
    let (q, pq, eq) = prime_divisor ((p - 1) / g) ((p - 1) / g) many (omega arith) in
    root.passes q pq (mod_trans q ((p - 1) / g) (p - 1) eq (quotient_divides (p - 1) g gz)) (
      ap (λ t. (r ^ t) % p) (quotient_split (p - 1) g q (omega (arith, pq.0)) gz eq)
      ∙ power_of_one p r big g _ eg)

-- No power from the first to the (p - 2)-nd of a root that `find_primitive_root` returns is 1 modulo `p`.
pub find_primitive_root-order :
    (p r j : ℕ) → find_primitive_root p ≡ ok r → 1 ≤ j → j < p - 1 → (r ^ j) % p ≢ 1
find_primitive_root-order p r j found lo hi e =
    let (prime, root) = find_primitive_root-IsRoot p r found in
    let f = fermat p r prime (omega (arith, root.positive, mod-eq_of_lt root.below)) in
    let (g, gj, gn, eg) = common_exponent p r prime.0 p j (p - 1) (omega (arith, prime.0)) e f in
    no_proper_divisor p r g j prime.0 root (le_of_dvd lo gj) hi (mod-eq-zero_of_dvd g gn) eg
