-- ===== src/Rader/Root.antt =====
-- The roots that `find_primitive_root` returns, and its exceptions.
use native.Mathlib.Nat.{le_of_dvd, dvd_of_mod-eq-zero}
use flag_fft.Prelude.{
  ℕ, zero, suc, ◌+◌, ◌-◌, ◌/◌, ◌%◌, ◌^◌, ◌<◌, ◌≤◌, ◌≡◌, ◌≢◌, ◌↔◌, ap, ◌∙◌, inl, inr, true,
  Bool-cases, ◌==◌, arith, List, [], ◌∷◌, In, ok, throws, not_prime_length,
}
use flag_fft.Rader.{
  modpow, passes_all, search_root, find_primitive_root, prime_factors_unique, is_prime_length,
}
use flag_fft.Rader.Primes.{IsPrime}
use flag_fft.Rader.Modpow.{modpow_lem}
use flag_fft.Rader.Primality.{is_prime_length_iff}
use flag_fft.Rader.Factors.{prime_factors_unique_iff}

-- `root` is no `q`-th power residue modulo `p`, for the primes `q` that divide `p - 1`.
pub record IsRoot (p root : ℕ) : Type 0 where
  pub positive : 1 ≤ root
  pub below : root < p
  pub passes : (q : ℕ) → IsPrime q → (p - 1) % q ≡ 0 → (root ^ ((p - 1) / q)) % p ≢ 1

passes_all_sound :
    (root phi p : ℕ) (factors : List ℕ)
    → passes_all root phi p factors ≡ true
    → (q : ℕ) → In q factors
    → modpow root (phi / q) p ≢ 1
unfolding passes_all
passes_all_sound root phi p [] h q m = absurd m
passes_all_sound root phi p (f ∷ fs) h q (inl here) =
    λ e. ground (arith, ap (λ (t : ℕ). modpow root (phi / t) p) here)
passes_all_sound root phi p (f ∷ fs) h q (inr there) =
    passes_all_sound root phi p fs (ground arith) q there

search_root_sound :
    (rounds root p : ℕ) (factors : List ℕ) (r : ℕ)
    → search_root rounds root p factors ≡ ok r
    → (root ≤ r) × (r < root + rounds) × (passes_all r (p - 1) p factors ≡ true)
unfolding search_root
search_root_sound zero root p factors r h = cc
search_root_sound (suc rounds) root p factors r h =
    ground (arith, search_root_sound rounds (root + 1) p factors r)

no_prime_divides_one : (q : ℕ) → IsPrime q → 1 % q ≢ 0
no_prime_divides_one q p e =
    omega (arith, p.0, le_of_dvd {m = q} {n = 1} (omega arith) (dvd_of_mod-eq-zero q e))

two_IsRoot : IsRoot 2 1
two_IsRoot = record {
  positive = omega arith;
  below = omega arith;
  passes = λ q pq e. absurd (no_prime_divides_one q pq e);
}

searched_IsRoot :
    (p r : ℕ)
    → IsPrime p
    → p ≢ 2
    → search_root (p - 2) 2 p (prime_factors_unique (p - 1)) ≡ ok r
    → IsRoot p r
searched_IsRoot p r prime ne h =
    let (lo, hi, pass) = search_root_sound (p - 2) 2 p (prime_factors_unique (p - 1)) r h in
    record {
      positive = omega arith;
      below = omega (arith, prime.0);
      passes = λ q pq e e1.
          passes_all_sound r (p - 1) p (prime_factors_unique (p - 1)) pass q
            ((prime_factors_unique_iff (p - 1) q (omega (arith, prime.0))).1 (pq, e))
            (modpow_lem r ((p - 1) / q) p (omega (arith, prime.0)) ∙ e1);
    }

-- A root that `find_primitive_root` returns is positive and below its argument, the argument is
-- prime, and for no prime divisor `q` of `p - 1` is the root's power (p - 1) / q equal to 1
-- modulo `p`.
pub find_primitive_root-IsRoot : (p r : ℕ) → find_primitive_root p ≡ ok r → IsPrime p × IsRoot p r
unfolding find_primitive_root
find_primitive_root-IsRoot p r h = elim (Bool-cases (is_prime_length p)) [
  | inr composite ↦ absurd (ground arith)
  | inl prime ↦
      let ip = (is_prime_length_iff p).0 prime in
      elim (Bool-cases (p == 2)) [
        | inl two ↦
            let p2 : p ≡ 2 = ground arith in
            let r1 : r ≡ 1 = ground arith in (ip, rw (p2, r1) two_IsRoot)
        | inr odd ↦ (ip, searched_IsRoot p r ip (ground arith) (rw (prime, odd) at h))
      ]
]

search_root-ne-not_prime :
    (rounds root p : ℕ) (factors : List ℕ)
    → search_root rounds root p factors ≢ throws not_prime_length
unfolding search_root
search_root-ne-not_prime zero root p factors = cc
search_root-ne-not_prime (suc rounds) root p factors =
    ground (arith, search_root-ne-not_prime rounds (root + 1) p factors)

-- `find_primitive_root` refuses an argument as not prime exactly if it is not prime.
pub find_primitive_root-not_prime :
    (p : ℕ) → (find_primitive_root p ≡ throws not_prime_length) ↔ (¬ IsPrime p)
unfolding find_primitive_root
find_primitive_root-not_prime p = (
  λ h ip. ground (
    arith,
    (is_prime_length_iff p).1 ip,
    search_root-ne-not_prime (p - 2) 2 p (prime_factors_unique (p - 1)),
  ),
  λ np. elim (Bool-cases (is_prime_length p)) [
    | inl prime ↦ absurd (np ((is_prime_length_iff p).0 prime))
    | inr composite ↦ rw composite
  ],
)
