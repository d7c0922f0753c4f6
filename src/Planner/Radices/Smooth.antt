-- ===== src/Planner/Radices/Smooth.antt =====
-- Which lengths the supported radices factor completely.
use native.Mathlib.Nat.{le_of_dvd, dvd_of_mod-eq-zero}
use native.Mathlib.Decide.{ℕ_discrete}
use flag_fft.Prelude.{
  ℕ, zero, suc, ◌*◌, ◌%◌, ◌≤◌, ◌<◌, ◌≡◌, ◌↔◌, inl, inr, refl, sym, ap, subst, ◌∙◌, Bool, true, ◌&&◌,
  ◌||◌, not, List, [], ◌∷◌, ◌==◌, Bool-cases, arith, In, product, all_of, all_of-In, ok-injective,
  mod_trans, mod-mul_self, ok,
}
use flag_fft.Base.{supported_radices, contains}
use flag_fft.Rader.{is_prime_length, no_odd_divisor}
use flag_fft.Rader.Primes.{IsPrime, euclid_mod}
use flag_fft.Rader.Primality.{is_prime_length_iff}
use flag_fft.Rader.Order.{prime_divisor}
use flag_fft.Planner.Radices.{Factorization, factorize_supported_radices}
use flag_fft.Planner.Radices.Greedy.{
  IsSupported, IsSupported-range, IsFactored, factorize_supported_radices-IsFactored,
}

contains-In : (xs : List ℕ) (x : ℕ) → contains xs x ≡ true → In x xs
unfolding contains
contains-In [] x h = cc
contains-In (y ∷ ys) x h = elim (Bool-cases (y == x)) [
  | inl here ↦ inl (ground arith)
  | inr there ↦ inr (contains-In ys x (ground arith))
]

-- Each number below `q` that is prime and divides `r` is a supported radix.
primes_supported : (q r : ℕ) → Bool
primes_supported zero r = true
primes_supported (suc q) r =
    (not (is_prime_length q) || not (r % q == 0) || contains supported_radices q)
    && primes_supported q r

all_primes_supported : all_of (primes_supported 33) supported_radices ≡ true
unfolding all_of primes_supported is_prime_length no_odd_divisor contains
all_primes_supported = refl

chosen : (p d c rest : Bool) → (not p || not d || c) && rest ≡ true → p ≡ true → d ≡ true → c ≡ true
chosen p d c rest h hp hd = ground arith

primes_supported-contains :
    (b q r : ℕ)
    → primes_supported b r ≡ true
    → q < b
    → is_prime_length q ≡ true
    → r % q ≡ 0
    → contains supported_radices q ≡ true
unfolding primes_supported
primes_supported-contains zero q r h lt p e = absurd (omega arith)
primes_supported-contains (suc b) q r h lt p e = elim (ℕ_discrete q b) [
  | yes same ↦
      here (subst (λ t. is_prime_length t ≡ true) same p) (subst (λ t. r % t ≡ 0) same e) same
  | no other ↦ primes_supported-contains b q r (ground arith) (omega arith) p e
]
  where
    here : is_prime_length b ≡ true → r % b ≡ 0 → q ≡ b → contains supported_radices q ≡ true
    here p' e' same =
        subst (λ t. contains supported_radices t ≡ true) (sym same)
          (chosen (is_prime_length b) (r % b == 0) (contains supported_radices b)
            (primes_supported b r) h p' (ground arith))

prime_of_radix : (r q : ℕ) → IsSupported r → IsPrime q → r % q ≡ 0 → IsSupported q
prime_of_radix r q s p e = contains-In supported_radices q (
    primes_supported-contains 33 q r
      (all_of-In (primes_supported 33) supported_radices r all_primes_supported s)
      (omega (
        arith,
        IsSupported-range r s,
        le_of_dvd {m = q} {n = r} (omega (arith, IsSupported-range r s)) (dvd_of_mod-eq-zero q e),
      ))
      ((is_prime_length_iff q).1 p) e)

-- A prime that divides a product of supported radices is one.
prime_of_product :
    (xs : List ℕ) (q : ℕ)
    → ((r : ℕ) → In r xs → IsSupported r)
    → IsPrime q
    → product xs % q ≡ 0
    → IsSupported q
unfolding product
prime_of_product [] q s p e =
    absurd (omega (arith, p.0, le_of_dvd {m = q} {n = 1} (omega arith) (dvd_of_mod-eq-zero q e)))
prime_of_product (x ∷ xs) q s p e = elim (euclid_mod q x (product xs) p e) [
  | inl head ↦ prime_of_radix x q (s x (inl refl)) p head
  | inr rest ↦ prime_of_product xs q (λ r m. s r (inr m)) p rest
]

-- Every prime divisor of `n` is one of the supported radices 2, 3, 5, 7, 11, 13, 17 and 19.
abbrev pub IsSmooth : ℕ → Type 0
IsSmooth n = (q : ℕ) → IsPrime q → n % q ≡ 0 → IsSupported q

complete_of_smooth : (n : ℕ) (f : Factorization) → IsFactored n f → IsSmooth n → f.remainder ≡ 1
complete_of_smooth n f h smooth = elim h.stuck [
  | inl one ↦ one
  | inr none ↦ elim (ℕ_discrete f.remainder 1) [
    | yes one ↦ one
    | no many ↦
        let (q, p, e) =
          prime_divisor f.remainder f.remainder (omega (arith, h.positive)) (omega arith) in
        let whole =
          subst (λ t. t % f.remainder ≡ 0) h.whole (mod-mul_self (product f.factors) f.remainder) in
        absurd (none q (smooth q p (mod_trans q f.remainder n e whole)) e)
  ]
]

IsSmooth-of_complete : (n : ℕ) (f : Factorization) → IsFactored n f → f.remainder ≡ 1 → IsSmooth n
IsSmooth-of_complete n f h one q p e =
    prime_of_product f.factors q h.supported p
      (subst (λ t. t % q ≡ 0) (sym (omega (arith, h.whole, ap (λ t. product f.factors * t) one))) e)

-- The remainder that `factorize_supported_radices` leaves of a positive length is 1 exactly if every
-- prime divisor of the length is a supported radix.
pub remainder-one_iff :
    (n : ℕ) (f : Factorization)
    → 1 ≤ n
    → factorize_supported_radices n ≡ ok f
    → (f.remainder ≡ 1) ↔ IsSmooth n
remainder-one_iff n f pos' h =
    let (g, e, fact) = factorize_supported_radices-IsFactored n pos' in
    let fact' = subst (IsFactored n) (ok-injective g f (sym e ∙ h)) fact in
    (IsSmooth-of_complete n f fact', complete_of_smooth n f fact')
