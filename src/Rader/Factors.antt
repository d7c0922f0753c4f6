-- ===== src/Rader/Factors.antt =====
-- `prime_factors_unique` and the primes that divide a number.
use native.Mathlib.Nat.{
  mod_self, dvd_of_mod-eq-zero, mod-eq-zero_of_dvd, dvd-mul_right, le_of_dvd, div-lt_self,
}
use native.Mathlib.Decide.{ℕ_discrete}
use flag_fft.Prelude.{
  ℕ, zero, suc, ◌+◌, ◌*◌, ◌/◌, ◌%◌, ◌<◌, ◌≤◌, ◌∣◌, ◌≡◌, ◌≢◌, ◌↔◌, sym, ap, subst, ◌∙◌, inl, inr,
  Bool-cases, ltb, leb, ◌==◌, arith, div-mul_self, mod_trans, In, lt→ltb,
}
use flag_fft.Rader.{strip_factor, prime_factors_from, prime_factors_unique}
use flag_fft.Rader.Primes.{IsPrime, euclid_mod, prime-dvd-prime}
use flag_fft.Rader.Primality.{small_divisor}

pub quotient_divides : (n d : ℕ) → n % d ≡ 0 → n % (n / d) ≡ 0
quotient_divides n d e =
    mod-eq-zero_of_dvd (n / d)
      (subst (λ t. n / d ∣ t) (div-mul_self n d e) (dvd-mul_right (n / d) d))

-- What is left after every factor `d` is divided out.
record Stripped (d n m : ℕ) : Type 0 where
  positive : 1 ≤ m
  divides : n % m ≡ 0
  clean : m % d ≢ 0
  keeps : (q : ℕ) → IsPrime q → q ≢ d → n % q ≡ 0 → m % q ≡ 0

quotient_pos : (n d : ℕ) → IsPrime d → 1 ≤ n → n % d ≡ 0 → 1 ≤ n / d
quotient_pos n d p pos' e = grind (arith, div-mul_self n d e)

quotient_less : (n d f : ℕ) → IsPrime d → 1 ≤ n → n ≤ suc f → n / d ≤ f
quotient_less n d f p pos' h = omega (arith, div-lt_self {n = n} {k = d} pos' (omega arith))

-- One division, and then the rest of the loop.
Stripped-again :
    (f d n : ℕ)
    → IsPrime d
    → 1 ≤ n
    → n % d ≡ 0
    → Stripped d (n / d) (strip_factor f d (n / d))
    → Stripped d n (strip_factor f d (n / d))
Stripped-again f d n p pos' e s = record {
  positive = s.positive;
  divides = mod_trans _ (n / d) n s.divides (quotient_divides n d e);
  clean = s.clean;
  keeps = λ q pq ne e'.
      s.keeps q pq ne
        (elim (euclid_mod q (n / d) d pq (ap (λ t. t % q) (div-mul_self n d e) ∙ e')) [
          | inl here ↦ here
          | inr there ↦ absurd (ne (prime-dvd-prime d q p pq there))
        ]);
}

strip_factor_lem : (f d n : ℕ) → IsPrime d → 1 ≤ n → n ≤ f → Stripped d n (strip_factor f d n)
unfolding strip_factor
strip_factor_lem zero d n p pos' h = absurd (omega arith)
strip_factor_lem (suc f) d n p pos' h = elim (Bool-cases (n % d == 0)) [
  | inl more ↦ rw more (
      Stripped-again f d n p pos' (ground arith) (
        strip_factor_lem f d (n / d) p (quotient_pos n d p pos' (ground arith))
          (quotient_less n d f p pos' h)))
  | inr done ↦ rw done (record {
    positive = pos';
    divides = mod_self n;
    clean = ground arith;
    keeps = λ q pq ne e. e;
  })
]

-- Every divisor of `n` above 1 is at least `d`.
abbrev IsRough : ℕ → ℕ → Type 0
IsRough d n = (k : ℕ) → 2 ≤ k → n % k ≡ 0 → d ≤ k

rough_prime : (d n : ℕ) → 2 ≤ d → IsRough d n → n % d ≡ 0 → IsPrime d
rough_prime d n two r e = (two, λ k two' less e'. ground (arith, r k two' (mod_trans k d n e' e)))

rough_large_prime : (d n : ℕ) → 2 ≤ n → IsRough d n → n < d * d → IsPrime n
rough_large_prime d n two r large = (
  two,
  λ k two' less e.
      let (j, two'', sq, e') = small_divisor n k two' less e in grind (arith, r j two'' e'),
)

IsRough-step : (d n : ℕ) → IsRough d n → n % d ≢ 0 → IsRough (d + 1) n
IsRough-step d n r ne k two e = elim (ℕ_discrete k d) [
  | yes same ↦ absurd (ne (subst (λ t. n % t ≡ 0) same e))
  | no other ↦ omega (arith, r k two e)
]

IsRough-divisor : (d n m : ℕ) → IsRough d n → n % m ≡ 0 → IsRough d m
IsRough-divisor d n m r e k two e' = r k two (mod_trans k m n e' e)

-- The loop of `prime_factors_unique` from `d` on, with no divisor of `n` passed over.
factors_sound :
    (f d n q : ℕ)
    → 2 ≤ d
    → 1 ≤ n
    → IsRough d n
    → In q (prime_factors_from f d n)
    → IsPrime q × (n % q ≡ 0)
unfolding prime_factors_from
factors_sound zero d n q two pos' r m = absurd m
factors_sound (suc f) d n q two pos' r m = elim (Bool-cases (leb (d * d) n)) [
  | inl small ↦ elim (Bool-cases (n % d == 0)) [
    | inl divides ↦
        let e : n % d ≡ 0 = ground arith in
        let p = rough_prime d n two r e in
        let s = strip_factor_lem n d n p pos' (omega arith) in
        elim (rw (small, divides) at m) [
          | inl here ↦ subst (λ t. IsPrime t × (n % t ≡ 0)) (sym here) (p, e)
          | inr there ↦
              let (pq, eq) =
                factors_sound f (d + 1) (strip_factor n d n) q (omega arith) s.positive
                  (IsRough-step d _ (IsRough-divisor d n _ r s.divides) s.clean) there in
              (pq, mod_trans q _ n eq s.divides)
        ]
    | inr none ↦
        factors_sound f (d + 1) n q (omega arith) pos' (IsRough-step d n r (ground arith))
          (rw (small, none) at m)
  ]
  | inr large ↦ elim (Bool-cases (ltb 1 n)) [
    | inl many ↦ elim (rw (large, many) at m) [
      | inl here ↦
          subst (λ t. IsPrime t × (n % t ≡ 0)) (sym here)
            (rough_large_prime d n (ground arith) r (ground arith), mod_self n)
      | inr there ↦ absurd there
    ]
    | inr one ↦ absurd (rw (large, one) at m)
  ]
]

factors_complete :
    (f d n q : ℕ)
    → 2 ≤ d
    → 1 ≤ n
    → n < d + f
    → IsRough d n
    → IsPrime q
    → n % q ≡ 0
    → In q (prime_factors_from f d n)
unfolding prime_factors_from
factors_complete zero d n q two pos' fuel r p e =
    absurd (omega (arith, r q p.0 e, le_of_dvd pos' (dvd_of_mod-eq-zero q e)))
factors_complete (suc f) d n q two pos' fuel r p e = elim (Bool-cases (leb (d * d) n)) [
  | inl small ↦ elim (Bool-cases (n % d == 0)) [
    | inl divides ↦
        let e' : n % d ≡ 0 = ground arith in
        let s = strip_factor_lem n d n (rough_prime d n two r e') pos' (omega arith) in
        rw (small, divides)
          (elim (ℕ_discrete q d) [
            | yes same ↦ inl same
            | no other ↦ inr (
                factors_complete f (d + 1) (strip_factor n d n) q (omega arith) s.positive
                  (omega
                    (arith, le_of_dvd pos' (dvd_of_mod-eq-zero (strip_factor n d n) s.divides)))
                  (IsRough-step d _ (IsRough-divisor d n _ r s.divides) s.clean) p
                  (s.keeps q p other e))
          ])
    | inr none ↦
        rw (small, none)
          (factors_complete f (d + 1) n q (omega arith) pos' (omega arith)
            (IsRough-step d n r (ground arith)) p e)
  ]
  | inr large ↦
      let many : 2 ≤ n = omega (arith, p.0, le_of_dvd pos' (dvd_of_mod-eq-zero q e)) in
      let prime = rough_large_prime d n many r (ground arith) in
      rw (large, lt→ltb 1 n many) (inl (prime-dvd-prime n q prime p e))
]

-- `prime_factors_unique` lists the primes that divide its argument, and nothing else, for every
-- positive argument.
pub prime_factors_unique_iff :
    (n q : ℕ) → 1 ≤ n → In q (prime_factors_unique n) ↔ (IsPrime q × (n % q ≡ 0))
unfolding prime_factors_unique
prime_factors_unique_iff n q pos' = (
  factors_sound (n + 1) 2 n q (omega arith) pos' (λ k two e. two),
  λ (p, e). factors_complete (n + 1) 2 n q (omega arith) pos' (omega arith) (λ k two e. two) p e,
)
