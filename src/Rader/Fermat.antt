-- ===== src/Rader/Fermat.antt =====
-- Arithmetic modulo a prime: cancellation, and Fermat's little theorem.
use native.Mathlib.Nat.{
  mul_comm, mul-sub, mul-one, mod-lt, mod-add-div, add-mul-mod_self_left, pow-zero, pow-succ',
  mul-mul-mul_comm, mod-eq_of_lt,
}
use native.Mathlib.Decide.{dec_le}
use flag_fft.Prelude.{
  ℕ, zero, suc, ◌-◌, ◌*◌, ◌/◌, ◌%◌, ◌^◌, ◌<◌, ◌≤◌, ◌≡◌, ◌≢◌, refl, sym, ap, ◌∙◌, inl, inr, arith,
  List, [], ◌∷◌, length, In, Distinct, Within, product, factorial, product_of_full, mod-mul-mod,
  mul-mod-mod, mod-mul_self, div-mul_self,
}
use flag_fft.Rader.Primes.{IsPrime, euclid_mod}

-- Equal remainders differ by a multiple.
mod-sub : (a b p : ℕ) → a ≤ b → a % p ≡ b % p → (b - a) % p ≡ 0
mod-sub a b p le e =
    ap (λ t. t % p) (split) ∙ ap (λ t. t % p) (mul_comm p _) ∙ mod-mul_self (b / p - a / p) p
  where
    split : b - a ≡ p * (b / p - a / p)
    split = omega (arith, mul-sub p (b / p) (a / p), mod-add-div a p, mod-add-div b p, e)

mod_of_sub : (a b p : ℕ) → a ≤ b → (b - a) % p ≡ 0 → a % p ≡ b % p
mod_of_sub a b p le e =
    sym (add-mul-mod_self_left a p ((b - a) / p))
    ∙ ap (λ t. t % p) (omega (arith, div-mul_self (b - a) p e, mul_comm p ((b - a) / p)))

cancel_le :
    (p c x y : ℕ) → IsPrime p → c % p ≢ 0 → x ≤ y → (c * x) % p ≡ (c * y) % p → x % p ≡ y % p
cancel_le p c x y prime nz le e =
    mod_of_sub x y p le (elim (euclid_mod p c (y - x) prime product_zero) [
      | inl bad ↦ absurd (nz bad)
      | inr good ↦ good
    ])
  where
    product_zero : (c * (y - x)) % p ≡ 0
    product_zero = ap (λ t. t % p) (mul-sub c y x) ∙ mod-sub (c * x) (c * y) p (grind arith) e

-- A factor that the prime does not divide may be cancelled.
pub mod_cancel : (p c x y : ℕ) → IsPrime p → c % p ≢ 0 → (c * x) % p ≡ (c * y) % p → x % p ≡ y % p
mod_cancel p c x y prime nz e = elim (dec_le x y) [
  | yes le ↦ cancel_le p c x y prime nz le e
  | no gt ↦ sym (cancel_le p c y x prime nz (omega arith) (sym e))
]

-- a * n mod p, a * (n - 1) mod p, ..., a * 1 mod p
multiples : (p a n : ℕ) → List ℕ
multiples p a zero = []
multiples p a (suc n) = (a * suc n) % p ∷ multiples p a n

length-multiples : (p a n : ℕ) → length (multiples p a n) ≡ n
unfolding multiples
length-multiples p a zero = refl
length-multiples p a (suc n) = ap suc (length-multiples p a n)

In-multiples :
    (p a n x : ℕ) → In x (multiples p a n) → (j : ℕ) × (1 ≤ j) × (j ≤ n) × (x ≡ (a * j) % p)
unfolding multiples
In-multiples p a zero x m = absurd m
In-multiples p a (suc n) x (inl e) = (suc n, omega arith, omega arith, e)
In-multiples p a (suc n) x (inr m) =
    let (j, lo, hi, e) = In-multiples p a n x m in (j, lo, omega arith, e)

factorial-not_divisible : (p n : ℕ) → IsPrime p → n < p → factorial n % p ≢ 0
unfolding factorial
factorial-not_divisible p zero prime h e = absurd (omega (arith, mod-eq_of_lt prime.0))
factorial-not_divisible p (suc n) prime h e = elim (euclid_mod p (suc n) (factorial n) prime e) [
  | inl bad ↦ absurd (omega (arith, mod-eq_of_lt h, bad))
  | inr bad ↦ factorial-not_divisible p n prime (omega arith) bad
]

module _ (p a : ℕ) (prime : IsPrime p) (nz : a % p ≢ 0) where
  multiples-Within : (n : ℕ) → n < p → Within (p - 1) (multiples p a n)
  multiples-Within n h x m =
      let (j, lo, hi, e) = In-multiples p a n x m in
      (
        omega (arith, e, λ (z : (a * j) % p ≡ 0). nonzero j lo (omega arith) z),
        omega (arith, e, mod-lt (a * j) {m = p} (omega (arith, prime.0))),
      )
    where
      nonzero : (j : ℕ) → 1 ≤ j → j < p → (a * j) % p ≢ 0
      nonzero j lo hi z = elim (euclid_mod p a j prime z) [
        | inl bad ↦ nz bad
        | inr bad ↦ absurd (omega (arith, mod-eq_of_lt hi, bad))
      ]

  multiples-Distinct : (n : ℕ) → n < p → Distinct (multiples p a n)
  unfolding multiples
  multiples-Distinct zero h = tt
  multiples-Distinct (suc n) h =
      (λ m. apart (In-multiples p a n _ m), multiples-Distinct n (omega arith))
    where
      apart : ¬ ((j : ℕ) × (1 ≤ j) × (j ≤ n) × ((a * suc n) % p ≡ (a * j) % p))
      apart (j, lo, hi, e) = absurd (
          omega (
            arith,
            mod_cancel p a (suc n) j prime nz e,
            mod-eq_of_lt {n = j} {m = p} (omega arith),
            mod-eq_of_lt h,
          ))

  product-multiples : (n : ℕ) → product (multiples p a n) % p ≡ (a ^ n * factorial n) % p
  unfolding multiples product factorial
  product-multiples zero = ap (λ t. (t * 1) % p) (sym (pow-zero a))
  product-multiples (suc n) =
      mod-mul-mod (a * suc n) (product (multiples p a n)) p
      ∙ sym (mul-mod-mod (a * suc n) (product (multiples p a n)) p)
      ∙ ap (λ t. (a * suc n * t) % p) (product-multiples n)
      ∙ mul-mod-mod (a * suc n) (a ^ n * factorial n) p
      ∙ ap (λ t. t % p)
          (mul-mul-mul_comm a (suc n) (a ^ n) (factorial n)
            ∙ ap (λ t. t * (suc n * factorial n)) (sym (pow-succ' a n)))

  -- Fermat's little theorem.
  pub fermat : (a ^ (p - 1)) % p ≡ 1
  fermat =
      mod_cancel p (factorial (p - 1)) (a ^ (p - 1)) 1 prime
        (factorial-not_divisible p (p - 1) prime (omega (arith, prime.0)))
        (ap (λ t. t % p) (mul_comm _ _)
          ∙ sym (product-multiples (p - 1))
          ∙ ap (λ t. t % p) full
          ∙ ap (λ t. t % p) (sym (mul-one _)))
      ∙ mod-eq_of_lt prime.0
    where
      full : product (multiples p a (p - 1)) ≡ factorial (p - 1)
      full =
          product_of_full (p - 1) (multiples p a (p - 1))
            (multiples-Distinct (p - 1) (omega (arith, prime.0)))
            (multiples-Within (p - 1) (omega (arith, prime.0))) (length-multiples p a (p - 1))
