-- ===== src/Rader/Primality.antt =====
-- `is_prime_length` and primality.
use native.Mathlib.Nat.{mul-le-mul_right, mod-eq-zero_of_dvd, dvd-mul_right}
use native.Mathlib.Decide.{dec_le}
use flag_fft.Prelude.{
  ℕ, zero, suc, ◌+◌, ◌*◌, ◌/◌, ◌%◌, ◌<◌, ◌≤◌, ◌≡◌, ◌≢◌, ◌↔◌, ap, inl, inr, true, false, Bool-cases,
  leb, ◌==◌, arith, div-mul_self, mod_trans, square_mono, subst, ◌∣◌,
}
use flag_fft.Rader.{no_odd_divisor, is_prime_length}
use flag_fft.Rader.Primes.{IsPrime}

-- If the loop passes, no number from `d` on, of the parity of `d`, up to the square root divides.
no_odd_divisor_sound :
    (f d n : ℕ)
    → n < (d + 2 * f) * (d + 2 * f)
    → no_odd_divisor f d n ≡ true
    → (k : ℕ) → d ≤ k
    → k % 2 ≡ d % 2
    → k * k ≤ n
    → n % k ≢ 0
unfolding no_odd_divisor
no_odd_divisor_sound zero d n b h k le par sq = absurd (omega (arith, square_mono d k le))
no_odd_divisor_sound (suc f) d n b h k le par sq = elim (dec_le (d + 2) k) [
  | yes later ↦
      no_odd_divisor_sound f (d + 2) n (grind arith) (ground (arith, square_mono d k le)) k later
        (omega arith) sq
  | no here ↦
      let e : k ≡ d = omega arith in
      ground (arith, ap (λ (t : ℕ). t * t) e, ap (λ (t : ℕ). n % t) e)
]

pub no_odd_divisor_complete :
    (f d n : ℕ) → no_odd_divisor f d n ≡ false → (k : ℕ) × (d ≤ k) × (k * k ≤ n) × (n % k ≡ 0)
unfolding no_odd_divisor
no_odd_divisor_complete zero d n h = cc
no_odd_divisor_complete (suc f) d n h = elim (Bool-cases (leb (d * d) n)) [
  | inl small ↦ elim (Bool-cases (n % d == 0)) [
    | inl divides ↦ (d, omega arith, ground arith, ground arith)
    | inr not_here ↦
        let (k, le, sq, e) = no_odd_divisor_complete f (d + 2) n (ground arith) in
        (k, omega arith, sq, e)
  ]
  | inr large ↦ absurd (ground arith)
]

-- A proper divisor has a mate, and the lesser of the two has its square within the number.
pub small_divisor :
    (n d : ℕ) → 2 ≤ d → d < n → n % d ≡ 0 → (k : ℕ) × (2 ≤ k) × (k * k ≤ n) × (n % k ≡ 0)
small_divisor n d two less e = elim (dec_le d (n / d)) [
  | yes le ↦ (d, two, omega (arith, mul-le-mul_right d le, div-mul_self n d e), e)
  | no more ↦ (
    n / d,
    grind (arith, div-mul_self n d e),
    grind (arith, div-mul_self n d e),
    mod-eq-zero_of_dvd (n / d)
        (subst (λ t. n / d ∣ t) (div-mul_self n d e) (dvd-mul_right (n / d) d)),
  )
]

odd_divisor : (n k : ℕ) → n % 2 ≢ 0 → n % k ≡ 0 → k % 2 ≡ 1
odd_divisor n k odd e = omega (arith, odd, λ (z : k % 2 ≡ 0). odd (mod_trans 2 k n z e))

odd_sound : (n d : ℕ) → n % 2 ≢ 0 → no_odd_divisor n 3 n ≡ true → 2 ≤ d → d < n → n % d ≢ 0
odd_sound n d odd h two less e =
    let (k, two', sq, e') = small_divisor n d two less e in
    let par = odd_divisor n k odd e' in
    no_odd_divisor_sound n 3 n (grind arith) h k (omega arith) (omega arith) sq e'

odd_complete : (n : ℕ) → IsPrime n → no_odd_divisor n 3 n ≢ false
odd_complete n p h =
    let (k, le, sq, e) = no_odd_divisor_complete n 3 n h in p.1 k (omega arith) (grind arith) e

-- `is_prime_length` answers `true` exactly for primes.
pub is_prime_length_iff : (n : ℕ) → (is_prime_length n ≡ true) ↔ IsPrime n
unfolding is_prime_length
is_prime_length_iff n = (
  λ h. (
    ground arith,
    λ d two less. elim (Bool-cases (n % 2 == 0)) [
      | inl even ↦ ground arith
      | inr odd ↦ odd_sound n d (ground arith) (ground arith) two less
    ],
  ),
  λ p. ground (arith, p.1 2, odd_complete n p),
)
