-- ===== src/Prelude/Divides.antt =====
-- Division and remainder: `n % d ≡ 0` is how the code tests that `d` divides `n`.
use Prim.Native.Nat.{ℕ, zero, suc, ◌+◌, ◌*◌, ◌/◌, ◌%◌, ◌^◌, ◌≤◌}
use mathlib.Core.Path.{◌≡◌, ap, sym, ◌∙◌, ◌≡⟨◌⟩◌, ◌∎}
use native.Mathlib.Nat.{
  add-zero, add-suc, mul-zero, mul-suc, mul-one, add-mul, pow-suc, pow-zero, mul_assoc, mul_comm,
  mul-mul-mul_comm, mod-eq-zero_of_dvd, dvd_of_mod-eq-zero, dvd_trans, dvd-mul_left, mod-add-div,
  mul-le-mul, add-mul-mod_self_left, div-mul_cancel,
}

pub div-mul_self : (n d : ℕ) → n % d ≡ 0 → n / d * d ≡ n
div-mul_self n d h = div-mul_cancel d (dvd_of_mod-eq-zero d h)

pub mod-mul_self : (q d : ℕ) → (q * d) % d ≡ 0
mod-mul_self q d = mod-eq-zero_of_dvd d (dvd-mul_left d q)

pub mod_trans : (a b c : ℕ) → b % a ≡ 0 → c % b ≡ 0 → c % a ≡ 0
mod_trans a b c h k =
    mod-eq-zero_of_dvd a (dvd_trans a (dvd_of_mod-eq-zero a h) (dvd_of_mod-eq-zero b k))

pub pow-add : (b m n : ℕ) → b ^ (m + n) ≡ b ^ m * b ^ n
pow-add b m zero = rw (add-zero, pow-zero, mul-one)
pow-add b m (suc n) = simp (add-suc, pow-suc, pow-add b m n, mul_assoc)

pub pow-mul_self : (b n : ℕ) → (b * b) ^ n ≡ b ^ n * b ^ n
pow-mul_self b zero = simp (pow-zero, mul-one)
pow-mul_self b (suc n) =
    (b * b) ^ suc n
    ≡⟨ pow-suc (b * b) n ⟩ (b * b) ^ n * (b * b)
    ≡⟨ ap (λ t. t * (b * b)) (pow-mul_self b n) ⟩ b ^ n * b ^ n * (b * b)
    ≡⟨ mul-mul-mul_comm (b ^ n) (b ^ n) b b ⟩ b ^ n * b * (b ^ n * b)
    ≡⟨ ap (λ t. t * t) (sym (pow-suc b n)) ⟩ b ^ suc n * b ^ suc n ∎

-- A factor may be reduced before a product is.
pub mod-mul-mod : (a b m : ℕ) → (a % m * b) % m ≡ (a * b) % m
mod-mul-mod a b m =
    (a % m * b) % m
    ≡⟨ sym (add-mul-mod_self_left (a % m * b) m (a / m * b)) ⟩ (a % m * b + m * (a / m * b)) % m
    ≡⟨ ap (λ t. (a % m * b + t) % m) (sym (mul_assoc m (a / m) b)) ⟩
      (a % m * b + m * (a / m) * b) % m
    ≡⟨ ap (λ t. t % m) (sym (add-mul (a % m) (m * (a / m)) b)) ⟩ ((a % m + m * (a / m)) * b) % m
    ≡⟨ ap (λ t. (t * b) % m) (mod-add-div a m) ⟩ (a * b) % m ∎

pub mul-mod-mod : (a b m : ℕ) → (a * (b % m)) % m ≡ (a * b) % m
mul-mod-mod a b m =
    ap (λ t. t % m) (mul_comm a (b % m)) ∙ mod-mul-mod b a m ∙ ap (λ t. t % m) (mul_comm b a)

pub pow-mod : (b n m : ℕ) → ((b % m) ^ n) % m ≡ (b ^ n) % m
pow-mod b zero m = simp (pow-zero)
pow-mod b (suc n) m =
    ((b % m) ^ suc n) % m
    ≡⟨ ap (λ t. t % m) (pow-suc (b % m) n) ⟩ ((b % m) ^ n * (b % m)) % m
    ≡⟨ mul-mod-mod ((b % m) ^ n) b m ⟩ ((b % m) ^ n * b) % m
    ≡⟨ sym (mod-mul-mod ((b % m) ^ n) b m) ⟩ (((b % m) ^ n) % m * b) % m
    ≡⟨ ap (λ t. (t * b) % m) (pow-mod b n m) ⟩ ((b ^ n) % m * b) % m
    ≡⟨ mod-mul-mod (b ^ n) b m ⟩ (b ^ n * b) % m
    ≡⟨ ap (λ t. t % m) (sym (pow-suc b n)) ⟩ (b ^ suc n) % m ∎

pub square_mono : (d k : ℕ) → d ≤ k → d * d ≤ k * k
square_mono d k h = mul-le-mul h h

pub one-pow : (n : ℕ) → 1 ^ n ≡ 1
one-pow zero = pow-zero 1
one-pow (suc n) = pow-suc 1 n ∙ ap (λ t. t * 1) (one-pow n)

pub pow-mul : (b m n : ℕ) → b ^ (m * n) ≡ (b ^ m) ^ n
pow-mul b m zero = ap (λ t. b ^ t) (mul-zero m) ∙ pow-zero b ∙ sym (pow-zero (b ^ m))
pow-mul b m (suc n) =
    ap (λ t. b ^ t) (mul-suc m n)
    ∙ pow-add b (m * n) m
    ∙ ap (λ t. t * b ^ m) (pow-mul b m n)
    ∙ sym (pow-suc (b ^ m) n)
