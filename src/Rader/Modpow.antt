-- ===== src/Rader/Modpow.antt =====
-- `modpow` and powers modulo a number.
use native.Mathlib.Nat.{mul_assoc, pow-zero, mul-one, mod-eq_of_lt, one-mul, pow-succ'}
use flag_fft.Prelude.{
  ℕ, zero, suc, ◌+◌, ◌*◌, ◌/◌, ◌%◌, ◌^◌, ◌<◌, ◌≤◌, ◌≡◌, ◌≢◌, sym, ap, ◌∙◌, inl, inr, Bool-cases,
  ltb, ◌==◌, if◌then◌else◌, arith, pow-add, pow-mul_self, pow-mod, mod-mul-mod, mul-mod-mod,
}
use flag_fft.Rader.{modpow_loop, modpow}

half_even : (b e : ℕ) → e % 2 ≡ 0 → b ^ e ≡ (b * b) ^ (e / 2)
half_even b e h =
    ap (λ t. b ^ t) (omega arith) ∙ pow-add b (e / 2) (e / 2) ∙ sym (pow-mul_self b (e / 2))

half_odd : (b e : ℕ) → e % 2 ≢ 0 → b ^ e ≡ b * (b * b) ^ (e / 2)
half_odd b e h =
    ap (λ t. b ^ t) (omega arith)
    ∙ pow-succ' b (e / 2 + e / 2)
    ∙ ap (λ t. b * t) (pow-add b (e / 2) (e / 2) ∙ sym (pow-mul_self b (e / 2)))

-- One round keeps `result * base ^ exp` modulo `m`.
round :
    (r b e m : ℕ)
    → ((if e % 2 == 0 then r else (r * b) % m) * ((b * b) % m) ^ (e / 2)) % m ≡ (r * b ^ e) % m
round r b e m = elim (Bool-cases (e % 2 == 0)) [
  | inl even ↦
      rw even (mul-mod-mod' r b e m ∙ ap (λ t. (r * t) % m) (sym (half_even b e (ground arith))))
  | inr odd ↦ rw odd (
      (mod-mul-mod (r * b) (((b * b) % m) ^ (e / 2)) m)
      ∙ mul-mod-mod' (r * b) b e m
      ∙ ap (λ t. t % m) (mul_assoc r b _)
      ∙ ap (λ t. (r * t) % m) (sym (half_odd b e (ground arith))))
]
  where
    mul-mod-mod' : (r b e m : ℕ) → (r * ((b * b) % m) ^ (e / 2)) % m ≡ (r * (b * b) ^ (e / 2)) % m
    mul-mod-mod' r b e m =
        sym (mul-mod-mod r (((b * b) % m) ^ (e / 2)) m)
        ∙ ap (λ t. (r * t) % m) (pow-mod (b * b) (e / 2) m)
        ∙ mul-mod-mod r ((b * b) ^ (e / 2)) m

modpow_loop_lem : (f r b e m : ℕ) → e ≤ f → r < m → modpow_loop f r b e m ≡ (r * b ^ e) % m
unfolding modpow_loop
modpow_loop_lem zero r b e m h lt =
    let e0 : e ≡ 0 = omega arith in rw (e0, pow-zero, mul-one) (sym (mod-eq_of_lt lt))
modpow_loop_lem (suc f) r b e m h lt = elim (Bool-cases (ltb 0 e)) [
  | inl more ↦ rw more (
      modpow_loop_lem f (if e % 2 == 0 then r else (r * b) % m) ((b * b) % m) (e / 2) m
        (ground arith) (ground arith)
      ∙ round r b e m)
  | inr done ↦
      let e0 : e ≡ 0 = ground arith in rw (done, e0, pow-zero, mul-one) (sym (mod-eq_of_lt lt))
]

-- `modpow` returns the power modulo `m`, for every modulus above 1.
pub modpow_lem : (b e m : ℕ) → 1 < m → modpow b e m ≡ (b ^ e) % m
unfolding modpow
modpow_lem b e m h =
    modpow_loop_lem e 1 (b % m) e m (omega arith) h ∙ ap (λ t. t % m) (one-mul _) ∙ pow-mod b e m
