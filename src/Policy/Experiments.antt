-- ===== src/Policy/Experiments.antt =====
-- The plans that the MACA experiment matrix offers, and their lengths.
use Prim.Native.String.{String}
use text.Mathlib.Text.{◌==◌ as str_eq}
use flag_fft.Prelude.{
  ℕ, ◌+◌, ◌*◌, ◌≤◌, List, [], ◌∷◌, Option, none, some, Bool, true, false, Bool-cases, ◌==◌, ◌≡◌,
  ◌⊎◌, inl, inr, refl, sym, if◌then◌else◌, subst, All, length, arith, Result, ok, >>=-eq-ok,
  ok-injective, Env, ◌&&◌, ◌||◌, not, is_some_of,
}
use flag_fft.Base.{FftRequest}
use flag_fft.Policy.{
  tail_plan, AutomaticPlan, bs2048, ct1024x1024, ct405x810, MacaTailPlan, automatic_choice,
  automatic_tail_plan, maca_tail_automatic_plan, maca_tail_policy_enabled, experiment_plans,
  plan_of_name, selected_plans, explicit_plans, tail_plans_after, maca_tail_plans, is_value,
  is_fp32, is_fp64, is_set,
}

-- A split multiplies to the length; any other plan is the default one, Rader's for a length one above
-- its convolution, or Bluestein's with a convolution of at least 2 * n - 1 points.
abbrev pub IsSuited : ℕ → MacaTailPlan → Type 0
IsSuited n plan =
    (plan.first * plan.second ≡ n)
    ⊎ ((plan.second ≡ 0)
        × ((plan.name ≡ "default")
            ⊎ ((plan.name ≡ "rader1008") × (plan.first + 1 ≡ n))
            ⊎ (2 * n ≤ plan.first + 1)))

split_suits : (n : ℕ) (p : MacaTailPlan) → p.first * p.second ≡ n → IsSuited n p
split_suits n p e = inl e

bluestein_suits : (n : ℕ) (p : MacaTailPlan) → p.second ≡ 0 → 2 * n ≤ p.first + 1 → IsSuited n p
bluestein_suits n p z h = inr (z, inr (inr h))

automatic_suits :
    (request : FftRequest) (plan : AutomaticPlan)
    → automatic_choice request ≡ some plan
    → IsSuited request.requested_n (automatic_tail_plan plan)
unfolding automatic_choice automatic_tail_plan
automatic_suits request bs2048 h =
    bluestein_suits request.requested_n (tail_plan "bs2048" 2048 0) refl (ground arith)
automatic_suits request ct1024x1024 h =
    split_suits request.requested_n (tail_plan "ct1024x1024" 1024 1024) (ground arith)
automatic_suits request ct405x810 h = absurd (ground arith)

-- A test that begins with a comparison of lengths.
is_length : (n k : ℕ) (b : Bool) → (n == k) && b ≡ true → n ≡ k
is_length n k b h = ground arith

experiments_suit : (n : ℕ) (fp32 fp64 : Bool) → All (IsSuited n) (experiment_plans n fp32 fp64)
unfolding experiment_plans
experiments_suit n fp32 fp64 = elim (Bool-cases (n == 997 && fp64)) [
  | inl a ↦
      let e = is_length n 997 fp64 a in
      rw a
        (inr (refl, inr (inr (omega (arith, e)))), (inr (refl, inr (inr (omega (arith, e)))), tt))
  | inr a ↦ elim (Bool-cases (n == 1009 && fp32)) [
    | inl b ↦
        let e = is_length n 1009 fp32 b in
        rw (a, b)
          (inr (refl, inr (inl (refl, sym e))), (inr (refl, inr (inr (omega (arith, e)))), tt))
    | inr b ↦ elim (Bool-cases (n == 1048576 && fp64)) [
      | inl c ↦ let e = sym (is_length n 1048576 fp64 c) in rw (a, b, c) (inl e, (inl e, tt))
      | inr c ↦ elim (Bool-cases (n == 663000 && (fp32 || fp64))) [
        | inl d ↦
            let e = sym (is_length n 663000 (fp32 || fp64) d) in
            rw (a, b, c, d) (inl e, (inl e, (inl e, tt)))
        | inr d ↦ elim (Bool-cases (n == 328050 && (fp32 || fp64))) [
          | inl f ↦
              let e = sym (is_length n 328050 (fp32 || fp64) f) in
              rw (a, b, c, d, f) (inl e, (inl e, (inl e, tt)))
          | inr f ↦ rw (a, b, c, d, f) tt
        ]
      ]
    ]
  ]
]

abbrev AtMostOne : List MacaTailPlan → Type 0
AtMostOne plans = length plans ≤ 1

named_suits :
    (n : ℕ) (setting : String) (plans chosen : List MacaTailPlan)
    → All (IsSuited n) plans
    → plan_of_name setting plans ≡ ok chosen
    → All (IsSuited n) chosen × AtMostOne chosen
unfolding plan_of_name
named_suits n setting [] chosen h e = cc
named_suits n setting (p ∷ ps) chosen (h, hs) e = elim (Bool-cases (str_eq p.name setting)) [
  | inl here ↦
      let one : ok (p ∷ []) ≡ ok chosen = rw here at e in
      subst (λ c. All (IsSuited n) c × AtMostOne c) (ok-injective _ _ one) ((h, tt), omega arith)
  | inr other ↦ named_suits n setting ps chosen hs (rw other at e)
]

-- Outside tuning at most one plan is selected.
abbrev pub IsOffered : ℕ → Bool → List MacaTailPlan → Type 0
IsOffered n tuning plans = All (IsSuited n) plans × (tuning ≡ false → length plans ≤ 1)

selected_suits :
    (n : ℕ) (setting : String) (tuning : Bool) (plans chosen : List MacaTailPlan)
    → All (IsSuited n) plans
    → selected_plans setting tuning plans ≡ ok chosen
    → IsOffered n tuning chosen
unfolding selected_plans
selected_suits n setting tuning [] chosen h e = cc
selected_suits n setting tuning (p ∷ ps) chosen h e = elim (Bool-cases (str_eq setting "compare")) [
  | inl compare' ↦ elim (Bool-cases tuning) [
    | inl on ↦
        let same : ok (p ∷ ps) ≡ ok chosen = rw (compare', on) at e in
        subst (IsOffered n tuning) (ok-injective _ _ same) (h, λ off. cc)
    | inr off ↦ let bad = rw (compare', off) at e in cc
  ]
  | inr one ↦ elim (Bool-cases (str_eq setting "default")) [
    | inl default' ↦
        let same : ok (tail_plan "default" 0 0 ∷ []) ≡ ok chosen = rw (one, default') at e in
        subst (IsOffered n tuning) (ok-injective _ _ same)
          ((inr (refl, inl refl), tt), λ off. omega arith)
    | inr named ↦
        let (suits, few) = named_suits n setting (p ∷ ps) chosen h (rw (one, named) at e) in
        (suits, λ off. few)
  ]
]

none-IsOffered :
    (n : ℕ) (tuning : Bool) (plans : List MacaTailPlan)
    → ok [] ≡ ok plans
    → IsOffered n tuning plans
none-IsOffered n tuning plans e =
    subst (IsOffered n tuning) (ok-injective _ _ e) (tt, λ off. omega arith)

abbrev off_matrix : String → ℕ → FftRequest → Bool
off_matrix setting n request =
    str_eq setting ""
    || not (
        str_eq request.device_type "maca"
        && is_some_of request.raw_dim 1
        && request.batch == 1
        && n == request.requested_n)

explicit_suits :
    (env : Env) (n : ℕ) (request : FftRequest) (tuning : Bool) (value : Option String)
    (plans : List MacaTailPlan)
    → explicit_plans env n request tuning value ≡ ok plans
    → IsOffered n tuning plans
unfolding explicit_plans
explicit_suits env n request tuning none plans h = none-IsOffered n tuning plans h
explicit_suits env n request tuning (some setting) plans h =
    elim (Bool-cases (off_matrix setting n request)) [
      | inl off ↦ none-IsOffered n tuning plans (rw off at h)
      | inr on ↦
          elim (Bool-cases (
            is_value (env "FLAGFFT_TUNE_DISABLE") "1"
            && is_value (env "FLAGFFT_PACKED_REAL") "0")) [
              | inl ready ↦
                  selected_suits n setting tuning
                    (experiment_plans n (is_fp32 request) (is_fp64 request)) plans
                    (experiments_suit n (is_fp32 request) (is_fp64 request)) (rw (on, ready) at h)
              | inr unready ↦ let bad = rw (on, unready) at h in cc
            ]
    ]

from_choice :
    (env : Env) (request : FftRequest) (plan : AutomaticPlan)
    → maca_tail_automatic_plan env request ≡ ok (some plan)
    → automatic_choice request ≡ some plan
unfolding maca_tail_automatic_plan
from_choice env request plan h =
    let chosen : Bool → Result (Option AutomaticPlan) = λ on. ok (
      if not on || is_set (env "FLAGFFT_MACA_TAIL_PLAN") then none else automatic_choice request) in
    let (enabled, used, rest) = >>=-eq-ok (maca_tail_policy_enabled env request) chosen h in
    elim (Bool-cases (not enabled || is_set (env "FLAGFFT_MACA_TAIL_PLAN"))) [
      | inl off ↦ let bad : ok none ≡ ok (some plan) = rw off at rest in cc
      | inr on ↦ ok-injective (automatic_choice request) (some plan) (rw on at rest)
    ]

after_suits :
    (env : Env) (n : ℕ) (request : FftRequest) (tuning : Bool) (automatic : Option AutomaticPlan)
    (plans : List MacaTailPlan)
    → maca_tail_automatic_plan env request ≡ ok automatic
    → tail_plans_after env n request tuning automatic ≡ ok plans
    → IsOffered n tuning plans
unfolding tail_plans_after
after_suits env n request tuning none plans a h =
    explicit_suits env n request tuning (env "FLAGFFT_MACA_TAIL_PLAN") plans h
after_suits env n request tuning (some plan) plans a h =
    elim (Bool-cases (n == request.requested_n)) [
      | inl whole ↦
          let one : ok (automatic_tail_plan plan ∷ []) ≡ ok plans = rw whole at h in
          let suits = automatic_suits request plan (from_choice env request plan a) in
          let same : n ≡ request.requested_n = ground arith in
          subst (IsOffered n tuning) (ok-injective _ _ one) (
            (subst (λ k. IsSuited k (automatic_tail_plan plan)) (sym same) suits, tt),
            λ off. omega arith,
          )
      | inr part ↦
          explicit_suits env n request tuning (env "FLAGFFT_MACA_TAIL_PLAN") plans (rw part at h)
    ]

-- Every plan that `maca_tail_plans` returns suits the length: a four-step split multiplies to it, a
-- Bluestein convolution has at least 2 * n - 1 points, Rader's convolution n - 1, and the only other
-- plan is the default one. Outside tuning at most one plan is returned.
pub maca_tail_plans-IsOffered :
    (env : Env) (n : ℕ) (request : FftRequest) (tuning : Bool) (plans : List MacaTailPlan)
    → maca_tail_plans env n request tuning ≡ ok plans
    → IsOffered n tuning plans
unfolding maca_tail_plans
maca_tail_plans-IsOffered env n request tuning plans h =
    let (automatic, a, rest) =
      >>=-eq-ok (maca_tail_automatic_plan env request) (tail_plans_after env n request tuning) h in
    after_suits env n request tuning automatic plans a rest
