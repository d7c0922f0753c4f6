-- ===== src/Planner/Build/Sound.antt =====
-- The lengths of the plans that `build` returns.
use text.Mathlib.Text.{◌==◌ as str_eq}
use flag_fft.Prelude.{
  ℕ, ◌-◌, ◌*◌, ◌/◌, ◌%◌, ◌≤◌, List, [], ◌∷◌, none, some, true, false, not, ◌==◌, ◌≡◌, refl, sym, ap,
  ◌∙◌, inl, inr, All, Env, ok, arith,
}
use native.Mathlib.Nat.{mul-zero}
use flag_fft.Base.{FftRequest}
use flag_fft.Plan.{length_of}
use flag_fft.Policy.{MacaTailPlan}
use flag_fft.Policy.Experiments.{IsSuited, maca_tail_plans-IsOffered}
use flag_fft.Rader.{find_primitive_root, build_rader_index_table}
use flag_fft.Planner.Action.Maintains.{
  Maintains, Maintains-pure, Maintains-raise, Maintains-lift, Maintains-bind, Maintains-then,
  Maintains-when, Optional,
}
use flag_fft.Planner.Candidates.Sound.{planner-IsSoundly}
use flag_fft.Planner.Context.{Adaptor}
use flag_fft.Planner.Convolution.Sound.{IsSoundly, split_node-Maintains}
use flag_fft.Planner.Costs.{Recursive}
use flag_fft.Planner.Doubles.{Doubles}
use flag_fft.Planner.Leaves.Factors.{Good}
use flag_fft.Planner.Npu.Factors.{side_lem}
use flag_fft.Planner.Strings.{Strings}
use flag_fft.Planner.WellFormed.{IsPlanOf}
use flag_fft.Planner.Build.{
  build_maca_tail_plan, first_experiment, build_last, build_3d, build_root, build,
}
use flag_fft.Planner.Build.Splits.{
  operator_lem, batch_lem, last_test, switch_context-Maintains, or_node-Maintains,
  leaf_or_auto_split-Maintains, aiv64_leaf-Maintains, split_3d-Maintains, setting_split-Maintains,
  fixed_split-Maintains,
}

not_zero : (n : ℕ) → n == 0 ≡ false → 1 ≤ n
not_zero n h = ground arith

measured_lem : (n : ℕ) → n == 340200 ≡ true → n % 567 ≡ 0
measured_lem n h = ground arith

-- What a plan that suits a positive length gives, by its name and its second side.
split_suited :
    (n : ℕ) (plan : MacaTailPlan)
    → IsSuited n plan
    → not (plan.second == 0) ≡ true
    → plan.first * plan.second ≡ n
split_suited n plan (inl whole) h = whole
split_suited n plan (inr (zero_second, rest)) h = ground arith

differs : {A : Type 0} → true ≡ false → A
differs h = cc

bluestein_suited :
    (n : ℕ) (plan : MacaTailPlan)
    → 1 ≤ n
    → IsSuited n plan
    → str_eq plan.name "default" ≡ false
    → not (plan.second == 0) ≡ false
    → str_eq plan.name "rader1008" ≡ false
    → 2 * n - 1 ≤ plan.first
bluestein_suited n plan positive (inl whole) d h r =
    let zero_second : plan.second ≡ 0 = ground arith in
    absurd (
      omega (arith, sym (mul-zero plan.first) ∙ ap (λ t. plan.first * t) (sym zero_second) ∙ whole))
bluestein_suited n plan positive (inr (zero_second, inl named)) d h r = differs (rw named at d)
bluestein_suited n plan positive (inr (zero_second, inr (inl (named, long)))) d h r =
    differs (rw named at r)
bluestein_suited n plan positive (inr (zero_second, inr (inr long))) d h r = omega arith

module _ (doubles : Doubles) (env : Env) (strings : Strings) (recursive : Recursive doubles)
    (sound : IsSoundly doubles recursive) where
  build_maca_tail_plan-Maintains :
      (n : ℕ) (plan : MacaTailPlan)
      → 1 ≤ n
      → IsSuited n plan
      → Maintains
          (Good doubles)
          (IsPlanOf n)
          (build_maca_tail_plan doubles env strings recursive n plan)
  unfolding build_maca_tail_plan length_of
  build_maca_tail_plan-Maintains n plan positive suited =
      Maintains-when _ _ _ (λ e. sound.nodes n true)
        λ d.
          Maintains-when _ _ _
            (λ e.
              split_node-Maintains doubles env recursive sound n plan.first plan.second
                (split_suited n plan suited e))
            λ h.
              Maintains-when _ _ _
                (λ e.
                  Maintains-bind {P = λ root. find_primitive_root n ≡ ok root} _ _
                    (Maintains-lift _ (λ root f. f))
                    λ root k.
                      Maintains-bind {P = λ idx. build_rader_index_table n root ≡ ok idx} _ _
                        (Maintains-lift _ (λ idx f. f))
                        λ idx l.
                          Maintains-bind _ _ (sound.nodes (n - 1) false)
                            λ conv (c, cl). Maintains-pure _ ((k, l, cl, c), refl))
                (λ r. Maintains-bind _ _ (sound.nodes plan.first false) λ fft (c, cl).
                  Maintains-pure _ ((bluestein_suited n plan positive suited d h r, cl, c), refl))

  first_experiment-Maintains :
      (n : ℕ) (plans : List MacaTailPlan)
      → 1 ≤ n
      → All (IsSuited n) plans
      → Maintains
          (Good doubles)
          (Optional (IsPlanOf n))
          (first_experiment doubles env strings recursive n plans)
  unfolding first_experiment
  first_experiment-Maintains n [] positive all = Maintains-pure none tt
  first_experiment-Maintains n (plan ∷ plans) positive (suited, all) =
      Maintains-bind _ _ (build_maca_tail_plan-Maintains n plan positive suited)
        λ node h. Maintains-pure (some node) h

  build_last-Maintains :
      (request : FftRequest) (n : ℕ)
      → 1 ≤ n
      → Maintains (Good doubles) (IsPlanOf n) (build_last doubles env strings recursive request n)
  unfolding build_last
  build_last-Maintains request n positive =
      Maintains-bind {P = All (IsSuited n)} _ _
        (Maintains-lift _ (λ plans e. (maca_tail_plans-IsOffered env n request false plans e).0))
        λ plans all.
          Maintains-bind _ _ (first_experiment-Maintains n plans positive all) λ experiment h.
            or_node-Maintains doubles n experiment _ h (
              Maintains-bind _ _
                (fixed_split-Maintains doubles env strings recursive sound _ n _
                  (λ e. batch_lem n (last_test _ _ e)))
                λ batch k. or_node-Maintains doubles n batch _ k (sound.nodes n true))

  build_3d-Maintains :
      (request : FftRequest) (n : ℕ)
      → 1 ≤ n
      → Maintains (Good doubles) (IsPlanOf n) (build_3d doubles env strings recursive request n)
  unfolding build_3d
  build_3d-Maintains request n positive =
      Maintains-bind _ _ (aiv64_leaf-Maintains doubles env strings recursive sound _ n positive)
        λ leaf h. or_node-Maintains doubles n leaf _ h (
          Maintains-bind _ _
            (setting_split-Maintains doubles env strings recursive sound _ _ n _
              (split_3d-Maintains doubles env strings recursive sound _ n))
            λ block k. or_node-Maintains doubles n block _ k (
              Maintains-bind _ _
                (fixed_split-Maintains doubles env strings recursive sound _ n _
                  (λ e. operator_lem n (last_test _ _ e)))
                λ operator l.
                  or_node-Maintains doubles n operator _ l
                    (build_last-Maintains request n positive)))

  build_root-Maintains :
      (request : FftRequest) (n : ℕ)
      → 1 ≤ n
      → Maintains (Good doubles) (IsPlanOf n) (build_root doubles env strings recursive request n)
  unfolding build_root
  build_root-Maintains request n positive =
      Maintains-bind _ _
        (setting_split-Maintains doubles env strings recursive sound _ _ n _ (λ n1 side.
          split_node-Maintains doubles env recursive sound n n1 (n / n1) (side_lem n n1 side.2)))
        λ set h. or_node-Maintains doubles n set _ h (
          Maintains-bind _ _
            (fixed_split-Maintains doubles env strings recursive sound _ n 567
              (λ e. measured_lem n (last_test _ _ e)))
            λ measured k. or_node-Maintains doubles n measured _ k (
              Maintains-bind _ _
                (setting_split-Maintains doubles env strings recursive sound _ _ n _
                  (leaf_or_auto_split-Maintains doubles env strings recursive sound n))
                λ line l. or_node-Maintains doubles n line _ l (
                  Maintains-bind _ _
                    (setting_split-Maintains doubles env strings recursive sound _ _ n _
                      (leaf_or_auto_split-Maintains doubles env strings recursive sound n))
                    λ plane m.
                      or_node-Maintains doubles n plane _ m
                        (build_3d-Maintains request n positive))))

-- Where no factors of Ascend leaves are set: whatever the device, the request, the other settings and the
-- arithmetic of the costs, and to any depth of the planner's calls of itself, `build` returns for a
-- length only plans of that length (`IsPlan`), and it leaves the memo tables right, also where it
-- throws.
pub build-Maintains :
    (doubles : Doubles) (env : Env) (strings : Strings) (adaptor : Adaptor) (depth n : ℕ)
    (request : FftRequest)
    → env "FLAGFFT_NPU_2D_LEAF_FACTORS" ≡ none
    → Maintains (Good doubles) (IsPlanOf n) (build doubles env strings adaptor depth n request)
unfolding build
build-Maintains doubles env strings adaptor depth n request unset =
    Maintains-then _ _ (switch_context-Maintains doubles env adaptor request) (
      Maintains-when _ _ _ (λ e. Maintains-raise _)
        (λ e.
          build_root-Maintains doubles env strings _
            (planner-IsSoundly doubles env strings depth unset) request n (not_zero n e)))
