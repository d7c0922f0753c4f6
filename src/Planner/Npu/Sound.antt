-- ===== src/Planner/Npu/Sound.antt =====
-- The lengths of the candidates on Ascend devices.
use flag_fft.Prelude.{
  ℕ, ◌/◌, ◌%◌, ◌≤◌, List, [], ◌∷◌, Option, none, some, Bool, true, ◌≡◌, refl, ◌∙◌, product, Env, ok,
}
use flag_fft.Plan.{PlanNode, length_of}
use flag_fft.Api.Ints.{ℤ}
use flag_fft.Planner.Action.{Action, visit}
use flag_fft.Planner.Action.Maintains.{
  Maintains, Maintains-pure, Maintains-raise, Maintains-lift, Maintains-bind, Maintains-when,
  Maintains-visit, Optional,
}
use flag_fft.Planner.Context.{RequestContext}
use flag_fft.Planner.Convolution.{is_complete}
use flag_fft.Planner.Convolution.Sound.{IsSoundly, make_bluestein_plan-Maintains}
use flag_fft.Planner.Costs.{Recursive}
use flag_fft.Planner.Divisors.Divided.{enumerate_divisors-IsDivided}
use flag_fft.Planner.Doubles.{Doubles}
use flag_fft.Planner.Leaves.{State}
use flag_fft.Planner.Leaves.Factors.{
  Any, Good, current_context-Maintains, estimate_leaf_warm_cost-Maintains,
  select_leaf_factors-Maintains, make_leaf_plan-Maintains,
}
use flag_fft.Planner.Radices.{Factorization, factorize_supported_radices}
use flag_fft.Planner.Strings.{Strings}
use flag_fft.Planner.WellFormed.{IsFactors, IsPlanOf, IsDivided}
use flag_fft.Planner.Npu.{
  Candidates, only, or_else, direct_only, leaf_only, divisors_of, Split, make_split, balance_of,
  balanced_split, split_only, leaf_2d, leaf_3d, factor_split, stockham_or_bluestein, npu_rest,
  npu_2d, npu_candidates,
}
use flag_fft.Planner.Npu.Factors.{
  natural_factors_lem, complete_lem, side_lem, complete_one, both_complete, positive_sides, middle,
  leaf_factors_lem, AllPlans, IsSplitOf,
}

module _ (doubles : Doubles) where
  only-Maintains :
      (n : ℕ) (node : PlanNode) (cost : doubles.Double)
      → IsPlanOf n node
      → Maintains (Good doubles) (AllPlans n) (only doubles node cost)
  unfolding only
  only-Maintains n node cost h = Maintains-pure _ (h, tt)

  direct_only-Maintains : (n : ℕ) → Maintains (Good doubles) (AllPlans n) (direct_only doubles n)
  unfolding direct_only length_of
  direct_only-Maintains n = only-Maintains n _ _ (tt, refl)

  leaf_only-Maintains :
      (n : ℕ) (factors : List ℕ)
      → IsFactors n factors
      → Maintains (Good doubles) (AllPlans n) (leaf_only doubles n factors)
  unfolding leaf_only
  leaf_only-Maintains n factors h =
      Maintains-bind _ _ (make_leaf_plan-Maintains doubles n factors h) λ node k.
        Maintains-bind _ _ (estimate_leaf_warm_cost-Maintains doubles n factors)
          λ cost l. only-Maintains n node cost k

  pub divisors_of-Maintains :
      (n : ℕ) → Maintains (Good doubles) (IsDivided n) (visit (divisors_of doubles n))
  unfolding divisors_of
  divisors_of-Maintains n = Maintains-visit _ λ state good.
      let (divided, dividing) =
        enumerate_divisors-IsDivided doubles.floor_sqrt state.divisor_cache n good.divisors in
      (
        divided,
        record {
          nodes = good.nodes;
          divisors = dividing;
          factorizations = good.factorizations;
          leaves = good.leaves;
        },
      )

  balanced_split-Maintains :
      (n : ℕ) (best : Option Split) (balance : doubles.Double) (divisors : List ℕ)
      → Optional (IsSplitOf n) best
      → IsDivided n divisors
      → Maintains
          (Good doubles)
          (Optional (IsSplitOf n))
          (balanced_split doubles n best balance divisors)
  unfolding balanced_split
  balanced_split-Maintains n best balance [] h all = Maintains-pure best h
  balanced_split-Maintains n best balance (n1 ∷ divisors) h (k, all) =
      let go_on = balanced_split-Maintains n best balance divisors h all in
      Maintains-when _ _ _ (λ e. go_on)
        λ e.
          Maintains-bind {P = λ f. factorize_supported_radices n1 ≡ ok f} _ _
            (Maintains-lift _ (λ f l. l))
            λ row l.
              Maintains-bind {P = λ f. factorize_supported_radices (n / n1) ≡ ok f} _ _
                (Maintains-lift _ (λ f m. m))
                λ col m.
                  Maintains-when _ _ _ (λ o. go_on)
                    λ o.
                      Maintains-when _ _ _
                        (λ p.
                          balanced_split-Maintains n
                            (some (make_split n1 (n / n1) row.factors col.factors))
                            (balance_of doubles n1 (n / n1)) divisors
                            (found n n1 row col k (positive_sides n1 (n / n1) e) l m
                              (both_complete _ _ o))
                            all)
                        (λ p. go_on)
    where
      found :
          (n n1 : ℕ) (row col : Factorization)
          → n % n1 ≡ 0
          → (1 ≤ n1) × (1 ≤ n / n1)
          → factorize_supported_radices n1 ≡ ok row
          → factorize_supported_radices (n / n1) ≡ ok col
          → (is_complete row ≡ true) × (is_complete col ≡ true)
          → IsSplitOf n (make_split n1 (n / n1) row.factors col.factors)
      found n n1 row col k (a, b) l m (r, c) = record {
        sides = side_lem n n1 k;
        rows = (complete_lem n1 row a l (complete_one row r)).0;
        cols = (complete_lem (n / n1) col b m (complete_one col c)).0;
      }

  split_only-Maintains :
      (n : ℕ) (best : Option Split)
      → Optional (IsSplitOf n) best
      → Maintains (Good doubles) (Optional (AllPlans n)) (split_only doubles n best)
  unfolding split_only length_of
  split_only-Maintains n none h = Maintains-pure none tt
  split_only-Maintains n (some split) h =
      Maintains-pure _ (((h.sides, refl, refl, h.rows, h.cols), refl), tt)

  or_else-Maintains :
      (n : ℕ) (found : Option (Candidates doubles))
      {next : Action (State doubles) (Candidates doubles)}
      → Optional (AllPlans n) found
      → Maintains (Good doubles) (AllPlans n) next
      → Maintains (Good doubles) (AllPlans n) (or_else doubles found next)
  unfolding or_else
  or_else-Maintains n none h k = k
  or_else-Maintains n (some candidates) h k = Maintains-pure candidates h

  module _ (env : Env) (strings : Strings) (recursive : Recursive doubles)
      (sound : IsSoundly doubles recursive) (unset : env "FLAGFFT_NPU_2D_LEAF_FACTORS" ≡ none)
      (n : ℕ) (positive : 1 ≤ n) where
    leaf_2d-Maintains :
        Maintains (Good doubles) (AllPlans n) (leaf_2d doubles env strings recursive n)
    unfolding leaf_2d
    leaf_2d-Maintains = Maintains-bind _ _ (current_context-Maintains doubles) λ context l.
        Maintains-bind _ _ (select_leaf_factors-Maintains doubles env n positive) λ selected h.
          Maintains-bind {P = IsFactors n} _ _
            (Maintains-lift _
              (λ factors e. leaf_factors_lem strings n _ selected factors unset h e))
            λ factors k.
              Maintains-when _ _ _ (λ e. Maintains-raise _) (λ e. leaf_only-Maintains n factors k)

    leaf_3d-Maintains :
        (context : RequestContext) (use_leaf : Bool)
        → Maintains
            (Good doubles)
            (Optional (AllPlans n))
            (leaf_3d doubles env strings recursive context use_leaf n)
    unfolding leaf_3d
    leaf_3d-Maintains context use_leaf =
        Maintains-when _ _ _
          (λ e.
            Maintains-bind _ _ (select_leaf_factors-Maintains doubles env n positive) λ factors h.
              Maintains-when _ _ _
                (λ f.
                  Maintains-bind _ _ (leaf_only-Maintains n factors h)
                    λ found k. Maintains-pure (some found) k)
                (λ f. Maintains-pure none tt))
          (λ e. Maintains-pure none tt)

    factor_split-Maintains :
        (context : RequestContext) (use_split : Bool) (f : Factorization)
        → Maintains
            (Good doubles)
            (Optional (AllPlans n))
            (factor_split doubles env strings recursive context use_split f n)
    unfolding factor_split
    factor_split-Maintains context use_split f =
        Maintains-when _ _ _
          (λ e. Maintains-bind _ _ (divisors_of-Maintains n) λ divisors all.
            Maintains-bind _ _ (balanced_split-Maintains n none doubles.infinity divisors tt all)
              λ best h. split_only-Maintains n best h)
          (λ e. Maintains-pure none tt)

    stockham_or_bluestein-Maintains :
        (f : Factorization)
        → factorize_supported_radices n ≡ ok f
        → Maintains
            (Good doubles)
            (AllPlans n)
            (stockham_or_bluestein doubles env strings recursive f n)
    unfolding stockham_or_bluestein length_of
    stockham_or_bluestein-Maintains f found =
        Maintains-when _ _ _
          (λ e.
            Maintains-bind {P = λ factors. product factors ≡ n} _ _
              (Maintains-lift _ (λ factors h.
                natural_factors_lem f.factors factors h
                ∙ (complete_lem n f positive found (middle _ _ _ e)).0))
              λ factors h. only-Maintains n _ _ (h, refl))
          (λ e.
            Maintains-when _ _ _ (λ g. direct_only-Maintains n)
              (λ g.
                Maintains-bind _ _ (make_bluestein_plan-Maintains doubles env recursive sound n)
                  λ node h. only-Maintains n node _ h))

    npu_rest-Maintains :
        (context : RequestContext) (direct_max : ℤ)
        → Maintains
            (Good doubles)
            (AllPlans n)
            (npu_rest doubles env strings recursive context direct_max n)
    unfolding npu_rest
    npu_rest-Maintains context direct_max =
        Maintains-when _ _ _ (λ e. direct_only-Maintains n)
          (λ e.
            Maintains-bind {P = λ f. factorize_supported_radices n ≡ ok f} _ _
              (Maintains-lift _ (λ f g. g))
              λ f found. Maintains-bind {P = Any} _ _ (Maintains-lift _ (λ s g. tt)) λ use_split l.
                Maintains-bind _ _ (factor_split-Maintains context use_split f)
                  λ early h. or_else-Maintains n early h (stockham_or_bluestein-Maintains f found))

    npu_2d-Maintains :
        (context : RequestContext) (direct_max : ℤ)
        → Maintains
            (Good doubles)
            (AllPlans n)
            (npu_2d doubles env strings recursive context direct_max n)
    unfolding npu_2d
    npu_2d-Maintains context direct_max =
        Maintains-bind {P = Any} _ _ (Maintains-lift _ (λ s e. tt)) λ use_cube_dft l.
          Maintains-bind {P = Any} _ _ (Maintains-lift _ (λ f e. tt)) λ cube m.
            Maintains-when _ _ _ (λ e. direct_only-Maintains n)
              (λ e. Maintains-bind {P = Any} _ _ (Maintains-lift _ (λ i f. tt)) λ leaf o.
                Maintains-when _ _ _ (λ f. leaf_2d-Maintains)
                  (λ f. npu_rest-Maintains context direct_max))

    -- The candidates on Ascend devices for a positive length, where no factors of leaves are set, are
    -- plans of the length.
    pub npu_candidates-Maintains :
        Maintains (Good doubles) (AllPlans n) (npu_candidates doubles env strings recursive n)
    unfolding npu_candidates
    npu_candidates-Maintains = Maintains-bind _ _ (current_context-Maintains doubles) λ context l.
        Maintains-bind {P = Any} _ _ (Maintains-lift _ (λ i e. tt)) λ direct_max m.
          Maintains-bind {P = Any} _ _ (Maintains-lift _ (λ s e. tt)) λ use_leaf o.
            Maintains-bind {P = Any} _ _ (Maintains-lift _ (λ s e. tt)) λ use_aiv_small p.
              Maintains-when _ _ _
                (λ e.
                  Maintains-bind _ _ (select_leaf_factors-Maintains doubles env n positive)
                    λ factors h. leaf_only-Maintains n factors h)
                (λ e.
                  Maintains-bind _ _ (leaf_3d-Maintains context use_leaf)
                    λ found h. or_else-Maintains n found h (npu_2d-Maintains context direct_max))
