-- ===== src/Planner/Convolution/Sound.antt =====
-- The lengths of convolutions, and of the plans over one.
use flag_fft.Prelude.{
  ℕ, zero, suc, ◌-◌, ◌*◌, ◌≤◌, List, [], ◌∷◌, ◌++◌, Bool, true, false, ◌||◌, ltb, ◌==◌,
  if◌then◌else◌, ◌≡◌, refl, sym, subst, All, Env, ok, arith, All-append, leb→le,
}
use flag_fft.Base.{ceil_power_of_two}
use flag_fft.Base.Powers.{ceil_power_of_two_lem}
use flag_fft.Plan.{length_of}
use flag_fft.Rader.{find_primitive_root, build_rader_index_table}
use flag_fft.Planner.Action.Maintains.{
  Maintains, Maintains-pure, Maintains-raise, Maintains-lift, Maintains-bind, Maintains-when,
}
use flag_fft.Planner.Context.{RequestContext}
use flag_fft.Planner.Costs.{Recursive}
use flag_fft.Planner.Doubles.{Doubles}
use flag_fft.Planner.Leaves.Factors.{Any, Good, current_context-Maintains}
use flag_fft.Planner.WellFormed.{IsPlanOf}
use flag_fft.Planner.Convolution.{
  add_supported_candidate, add_window, cheapest, cheapest_of, cheapest_product, convolution_cost,
  npu_convolution_length, window_length, next_supported_convolution_length,
  is_maca_c550_3d_997_fp64, is_balanced_maca_batch, split_node, make_bluestein_plan, is_tuned_split,
  make_rader_plan, small_products,
}

-- The recursive calls give plans of the lengths that they are asked for.
pub record IsSoundly (doubles : Doubles) (recursive : Recursive doubles) : Type 0 where
  pub nodes :
      (n : ℕ) (heuristic : Bool)
      → Maintains (Good doubles) (IsPlanOf n) (recursive.build_auto_node n heuristic)
  pub costs : (n : ℕ) → Maintains (Good doubles) Any (recursive.cost_for n)

not_below : (a b : ℕ) (other : Bool) → ltb a b || other ≡ false → b ≤ a
not_below a b other h = ground arith

power_lem : (minimum : ℕ) → minimum ≤ ceil_power_of_two minimum
power_lem minimum =
    let (j, e, h, less) = ceil_power_of_two_lem minimum in subst (λ t. minimum ≤ t) (sym e) h

balanced_lem :
    (env : Env) (context : RequestContext) (n conv_length : ℕ)
    → is_balanced_maca_batch env context n conv_length ≡ true
    → 1024 * 1024 ≡ conv_length
unfolding is_balanced_maca_batch
balanced_lem env context n conv_length h = ground arith

tuned_lem :
    (env : Env) (context : RequestContext) (n : ℕ)
    → is_tuned_split env context n ≡ true
    → (if n == 8191 then 90 else 91) * (if n == 8191 then 91 else 180) ≡ n - 1
unfolding is_tuned_split
tuned_lem env context n h = ground arith

long_enough :
    (context : RequestContext) (n supported : ℕ)
    → 2 * n - 1 ≤ supported
    → 2 * n - 1 ≤ (if is_maca_c550_3d_997_fp64 context n then 2048 else supported)
unfolding is_maca_c550_3d_997_fp64
long_enough context n supported h = ground arith

module _ (doubles : Doubles) where
  add_supported_candidate-Maintains :
      (minimum candidate : ℕ) (candidates : List ℕ)
      → minimum ≤ candidate
      → All (λ c. minimum ≤ c) candidates
      → Maintains
          (Good doubles)
          (All (λ c. minimum ≤ c))
          (add_supported_candidate doubles candidates candidate)
  unfolding add_supported_candidate
  add_supported_candidate-Maintains minimum candidate candidates h all =
      Maintains-when _ _ _ (λ e. Maintains-pure candidates all)
        (λ e.
          Maintains-bind {P = Any} _ _ (Maintains-lift _ (λ f k. tt))
            λ factorization l. Maintains-pure _ (either _))
    where
      either :
          (test : Bool)
          → All (λ c. minimum ≤ c) (if test then candidates ++ (candidate ∷ []) else candidates)
      either true = All-append _ candidates (candidate ∷ []) all (h, tt)
      either false = all

  add_window-Maintains :
      (minimum rounds candidate : ℕ) (candidates : List ℕ)
      → minimum ≤ candidate
      → All (λ c. minimum ≤ c) candidates
      → Maintains
          (Good doubles)
          (All (λ c. minimum ≤ c))
          (add_window doubles rounds candidate candidates)
  unfolding add_window
  add_window-Maintains minimum zero candidate candidates h all = Maintains-pure candidates all
  add_window-Maintains minimum (suc rounds) candidate candidates h all =
      Maintains-bind _ _ (add_supported_candidate-Maintains minimum candidate candidates h all)
        λ more k. add_window-Maintains minimum rounds (suc candidate) more (omega arith) k

  module _ (env : Env) (recursive : Recursive doubles) (sound : IsSoundly doubles recursive) where
    cheapest-Maintains :
        (minimum best : ℕ) (cost : doubles.Double) (candidates : List ℕ)
        → minimum ≤ best
        → All (λ c. minimum ≤ c) candidates
        → Maintains
            (Good doubles)
            (λ n. minimum ≤ n)
            (cheapest doubles env recursive best cost candidates)
    unfolding cheapest
    cheapest-Maintains minimum best cost [] h all = Maintains-pure best h
    cheapest-Maintains minimum best cost (candidate ∷ candidates) h (k, all) =
        Maintains-bind _ _ (sound.costs candidate) λ other l.
          Maintains-when _ _ _ (λ e. cheapest-Maintains minimum candidate _ candidates k all)
            (λ e. cheapest-Maintains minimum best cost candidates h all)

    cheapest_of-Maintains :
        (minimum power : ℕ) (candidates : List ℕ)
        → minimum ≤ power
        → All (λ c. minimum ≤ c) candidates
        → Maintains
            (Good doubles)
            (λ n. minimum ≤ n)
            (cheapest_of doubles env recursive power candidates)
    unfolding cheapest_of
    cheapest_of-Maintains minimum power [] h all = Maintains-pure power h
    cheapest_of-Maintains minimum power (front ∷ candidates) h (k, all) =
        Maintains-bind _ _ (sound.costs front)
          λ cost l. cheapest-Maintains minimum front _ (front ∷ candidates) k (k, all)

    cheapest_product-Maintains :
        (minimum best : ℕ) (cost : doubles.Double) (candidates : List ℕ)
        → minimum ≤ best
        → Maintains
            (Good doubles)
            (λ n. minimum ≤ n)
            (cheapest_product doubles env recursive minimum best cost candidates)
    unfolding cheapest_product
    cheapest_product-Maintains minimum best cost [] h = Maintains-pure best h
    cheapest_product-Maintains minimum best cost (candidate ∷ candidates) h =
        let go_on = cheapest_product-Maintains minimum best cost candidates h in
        Maintains-when _ _ _ (λ e. go_on)
          (λ e. Maintains-bind {P = Any} _ _ (Maintains-lift _ (λ f k. tt)) λ factorization l.
            Maintains-when _ _ _ (λ f. go_on)
              (λ f. Maintains-bind _ _ (sound.costs candidate) λ other m.
                Maintains-when _ _ _
                  (λ g.
                    cheapest_product-Maintains minimum candidate _ candidates
                      (not_below candidate minimum _ e))
                  (λ g. go_on)))

    npu_convolution_length-Maintains :
        (context : RequestContext) (minimum power : ℕ)
        → minimum ≤ power
        → Maintains
            (Good doubles)
            (λ n. minimum ≤ n)
            (npu_convolution_length doubles env recursive context minimum power)
    unfolding npu_convolution_length
    npu_convolution_length-Maintains context minimum power h =
        Maintains-when _ _ _ (λ e. Maintains-raise _)
          (λ e.
            Maintains-when _ _ _
              (λ f. Maintains-bind _ _ (sound.costs power) λ cost l.
                cheapest_product-Maintains minimum power (convolution_cost doubles cost power)
                  (small_products (1 ∷ []) (2 ∷ 3 ∷ 5 ∷ 7 ∷ []) power) h)
              (λ f. Maintains-pure power h))

    window_length-Maintains :
        (context : RequestContext) (minimum power : ℕ)
        → minimum ≤ power
        → Maintains
            (Good doubles)
            (λ n. minimum ≤ n)
            (window_length doubles env recursive context minimum power)
    unfolding window_length
    window_length-Maintains context minimum power h =
        Maintains-when _ _ _ (λ e. Maintains-pure power h)
          (λ e.
            Maintains-bind _ _ (add_window-Maintains minimum _ minimum [] (omega arith) tt)
              λ window all.
                Maintains-bind _ _ (add_supported_candidate-Maintains minimum power window h all)
                  λ candidates all'. cheapest_of-Maintains minimum power candidates h all')

    next_supported_convolution_length-Maintains :
        (minimum : ℕ)
        → Maintains
            (Good doubles)
            (λ n. minimum ≤ n)
            (next_supported_convolution_length doubles env recursive minimum)
    unfolding next_supported_convolution_length
    next_supported_convolution_length-Maintains minimum =
        Maintains-when _ _ _ (λ e. Maintains-pure 1 (leb→le minimum 1 e))
          (λ e. Maintains-bind _ _ (current_context-Maintains doubles) λ context l.
            Maintains-when _ _ _
              (λ f. npu_convolution_length-Maintains context minimum _ (power_lem minimum))
              (λ f. window_length-Maintains context minimum _ (power_lem minimum)))

    pub split_node-Maintains :
        (n n1 n2 : ℕ)
        → n1 * n2 ≡ n
        → Maintains (Good doubles) (IsPlanOf n) (split_node doubles env recursive n n1 n2)
    unfolding split_node length_of
    split_node-Maintains n n1 n2 whole = Maintains-bind _ _ (sound.nodes n1 false) λ row (h, l).
        Maintains-bind _ _ (sound.nodes n2 false)
          λ col (k, m). Maintains-pure _ ((whole, l, m, h, k), refl)

    pub make_bluestein_plan-Maintains :
        (n : ℕ)
        → Maintains (Good doubles) (IsPlanOf n) (make_bluestein_plan doubles env recursive n)
    unfolding make_bluestein_plan length_of
    make_bluestein_plan-Maintains n =
        Maintains-bind _ _ (next_supported_convolution_length-Maintains (2 * n - 1)) λ supported h.
          Maintains-bind _ _ (current_context-Maintains doubles) λ context l.
            Maintains-bind
              {P = IsPlanOf (if is_maca_c550_3d_997_fp64 context n then 2048 else supported)} _ _
              (Maintains-when _ _ _
                (λ e. split_node-Maintains _ 1024 1024 (balanced_lem env context n _ e))
                (λ e. sound.nodes _ false))
              λ fft_plan (k, m). Maintains-pure _ ((long_enough context n supported h, m, k), refl)

    pub make_rader_plan-Maintains :
        (n : ℕ) → Maintains (Good doubles) (IsPlanOf n) (make_rader_plan doubles env recursive n)
    unfolding make_rader_plan length_of
    make_rader_plan-Maintains n =
        Maintains-bind {P = λ root. find_primitive_root n ≡ ok root} _ _
          (Maintains-lift _ (λ root e. e))
          λ root h.
            Maintains-bind {P = λ idx. build_rader_index_table n root ≡ ok idx} _ _
              (Maintains-lift _ (λ idx e. e))
              λ idx k. Maintains-bind _ _ (current_context-Maintains doubles) λ context l.
                Maintains-bind {P = IsPlanOf (n - 1)} _ _
                  (Maintains-when _ _ _
                    (λ e. split_node-Maintains _ _ _ (tuned_lem env context n e))
                    (λ e. sound.nodes _ false))
                  λ conv_plan (m, o). Maintains-pure _ ((h, k, o, m), refl)
