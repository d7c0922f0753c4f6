-- ===== src/Planner/Candidates/Sound.antt =====
-- The lengths of the plans that the planner picks.
use flag_fft.Prelude.{
  ℕ, zero, suc, ◌*◌, ◌/◌, ◌%◌, ◌≤◌, List, [], ◌∷◌, Option, none, some, Bool, false, leb, ◌≡◌, refl,
  ◌∙◌, inl, inr, Bool-cases, All-append, Env, when◌then◌else◌,
}
use flag_fft.Base.{contains}
use flag_fft.Plan.{PlanNode, length_of}
use flag_fft.Planner.Action.{Action}
use flag_fft.Planner.Action.Maintains.{
  Maintains, Maintains-pure, Maintains-raise, Maintains-stop, Maintains-read, Maintains-modify,
  Maintains-lift, Maintains-bind, Maintains-then, Maintains-when, Maintains-attempt,
  Maintains-guarded, Optional,
}
use flag_fft.Planner.Context.{RequestContext}
use flag_fft.Planner.Convolution.Sound.{
  IsSoundly, split_node-Maintains, make_bluestein_plan-Maintains, make_rader_plan-Maintains,
}
use flag_fft.Planner.Costs.{Recursive, packed_cost, four_step_cost, bluestein_cost, rader_cost}
use flag_fft.Planner.Doubles.{Doubles}
use flag_fft.Planner.Leaves.{State}
use flag_fft.Planner.Leaves.Factors.{
  Any, Good, current_context-Maintains, estimate_leaf_warm_cost-Maintains,
  select_leaf_factors-Maintains, make_leaf_plan-Maintains,
}
use flag_fft.Planner.Npu.{PlanCandidate, Candidates}
use flag_fft.Planner.Npu.Factors.{AllPlans, side_lem}
use flag_fft.Planner.Npu.Sound.{divisors_of-Maintains, npu_candidates-Maintains}
use flag_fft.Planner.Strings.{Strings}
use flag_fft.Planner.WellFormed.{IsPlanOf, IsDivided, look_up_lem}
use flag_fft.Planner.Candidates.{
  comes_before, least_candidate, select_candidate, set_heuristic, keep_node, keep_cost,
  with_attempt, leaf_candidates, direct_candidates, thread_local_candidates, split_candidate,
  split_candidates, rader_candidates, convolution_candidates, general_candidates,
  build_auto_candidates, with_heuristic, new_node, node_after, build_auto_node, new_cost,
  cost_after, cost_for, planner,
}
use flag_fft.Planner.Candidates.ThreadLocal.{
  above_one, not_zero, thread_local_lem, thread_local_leaf-IsPlanOf, thousand,
}

module _ (doubles : Doubles) where
  module _ (env : Env) (recursive : Recursive doubles) (sound : IsSoundly doubles recursive) where
    packed_cost-Maintains :
        (is_double : Bool) (n n1 : ℕ) (cost : doubles.Double)
        → 1 ≤ n1
        → Maintains (Good doubles) Any (packed_cost doubles env recursive is_double n n1 cost)
    unfolding packed_cost
    packed_cost-Maintains is_double n n1 cost positive =
        Maintains-when _ _ _
          (λ e.
            Maintains-bind _ _ (select_leaf_factors-Maintains doubles env n1 positive)
              λ factors h. Maintains-pure _ tt)
          (λ e. Maintains-pure cost tt)

    four_step_cost-Maintains :
        (n1 n2 : ℕ)
        → 1 ≤ n1
        → Maintains (Good doubles) Any (four_step_cost doubles env recursive n1 n2)
    unfolding four_step_cost
    four_step_cost-Maintains n1 n2 positive = Maintains-bind _ _ (sound.costs n1) λ cost1 h.
        Maintains-bind _ _ (sound.costs n2) λ cost2 k.
          Maintains-bind _ _ (current_context-Maintains doubles) λ context l.
            Maintains-bind _ _ (packed_cost-Maintains _ (n1 * n2) n1 _ positive)
              λ cost m. Maintains-pure _ tt

    bluestein_cost-Maintains :
        (n conv_length : ℕ)
        → Maintains (Good doubles) Any (bluestein_cost doubles env recursive n conv_length)
    unfolding bluestein_cost
    bluestein_cost-Maintains n conv_length =
        Maintains-bind _ _ (sound.costs conv_length) λ cost h. Maintains-pure _ tt

    rader_cost-Maintains :
        (n : ℕ) → Maintains (Good doubles) Any (rader_cost doubles env recursive n)
    unfolding rader_cost
    rader_cost-Maintains n = Maintains-bind _ _ (sound.costs _) λ cost h. Maintains-pure _ tt

  least_candidate-All :
      (n : ℕ) (best : PlanCandidate doubles) (candidates : Candidates doubles)
      → IsPlanOf n best.node
      → AllPlans n candidates
      → IsPlanOf n (least_candidate doubles best candidates).node
  unfolding least_candidate when◌then◌else◌
  least_candidate-All n best [] h all = h
  least_candidate-All n best (candidate ∷ candidates) h (k, all) =
      elim (Bool-cases (comes_before doubles candidate best)) [
        | inl e ↦ rw e (least_candidate-All n candidate candidates k all)
        | inr e ↦ rw e (least_candidate-All n best candidates h all)
      ]

  select_candidate-Maintains :
      (n : ℕ) (candidates : Candidates doubles)
      → AllPlans n candidates
      → Maintains
          (Good doubles)
          (λ candidate. IsPlanOf n (candidate).node)
          (select_candidate doubles candidates)
  unfolding select_candidate
  select_candidate-Maintains n [] all = Maintains-raise _
  select_candidate-Maintains n (front ∷ candidates) (h, all) =
      Maintains-pure _ (least_candidate-All n front candidates h all)

  with_attempt-All :
      (n : ℕ) (candidates : Candidates doubles) (found : Option (PlanCandidate doubles))
      → AllPlans n candidates
      → Optional (λ candidate. IsPlanOf n (candidate).node) found
      → AllPlans n (with_attempt doubles candidates found)
  unfolding with_attempt
  with_attempt-All n candidates none all h = all
  with_attempt-All n candidates (some candidate) all h =
      All-append _ candidates (candidate ∷ []) all (h, tt)

  -- Setting the heuristic does not touch the tables.
  with_heuristic-Maintains :
      (env : Env) (strings : Strings) (recursive : Recursive doubles) {Value : Type 0}
      {P : Value → Type 0} (enabled : Bool) (body : Action (State doubles) Value)
      → Maintains (Good doubles) P body
      → Maintains (Good doubles) P (with_heuristic doubles env strings recursive enabled body)
  unfolding with_heuristic set_heuristic
  with_heuristic-Maintains env strings recursive enabled body h =
      Maintains-bind {P = Any} _ _ (Maintains-read _ (λ state good. tt)) λ previous l.
        Maintains-then {P = Any} _ _
          (Maintains-modify _ tt (λ state good. record {
            nodes = good.nodes;
            divisors = good.divisors;
            factorizations = good.factorizations;
            leaves = good.leaves;
          }))
          (Maintains-guarded _ body
            (λ state good. record {
              nodes = good.nodes;
              divisors = good.divisors;
              factorizations = good.factorizations;
              leaves = good.leaves;
            })
            h)

  module _ (env : Env) (strings : Strings) (recursive : Recursive doubles)
      (sound : IsSoundly doubles recursive) (unset : env "FLAGFFT_NPU_2D_LEAF_FACTORS" ≡ none) where
    leaf_candidates-Maintains :
        (context : RequestContext) (n : ℕ)
        → 1 ≤ n
        → Maintains
            (Good doubles)
            (AllPlans n)
            (leaf_candidates doubles env strings recursive context n)
    unfolding leaf_candidates
    leaf_candidates-Maintains context n positive =
        Maintains-bind {P = Any} _ _ (Maintains-lift _ (λ f e. tt)) λ factorization l.
          Maintains-when _ _ _
            (λ e.
              Maintains-bind _ _ (select_leaf_factors-Maintains doubles env n positive) λ factors h.
                Maintains-bind _ _ (make_leaf_plan-Maintains doubles n factors h) λ node k.
                  Maintains-bind _ _ (select_leaf_factors-Maintains doubles env n positive)
                    λ again m.
                      Maintains-bind _ _ (estimate_leaf_warm_cost-Maintains doubles n again)
                        λ cost o. Maintains-pure _ (k, tt))
            (λ e. Maintains-pure [] tt)

    direct_candidates-All : (n : ℕ) → AllPlans n (direct_candidates doubles env strings recursive n)
    unfolding direct_candidates length_of
    direct_candidates-All n = elim (Bool-cases (leb n 128)) [
      | inl e ↦ rw e ((tt, refl), tt)
      | inr e ↦ rw e tt
    ]

    thread_local_candidates-Maintains :
        (context : RequestContext) (n : ℕ)
        → 1 ≤ n
        → Maintains
            (Good doubles)
            (AllPlans n)
            (thread_local_candidates doubles env strings recursive context n)
    unfolding thread_local_candidates length_of contains
    thread_local_candidates-Maintains context n positive =
        Maintains-when _ _ _
          (λ e.
            let (whole, inner, radix) = thread_local_lem context n e in
            let (row, row_length) = thread_local_leaf-IsPlanOf (n / 1024 / 32) radix in
            let (col, col_length) = thread_local_leaf-IsPlanOf 32 refl in
            Maintains-bind _ _
              (four_step_cost-Maintains env recursive sound (n / 1024) 1024
                (thousand n positive whole))
              λ cost h.
                Maintains-pure _ (((whole, row_length ∙ inner, col_length, row, col), refl), tt))
          (λ e. Maintains-pure [] tt)

    split_candidate-Maintains :
        (n n1 : ℕ)
        → 1 ≤ n1
        → n % n1 ≡ 0
        → Maintains
            (Good doubles)
            (λ candidate. IsPlanOf n (candidate).node)
            (split_candidate doubles env strings recursive n n1 (n / n1))
    unfolding split_candidate
    split_candidate-Maintains n n1 positive divides =
        Maintains-bind _ _
          (split_node-Maintains doubles env recursive sound n n1 (n / n1) (side_lem n n1 divides))
          λ node h.
            Maintains-bind _ _ (four_step_cost-Maintains env recursive sound n1 (n / n1) positive)
              λ cost k. Maintains-pure _ h

    split_candidates-Maintains :
        (n : ℕ) (candidates : Candidates doubles) (divisors : List ℕ)
        → AllPlans n candidates
        → IsDivided n divisors
        → Maintains
            (Good doubles)
            (AllPlans n)
            (split_candidates doubles env strings recursive n candidates divisors)
    unfolding split_candidates
    split_candidates-Maintains n candidates [] all h = Maintains-pure candidates all
    split_candidates-Maintains n candidates (n1 ∷ divisors) all (h, hs) =
        Maintains-when _ _ _ (λ e. split_candidates-Maintains n candidates divisors all hs)
          (λ e.
            Maintains-bind _ _
              (Maintains-attempt _ (split_candidate-Maintains n n1 (above_one n1 n e) h))
              λ found k.
                split_candidates-Maintains n (with_attempt doubles candidates found) divisors
                  (with_attempt-All n candidates found all k) hs)

    rader_candidates-Maintains :
        (context : RequestContext) (bluestein : PlanNode) (cost : doubles.Double) (n : ℕ)
        → Maintains
            (Good doubles)
            (AllPlans n)
            (rader_candidates doubles env strings recursive context bluestein cost n)
    unfolding rader_candidates
    rader_candidates-Maintains context bluestein cost n =
        Maintains-when _ _ _
          (λ e.
            Maintains-bind _ _ (make_rader_plan-Maintains doubles env recursive sound n) λ rader h.
              Maintains-bind _ _ (rader_cost-Maintains env recursive sound n) λ other k.
                Maintains-bind {P = Any} _ _ (Maintains-lift _ (λ f l. tt))
                  λ factorization m. Maintains-pure _ (h, tt))
          (λ e. Maintains-pure [] tt)

    convolution_candidates-Maintains :
        (context : RequestContext) (n : ℕ) (candidates : Candidates doubles)
        → AllPlans n candidates
        → Maintains
            (Good doubles)
            (AllPlans n)
            (convolution_candidates doubles env strings recursive context n candidates)
    unfolding convolution_candidates
    convolution_candidates-Maintains context n candidates all =
        Maintains-when _ _ _
          (λ e.
            Maintains-bind _ _ (make_bluestein_plan-Maintains doubles env recursive sound n)
              λ node h.
                Maintains-bind _ _ (bluestein_cost-Maintains env recursive sound n _) λ cost k.
                  Maintains-bind _ _ (rader_candidates-Maintains context node cost n)
                    λ rader l. Maintains-pure _ (h, l))
          (λ e. Maintains-pure candidates all)

    general_candidates-Maintains :
        (n : ℕ)
        → 1 ≤ n
        → Maintains (Good doubles) (AllPlans n) (general_candidates doubles env strings recursive n)
    unfolding general_candidates
    general_candidates-Maintains n positive =
        Maintains-bind _ _ (current_context-Maintains doubles) λ context l.
          Maintains-bind _ _ (leaf_candidates-Maintains context n positive) λ leaves h.
            Maintains-bind _ _ (thread_local_candidates-Maintains context n positive) λ local k.
              Maintains-bind _ _ (divisors_of-Maintains doubles n) λ divisors m.
                Maintains-bind _ _
                  (split_candidates-Maintains n _ divisors
                    (All-append _ _ local (All-append _ leaves _ h (direct_candidates-All n)) k) m)
                  λ candidates all. convolution_candidates-Maintains context n candidates all

    build_auto_candidates-Maintains :
        (n : ℕ)
        → Maintains
            (Good doubles)
            (AllPlans n)
            (build_auto_candidates doubles env strings recursive n)
    unfolding build_auto_candidates
    build_auto_candidates-Maintains n =
        Maintains-when _ _ _ (λ e. Maintains-raise _)
          (λ e. Maintains-bind _ _ (current_context-Maintains doubles) λ context l.
            Maintains-when _ _ _
              (λ f.
                npu_candidates-Maintains doubles env strings recursive sound unset n (not_zero n e))
              (λ f. general_candidates-Maintains n (not_zero n e)))

    new_node-Maintains :
        (n : ℕ) (heuristic : Bool)
        → Maintains (Good doubles) (IsPlanOf n) (new_node doubles env strings recursive n heuristic)
    unfolding new_node keep_node keep_cost
    new_node-Maintains n heuristic =
        Maintains-bind {P = λ candidate. IsPlanOf n (candidate).node} _ _
          (with_heuristic-Maintains env strings recursive heuristic _ (
            Maintains-bind _ _ (build_auto_candidates-Maintains n)
              λ candidates all. select_candidate-Maintains n candidates all))
          λ candidate h.
            Maintains-then {P = Any} _ _
              (Maintains-modify _ tt (λ state good. record {
                nodes = (h, good.nodes);
                divisors = good.divisors;
                factorizations = good.factorizations;
                leaves = good.leaves;
              }))
              (Maintains-then {P = Any} _ _
                (Maintains-modify _ tt (λ state good. record {
                  nodes = good.nodes;
                  divisors = good.divisors;
                  factorizations = good.factorizations;
                  leaves = good.leaves;
                }))
                (Maintains-pure _ h))

    node_after-Maintains :
        (n : ℕ) (heuristic : Bool) (cached : Option PlanNode)
        → ((node : PlanNode) → cached ≡ some node → IsPlanOf n node)
        → Maintains
            (Good doubles)
            (IsPlanOf n)
            (node_after doubles env strings recursive n heuristic cached)
    unfolding node_after
    node_after-Maintains n heuristic none h = new_node-Maintains n heuristic
    node_after-Maintains n heuristic (some node) h = Maintains-pure node (h node refl)

    build_auto_node-Maintains :
        (n : ℕ) (heuristic : Bool)
        → Maintains
            (Good doubles)
            (IsPlanOf n)
            (build_auto_node doubles env strings recursive n heuristic)
    unfolding build_auto_node
    build_auto_node-Maintains n heuristic =
        Maintains-bind {P = λ cached. (node : PlanNode) → cached ≡ some node → IsPlanOf n node} _ _
          (Maintains-read _
            (λ state good node e. look_up_lem IsPlanOf n state.node_cache node good.nodes e))
          λ cached h. node_after-Maintains n heuristic cached h

    cost_after-Maintains :
        (n : ℕ) (cached : Option doubles.Double)
        → Maintains (Good doubles) Any (cost_after doubles env strings recursive n cached)
    unfolding cost_after new_cost keep_cost
    cost_after-Maintains n (some cost) = Maintains-pure cost tt
    cost_after-Maintains n none =
        Maintains-bind _ _
          (with_heuristic-Maintains env strings recursive false _
            (build_auto_candidates-Maintains n))
          λ candidates all.
            Maintains-when _ _ _ (λ e. Maintains-raise _)
              (λ e. Maintains-bind _ _ (select_candidate-Maintains n candidates all) λ best h.
                Maintains-then {P = Any} _ _
                  (Maintains-modify _ tt (λ state good. record {
                    nodes = good.nodes;
                    divisors = good.divisors;
                    factorizations = good.factorizations;
                    leaves = good.leaves;
                  }))
                  (Maintains-pure _ tt))

    cost_for-Maintains :
        (n : ℕ) → Maintains (Good doubles) Any (cost_for doubles env strings recursive n)
    unfolding cost_for
    cost_for-Maintains n =
        Maintains-bind {P = Any} _ _ (Maintains-read _ (λ state good. tt))
          λ cached h. cost_after-Maintains n cached

  -- Where no factors of Ascend leaves are set: whatever the device, the other settings and the
  -- arithmetic of the costs, to any depth the planner returns for a length only plans of that
  -- length, and its tables stay right, also where it throws.
  pub planner-IsSoundly :
      (env : Env) (strings : Strings) (depth : ℕ)
      → env "FLAGFFT_NPU_2D_LEAF_FACTORS" ≡ none
      → IsSoundly doubles (planner doubles env strings depth)
  unfolding planner
  planner-IsSoundly env strings zero unset = record {
    nodes = λ n heuristic. Maintains-stop;
    costs = λ n. Maintains-stop;
  }
  planner-IsSoundly env strings (suc depth) unset =
      let sound = planner-IsSoundly env strings depth unset in
      record {
        nodes = build_auto_node-Maintains env strings _ sound unset;
        costs = cost_for-Maintains env strings _ sound unset;
      }
