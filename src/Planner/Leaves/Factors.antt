-- ===== src/Planner/Leaves/Factors.antt =====
-- The factors that are selected for a leaf, and the memo tables.
use native.Mathlib.Nat.{mul-one}
use flag_fft.Prelude.{
  no_radix_stage, ok-injective, ℕ, ◌*◌, ◌≤◌, List, [], ◌∷◌, Option, none, some, Bool, true, ◌&&◌,
  ◌==◌, ◌≡◌, refl, ok, throws, ap, sym, subst, ◌∙◌, All, In, inl, inr, product, all_of, Env, ==_iff,
  >>=-eq-ok, Bool-cases, arith,
}
use flag_fft.Base.{contains, supported_radices}
use flag_fft.Plan.{length_of}
use flag_fft.Api.Ints.{ℤ}
use flag_fft.Planner.Action.{visit}
use flag_fft.Planner.Action.Maintains.{
  Maintains, Maintains-pure, Maintains-raise, Maintains-stop, Maintains-read, Maintains-modify,
  Maintains-visit, Maintains-lift, Maintains-bind, Maintains-then, Maintains-when,
}
use flag_fft.Planner.Context.{RequestContext}
use flag_fft.Planner.Doubles.{Doubles}
use flag_fft.Planner.Enumerate.Exact.{IsFactorization, enumerate_supported_factorizations-IsExact}
use flag_fft.Planner.Measured.Splits.{measured_factors-IsSplit}
use flag_fft.Planner.Radices.{
  Factorization, factorize_or_raise, factorize_supported_radices, checked_factors,
}
use flag_fft.Planner.Radices.Greedy.{
  IsSupported, IsFactored, factorize_supported_radices-IsFactored,
}
use flag_fft.Planner.WellFormed.{
  IsFactors, IsPlanOf, IsGood, In-of_contains, IsFactors-of_IsSplit, look_up_lem,
}
use flag_fft.Planner.Leaves.{
  State, current_context, cost_of_stages, lanes_of, estimate_leaf_warm_cost,
  score_leaf_factorization, best_of, best_candidate, enumerate_factorizations, keep_factors,
  remember, computed_factors, cached_factors, factors_after, select_leaf_factors, elements_or_raise,
  make_leaf_plan,
}

abbrev pub Any : {A : Type 0} → A → Type 0
Any a = Unit

both : (a b : Bool) → a && b ≡ true → (a ≡ true) × (b ≡ true)
both a b h = ground arith

-- A test for one length.
at_length :
    (n k : ℕ) (factors : List ℕ) (other : Bool)
    → other && n == k ≡ true
    → IsFactors k factors
    → IsFactors n factors
at_length n k factors other e h =
    subst (λ m. IsFactors m factors) (sym ((==_iff n k).0 (both other (n == k) e).1)) h

four_fours : IsFactors 256 (4 ∷ 4 ∷ 4 ∷ 4 ∷ [])
unfolding product all_of contains
four_fours = IsFactors-of_IsSplit 256 (4 ∷ 4 ∷ 4 ∷ 4 ∷ []) (refl, refl)

eights : IsFactors 1024 (8 ∷ 8 ∷ 4 ∷ 4 ∷ [])
unfolding product all_of contains
eights = IsFactors-of_IsSplit 1024 (8 ∷ 8 ∷ 4 ∷ 4 ∷ []) (refl, refl)

-- The checks return the factors of a remainder of 1.
listed_lem :
    (fs gs : List ℕ)
    → elim fs [ [] ↦ throws no_radix_stage | radix ∷ radices ↦ ok (radix ∷ radices) ] ≡ ok gs
    → fs ≡ gs
listed_lem [] gs h = cc
listed_lem (radix ∷ radices) gs h = ok-injective _ _ h

checked_factors_lem :
    (f : Factorization) (factors : List ℕ)
    → checked_factors f ≡ ok factors
    → (f.remainder ≡ 1) × (f.factors ≡ factors)
unfolding checked_factors
checked_factors_lem (f) factors h = elim (Bool-cases (f.remainder == 1)) [
  | inl e ↦ ((==_iff f.remainder 1).0 e, listed_lem f.factors factors (rw e at h))
  | inr e ↦ cc
]

pub factors_of :
    (n : ℕ) (f : Factorization) → IsFactored n f → f.remainder ≡ 1 → IsFactors n f.factors
factors_of n f factored one = (
  sym (mul-one _) ∙ ap (λ t. product f.factors * t) (sym one) ∙ factored.whole,
  factored.supported,
)

factorize_or_raise-IsFactors :
    (n : ℕ) (factors : List ℕ) → 1 ≤ n → factorize_or_raise n ≡ ok factors → IsFactors n factors
unfolding factorize_or_raise
factorize_or_raise-IsFactors n factors positive h =
    let (f, found, checked) = >>=-eq-ok (factorize_supported_radices n) checked_factors h in
    let (g, found', factored) = factorize_supported_radices-IsFactored n positive in
    let same : g ≡ f = ok-injective g f (sym found' ∙ found) in
    let (one, fs) = checked_factors_lem f factors checked in
    subst (IsFactors n) fs (factors_of n f (subst (IsFactored n) same factored) one)

module _ (doubles : Doubles) where
  abbrev pub Good : State doubles → Type 0
  Good state = IsGood state

  pub current_context-Maintains : Maintains Good Any (current_context doubles)
  unfolding current_context
  current_context-Maintains = record {
    left = λ state h. (Maintains-lift {I = Good} _ (λ context e. tt)).left state h;
  }

  pub lanes_of-Maintains :
      (context : RequestContext) (n : ℕ) (factors : List ℕ)
      → Maintains Good Any (lanes_of doubles context n factors)
  unfolding lanes_of
  lanes_of-Maintains context n [] = Maintains-stop
  lanes_of-Maintains context n (factor ∷ factors) = Maintains-lift _ (λ lanes e. tt)

  cost_of_stages-Maintains :
      (context : RequestContext) (is_double : Bool) (n : ℕ) (factors stage_lanes : List ℕ)
      → Maintains Good Any (cost_of_stages doubles context is_double n factors stage_lanes)
  unfolding cost_of_stages
  cost_of_stages-Maintains context is_double n factors [] = Maintains-stop
  cost_of_stages-Maintains context is_double n factors (x ∷ xs) = Maintains-pure _ tt

  pub estimate_leaf_warm_cost-Maintains :
      (n : ℕ) (factors : List ℕ) → Maintains Good Any (estimate_leaf_warm_cost doubles n factors)
  unfolding estimate_leaf_warm_cost
  estimate_leaf_warm_cost-Maintains n factors =
      Maintains-bind _ _ current_context-Maintains λ context h.
        Maintains-bind _ _ (lanes_of-Maintains context n factors)
          λ lanes k. cost_of_stages-Maintains context _ n factors _

  score_leaf_factorization-Maintains :
      (n : ℕ) (factors : List ℕ) → Maintains Good Any (score_leaf_factorization doubles n factors)
  unfolding score_leaf_factorization
  score_leaf_factorization-Maintains n factors =
      Maintains-bind _ _ current_context-Maintains λ context h.
        Maintains-bind _ _ (lanes_of-Maintains context n factors) λ lanes k.
          Maintains-bind _ _ (estimate_leaf_warm_cost-Maintains n factors)
            λ cost l. Maintains-pure _ tt

  best_of-Maintains :
      (n : ℕ) (best : List ℕ) (score : List ℤ) (candidates : List (List ℕ))
      → IsFactors n best
      → All (IsFactors n) candidates
      → Maintains Good (IsFactors n) (best_of doubles n best score candidates)
  unfolding best_of
  best_of-Maintains n best score [] h all = Maintains-pure best h
  best_of-Maintains n best score (candidate ∷ candidates) h (k, all) =
      Maintains-bind _ _ (score_leaf_factorization-Maintains n candidate) λ other l.
        Maintains-when _ _ _ (λ e. best_of-Maintains n candidate other candidates k all)
          (λ e. best_of-Maintains n best score candidates h all)

  best_candidate-Maintains :
      (n : ℕ) (candidates : List (List ℕ))
      → 1 ≤ n
      → All (IsFactors n) candidates
      → Maintains Good (IsFactors n) (best_candidate doubles n candidates)
  unfolding best_candidate
  best_candidate-Maintains n [] positive all =
      Maintains-lift _ (λ factors e. factorize_or_raise-IsFactors n factors positive e)
  best_candidate-Maintains n (front ∷ candidates) positive (h, all) =
      Maintains-bind _ _ (score_leaf_factorization-Maintains n front)
        λ score k. best_of-Maintains n front score (front ∷ candidates) h (h, all)

  remember-Maintains :
      (n : ℕ) (factors : List ℕ)
      → IsFactors n factors
      → Maintains Good (IsFactors n) (remember doubles n factors)
  unfolding remember keep_factors
  remember-Maintains n factors h =
      Maintains-then {P = Any} _ _
        (Maintains-modify _ tt (λ state good. record {
          nodes = good.nodes;
          divisors = good.divisors;
          factorizations = good.factorizations;
          leaves = (h, good.leaves);
        }))
        (Maintains-pure factors h)

  -- A list of factorizations, as a predicate on each.
  exact-All :
      (n : ℕ) (found : List (List ℕ))
      → ((fs : List ℕ) → In fs found → IsFactors n fs)
      → All (IsFactors n) found
  exact-All n [] h = tt
  exact-All n (fs ∷ found) h = (h fs (inl refl), exact-All n found (λ gs m. h gs (inr m)))

  IsFactors-of_IsFactorization : (n : ℕ) (fs : List ℕ) → IsFactorization n fs → IsFactors n fs
  IsFactors-of_IsFactorization n [] h = absurd h
  IsFactors-of_IsFactorization n (r ∷ fs) (all, whole) = (whole, all)

  enumerate_factorizations-Maintains :
      (n : ℕ)
      → 1 ≤ n
      → Maintains Good (All (IsFactors n)) (visit (enumerate_factorizations doubles n))
  unfolding enumerate_factorizations
  enumerate_factorizations-Maintains n positive = Maintains-visit _ λ state good.
      let (exact, sound) =
        enumerate_supported_factorizations-IsExact n state.factorization_cache positive
          good.factorizations in
      (
        exact-All n _ (λ fs m. IsFactors-of_IsFactorization n fs ((exact fs).0 m)),
        record {
          nodes = good.nodes;
          divisors = good.divisors;
          factorizations = sound;
          leaves = good.leaves;
        },
      )

  single_factor : (n : ℕ) → contains supported_radices n ≡ true → IsFactors n (n ∷ [])
  unfolding product
  single_factor n h = (
    mul-one n,
    λ r m. elim m [
      | inl e ↦ subst IsSupported (sym e) (In-of_contains supported_radices n h)
      | inr none_left ↦ absurd none_left
    ],
  )

  computed_factors-Maintains :
      (context : RequestContext) (n : ℕ)
      → 1 ≤ n
      → Maintains Good (IsFactors n) (computed_factors doubles context n)
  unfolding computed_factors
  computed_factors-Maintains context n positive =
      Maintains-bind {P = Any} _ _ (Maintains-read _ (λ state h. tt)) λ heuristic l.
        Maintains-when _ _ _ (λ e. remember-Maintains n _ (single_factor n (both _ _ e).1))
          (λ e.
            Maintains-when _ _ _ (λ f. remember-Maintains n _ (at_length n 256 _ _ f four_fours))
              (λ f.
                Maintains-when _ _ _ (λ g. remember-Maintains n _ (at_length n 1024 _ _ g eights))
                  (λ g.
                    Maintains-bind _ _ (enumerate_factorizations-Maintains n positive)
                      λ candidates all.
                        Maintains-bind _ _ (best_candidate-Maintains n candidates positive all)
                          λ best h. remember-Maintains n best h)))

  cached_factors-Maintains :
      (context : RequestContext) (n : ℕ) (cached : Option (List ℕ))
      → 1 ≤ n
      → ((factors : List ℕ) → cached ≡ some factors → IsFactors n factors)
      → Maintains Good (IsFactors n) (cached_factors doubles context n cached)
  unfolding cached_factors
  cached_factors-Maintains context n (some factors) positive h =
      Maintains-pure factors (h factors refl)
  cached_factors-Maintains context n none positive h = computed_factors-Maintains context n positive

  factors_after-Maintains :
      (context : RequestContext) (n : ℕ) (measured : Option (List ℕ))
      → 1 ≤ n
      → ((factors : List ℕ) → measured ≡ some factors → IsFactors n factors)
      → Maintains Good (IsFactors n) (factors_after doubles context n measured)
  unfolding factors_after
  factors_after-Maintains context n (some factors) positive h =
      Maintains-pure factors (h factors refl)
  factors_after-Maintains context n none positive h =
      Maintains-bind
        {P = λ cached. (factors : List ℕ) → cached ≡ some factors → IsFactors n factors} _ _
        (Maintains-read _ (λ state good factors e.
          look_up_lem IsFactors n state.best_leaf_factors_cache factors good.leaves e))
        λ cached k. cached_factors-Maintains context n cached positive k

  pub select_leaf_factors-Maintains :
      (env : Env) (n : ℕ) → 1 ≤ n → Maintains Good (IsFactors n) (select_leaf_factors doubles env n)
  unfolding select_leaf_factors
  select_leaf_factors-Maintains env n positive =
      Maintains-bind _ _ current_context-Maintains λ context h.
        Maintains-bind
          {P = λ measured. (factors : List ℕ) → measured ≡ some factors → IsFactors n factors} _ _
          (Maintains-lift _ (λ measured e factors f.
            IsFactors-of_IsSplit n factors
              (measured_factors-IsSplit env context n factors (e ∙ ap ok f))))
          λ measured k. factors_after-Maintains context n measured positive k

  elements_or_raise-Maintains :
      (elements : Option ℕ) → Maintains Good Any (elements_or_raise doubles elements)
  unfolding elements_or_raise
  elements_or_raise-Maintains none = Maintains-raise _
  elements_or_raise-Maintains (some elements) = Maintains-pure elements tt

  pub make_leaf_plan-Maintains :
      (n : ℕ) (factors : List ℕ)
      → IsFactors n factors
      → Maintains Good (IsPlanOf n) (make_leaf_plan doubles n factors)
  unfolding make_leaf_plan length_of
  make_leaf_plan-Maintains n factors h = Maintains-bind _ _ current_context-Maintains λ context k.
      Maintains-bind _ _ (elements_or_raise-Maintains _) λ elements l.
        Maintains-bind _ _ (lanes_of-Maintains context n factors)
          λ lanes m. Maintains-pure _ (h, refl)
