-- ===== src/Planner/Build/Splits.antt =====
-- The splits that settings and measurements name for a root, and their lengths.
use native.Mathlib.Nat.{zero-mul}
use Prim.Native.String.{String}
use text.Mathlib.Text.{◌==◌ as str_eq}
use flag_fft.Prelude.{
  ℕ, ◌*◌, ◌/◌, ◌%◌, ◌≤◌, Option, none, some, Bool, true, false, not, ◌&&◌, ◌||◌, leb, ◌==◌,
  if◌then◌else◌, ◌≡◌, refl, sym, ◌∙◌, subst, inl, inr, Bool-cases, Env, Result, ok, throws, Error,
  zero, suc, div-mul_self, ok-injective, when◌then◌else◌, arith,
}
use flag_fft.Base.{FftRequest}
use flag_fft.Plan.{PlanNode, length_of}
use flag_fft.Api.Ints.{ℤ, pos, negsuc, same_int}
use flag_fft.Planner.Action.{Action, pure, raise}
use flag_fft.Planner.Action.Maintains.{
  Left, Maintains, Maintains-pure, Maintains-raise, Maintains-lift, Maintains-bind, Maintains-when,
  Optional,
}
use flag_fft.Planner.Context.{Adaptor, set_request_context}
use flag_fft.Planner.Context.Switch.{Forgets, set_request_context_lem}
use flag_fft.Planner.Convolution.Sound.{IsSoundly, split_node-Maintains}
use flag_fft.Planner.Costs.{Recursive}
use flag_fft.Planner.Doubles.{Doubles}
use flag_fft.Planner.Leaves.{State}
use flag_fft.Planner.Leaves.Factors.{
  Any, Good, current_context-Maintains, select_leaf_factors-Maintains, make_leaf_plan-Maintains,
}
use flag_fft.Planner.Npu.Factors.{side_lem}
use flag_fft.Planner.Strings.{Strings}
use flag_fft.Planner.WellFormed.{IsPlanOf, IsGood}
use flag_fft.Planner.Build.{
  checked_side, side_for, cut_side, set_side, npu_operator_side, left_context, switch_context,
  or_node, leaf_child, leaf_split, leaf_or_auto_split, aiv64_leaf, child_3d, split_3d, split_at,
  setting_split, fixed_split,
}

-- A side that is not 0 divides.
abbrev pub IsSide : ℕ → ℕ → Type 0
IsSide n n1 = (1 ≤ n1) × (1 ≤ n / n1) × (n % n1 ≡ 0)

abbrev AreSides : ℕ → Option ℕ → Type 0
AreSides n side = Optional (IsSide n) side

throws-ok : {A B : Type 0} {e : Error} {a : A} → throws e ≡ ok a → B
throws-ok h = cc

side_tests :
    (n1 n rem : ℕ)
    → leb n1 1 || leb n n1 || not (rem == 0) ≡ false
    → (2 ≤ n1) × (n1 ≤ n) × (rem ≡ 0)
side_tests n1 n rem h = ground arith

positive_mate : (q m n : ℕ) → q * m ≡ n → 1 ≤ n → 1 ≤ q
positive_mate zero m n h positive = absurd (omega (arith, sym (zero-mul m) ∙ h))
positive_mate (suc q) m n h positive = omega arith

checked_side_lem :
    (name : String) (n : ℕ) (n1 : ℤ) (side : Option ℕ)
    → checked_side name n n1 ≡ ok side
    → AreSides n side
unfolding checked_side
checked_side_lem name n (negsuc n1) side h = cc
checked_side_lem name n (pos n1) side h =
    elim (Bool-cases (leb n1 1 || leb n n1 || not (n % n1 == 0))) [
      | inl e ↦ throws-ok (rw e at h)
      | inr e ↦
          let (low, high, divides) = side_tests n1 n (n % n1) e in
          subst (AreSides n) (ok-injective _ _ (rw e at h)) (
            omega (arith, low),
            positive_mate (n / n1) n1 n (div-mul_self n n1 divides) (omega (arith, low, high)),
            divides,
          )
    ]

side_for_lem :
    (name : String) (n : ℕ) (target n1 : Option ℤ) (side : Option ℕ)
    → side_for name n target n1 ≡ ok side
    → AreSides n side
unfolding side_for when◌then◌else◌
side_for_lem name n (some target) (some n1) side h = elim (Bool-cases (same_int target (pos n))) [
  | inl e ↦ checked_side_lem name n n1 side (rw e at h)
  | inr e ↦ subst (AreSides n) (ok-injective _ _ (rw e at h)) tt
]
side_for_lem name n (some target) none side h = cc
side_for_lem name n none n1 side h = cc

cut_side_lem :
    (strings : Strings) (name : String) (n : ℕ) (parts : Option (String × String)) (side : Option ℕ)
    → cut_side strings name n parts ≡ ok side
    → AreSides n side
unfolding cut_side
cut_side_lem strings name n none side h = cc
cut_side_lem strings name n (some (target, n1)) side h = side_for_lem name n _ _ side h

set_side_lem :
    (strings : Strings) (name : String) (n : ℕ) (setting : Option String) (side : Option ℕ)
    → set_side strings name n setting ≡ ok side
    → AreSides n side
unfolding set_side when◌then◌else◌
set_side_lem strings name n none side h = subst (AreSides n) (ok-injective _ _ h) tt
set_side_lem strings name n (some spec) side h = elim (Bool-cases (str_eq spec "")) [
  | inl e ↦ subst (AreSides n) (ok-injective _ _ (rw e at h)) tt
  | inr e ↦ cut_side_lem strings name n _ side (rw e at h)
]

pub operator_lem : (n : ℕ) → not (npu_operator_side n == 0) ≡ true → n % npu_operator_side n ≡ 0
unfolding npu_operator_side
operator_lem n h = ground arith

pub batch_lem :
    (n : ℕ) → n == 16384 || n == 663000 ≡ true → n % (if n == 16384 then 256 else 884) ≡ 0
batch_lem n h = ground arith

pub last_test : (a b : Bool) → a && b ≡ true → b ≡ true
last_test a b h = ground arith

module _ (doubles : Doubles) where
  -- A new context leaves the tables right: those that are kept do not depend on it.
  IsGood-Forgets : (old new : State doubles) → Forgets old new → IsGood old → IsGood new
  IsGood-Forgets old new (nodes, costs, divisors, factorizations, leaves) good = record {
    nodes = rw nodes tt;
    divisors = rw divisors good.divisors;
    factorizations = rw factorizations good.factorizations;
    leaves = rw leaves good.leaves;
  }

  left_context-Maintains :
      (old : State doubles) (result : Result (State doubles))
      → IsGood old
      → ((next : State doubles) → result ≡ ok next → IsGood next)
      → Left (Good doubles) Any (left_context doubles result old)
  unfolding left_context pure raise
  left_context-Maintains old (ok next) good h = (tt, h next refl)
  left_context-Maintains old (throws e) good h = good

  pub switch_context-Maintains :
      (env : Env) (adaptor : Adaptor) (request : FftRequest)
      → Maintains (Good doubles) Any (switch_context doubles env adaptor request)
  unfolding switch_context
  switch_context-Maintains env adaptor request = record {
    left = λ state good.
        left_context-Maintains state (set_request_context env adaptor request state) good λ next e.
          let (context, made, current, how) =
            set_request_context_lem env adaptor request state next e in
          elim how [
            | inl (was, same) ↦ subst IsGood (sym same) good
            | inr (other, forgets) ↦ IsGood-Forgets state next forgets good
          ];
  }

  pub or_node-Maintains :
      (n : ℕ) (found : Option PlanNode) (next : Action (State doubles) PlanNode)
      → Optional (IsPlanOf n) found
      → Maintains (Good doubles) (IsPlanOf n) next
      → Maintains (Good doubles) (IsPlanOf n) (or_node doubles found next)
  unfolding or_node
  or_node-Maintains n none next h k = k
  or_node-Maintains n (some node) next h k = Maintains-pure node h

  module _ (env : Env) (strings : Strings) (recursive : Recursive doubles)
      (sound : IsSoundly doubles recursive) where
    leaf_child-Maintains :
        (n : ℕ)
        → 1 ≤ n
        → Maintains (Good doubles) (IsPlanOf n) (leaf_child doubles env strings recursive n)
    unfolding leaf_child
    leaf_child-Maintains n positive =
        Maintains-bind _ _ (current_context-Maintains doubles) λ context l.
          Maintains-bind _ _ (select_leaf_factors-Maintains doubles env n positive) λ factors h.
            Maintains-when _ _ _ (λ e. make_leaf_plan-Maintains doubles n factors h)
              (λ e. Maintains-raise _)

    leaf_split-Maintains :
        (n n1 : ℕ)
        → IsSide n n1
        → Maintains
            (Good doubles)
            (IsPlanOf n)
            (leaf_split doubles env strings recursive n n1 (n / n1))
    unfolding leaf_split length_of
    leaf_split-Maintains n n1 (a, b, divides) =
        Maintains-bind _ _ (current_context-Maintains doubles) λ context l.
          Maintains-bind _ _ (select_leaf_factors-Maintains doubles env n1 a) λ rows h.
            Maintains-bind _ _ (select_leaf_factors-Maintains doubles env (n / n1) b) λ cols k.
              Maintains-when _ _ _ (λ e. Maintains-raise _)
                (λ e. Maintains-bind _ _ (make_leaf_plan-Maintains doubles n1 rows h) λ row (r, rl).
                  Maintains-bind _ _ (make_leaf_plan-Maintains doubles (n / n1) cols k)
                    λ col (c, cl). Maintains-pure _ ((side_lem n n1 divides, rl, cl, r, c), refl))

    pub leaf_or_auto_split-Maintains :
        (n n1 : ℕ)
        → IsSide n n1
        → Maintains
            (Good doubles)
            (IsPlanOf n)
            (leaf_or_auto_split doubles env strings recursive n n1)
    unfolding leaf_or_auto_split
    leaf_or_auto_split-Maintains n n1 side =
        Maintains-when _ _ _ (λ e. leaf_split-Maintains n n1 side)
          (λ e.
            split_node-Maintains doubles env recursive sound n n1 (n / n1) (side_lem n n1 side.2))

    pub aiv64_leaf-Maintains :
        (use_aiv64 : Bool) (n : ℕ)
        → 1 ≤ n
        → Maintains
            (Good doubles)
            (Optional (IsPlanOf n))
            (aiv64_leaf doubles env strings recursive use_aiv64 n)
    unfolding aiv64_leaf
    aiv64_leaf-Maintains use_aiv64 n positive =
        Maintains-when _ _ _
          (λ e. Maintains-bind _ _ (current_context-Maintains doubles) λ context l.
            Maintains-bind _ _ (select_leaf_factors-Maintains doubles env n positive) λ factors h.
              Maintains-when _ _ _
                (λ f.
                  Maintains-bind _ _ (make_leaf_plan-Maintains doubles n factors h)
                    λ node k. Maintains-pure (some node) k)
                (λ f. Maintains-pure none tt))
          (λ e. Maintains-pure none tt)

    child_3d-Maintains :
        (use_aiv64 : Bool) (n : ℕ)
        → 1 ≤ n
        → Maintains (Good doubles) (IsPlanOf n) (child_3d doubles env strings recursive use_aiv64 n)
    unfolding child_3d
    child_3d-Maintains use_aiv64 n positive =
        Maintains-bind _ _ (aiv64_leaf-Maintains use_aiv64 n positive) λ found h.
          or_node-Maintains n found _ h
            (Maintains-when _ _ _ (λ e. leaf_child-Maintains n positive) (λ e. sound.nodes n false))

    pub split_3d-Maintains :
        (use_aiv64 : Bool) (n n1 : ℕ)
        → IsSide n n1
        → Maintains
            (Good doubles)
            (IsPlanOf n)
            (split_3d doubles env strings recursive use_aiv64 n n1)
    unfolding split_3d length_of
    split_3d-Maintains use_aiv64 n n1 (a, b, divides) =
        Maintains-bind _ _ (child_3d-Maintains use_aiv64 n1 a) λ row (r, rl).
          Maintains-bind _ _ (child_3d-Maintains use_aiv64 (n / n1) b)
            λ col (c, cl). Maintains-pure _ ((side_lem n n1 divides, rl, cl, r, c), refl)

    split_at-Maintains :
        (n : ℕ) (build_split : ℕ → Action (State doubles) PlanNode) (side : Option ℕ)
        → ((n1 : ℕ) → IsSide n n1 → Maintains (Good doubles) (IsPlanOf n) (build_split n1))
        → AreSides n side
        → Maintains
            (Good doubles)
            (Optional (IsPlanOf n))
            (split_at doubles env strings recursive build_split side)
    unfolding split_at
    split_at-Maintains n build_split none h k = Maintains-pure none tt
    split_at-Maintains n build_split (some n1) h k =
        Maintains-bind _ _ (h n1 k) λ node l. Maintains-pure (some node) l

    pub setting_split-Maintains :
        (test : Bool) (name : String) (n : ℕ) (build_split : ℕ → Action (State doubles) PlanNode)
        → ((n1 : ℕ) → IsSide n n1 → Maintains (Good doubles) (IsPlanOf n) (build_split n1))
        → Maintains
            (Good doubles)
            (Optional (IsPlanOf n))
            (setting_split doubles env strings recursive test name n build_split)
    unfolding setting_split
    setting_split-Maintains test name n build_split h =
        Maintains-when _ _ _
          (λ e.
            Maintains-bind _ _
              (Maintains-lift _ (λ side f. set_side_lem strings name n (env name) side f))
              λ side k. split_at-Maintains n build_split side h k)
          (λ e. Maintains-pure none tt)

    pub fixed_split-Maintains :
        (test : Bool) (n n1 : ℕ)
        → (test ≡ true → n % n1 ≡ 0)
        → Maintains
            (Good doubles)
            (Optional (IsPlanOf n))
            (fixed_split doubles env strings recursive test n n1)
    unfolding fixed_split
    fixed_split-Maintains test n n1 divides =
        Maintains-when _ _ _
          (λ e.
            Maintains-bind _ _
              (split_node-Maintains doubles env recursive sound n n1 (n / n1)
                (side_lem n n1 (divides e)))
              λ node h. Maintains-pure (some node) h)
          (λ e. Maintains-pure none tt)
