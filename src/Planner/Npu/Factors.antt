-- ===== src/Planner/Npu/Factors.antt =====
-- The factors of the Ascend branch: the loop that splits radices, sides and factors that are set.
use native.Mathlib.Nat.{mul_assoc, mul_comm, mul-one, one-mul}
use flag_fft.Prelude.{
  ℕ, zero, suc, ◌*◌, ◌/◌, ◌%◌, ◌≤◌, List, [], ◌∷◌, ◌++◌, Option, none, some, Bool, true, false, not,
  ◌&&◌, ◌||◌, leb, ◌==◌, ◌≡◌, refl, sym, ap, ◌∙◌, subst, inl, inr, Bool-cases, All, product, all_of,
  Result, ok, throws, Error, ok-injective, ==_iff, div-mul_self, arith,
}
use Prim.Native.String.{String}
use flag_fft.Base.{contains}
use flag_fft.Planner.Convolution.{is_complete}
use flag_fft.Planner.Doubles.{Doubles}
use flag_fft.Planner.Leaves.Factors.{factors_of}
use flag_fft.Planner.Radices.{Factorization, factorize_supported_radices}
use flag_fft.Planner.Radices.Greedy.{IsFactored, factorize_supported_radices-IsFactored}
use flag_fft.Planner.Strings.{Strings}
use flag_fft.Planner.WellFormed.{IsFactors-of_IsSplit, IsFactors, IsPlanOf}
use flag_fft.Planner.Npu.{
  Candidates, Split, leaf_factors, take_radix, take_radices, join_taken, natural_factors,
  natural_radices,
}

product-append : (xs ys : List ℕ) → product (xs ++ ys) ≡ product xs * product ys
unfolding product
product-append [] ys = sym (one-mul _)
product-append (x ∷ xs) ys =
    ap (λ t. x * t) (product-append xs ys) ∙ sym (mul_assoc x (product xs) (product ys))

-- What a loop pushes, and what it leaves.
abbrev Takes : ℕ → List ℕ × ℕ → Type 0
Takes factor taken = product (taken).0 * (taken).1 ≡ factor

take_radix-Takes : (fuel radix factor : ℕ) → Takes factor (take_radix fuel radix factor)
unfolding take_radix product
take_radix-Takes zero radix factor = one-mul factor
take_radix-Takes (suc fuel) radix factor = elim (Bool-cases (factor % radix == 0)) [
  | inl e ↦
      let rest = take_radix fuel radix (factor / radix) in
      rw e (
        mul_assoc radix (product (rest).0) (rest).1
        ∙ ap (λ t. radix * t) (take_radix-Takes fuel radix (factor / radix))
        ∙ mul_comm radix (factor / radix)
        ∙ div-mul_self factor radix ((==_iff (factor % radix) 0).0 e))
  | inr e ↦ rw e (one-mul factor)
]

take_radices-Takes : (radices : List ℕ) (factor : ℕ) → Takes factor (take_radices radices factor)
unfolding take_radices product
take_radices-Takes [] factor = one-mul factor
take_radices-Takes (radix ∷ radices) factor =
    let here = take_radix factor radix factor in
    let later = take_radices radices (here).1 in
    ap (λ t. t * (later).1) (product-append (here).0 (later).0)
    ∙ mul_assoc (product (here).0) (product (later).0) (later).1
    ∙ ap (λ t. product (here).0 * t) (take_radices-Takes radices (here).1)
    ∙ take_radix-Takes factor radix factor

throws-ok : {A B : Type 0} {e : Error} {a : A} → throws e ≡ ok a → B
throws-ok h = cc

join_taken_lem :
    (taken : List ℕ) (left factor : ℕ) (rest : Result (List ℕ)) (factors found : List ℕ)
    → Takes factor (taken, left)
    → ((more : List ℕ) → rest ≡ ok more → product more ≡ product factors)
    → join_taken taken (left == 1) rest ≡ ok found
    → product found ≡ factor * product factors
unfolding join_taken
join_taken_lem taken left factor (throws e) factors found t k h = elim (Bool-cases (left == 1)) [
  | inl one ↦ throws-ok (rw one at h)
  | inr other ↦ throws-ok (rw other at h)
]
join_taken_lem taken left factor (ok more) factors found t k h = elim (Bool-cases (left == 1)) [
  | inl one ↦
      ap product (sym (ok-injective _ _ (rw one at h)))
      ∙ product-append taken more
      ∙ ap (λ u. u * product more)
          (sym (mul-one (product taken))
            ∙ ap (λ u. product taken * u) (sym ((==_iff left 1).0 one))
            ∙ t)
      ∙ ap (λ u. factor * u) (k more refl)
  | inr other ↦ throws-ok (rw other at h)
]

pub natural_factors_lem :
    (factors found : List ℕ) → natural_factors factors ≡ ok found → product found ≡ product factors
unfolding natural_factors product
natural_factors_lem [] found h = ap product (sym (ok-injective _ _ h))
natural_factors_lem (factor ∷ factors) found h =
    join_taken_lem _ _ factor (natural_factors factors) factors found
      (take_radices-Takes natural_radices factor) (natural_factors_lem factors) h

-- A complete factorization multiplies to its length.
pub complete_lem :
    (n : ℕ) (f : Factorization)
    → 1 ≤ n
    → factorize_supported_radices n ≡ ok f
    → f.remainder == 1 ≡ true
    → IsFactors n f.factors
complete_lem n f positive e one =
    let (g, e', factored) = factorize_supported_radices-IsFactored n positive in
    factors_of n f (subst (IsFactored n) (ok-injective g f (sym e' ∙ e)) factored)
      ((==_iff f.remainder 1).0 one)

abbrev pub AllPlans : {doubles : Doubles} → ℕ → Candidates doubles → Type 0
AllPlans n candidates = All (λ candidate. IsPlanOf n (candidate).node) candidates

-- Two sides with factors of their own.
pub record IsSplitOf (n : ℕ) (split : Split) : Type 0 where
  pub sides : split.n1 * split.n2 ≡ n
  pub rows : product split.row_factors ≡ split.n1
  pub cols : product split.col_factors ≡ split.n2

pub side_lem : (n n1 : ℕ) → n % n1 ≡ 0 → n1 * (n / n1) ≡ n
side_lem n n1 h = mul_comm n1 (n / n1) ∙ div-mul_self n n1 h

pub complete_one : (f : Factorization) → is_complete f ≡ true → f.remainder == 1 ≡ true
unfolding is_complete
complete_one f h = ground arith

pub both_complete : (a b : Bool) → not a || not b ≡ false → (a ≡ true) × (b ≡ true)
both_complete a b h = ground arith

pub positive_sides : (a b : ℕ) → leb a 1 || leb b a ≡ false → (1 ≤ a) × (1 ≤ b)
positive_sides a b h = ground arith

pub middle : (a b c : Bool) → a && b && c ≡ true → b ≡ true
middle a b c h = ground arith

eight_by_eight : IsFactors 64 (8 ∷ 8 ∷ [])
unfolding product all_of contains
eight_by_eight = IsFactors-of_IsSplit 64 (8 ∷ 8 ∷ []) (refl, refl)

pub leaf_factors_lem :
    (strings : Strings) (n : ℕ) (setting : Option String) (selected factors : List ℕ)
    → setting ≡ none
    → IsFactors n selected
    → leaf_factors strings setting n selected ≡ ok factors
    → IsFactors n factors
unfolding leaf_factors
leaf_factors_lem strings n (some spec) selected factors unset h e = cc
leaf_factors_lem strings n none selected factors unset h e =
    subst (IsFactors n) (ok-injective _ _ e) (elim (Bool-cases (n == 64)) [
      | inl same ↦
          rw same
            (subst (λ m. IsFactors m (8 ∷ 8 ∷ [])) (sym ((==_iff n 64).0 same)) eight_by_eight)
      | inr other ↦ rw other h
    ])
