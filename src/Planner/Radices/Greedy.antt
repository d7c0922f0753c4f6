-- ===== src/Planner/Radices/Greedy.antt =====
-- The greedy factorization, its product and where it stops.
use native.Mathlib.Nat.{div-lt_self, one-mul, mul_assoc, mul_comm}
use flag_fft.Prelude.{
  ℕ, zero, suc, ◌*◌, ◌/◌, ◌%◌, ◌≤◌, ◌≡◌, ◌≢◌, ◌⊎◌, inl, inr, sym, ap, subst, ◌∙◌, List, [], ◌∷◌,
  none, some, Option-cases, ltb, ◌==◌, Bool-cases, arith, In, All, All-In, product, div-mul_self,
  ok,
}
use flag_fft.Base.{supported_radices}
use flag_fft.Planner.Radices.{Factorization, first_radix, divide_out, factorize_supported_radices}

abbrev pub IsSupported : ℕ → Type 0
IsSupported radix = In radix supported_radices

supported_range : All (λ r. (2 ≤ r) × (r ≤ 32)) supported_radices
supported_range = omega arith

pub IsSupported-range : (r : ℕ) → IsSupported r → (2 ≤ r) × (r ≤ 32)
IsSupported-range r m = All-In (λ r. (2 ≤ r) × (r ≤ 32)) supported_radices r supported_range m

first_radix-some : (rs : List ℕ) (rem r : ℕ) → first_radix rs rem ≡ some r → In r rs × (rem % r ≡ 0)
unfolding first_radix
first_radix-some [] rem r h = cc
first_radix-some (x ∷ rs) rem r h = elim (Bool-cases (rem % x == 0)) [
  | inl here ↦ (inl (ground arith), ground arith)
  | inr there ↦ let (m, e) = first_radix-some rs rem r (ground arith) in (inr m, e)
]

first_radix-none :
    (rs : List ℕ) (rem : ℕ) → first_radix rs rem ≡ none → (r : ℕ) → In r rs → rem % r ≢ 0
unfolding first_radix
first_radix-none [] rem h r m = absurd m
first_radix-none (x ∷ rs) rem h r (inl e) = ground arith
first_radix-none (x ∷ rs) rem h r (inr m) = first_radix-none rs rem (ground arith) r m

-- What a run of the loop from `n` gives.
pub record IsFactored (n : ℕ) (f : Factorization) : Type 0 where
  pub whole : product f.factors * f.remainder ≡ n
  pub supported : (r : ℕ) → In r f.factors → IsSupported r
  pub positive : 1 ≤ f.remainder
  pub stuck : (f.remainder ≡ 1) ⊎ ((r : ℕ) → IsSupported r → f.remainder % r ≢ 0)

one_more :
    (n r : ℕ) (f : Factorization)
    → IsSupported r
    → n % r ≡ 0
    → IsFactored (n / r) f
    → IsFactored n (record { factors = r ∷ f.factors; remainder = f.remainder })
unfolding product
one_more n r f s e h = record {
  whole =
      mul_assoc r (product f.factors) f.remainder
      ∙ ap (λ t. r * t) h.whole
      ∙ mul_comm r (n / r)
      ∙ div-mul_self n r e;
  supported =
      λ q m. elim m [ inl here ↦ subst IsSupported (sym here) s | inr there ↦ h.supported q there ];
  positive = h.positive;
  stuck = h.stuck;
}

untouched :
    (n : ℕ)
    → 1 ≤ n
    → (n ≡ 1) ⊎ ((r : ℕ) → IsSupported r → n % r ≢ 0)
    → IsFactored n (record { factors = []; remainder = n })
unfolding product
untouched n pos' st = record {
  whole = one-mul n;
  supported = λ r m. absurd m;
  positive = pos';
  stuck = st;
}

pub divide_out-IsFactored : (f n : ℕ) → 1 ≤ n → n ≤ f → IsFactored n (divide_out f n)
unfolding divide_out product
divide_out-IsFactored zero n pos' h = absurd (omega arith)
divide_out-IsFactored (suc f) n pos' h = elim (Bool-cases (ltb 1 n)) [
  | inr one ↦ rw one (untouched n pos' (inl (ground arith)))
  | inl many ↦ elim (Option-cases (first_radix supported_radices n)) [
    | inl none' ↦
        rw (many, none') (untouched n pos' (inr (first_radix-none supported_radices n none')))
    | inr (r, found) ↦
        let (s, e) = first_radix-some supported_radices n r found in
        let two = IsSupported-range r s in
        rw (many, found)
          (one_more n r (divide_out f (n / r)) s e (
            divide_out-IsFactored f (n / r) (grind (arith, div-mul_self n r e))
              (omega (arith, div-lt_self {n = n} {k = r} pos' two.0))))
  ]
]

-- `factorize_supported_radices` succeeds for every positive length. The product of the factors and
-- the remainder is the length, the factors are supported radices, and the remainder is positive and
-- either 1 or divisible by no supported radix.
pub factorize_supported_radices-IsFactored :
    (n : ℕ) → 1 ≤ n → (f : Factorization) × (factorize_supported_radices n ≡ ok f) × IsFactored n f
unfolding factorize_supported_radices
factorize_supported_radices-IsFactored n pos' =
    (divide_out n n, ground arith, divide_out-IsFactored n n pos' (omega arith))
