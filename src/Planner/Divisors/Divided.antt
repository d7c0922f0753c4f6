-- ===== src/Planner/Divisors/Divided.antt =====
-- The numbers that `enumerate_divisors` lists, with any square root.
use mathlib.Core.Option.{some-injective}
use flag_fft.Prelude.{
  ℕ, zero, suc, ◌/◌, ◌%◌, List, [], ◌∷◌, Option, none, some, leb, ◌==◌, ◌≡◌, subst, inl, inr, All,
  Bool-cases, ==_iff, div-mul_self, mod-mul_self, refl, ◌∙◌,
}
use native.Mathlib.Nat.{mul_comm}
use flag_fft.Plan.{insert_number, sort_numbers}
use flag_fft.Planner.WellFormed.{IsDivided}
use flag_fft.Planner.Divisors.{
  DivisorCache, find_divisors, divisors_from, divisors_or, enumerate_divisors,
}

insert_number-All :
    (P : ℕ → Type 0) (x : ℕ) (xs : List ℕ) → P x → All P xs → All P (insert_number x xs)
unfolding insert_number
insert_number-All P x [] p h = (p, tt)
insert_number-All P x (y ∷ ys) p (q, h) = elim (Bool-cases (leb x y)) [
  | inl e ↦ rw e (p, (q, h))
  | inr e ↦ rw e (q, insert_number-All P x ys p h)
]

sort_numbers-All : (P : ℕ → Type 0) (xs : List ℕ) → All P xs → All P (sort_numbers xs)
unfolding sort_numbers
sort_numbers-All P [] h = tt
sort_numbers-All P (x ∷ xs) (p, h) = insert_number-All P x _ p (sort_numbers-All P xs h)

-- The other factor of a divisor divides too.
mate_lem : (n d : ℕ) → n % d ≡ 0 → n % (n / d) ≡ 0
mate_lem n d h =
    subst (λ t. t % (n / d) ≡ 0) (mul_comm d (n / d) ∙ div-mul_self n d h) (mod-mul_self d (n / d))

divisors_from-IsDivided : (rounds d n : ℕ) → IsDivided n (divisors_from rounds d n)
unfolding divisors_from
divisors_from-IsDivided zero d n = tt
divisors_from-IsDivided (suc rounds) d n =
    let rest = divisors_from-IsDivided rounds (suc d) n in
    elim (Bool-cases (n % d == 0)) [
      | inl e ↦
          let h : n % d ≡ 0 = (==_iff (n % d) 0).0 e in
          elim (Bool-cases (n / d == d)) [
            | inl same ↦ rw (e, same) (h, rest)
            | inr other ↦ rw (e, other) (h, (mate_lem n d h, rest))
          ]
      | inr e ↦ rw e rest
    ]

abbrev pub IsDividing : DivisorCache → Type 0
IsDividing cache = All (λ entry. IsDivided (entry).0 (entry).1) cache

find_divisors-IsDivided :
    (n : ℕ) (cache : DivisorCache) (divisors : List ℕ)
    → IsDividing cache
    → find_divisors n cache ≡ some divisors
    → IsDivided n divisors
unfolding find_divisors
find_divisors-IsDivided n [] divisors h e = cc
find_divisors-IsDivided n ((m, found) ∷ cache) divisors (p, h) e = elim (Bool-cases (m == n)) [
  | inl same ↦
      subst (λ k. IsDivided k divisors) ((==_iff m n).0 same)
        (subst (IsDivided m) (some-injective found divisors (rw same at e)) p)
  | inr other ↦ find_divisors-IsDivided n cache divisors h (rw other at e)
]

pub enumerate_divisors-IsDivided :
    (root : ℕ → ℕ) (cache : DivisorCache) (n : ℕ)
    → IsDividing cache
    → IsDivided n (enumerate_divisors root cache n).0
      × IsDividing (enumerate_divisors root cache n).1
unfolding enumerate_divisors divisors_or
enumerate_divisors-IsDivided root cache n h =
    by_look_up (find_divisors n cache) (λ divisors e. find_divisors-IsDivided n cache divisors h e)
  where
    by_look_up :
        (found : Option (List ℕ))
        → ((divisors : List ℕ) → found ≡ some divisors → IsDivided n divisors)
        → IsDivided n (divisors_or root cache n found).0
          × IsDividing (divisors_or root cache n found).1
    by_look_up (some divisors) k = (k divisors refl, h)
    by_look_up none k =
        let divided = sort_numbers-All _ _ (divisors_from-IsDivided (root n) 1 n) in
        (divided, (divided, h))
