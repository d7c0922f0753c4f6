-- ===== src/Planner/Divisors/Exact.antt =====
-- `enumerate_divisors`, its memo table and the divisors of its argument.
use native.Mathlib.Nat.{mod-eq-zero_of_dvd, dvd-mul_right, div-eq_of_eq-mul_right, mul-le-mul}
use flag_fft.Prelude.{
  ℕ, zero, suc, ◌+◌, ◌*◌, ◌/◌, ◌%◌, ◌≤◌, ◌<◌, ◌∣◌, List, [], ◌∷◌, Option, none, some, leb, ◌==◌,
  ◌≡◌, ◌⊎◌, inl, inr, ◌↔◌, refl, sym, ◌∙◌, subst, In, Bool-cases, true, div-mul_self, arith,
}
use mathlib.Core.Option.{some-injective}
use flag_fft.Plan.{insert_number, sort_numbers}
use flag_fft.Planner.Divisors.{
  DivisorCache, find_divisors, divisors_from, divisors_or, enumerate_divisors,
}

In-insert_number : (x y : ℕ) (ys : List ℕ) → In x (insert_number y ys) ↔ ((x ≡ y) ⊎ In x ys)
unfolding insert_number
In-insert_number x y [] = (λ h. h, λ h. h)
In-insert_number x y (z ∷ zs) = elim (Bool-cases (leb y z)) [
  | inl e ↦ rw e (λ h. h, λ h. h)
  | inr e ↦
      let (to, from) = In-insert_number x y zs in
      rw e (
        λ h. elim h [
          | inl a ↦ inr (inl a)
          | inr b ↦ elim (to b) [ inl c ↦ inl c | inr d ↦ inr (inr d) ]
        ],
        λ h. elim h [
          | inl a ↦ inr (from (inl a))
          | inr b ↦ elim b [ inl c ↦ inl c | inr d ↦ inr (from (inr d)) ]
        ],
      )
]

In-sort_numbers : (x : ℕ) (xs : List ℕ) → In x (sort_numbers xs) ↔ In x xs
unfolding sort_numbers
In-sort_numbers x [] = (λ h. h, λ h. h)
In-sort_numbers x (y ∷ ys) =
    let (to, from) = In-insert_number x y (sort_numbers ys) in
    let (down, up) = In-sort_numbers x ys in
    (
      λ h. elim (to h) [ inl a ↦ inl a | inr b ↦ inr (down b) ],
      λ h. elim h [ inl a ↦ from (inl a) | inr b ↦ from (inr (up b)) ],
    )

-- The entries of the loop: divisors from the current one on, and their mates.
abbrev Listed : ℕ → ℕ → ℕ → ℕ → Type 0
Listed rounds divisor n x =
    (e : ℕ) × (divisor ≤ e) × (e < divisor + rounds) × (n % e ≡ 0) × ((x ≡ e) ⊎ (x ≡ n / e))

later : (rounds divisor n x : ℕ) → Listed rounds (suc divisor) n x → Listed (suc rounds) divisor n x
later rounds divisor n x (e, lo, hi, d, w) = (e, omega arith, omega arith, d, w)

divisors_from-Listed :
    (rounds divisor n x : ℕ) → In x (divisors_from rounds divisor n) → Listed rounds divisor n x
unfolding divisors_from
divisors_from-Listed zero divisor n x h = absurd h
divisors_from-Listed (suc rounds) divisor n x h =
    let rec = divisors_from-Listed rounds (suc divisor) n x in
    elim (Bool-cases (n % divisor == 0)) [
      | inl e ↦
          let zero_rem : n % divisor ≡ 0 = ground arith in
          elim (Bool-cases (n / divisor == divisor)) [
            | inl f ↦ elim (rw (e, f) at h) [
              | inl a ↦ (divisor, omega arith, omega arith, zero_rem, inl a)
              | inr b ↦ later rounds divisor n x (rec b)
            ]
            | inr f ↦ elim (rw (e, f) at h) [
              | inl a ↦ (divisor, omega arith, omega arith, zero_rem, inl a)
              | inr b ↦ elim b [
                | inl c ↦ (divisor, omega arith, omega arith, zero_rem, inr c)
                | inr d ↦ later rounds divisor n x (rec d)
              ]
            ]
          ]
      | inr e ↦ later rounds divisor n x (rec (rw e at h))
    ]

-- The entries of the current round, and those of the rounds after it.
current :
    (rounds divisor n x : ℕ)
    → n % divisor ≡ 0
    → (x ≡ divisor) ⊎ (x ≡ n / divisor)
    → In x (divisors_from (suc rounds) divisor n)
unfolding divisors_from
current rounds divisor n x d w =
    let test : n % divisor == 0 ≡ true = ground arith in
    elim (Bool-cases (n / divisor == divisor)) [
      | inl f ↦
          let same : n / divisor ≡ divisor = ground arith in
          rw (test, f) (inl (elim w [ inl a ↦ a | inr b ↦ b ∙ same ]))
      | inr f ↦ rw (test, f) (elim w [ inl a ↦ inl a | inr b ↦ inr (inl b) ])
    ]

following :
    (rounds divisor n x : ℕ)
    → In x (divisors_from rounds (suc divisor) n)
    → In x (divisors_from (suc rounds) divisor n)
unfolding divisors_from
following rounds divisor n x h = elim (Bool-cases (n % divisor == 0)) [
  | inl e ↦ elim (Bool-cases (n / divisor == divisor)) [
    | inl f ↦ rw (e, f) (inr h)
    | inr f ↦ rw (e, f) (inr (inr h))
  ]
  | inr e ↦ rw e h
]

Listed-divisors_from :
    (rounds divisor n x : ℕ) → Listed rounds divisor n x → In x (divisors_from rounds divisor n)
Listed-divisors_from zero divisor n x (e, lo, hi, d, w) = absurd (omega arith)
Listed-divisors_from (suc rounds) divisor n x (e, lo, hi, d, w) = elim (Bool-cases (e == divisor)) [
  | inl here ↦
      let same : e ≡ divisor = ground arith in
      current rounds divisor n x (subst (λ t. n % t ≡ 0) same d)
        (subst (λ t. (x ≡ t) ⊎ (x ≡ n / t)) same w)
  | inr there ↦
      following rounds divisor n x
        (Listed-divisors_from rounds (suc divisor) n x (e, ground arith, omega arith, d, w))
]

-- The divisors of a positive number, from 1 on.
abbrev pub IsDivisors : ℕ → List ℕ → Type 0
IsDivisors n divisors = (d : ℕ) → In d divisors ↔ ((1 ≤ d) × (n % d ≡ 0))

mate_divides : (n d : ℕ) → n % d ≡ 0 → n % (n / d) ≡ 0
mate_divides n d e =
    mod-eq-zero_of_dvd (n / d)
      (subst (λ t. n / d ∣ t) (div-mul_self n d e) (dvd-mul_right (n / d) d))

mate_positive : (n d : ℕ) → 1 ≤ n → n % d ≡ 0 → 1 ≤ n / d
mate_positive n d lo e = grind (arith, div-mul_self n d e)

mate_of_mate : (n d : ℕ) → 1 ≤ n → n % d ≡ 0 → n / (n / d) ≡ d
mate_of_mate n d lo e = div-eq_of_eq-mul_right (mate_positive n d lo e) (sym (div-mul_self n d e))

-- The loop up to the integer square root finds each divisor or its mate.
divisors_from-IsDivisors :
    (n r : ℕ) → 1 ≤ n → n < (r + 1) * (r + 1) → IsDivisors n (divisors_from r 1 n)
divisors_from-IsDivisors n r lo big d = (
  λ h.
      let (e, one, below, divides, w) = divisors_from-Listed r 1 n d h in
      elim w [
        | inl a ↦ subst (λ t. (1 ≤ t) × (n % t ≡ 0)) (sym a) (one, divides)
        | inr b ↦
            subst (λ t. (1 ≤ t) × (n % t ≡ 0)) (sym b)
              (mate_positive n e lo divides, mate_divides n e divides)
      ],
  λ h. Listed-divisors_from r 1 n d (elim (Bool-cases (leb d r)) [
    | inl small ↦ (d, (h).0, ground arith, (h).1, inl refl)
    | inr large ↦
        let mate_small : n / d < 1 + r = grind (
          arith,
          div-mul_self n d (h).1,
          mul-le-mul {n₁ = r + 1} {m₁ = r + 1} {n₂ = n / d} {m₂ = d},
        ) in
        (
          n / d,
          mate_positive n d lo (h).1,
          mate_small,
          mate_divides n d (h).1,
          inr (sym (mate_of_mate n d lo (h).1)),
        )
  ]),
)

-- Each entry of the memo table holds the divisors of its key.
abbrev pub KeepsDivisors : DivisorCache → Type 0
KeepsDivisors [] = Unit {0}
KeepsDivisors ((n, divisors) ∷ cache) = (1 ≤ n → IsDivisors n divisors) × KeepsDivisors cache

find_divisors-IsDivisors :
    (n : ℕ) (cache : DivisorCache) (divisors : List ℕ)
    → 1 ≤ n
    → KeepsDivisors cache
    → find_divisors n cache ≡ some divisors
    → IsDivisors n divisors
unfolding find_divisors
find_divisors-IsDivisors n [] divisors lo keeps e = cc
find_divisors-IsDivisors n ((m, ds) ∷ cache) divisors lo (here, keeps) e =
    elim (Bool-cases (m == n)) [
      | inl hit ↦
          let same : m ≡ n = ground arith in
          let found : some ds ≡ some divisors = rw hit at e in
          subst (λ t. IsDivisors t divisors) same
            (subst (IsDivisors m) (some-injective ds divisors found) (here (omega (arith, same))))
      | inr miss ↦ find_divisors-IsDivisors n cache divisors lo keeps (rw miss at e)
    ]

sorted-IsDivisors :
    (n : ℕ) (divisors : List ℕ) → IsDivisors n divisors → IsDivisors n (sort_numbers divisors)
sorted-IsDivisors n divisors h d =
    let (down, up) = In-sort_numbers d divisors in ((λ m. (h d).0 (down m)), (λ m. up ((h d).1 m)))

divisors_or-IsDivisors :
    (root : ℕ → ℕ) (cache : DivisorCache) (n : ℕ) (known : Option (List ℕ))
    → 1 ≤ n
    → n < (root n + 1) * (root n + 1)
    → KeepsDivisors cache
    → find_divisors n cache ≡ known
    → IsDivisors n (divisors_or root cache n known).0
      × KeepsDivisors (divisors_or root cache n known).1
unfolding divisors_or
divisors_or-IsDivisors root cache n (some divisors) lo big keeps e =
    (find_divisors-IsDivisors n cache divisors lo keeps e, keeps)
divisors_or-IsDivisors root cache n none lo big keeps e =
    let fresh = sorted-IsDivisors n _ (divisors_from-IsDivisors n (root n) lo big) in
    (fresh, ((λ _. fresh), keeps))

-- From a memo table whose entries hold the divisors of their keys, and for a positive number whose
-- computed square root is not below the exact one's integer part, `enumerate_divisors` lists exactly
-- the divisors of the number, and the table keeps its property.
pub enumerate_divisors-IsDivisors :
    (root : ℕ → ℕ) (cache : DivisorCache) (n : ℕ)
    → 1 ≤ n
    → n < (root n + 1) * (root n + 1)
    → KeepsDivisors cache
    → IsDivisors n (enumerate_divisors root cache n).0
      × KeepsDivisors (enumerate_divisors root cache n).1
unfolding enumerate_divisors
enumerate_divisors-IsDivisors root cache n lo big keeps =
    divisors_or-IsDivisors root cache n (find_divisors n cache) lo big keeps refl
