-- ===== src/Planner/Enumerate/Exact.antt =====
-- The lists that the enumeration with its memo table holds, and the factorizations into supported
-- radices.
use native.Mathlib.Nat.{div-lt_self, mul_comm, mul-one, mul-div_cancel_left, eq_of_mul-eq-mul_left}
use mathlib.Core.Path.{ap₂}
use flag_fft.Prelude.{
  ℕ, zero, suc, ◌*◌, ◌/◌, ◌%◌, ◌≤◌, ◌<◌, List, [], ◌∷◌, ◌++◌, map, none, some, Option-cases, ◌==◌,
  Bool-cases, ◌≡◌, ◌≢◌, refl, sym, ap, subst, ◌∙◌, ◌↔◌, inl, inr, In, In-of_append, In-append_left,
  In-of_map, In-map, In-append_right, product, div-mul_self, mod-mul_self, arith,
}
use flag_fft.Base.{supported_radices}
use flag_fft.Planner.Radices.Greedy.{IsSupported, IsSupported-range}
use flag_fft.Planner.Enumerate.{
  Cache, find, over_radices, enumerate, enumerate_supported_factorizations, unique, sort,
}
use flag_fft.Planner.Enumerate.Sorting.{In-unique-sort}

abbrev pub AllSupported : List ℕ → Type 0
AllSupported fs = (r : ℕ) → In r fs → IsSupported r

-- A non-empty list of supported radices with product `n`.
abbrev pub IsFactorization : ℕ → List ℕ → Type 0
IsFactorization n [] = ⊥
IsFactorization n (r ∷ fs) = AllSupported (r ∷ fs) × (product (r ∷ fs) ≡ n)

abbrev pub IsExact : ℕ → List (List ℕ) → Type 0
IsExact n result = (fs : List ℕ) → In fs result ↔ IsFactorization n fs

-- Each entry of the memo table answers its own question.
abbrev pub IsSound : Cache → Type 0
IsSound [] = Unit {0}
IsSound ((n, result) ∷ cache) = (1 ≤ n → IsExact n result) × IsSound cache

find-IsExact :
    (n : ℕ) (c : Cache) (r : List (List ℕ)) → 1 ≤ n → IsSound c → find n c ≡ some r → IsExact n r
unfolding find
find-IsExact n [] r pos' h e = cc
find-IsExact n ((m, result) ∷ c) r pos' (ex, h) e = elim (Bool-cases (m == n)) [
  | inl same ↦
      let me : m ≡ n = ground arith in
      let re : result ≡ r = ground arith in
      subst (λ t. IsExact n t) re (subst (λ t. IsExact t result) me (ex (omega arith)))
  | inr other ↦ find-IsExact n c r pos' h (ground arith)
]

-- The factorizations of `n` whose first radix is in a list.
abbrev StartsIn : List ℕ → List ℕ → Type 0
StartsIn radices [] = ⊥
StartsIn radices (r ∷ fs) = In r radices

abbrev IsExactFrom : List ℕ → ℕ → List (List ℕ) → Type 0
IsExactFrom radices n result =
    (fs : List ℕ) → In fs result ↔ (IsFactorization n fs × StartsIn radices fs)

-- What the recursive call has to give, for arguments below `n`.
abbrev Recurses : ℕ → (Cache → ℕ → List (List ℕ) × Cache) → Type 0
Recurses n recurse =
    (c : Cache) (m : ℕ)
    → 1 ≤ m
    → m < n
    → IsSound c
    → IsExact m (recurse c m).0 × IsSound (recurse c m).1

IsFactorization-step :
    (n r : ℕ) (fs : List ℕ)
    → IsSupported r
    → n % r ≡ 0
    → IsFactorization (n / r) fs
    → IsFactorization n (r ∷ fs)
unfolding product
IsFactorization-step n r [] s e h = absurd h
IsFactorization-step n r (q ∷ fs) s e (sup, prod) = (
  λ x m. elim m [ inl here ↦ subst IsSupported (sym here) s | inr there ↦ sup x there ],
  ap (λ t. r * t) prod ∙ mul_comm r (n / r) ∙ div-mul_self n r e,
)

-- A factorization that starts with `r` and is longer goes on with one of `n / r`.
IsFactorization-tail :
    (n r : ℕ) (fs : List ℕ) → n ≢ r → IsFactorization n (r ∷ fs) → IsFactorization (n / r) fs
unfolding product
IsFactorization-tail n r [] ne (sup, prod) = absurd (ne (sym prod ∙ mul-one r))
IsFactorization-tail n r (q ∷ fs) ne (sup, prod) = (
  λ x m. sup x (inr m),
  sym (
      ap (λ t. t / r) (sym prod)
      ∙ mul-div_cancel_left (product (q ∷ fs)) {n = r}
          (omega (arith, IsSupported-range r (sup r (inl refl))))),
)

factorization_divides : (n r : ℕ) (fs : List ℕ) → IsFactorization n (r ∷ fs) → n % r ≡ 0
unfolding product
factorization_divides n r fs (sup, prod) =
    ap (λ t. t % r) (sym prod ∙ mul_comm r (product fs)) ∙ mod-mul_self (product fs) r

two_factors : (q m : ℕ) → 2 ≤ q → q * m ≢ 1
two_factors q m h e = grind arith

factorization_single : (r : ℕ) (fs : List ℕ) → IsFactorization r (r ∷ fs) → fs ≡ []
unfolding product
factorization_single r [] h = refl
factorization_single r (q ∷ fs) (sup, prod) =
    let r2 = IsSupported-range r (sup r (inl refl)) in
    let q2 = IsSupported-range q (sup q (inr (inl refl))) in
    let one = eq_of_mul-eq-mul_left r (omega arith) (q * product fs) 1 (prod ∙ sym (mul-one r)) in
    absurd (two_factors q (product fs) q2.0 one)

-- The loop, from a list of radices on.
module _ (n : ℕ) (pos' : 1 ≤ n) (recurse : Cache → ℕ → List (List ℕ) × Cache)
    (rec : Recurses n recurse) where
  skip_exact :
      (r : ℕ) (rs : List ℕ) (res : List (List ℕ))
      → n % r ≢ 0
      → IsExactFrom rs n res
      → IsExactFrom (r ∷ rs) n res
  skip_exact r rs res ne h [] = (λ m. absurd ((h []).0 m).1, λ x. absurd x.0)
  skip_exact r rs res ne h (q ∷ fs) = (
    λ m. let (f, st) = (h (q ∷ fs)).0 m in (f, inr st),
    λ (f, st). elim st [
      | inl e ↦ absurd (ne (subst (λ t. n % t ≡ 0) e (factorization_divides n q fs f)))
      | inr there ↦ (h (q ∷ fs)).1 (f, there)
    ],
  )

  single_exact :
      (r : ℕ) (rs : List ℕ) (res : List (List ℕ))
      → IsSupported r
      → n ≡ r
      → IsExactFrom rs n res
      → IsExactFrom (r ∷ rs) n ((r ∷ []) ∷ res)
  unfolding product
  single_exact r rs res sup e h fs = (
    elim [
      | inl here ↦
          subst (λ t. IsFactorization n t × StartsIn (r ∷ rs) t) (sym here)
            (
              (
                λ x m. elim m [
                  | inl x=r ↦ subst IsSupported (sym x=r) sup
                  | inr none' ↦ absurd none'
                ],
                mul-one r ∙ sym e,
              ),
              inl refl,
            )
      | inr there ↦ widen fs ((h fs).0 there)
    ],
    back fs,
  )
    where
      widen :
          (fs : List ℕ)
          → IsFactorization n fs × StartsIn rs fs
          → IsFactorization n fs × StartsIn (r ∷ rs) fs
      widen [] (f, st) = absurd f
      widen (q ∷ fs) (f, st) = (f, inr st)

      back : (fs : List ℕ) → IsFactorization n fs × StartsIn (r ∷ rs) fs → In fs ((r ∷ []) ∷ res)
      back [] (f, st) = absurd f
      back (q ∷ fs) (f, inl q=r) = inl (
          ap₂ (λ a b. a ∷ b) q=r
            (factorization_single q fs (subst (λ t. IsFactorization t (q ∷ fs)) (e ∙ sym q=r) f)))
      back (q ∷ fs) (f, inr there) = inr ((h (q ∷ fs)).1 (f, there))

  split_exact :
      (r : ℕ) (rs : List ℕ) (tails res : List (List ℕ))
      → IsSupported r
      → n % r ≡ 0
      → n ≢ r
      → IsExact (n / r) tails
      → IsExactFrom rs n res
      → IsExactFrom (r ∷ rs) n (map (λ tail. r ∷ tail) tails ++ res)
  split_exact r rs tails res sup e ne ht h fs = (to fs, from fs)
    where
      to :
          (fs : List ℕ)
          → In fs (map (λ tail. r ∷ tail) tails ++ res)
          → IsFactorization n fs × StartsIn (r ∷ rs) fs
      to fs m = elim (In-of_append fs (map (λ tail. r ∷ tail) tails) res m) [
        | inl here ↦
            let (t, mt, eq) = In-of_map (λ tail. r ∷ tail) fs tails here in
            subst (λ u. IsFactorization n u × StartsIn (r ∷ rs) u) (sym eq)
              (IsFactorization-step n r t sup e ((ht t).0 mt), inl refl)
        | inr there ↦ widen fs ((h fs).0 there)
      ]
        where
          widen :
              (fs : List ℕ)
              → IsFactorization n fs × StartsIn rs fs
              → IsFactorization n fs × StartsIn (r ∷ rs) fs
          widen [] (f, st) = absurd f
          widen (q ∷ fs) (f, st) = (f, inr st)

      from :
          (fs : List ℕ)
          → IsFactorization n fs × StartsIn (r ∷ rs) fs
          → In fs (map (λ tail. r ∷ tail) tails ++ res)
      from [] (f, st) = absurd f
      from (q ∷ fs) (f, inl q=r) =
          subst (λ u. In (u ∷ fs) (map (λ tail. r ∷ tail) tails ++ res)) (sym q=r)
            (In-append_left (r ∷ fs) (map (λ tail. r ∷ tail) tails) res (
              In-map (λ tail. r ∷ tail) fs tails
                ((ht fs).1 (
                  IsFactorization-tail n r fs ne (subst (λ u. IsFactorization n (u ∷ fs)) q=r f)))))
      from (q ∷ fs) (f, inr there) =
          In-append_right (q ∷ fs) (map (λ tail. r ∷ tail) tails) res ((h (q ∷ fs)).1 (f, there))

  over_radices-IsExactFrom :
      (rs : List ℕ) (c : Cache)
      → AllSupported rs
      → IsSound c
      → IsExactFrom rs n (over_radices recurse n rs c).0 × IsSound (over_radices recurse n rs c).1
  unfolding over_radices
  over_radices-IsExactFrom [] c sup h = (empty, h)
    where
      empty : IsExactFrom [] n []
      empty [] = (λ m. absurd m, λ x. absurd x.0)
      empty (q ∷ fs) = (λ m. absurd m, λ x. absurd x.1)
  over_radices-IsExactFrom (r ∷ rs) c sup h = elim (Bool-cases (n % r == 0)) [
    | inr other ↦
        let (ex, so) = over_radices-IsExactFrom rs c (λ x m. sup x (inr m)) h in
        rw other (skip_exact r rs _ (ground arith) ex, so)
    | inl divides ↦ elim (Bool-cases (n == r)) [
      | inl same ↦
          let (ex, so) = over_radices-IsExactFrom rs c (λ x m. sup x (inr m)) h in
          rw (divides, same) (single_exact r rs _ (sup r (inl refl)) (ground arith) ex, so)
      | inr proper ↦
          let e : n % r ≡ 0 = ground arith in
          let two = IsSupported-range r (sup r (inl refl)) in
          let (et, st) =
            rec c (n / r) (grind (arith, div-mul_self n r e))
              (div-lt_self {n = n} {k = r} pos' two.0) h in
          let (ex, so) =
            over_radices-IsExactFrom rs (recurse c (n / r)).1 (λ x m. sup x (inr m)) st in
          rw (divides, proper) (split_exact r rs _ _ (sup r (inl refl)) e (ground arith) et ex, so)
    ]
  ]

enumerate-found :
    (f n : ℕ) (c : Cache) (r : List (List ℕ)) → find n c ≡ some r → enumerate (suc f) c n ≡ (r, c)
unfolding enumerate
enumerate-found f n c r e = rw (e, enumerate)

enumerate-missing :
    (f n : ℕ) (c : Cache)
    → find n c ≡ none
    → enumerate (suc f) c n ≡ (
      unique (sort (over_radices (enumerate f) n supported_radices c).0),
      (n, unique (sort (over_radices (enumerate f) n supported_radices c).0))
          ∷ (over_radices (enumerate f) n supported_radices c).1,
    )
unfolding enumerate
enumerate-missing f n c e = rw (e, enumerate)

every_start : (n : ℕ) (fs : List ℕ) → IsFactorization n fs → StartsIn supported_radices fs
every_start n [] h = h
every_start n (r ∷ fs) (sup, prod) = sup r (inl refl)

IsExact-everywhere :
    (n : ℕ) (res : List (List ℕ))
    → IsExactFrom supported_radices n res
    → IsExact n (unique (sort res))
IsExact-everywhere n res h fs = (
  λ m. ((h fs).0 ((In-unique-sort fs res).0 m)).0,
  λ f. (In-unique-sort fs res).1 ((h fs).1 (f, every_start n fs f)),
)

pub enumerate-IsExact :
    (f n : ℕ) (c : Cache)
    → 1 ≤ n
    → n ≤ f
    → IsSound c
    → IsExact n (enumerate f c n).0 × IsSound (enumerate f c n).1
enumerate-IsExact zero n c pos' h so = absurd (omega arith)
enumerate-IsExact (suc f) n c pos' h so = elim (Option-cases (find n c)) [
  | inl missing ↦
      let (ex, so') =
        over_radices-IsExactFrom n pos' (enumerate f)
          (λ c' m p lt s. enumerate-IsExact f m c' p (omega arith) s) supported_radices c (λ r m. m)
          so in
      let exact = IsExact-everywhere n _ ex in
      rw (enumerate-missing f n c missing) (exact, ((λ _. exact), so'))
  | inr (r, found) ↦ rw (enumerate-found f n c r found) (find-IsExact n c r pos' so found, so)
]

-- From a sound memo table, `enumerate_supported_factorizations` of a positive length lists exactly the
-- non-empty lists of supported radices whose product is the length, and leaves the table sound.
pub enumerate_supported_factorizations-IsExact :
    (n : ℕ) (c : Cache)
    → 1 ≤ n
    → IsSound c
    → ((fs : List ℕ) → In fs (enumerate_supported_factorizations c n).0 ↔ IsFactorization n fs)
      × IsSound (enumerate_supported_factorizations c n).1
unfolding enumerate_supported_factorizations
enumerate_supported_factorizations-IsExact n c pos' so =
    enumerate-IsExact n n c pos' (omega arith) so
