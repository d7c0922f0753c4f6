-- ===== src/Prelude/Filling.antt =====
-- Lists of numbers with no repetition: as many of them in 1..n as there can be fill 1..n.
use Prim.Native.Nat.{ℕ, zero, suc, ◌*◌, ◌≤◌}
use mathlib.Core.Path.{◌≡◌, refl, ap, sym, subst, ◌∙◌}
use mathlib.Core.Logic.{◌≢◌, inl, inr}
use mathlib.Core.List.{List, [], ◌∷◌}
use native.Mathlib.Nat.{mul_left_comm}
use native.Mathlib.Omega.{arith}
use native.Mathlib.Decide.{ℕ_discrete}
use flag_fft.Prelude.Lists.{length, In}

abbrev pub Distinct : List ℕ → Type 0
Distinct [] = Unit
Distinct (x ∷ xs) = (¬ In x xs) × Distinct xs

abbrev pub Within : ℕ → List ℕ → Type 0
Within n xs = (x : ℕ) → In x xs → (1 ≤ x) × (x ≤ n)

unfoldable pub product : List ℕ → ℕ
product [] = 1
product (x ∷ xs) = x * product xs

pub dec_In : (x : ℕ) (xs : List ℕ) → Dec (In x xs)
dec_In x [] = no (λ h. h)
dec_In x (y ∷ ys) = elim (ℕ_discrete x y) [
  | yes e ↦ yes (inl e)
  | no ne ↦ elim (dec_In x ys) [
    | yes h ↦ yes (inr h)
    | no nh ↦ no (elim [ inl e ↦ ne e | inr h ↦ nh h ])
  ]
]

remove : ℕ → List ℕ → List ℕ
remove x [] = []
remove x (y ∷ ys) = elim (ℕ_discrete x y) [ yes _ ↦ ys | no _ ↦ y ∷ remove x ys ]

length-remove : (x : ℕ) (xs : List ℕ) → In x xs → length xs ≡ suc (length (remove x xs))
unfolding remove
length-remove x (y ∷ ys) (inl e) = ground arith
length-remove x (y ∷ ys) (inr m) = ground (arith, length-remove x ys m)
length-remove x [] m = absurd m

product-remove : (x : ℕ) (xs : List ℕ) → In x xs → product xs ≡ x * product (remove x xs)
unfolding remove product
product-remove x [] m = absurd m
product-remove x (y ∷ ys) m =
    elim (ℕ_discrete x y)
      as (λ d. product (y ∷ ys) ≡ x * product (elim d [ yes _ ↦ ys | no _ ↦ y ∷ remove x ys ])) [
        | yes e ↦ ap (λ t. t * product ys) (sym e)
        | no ne ↦ elim m [
          | inl e ↦ absurd (ne e)
          | inr h ↦
              ap (λ t. y * t) (product-remove x ys h) ∙ mul_left_comm y x (product (remove x ys))
        ]
      ]

In-of_remove : (x z : ℕ) (xs : List ℕ) → In z (remove x xs) → In z xs
unfolding remove
In-of_remove x z [] = λ m. m
In-of_remove x z (y ∷ ys) =
    elim (ℕ_discrete x y)
      as (λ d. In z (elim d [ yes _ ↦ ys | no _ ↦ y ∷ remove x ys ]) → In z (y ∷ ys)) [
        | yes _ ↦ λ m. inr m
        | no _ ↦ λ m. elim m [ inl e ↦ inl e | inr h ↦ inr (In-of_remove x z ys h) ]
      ]

In-remove : (x z : ℕ) (xs : List ℕ) → z ≢ x → In z xs → In z (remove x xs)
unfolding remove
In-remove x z [] ne = λ m. m
In-remove x z (y ∷ ys) ne =
    elim (ℕ_discrete x y)
      as (λ d. In z (y ∷ ys) → In z (elim d [ yes _ ↦ ys | no _ ↦ y ∷ remove x ys ])) [
        | yes e ↦ λ m. elim m [ inl e' ↦ absurd (ne (e' ∙ sym e)) | inr h ↦ h ]
        | no _ ↦ λ m. elim m [ inl e ↦ inl e | inr h ↦ inr (In-remove x z ys ne h) ]
      ]

remove-Distinct : (x : ℕ) (xs : List ℕ) → Distinct xs → Distinct (remove x xs)
unfolding remove
remove-Distinct x [] d = tt
remove-Distinct x (y ∷ ys) (nin, d) =
    elim (ℕ_discrete x y) as (λ c. Distinct (elim c [ yes _ ↦ ys | no _ ↦ y ∷ remove x ys ])) [
      | yes _ ↦ d
      | no _ ↦ (λ m. nin (In-of_remove x y ys m), remove-Distinct x ys d)
    ]

not-In-remove : (x : ℕ) (xs : List ℕ) → Distinct xs → ¬ In x (remove x xs)
unfolding remove
not-In-remove x [] d = λ m. m
not-In-remove x (y ∷ ys) (nin, d) =
    elim (ℕ_discrete x y) as (λ c. ¬ In x (elim c [ yes _ ↦ ys | no _ ↦ y ∷ remove x ys ])) [
      | yes e ↦ λ m. nin (subst (λ t. In t ys) e m)
      | no ne ↦ λ m. elim m [ inl e ↦ ne e | inr h ↦ not-In-remove x ys d h ]
    ]

-- Without the greatest number the rest lies below it.
drop_top : (n : ℕ) (xs : List ℕ) → Within (suc n) xs → ¬ In (suc n) xs → Within n xs
drop_top n xs w nin x m =
    ((w x m).0, omega (arith, w x m, λ (e : x ≡ suc n). nin (subst (λ t. In t xs) e m)))

remove_top : (n : ℕ) (xs : List ℕ) → Distinct xs → Within (suc n) xs → Within n (remove (suc n) xs)
remove_top n xs d w =
    drop_top n (remove (suc n) xs) (λ x m. w x (In-of_remove (suc n) x xs m))
      (not-In-remove (suc n) xs d)

nothing-Within_zero : (xs : List ℕ) → Within 0 xs → xs ≡ []
nothing-Within_zero [] w = refl
nothing-Within_zero (x ∷ xs) w = absurd (omega (arith, w x (inl refl)))

pub length-le_of_Within : (n : ℕ) (xs : List ℕ) → Distinct xs → Within n xs → length xs ≤ n
length-le_of_Within zero xs d w = omega (arith, ap length (nothing-Within_zero xs w))
length-le_of_Within (suc n) xs d w = elim (dec_In (suc n) xs) [
  | yes m ↦ omega (
    arith,
    length-remove (suc n) xs m,
    length-le_of_Within n (remove (suc n) xs) (remove-Distinct (suc n) xs d) (remove_top n xs d w),
  )
  | no nm ↦ omega (arith, length-le_of_Within n xs d (drop_top n xs w nm))
]

-- 1 * 2 * ... * n
unfoldable pub factorial : ℕ → ℕ
factorial zero = 1
factorial (suc n) = suc n * factorial n

top_is_In :
    (n : ℕ) (xs : List ℕ) → Distinct xs → Within (suc n) xs → length xs ≡ suc n → In (suc n) xs
top_is_In n xs d w len = elim (dec_In (suc n) xs) [
  | yes m ↦ m
  | no nm ↦ absurd (omega (arith, length-le_of_Within n xs d (drop_top n xs w nm)))
]

-- `n` distinct numbers from 1..n: each number from 1 to n is among them.
pub In-of_full :
    (n : ℕ) (xs : List ℕ)
    → Distinct xs
    → Within n xs
    → length xs ≡ n
    → (v : ℕ) → 1 ≤ v
    → v ≤ n
    → In v xs
In-of_full zero xs d w len v lo hi = absurd (omega arith)
In-of_full (suc n) xs d w len v lo hi =
    let m = top_is_In n xs d w len in
    elim (ℕ_discrete v (suc n)) [
      | yes e ↦ subst (λ t. In t xs) (sym e) m
      | no ne ↦ In-of_remove (suc n) v xs (
          In-of_full n (remove (suc n) xs) (remove-Distinct (suc n) xs d) (remove_top n xs d w)
            (omega (arith, length-remove (suc n) xs m)) v lo (omega arith))
    ]

-- And their product is the factorial.
pub product_of_full :
    (n : ℕ) (xs : List ℕ) → Distinct xs → Within n xs → length xs ≡ n → product xs ≡ factorial n
unfolding factorial product
product_of_full zero xs d w len = ap product (nothing-Within_zero xs w)
product_of_full (suc n) xs d w len =
    let m = top_is_In n xs d w len in
    product-remove (suc n) xs m
    ∙ ap (λ t. suc n * t)
        (product_of_full n (remove (suc n) xs) (remove-Distinct (suc n) xs d) (remove_top n xs d w)
          (omega (arith, length-remove (suc n) xs m)))
