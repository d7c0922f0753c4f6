-- ===== src/Prelude/Lists.antt =====
-- Lists measured and indexed by native numbers, and predicates on their elements.
use Prim.Native.Nat.{ℕ, zero, suc, ◌+◌}
use mathlib.Core.Path.{◌≡◌, refl, ap, sym, subst}
use mathlib.Core.Logic.{◌⊎◌, inl, inr}
use mathlib.Core.List.{List, [], ◌∷◌, ◌++◌, map}
use mathlib.Core.Option.{Option, none, some}
use mathlib.Core.Bool.{Bool, true, ◌&&◌}
use native.Mathlib.Omega.{arith}

module _ {ℓ} {A : Type ℓ} where
  abbrev pub length : List A → ℕ
  length [] = 0
  length (x ∷ xs) = suc (length xs)

  abbrev pub get_elem? : List A → ℕ → Option A
  get_elem? [] i = none
  get_elem? (x ∷ xs) zero = some x
  get_elem? (x ∷ xs) (suc i) = get_elem? xs i

  pub length-append : (xs ys : List A) → length (xs ++ ys) ≡ length xs + length ys
  length-append [] ys = omega arith
  length-append (x ∷ xs) ys = omega (arith, length-append xs ys)

module _ {A : Type 0} where
  -- `In a xs`: `a` is an element of `xs`, as a type that computes.
  abbrev pub In : A → List A → Type 0
  In a [] = ⊥
  In a (x ∷ xs) = (a ≡ x) ⊎ In a xs

  pub In-append_left : (a : A) (xs ys : List A) → In a xs → In a (xs ++ ys)
  In-append_left a [] ys h = absurd h
  In-append_left a (x ∷ xs) ys (inl e) = inl e
  In-append_left a (x ∷ xs) ys (inr h) = inr (In-append_left a xs ys h)

  pub In-append_right : (a : A) (xs ys : List A) → In a ys → In a (xs ++ ys)
  In-append_right a [] ys h = h
  In-append_right a (x ∷ xs) ys h = inr (In-append_right a xs ys h)

  pub In-of_append : (a : A) (xs ys : List A) → In a (xs ++ ys) → In a xs ⊎ In a ys
  In-of_append a [] ys h = inr h
  In-of_append a (x ∷ xs) ys (inl e) = inl (inl e)
  In-of_append a (x ∷ xs) ys (inr h) = elim (In-of_append a xs ys h) [
    | inl m ↦ inl (inr m)
    | inr m ↦ inr m
  ]

pub In-map : {A B : Type 0} (f : A → B) (a : A) (xs : List A) → In a xs → In (f a) (map f xs)
In-map f a [] m = m
In-map f a (x ∷ xs) (inl e) = inl (ap f e)
In-map f a (x ∷ xs) (inr m) = inr (In-map f a xs m)

pub In-of_map :
    {A B : Type 0} (f : A → B) (b : B) (xs : List A)
    → In b (map f xs)
    → (a : A) × In a xs × (b ≡ f a)
In-of_map f b [] m = absurd m
In-of_map f b (x ∷ xs) (inl e) = (x, inl refl, e)
In-of_map f b (x ∷ xs) (inr m) = let (a, m', e) = In-of_map f b xs m in (a, inr m', e)

abbrev pub All {ℓ κ} : {A : Type ℓ} → (A → Type κ) → List A → Type κ
All P [] = Unit
All P (x ∷ xs) = P x × All P xs

module _ {ℓ κ} {A : Type ℓ} (P : A → Type κ) where
  pub All-append : (xs ys : List A) → All P xs → All P ys → All P (xs ++ ys)
  All-append [] ys h k = k
  All-append (x ∷ xs) ys (p, h) k = (p, All-append xs ys h k)

pub All-In {κ} : {A : Type 0} (P : A → Type κ) (xs : List A) (x : A) → All P xs → In x xs → P x
All-In P [] x h m = absurd m
All-In P (y ∷ ys) x (p, h) (inl e) = subst P (sym e) p
All-In P (y ∷ ys) x (p, h) (inr m) = All-In P ys x h m

-- A test of every element.
unfoldable pub all_of : {A : Type 0} → (A → Bool) → List A → Bool
all_of p [] = true
all_of p (x ∷ xs) = p x && all_of p xs

pub all_of-In :
    {A : Type 0} (p : A → Bool) (xs : List A) (x : A) → all_of p xs ≡ true → In x xs → p x ≡ true
unfolding all_of
all_of-In p [] x h m = absurd m
all_of-In p (y ∷ ys) x h (inl e) = ground (arith, ap p e)
all_of-In p (y ∷ ys) x h (inr m) = all_of-In p ys x (ground arith) m
