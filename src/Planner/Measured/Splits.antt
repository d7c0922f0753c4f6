-- ===== src/Planner/Measured/Splits.antt =====
-- The measured and overriding factor orders and their lengths.
use Prim.Native.String.{String}
use text.Mathlib.Text.{◌==◌ as str_eq}
use flag_fft.Prelude.{
  ℕ, List, [], ◌∷◌, Option, none, some, Bool, true, if◌then◌else◌, ◌≡◌, refl, inl, inr, subst, sym,
  Bool-cases, ok, throws, Error, Env, product, All, all_of, arith,
}
use flag_fft.Base.{supported_radices, contains}
use flag_fft.Planner.Context.{RequestContext}
use flag_fft.Planner.Measured.{
  Factors, ◌otherwise◌, when◌then◌else◌, choose, hcu_256_table, hcu_256, hcu_128_table, hcu_128,
  hcu_2048_choice, hcu_2048, hcu_3d, maca_cube, maca_3d, ix_3d_lengths, ix_3d, ix_batch,
  hcu_16_table, hcu_16_outer, hcu_16, hcu_short, measured_factors,
}

-- Supported radices that multiply to `n`.
abbrev pub IsSplit : ℕ → List ℕ → Type 0
IsSplit n factors = (product factors ≡ n) × (all_of (contains supported_radices) factors ≡ true)

abbrev Returned : ℕ → Factors → Type 0
Returned n (ok none) = Unit
Returned n (ok (some factors)) = IsSplit n factors
Returned n (throws e) = Unit

-- If a group returns factors, they split `n`.
record Splits (n : ℕ) (group : Factors) : Type 0 where
  returned : Returned n group

Splits-returns : (n : ℕ) (factors : List ℕ) → IsSplit n factors → Splits n (ok (some factors))
Splits-returns n factors h = record { returned = h }

Splits-goes_on : (n : ℕ) → Splits n (ok none)
Splits-goes_on n = record { returned = tt }

Splits-throws : (n : ℕ) (e : Error) → Splits n (throws e)
Splits-throws n e = record { returned = tt }

Splits-otherwise : (n : ℕ) (a b : Factors) → Splits n a → Splits n b → Splits n (a otherwise b)
unfolding ◌otherwise◌
Splits-otherwise n (ok none) b x y = y
Splits-otherwise n (ok (some factors)) b x y = x
Splits-otherwise n (throws e) b x y = Splits-throws n e

Splits-when :
    (n : ℕ) (test : Bool) (a b : Factors)
    → (test ≡ true → Splits n a)
    → Splits n b
    → Splits n (when test then a else b)
unfolding when◌then◌else◌
Splits-when n test a b x y = elim (Bool-cases test) [ inl e ↦ rw e (x e) | inr e ↦ rw e y ]

abbrev by_length : ℕ → ℕ → List ℕ → Bool → Factors
by_length n k factors test = when test then ok (some factors) else ok none

-- A group that returns one factor list for one length.
Splits-at :
    (n k : ℕ) (factors : List ℕ) (test : Bool)
    → IsSplit k factors
    → (test ≡ true → n ≡ k)
    → Splits n (by_length n k factors test)
Splits-at n k factors test s at =
    Splits-when n test _ _
      (λ e. Splits-returns n factors (subst (λ m. IsSplit m factors) (sym (at e)) s))
      (Splits-goes_on n)

-- A group that is reached for one length only.
Splits-only :
    (n k : ℕ) (test : Bool) (a : Factors)
    → Splits k a
    → (test ≡ true → n ≡ k)
    → Splits n (when test then a else ok none)
Splits-only n k test a s at =
    Splits-when n test _ _ (λ e. subst (λ m. Splits m a) (sym (at e)) s) (Splits-goes_on n)

choose_lem :
    (n : ℕ) (choice : String) (table : List (String × List ℕ)) (fallback : Factors)
    → All (λ entry. IsSplit n (entry).1) table
    → Splits n fallback
    → Splits n (choose choice table fallback)
unfolding choose
choose_lem n choice [] fallback h k = k
choose_lem n choice ((name, factors) ∷ table) fallback (h, hs) k =
    Splits-when n (str_eq choice name) _ _ (λ e. Splits-returns n factors h)
      (choose_lem n choice table fallback hs k)

hcu_256_lem : (value : Option String) → Splits 256 (hcu_256 value)
unfolding hcu_256 product all_of contains
hcu_256_lem none = Splits-goes_on _
hcu_256_lem (some choice) =
    choose_lem 256 choice hcu_256_table _
      (
        (refl, refl),
        (
          (refl, refl),
          ((refl, refl), ((refl, refl), ((refl, refl), ((refl, refl), ((refl, refl), tt))))),
        ),
      )
      (Splits-throws _ _)

hcu_128_lem : (value : Option String) → Splits 128 (hcu_128 value)
unfolding hcu_128 product all_of contains
hcu_128_lem none = Splits-goes_on _
hcu_128_lem (some choice) =
    choose_lem 128 choice hcu_128_table _
      ((refl, refl), ((refl, refl), ((refl, refl), ((refl, refl), ((refl, refl), tt)))))
      (Splits-when 128 _ _ _ (λ e. Splits-goes_on _) (Splits-throws _ _))

hcu_2048_choice_lem :
    (context : RequestContext) (choice : String) → Splits 2048 (hcu_2048_choice context choice)
unfolding hcu_2048_choice product all_of contains
hcu_2048_choice_lem context choice =
    Splits-when 2048 _ _ _ (λ e. Splits-returns _ _ (refl, refl))
      (Splits-when 2048 _ _ _ (λ e. Splits-returns _ _ (refl, refl))
        (Splits-when 2048 _ _ _ (λ e. Splits-returns _ _ (refl, refl))
          (Splits-when 2048 _ _ _ (λ e. Splits-throws _ _) (Splits-goes_on _))))

hcu_2048_lem : (env : Env) (context : RequestContext) (n : ℕ) → Splits 2048 (hcu_2048 env context n)
unfolding hcu_2048
hcu_2048_lem env context n =
    Splits-when 2048 _ _ _ (λ e. Splits-throws _ _)
      (Splits-when 2048 _ _ _ (λ e. Splits-throws _ _) (hcu_2048_choice_lem context _))

hcu_3d_lem : (env : Env) (context : RequestContext) (n : ℕ) → Splits n (hcu_3d env context n)
unfolding hcu_3d
hcu_3d_lem env context n =
    Splits-otherwise n _ _
      (Splits-otherwise n _ _ (Splits-only n 256 _ _ (hcu_256_lem _) (λ e. ground arith))
        (Splits-only n 128 _ _ (hcu_128_lem _) (λ e. ground arith)))
      (Splits-only n 2048 _ _ (hcu_2048_lem env context n) (λ e. ground arith))

maca_cube_lem : (value : Option String) → Splits 32 (maca_cube value)
unfolding maca_cube product all_of contains
maca_cube_lem none = Splits-returns _ _ (refl, refl)
maca_cube_lem (some more_lanes) =
    Splits-when 32 _ _ _ (λ e. Splits-returns _ _ (refl, refl))
      (Splits-when 32 _ _ _ (λ e. Splits-throws _ _) (Splits-returns _ _ (refl, refl)))

maca_3d_lem : (env : Env) (context : RequestContext) (n : ℕ) → Splits n (maca_3d env context n)
unfolding maca_3d product all_of contains
maca_3d_lem env context n =
    Splits-otherwise n _ _
      (Splits-otherwise n _ _ (Splits-only n 32 _ _ (maca_cube_lem _) (λ e. ground arith))
        (Splits-at n 2048 _ _ (refl, refl) (λ e. ground arith)))
      (Splits-at n 32 _ _ (refl, refl) (λ e. ground arith))

ix_3d_lengths_lem : (env : Env) (n : ℕ) → Splits n (ix_3d_lengths env n)
unfolding ix_3d_lengths product all_of contains
ix_3d_lengths_lem env n =
    Splits-otherwise n _ _
      (Splits-otherwise n _ _
        (Splits-otherwise n _ _
          (Splits-otherwise n _ _
            (Splits-otherwise n _ _ (Splits-at n 64 _ _ (refl, refl) (λ e. ground arith))
              (Splits-at n 128 _ _ (refl, refl) (λ e. ground arith)))
            (Splits-at n 128 _ _ (refl, refl) (λ e. ground arith)))
          (Splits-at n 256 _ _ (refl, refl) (λ e. ground arith)))
        (Splits-at n 256 _ _ (refl, refl) (λ e. ground arith)))
      (Splits-at n 2048 _ _ (refl, refl) (λ e. ground arith))

ix_3d_lem : (env : Env) (context : RequestContext) (n : ℕ) → Splits n (ix_3d env context n)
unfolding ix_3d product all_of contains
ix_3d_lem env context n =
    Splits-otherwise n _ _ (Splits-at n 32 _ _ (refl, refl) (λ e. ground arith))
      (Splits-when n _ _ _ (λ e. ix_3d_lengths_lem env n) (Splits-goes_on n))

ix_batch_lem : (context : RequestContext) (n : ℕ) → Splits n (ix_batch context n)
unfolding ix_batch product all_of contains
ix_batch_lem context n =
    Splits-otherwise n _ _
      (Splits-otherwise n _ _
        (Splits-otherwise n _ _
          (Splits-otherwise n _ _ (Splits-at n 1024 _ _ (refl, refl) (λ e. ground arith))
            (Splits-at n 2048 _ _ (refl, refl) (λ e. ground arith)))
          (Splits-at n 2048 _ _ (refl, refl) (λ e. ground arith)))
        (Splits-at n 1024 _ _ (refl, refl) (λ e. ground arith)))
      (Splits-at n 1024 _ _ (refl, refl) (λ e. ground arith))

hcu_16_outer_lem :
    (context : RequestContext) (value : Option String) → Splits 16 (hcu_16_outer context value)
unfolding hcu_16_outer product all_of contains
hcu_16_outer_lem context none =
    Splits-when 16 _ _ _ (λ e. Splits-returns _ _ (refl, refl)) (Splits-goes_on _)
hcu_16_outer_lem context (some choice) =
    choose_lem 16 choice hcu_16_table _
      (
        (refl, refl),
        ((refl, refl), ((refl, refl), ((refl, refl), ((refl, refl), ((refl, refl), tt))))),
      )
      (Splits-when 16 _ _ _ (λ e. Splits-goes_on _) (Splits-throws _ _))

hcu_16_lem : (env : Env) (context : RequestContext) → Splits 16 (hcu_16 env context)
unfolding hcu_16 product all_of contains
hcu_16_lem env context =
    Splits-otherwise 16 _ _
      (Splits-when 16 _ _ _ (λ e. hcu_16_outer_lem context _) (Splits-goes_on _))
      (Splits-returns _ _ (refl, refl))

hcu_short_lem : (env : Env) (context : RequestContext) (n : ℕ) → Splits n (hcu_short env context n)
unfolding hcu_short product all_of contains
hcu_short_lem env context n =
    Splits-otherwise n _ _ (Splits-only n 16 _ _ (hcu_16_lem env context) (λ e. ground arith))
      (Splits-at n 1024 _ _ (refl, refl) (λ e. ground arith))

-- Whatever factors the overrides and the measured orders give for a length, they are supported
-- radices whose product is that length.
pub measured_factors-IsSplit :
    (env : Env) (context : RequestContext) (n : ℕ) (factors : List ℕ)
    → measured_factors env context n ≡ ok (some factors)
    → IsSplit n factors
unfolding measured_factors
measured_factors-IsSplit env context n factors h =
    (subst (Splits n) h (
      Splits-otherwise n _ _
        (Splits-otherwise n _ _
          (Splits-otherwise n _ _
            (Splits-otherwise n _ _ (hcu_3d_lem env context n) (maca_3d_lem env context n))
            (ix_3d_lem env context n))
          (ix_batch_lem context n))
        (hcu_short_lem env context n))).returned
