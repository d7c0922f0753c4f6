-- ===== src/Planner/Candidates/ThreadLocal.antt =====
-- The four-step plans with thread-local leaves.
use text.Mathlib.Text.{◌==◌ as str_eq}
use flag_fft.Prelude.{
  not, ℕ, ◌*◌, ◌/◌, ◌%◌, ◌≤◌, [], ◌∷◌, Bool, true, false, ◌&&◌, ◌||◌, ltb, leb, ◌==◌, ◌≡◌, refl,
  product, all_of, ==_iff, div-mul_self, arith,
}
use flag_fft.Base.{contains, supported_radices}
use flag_fft.Plan.{length_of}
use flag_fft.Planner.Context.{RequestContext}
use flag_fft.Planner.Costs.{generated_composite_radices}
use flag_fft.Planner.WellFormed.{IsPlanOf, IsFactors-of_IsSplit}
use flag_fft.Planner.Candidates.{thread_local_leaf, is_thread_local_complex, is_thread_local}

pub above_one : (a n : ℕ) → leb a 1 || leb n a ≡ false → 1 ≤ a
above_one a n h = ground arith

pub not_zero : (n : ℕ) → n == 0 ≡ false → 1 ≤ n
not_zero n h = ground arith

above : (a n : ℕ) (other : Bool) → other && ltb a n ≡ true → 1 ≤ n
above a n other h = ground arith

last_three :
    (a b c d e : Bool) → a && b && c && d && e ≡ true → (c ≡ true) × (d ≡ true) × (e ≡ true)
last_three a b c d e h = ground arith

pub thread_local_lem :
    (context : RequestContext) (n : ℕ)
    → is_thread_local context n ≡ true
    → (n / 1024 * 1024 ≡ n)
      × (n / 1024 / 32 * 32 ≡ n / 1024)
      × (contains generated_composite_radices (n / 1024 / 32) ≡ true)
unfolding is_thread_local
thread_local_lem context n h =
    let (whole, inner, radix) =
      last_three (not (str_eq context.device_type "maca")) (is_thread_local_complex context) _ _ _
        h in
    (
      div-mul_self n 1024 ((==_iff (n % 1024) 0).0 whole),
      div-mul_self (n / 1024) 32 ((==_iff ((n / 1024) % 32) 0).0 inner),
      radix,
    )

composite_supported :
    (radix : ℕ)
    → contains generated_composite_radices radix ≡ true
    → contains supported_radices radix ≡ true
unfolding contains
composite_supported radix h = ground arith

pub thread_local_leaf-IsPlanOf :
    (register_radix : ℕ)
    → contains generated_composite_radices register_radix ≡ true
    → IsPlanOf (register_radix * 32) (thread_local_leaf register_radix)
unfolding thread_local_leaf length_of product all_of contains
thread_local_leaf-IsPlanOf register_radix h = (
  IsFactors-of_IsSplit (register_radix * 32) (register_radix ∷ 32 ∷ [])
      (refl, rw (composite_supported register_radix h) refl),
  refl,
)

pub thousand : (n : ℕ) → 1 ≤ n → n / 1024 * 1024 ≡ n → 1 ≤ n / 1024
thousand n positive whole = omega arith
