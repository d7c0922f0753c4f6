-- ===== src/Planner/Npu/Returns.antt =====
-- The loop of the Ascend branch that splits the factors of a length once more, and its exception.
use flag_fft.Prelude.{
  ℕ, ◌*◌, ◌≤◌, List, [], ◌∷◌, ◌++◌, true, ◌==◌, ◌≡◌, refl, ap, ◌∙◌, inl, inr, product, ok, all_of,
  all_of-In,
}
use flag_fft.Base.{supported_radices}
use flag_fft.Planner.Enumerate.Exact.{AllSupported}
use flag_fft.Planner.Radices.{Factorization, factorize_supported_radices}
use flag_fft.Planner.Radices.Greedy.{IsSupported, factorize_supported_radices-IsFactored}
use flag_fft.Planner.Npu.{take_radix, take_radices, natural_radices, join_taken, natural_factors}
use flag_fft.Planner.Npu.Factors.{natural_factors_lem}

-- A supported radix is split up whole.
taken_whole : (radix : ℕ) → IsSupported radix → (take_radices natural_radices radix).1 == 1 ≡ true
unfolding take_radices take_radix all_of
taken_whole radix h =
    all_of-In (λ r. (take_radices natural_radices r).1 == 1) supported_radices radix all_whole h
  where
    all_whole : all_of (λ r. (take_radices natural_radices r).1 == 1) supported_radices ≡ true
    all_whole = refl

pub natural_factors-returns :
    (factors : List ℕ)
    → AllSupported factors
    → (found : List ℕ) × (natural_factors factors ≡ ok found) × (product found ≡ product factors)
unfolding natural_factors join_taken
natural_factors-returns factors h =
    let (found, e) = returns factors h in (found, e, natural_factors_lem factors found e)
  where
    returns :
        (factors : List ℕ)
        → AllSupported factors
        → (found : List ℕ) × (natural_factors factors ≡ ok found)
    returns [] h = ([], refl)
    returns (factor ∷ factors) h =
        let (found, e) = returns factors (λ r m. h r (inr m)) in
        (
          (take_radices natural_radices factor).0 ++ found,
          rw (taken_whole factor (h factor (inl refl)), e) refl,
        )

-- The Ascend branch splits the greedy factors of every positive length without meeting the exception of
-- its loop, and the stages and the greedy remainder multiply to the length.
pub natural_factors-factorize_supported_radices :
    (n : ℕ)
    → 1 ≤ n
    → (f : Factorization) × (found : List ℕ) × (factorize_supported_radices n ≡ ok f)
      × (natural_factors f.factors ≡ ok found)
      × (product found * f.remainder ≡ n)
natural_factors-factorize_supported_radices n positive =
    let (f, e, h) = factorize_supported_radices-IsFactored n positive in
    let (found, k, same) = natural_factors-returns f.factors h.supported in
    (f, found, e, k, ap (λ whole. whole * f.remainder) same ∙ h.whole)
