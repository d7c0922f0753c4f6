-- ===== src/Prelude/Giving.antt =====
-- What holds of the value that a result gives, if it gives one: rules along the structure of the code.
use mathlib.Core.Path.{◌≡◌, subst}
use mathlib.Core.Logic.{inl, inr}
use mathlib.Core.Bool.{Bool, true, false}
use flag_fft.Prelude.Tests.{when◌then◌else◌, Bool-cases}
use flag_fft.Prelude.Results.{Error, Result, ok, throws, ◌>>=◌}

abbrev Holds {ℓ} : {Value : Type ℓ} → (Value → Type 0) → Result Value → Type 0
Holds P (throws e) = Unit
Holds P (ok value) = P value

pub record Ensures {ℓ} {Value : Type ℓ} (P : Value → Type 0) (result : Result Value) : Type 0 where
  given : Holds P result

-- The statements after the first one, as an operator that computes only where it is unfolded.
infixl 5 ◌and_then◌
unfoldable pub ◌and_then◌ {ℓ κ} :
    {Value : Type ℓ} {Next : Type κ} → Result Value → (Value → Result Next) → Result Next
first and_then next = first >>= next

module _ {ℓ} {Value : Type ℓ} {P : Value → Type 0} where
  pub Ensures-ok : {value : Value} → P value → Ensures P (ok value)
  Ensures-ok h = record { given = h }

  pub Ensures-throws : {e : Error} → Ensures P (throws e)
  Ensures-throws = record { given = tt }

  pub Ensures-if :
      {test : Bool} {first other : Result Value}
      → (test ≡ true → Ensures P first)
      → (test ≡ false → Ensures P other)
      → Ensures P (when test then first else other)
  unfolding when◌then◌else◌
  Ensures-if {test = test} h k = elim (Bool-cases test) [ inl e ↦ rw e (h e) | inr e ↦ rw e (k e) ]

  pub Ensures-run :
      {result : Result Value} {value : Value} → Ensures P result → result ≡ ok value → P value
  Ensures-run h e = (subst (Ensures P) e h).given

pub Ensures-and_then {ℓ κ} :
    {Value : Type ℓ} {Next : Type κ} {P : Value → Type 0} {Q : Next → Type 0} {first : Result Value}
    {next : Value → Result Next}
    → Ensures P first
    → ((value : Value) → P value → Ensures Q (next value))
    → Ensures Q (first and_then next)
unfolding ◌and_then◌
Ensures-and_then {first = throws e} h k = Ensures-throws
Ensures-and_then {first = ok value} h k = k value h.given
