-- ===== src/Prelude/Results.antt =====
-- Exceptions as values: a `std::runtime_error` for each message that the modelled code throws.
use Prim.Native.String.{String}
use mathlib.Core.Option.{Option}
use mathlib.Core.Path.{◌≡◌, refl, ap}

pub data Error : Type 0 where
  not_prime_length no_primitive_root short_index_table : Error
  length_not_positive not_factorable no_radix_stage : Error
  codelet_decode_overflow unsupported_radix no_route : Error
  -- The environment variable of this name has a value that the code refuses.
  bad_setting : String → Error
  unsupported_experiment compare_only_for_tune experiment_prerequisites : Error
  no_request_context unsupported_dtype no_candidates undefined_behaviour : Error
  -- A value of a JSON document that is not there, or not of the type asked for.
  missing_key : String → Error
  wrong_type unknown_kind out_of_fuel : Error

-- What a function that may throw gives: the exception, or its value.
pub data Result {ℓ} (Value : Type ℓ) : Type ℓ where
  throws : Error → Result Value
  ok : Value → Result Value

-- The statements after the first one run where it does not throw.
infixl 5 ◌>>=◌
abbrev pub ◌>>=◌ {ℓ κ} :
    {Value : Type ℓ} {Next : Type κ} (first : Result Value) (next : Value → Result Next)
    → Result Next
throws error >>= next = throws error
ok value >>= next = next value

-- Where the whole run gives a value, its first statement gave one.
pub >>=-eq-ok {ℓ κ} :
    {Value : Type ℓ} {Next : Type κ} {result : Next} (first : Result Value)
    (next : Value → Result Next)
    → first >>= next ≡ ok result
    → (value : Value) × (first ≡ ok value) × (next value ≡ ok result)
>>=-eq-ok (throws error) next run = cc
>>=-eq-ok (ok value) next run = (value, refl, run)

unwrap_or {ℓ} : {A : Type ℓ} → A → Result A → A
unwrap_or a (ok b) = b
unwrap_or a (throws e) = a

pub ok-injective {ℓ} : {A : Type ℓ} (a b : A) → ok a ≡ ok b → a ≡ b
unfolding unwrap_or
ok-injective a b e = ap (unwrap_or a) e

-- `std::getenv`: `none` is a null pointer.
abbrev pub Env : Type 0
Env = String → Option String
