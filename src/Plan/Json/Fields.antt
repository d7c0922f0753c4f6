-- ===== src/Plan/Json/Fields.antt =====
-- Reading a document that was written field by field: the last assignment to a key counts.
use Prim.Native.String.{String}
use text.Mathlib.Text.{◌==◌ as str_eq}
use flag_fft.Prelude.{
  ℕ, ◌<◌, ◌^◌, List, [], ◌∷◌, Option, none, some, Bool, true, false, if◌then◌else◌, ◌≡◌, refl, ap,
  ◌∙◌, Result, ok, ◌>>=◌,
}
use flag_fft.Plan.Json.{
  JsonLibrary, JsonLaws, set_all, read_text, read_number, read_numbers, read_int_or, number_or,
  numbers_or,
}

unfoldable pub or_else : {J : Type 0} → Option J → Option J → Option J
or_else (some v) other = some v
or_else none other = other

unfoldable pub last_field : {J : Type 0} → List (String × J) → String → Option J
unfolding or_else
last_field [] key = none
last_field ((k, v) ∷ fields) key =
    or_else (last_field fields key) (if str_eq k key then some v else none)

unfoldable found : {J : Type 0} → Option J → Result J → Result J
found (some v) other = ok v
found none other = other

unfoldable is_found : {J : Type 0} → Option J → Bool → Bool
is_found (some v) other = true
is_found none other = other

found-or_else :
    {J : Type 0} (l : Option J) (test : Bool) (v : J) (other : Result J)
    → found l (if test then ok v else other)
      ≡ found (or_else l (if test then some v else none)) other
unfolding found or_else
found-or_else (some u) test v other = refl
found-or_else none true v other = refl
found-or_else none false v other = refl

is_found-or_else :
    {J : Type 0} (l : Option J) (test : Bool) (v : J) (other : Bool)
    → is_found l (if test then true else other)
      ≡ is_found (or_else l (if test then some v else none)) other
unfolding is_found or_else
is_found-or_else (some u) test v other = refl
is_found-or_else none true v other = refl
is_found-or_else none false v other = refl

module _ {J : Type 0} (json : JsonLibrary J) (laws : JsonLaws J json) where
  at-set_all :
      (o : J) (fields : List (String × J)) (key : String)
      → laws.is_object o ≡ true
      → json.at (set_all json o fields) key ≡ found (last_field fields key) (json.at o key)
  unfolding set_all last_field found
  at-set_all o [] key h = refl
  at-set_all o ((k, w) ∷ fields) key h =
      at-set_all (json.set o k w) fields key (laws.set_object o k w h)
      ∙ ap (found (last_field fields key)) (laws.at_set o k w key h)
      ∙ found-or_else (last_field fields key) (str_eq k key) w (json.at o key)

  contains-set_all :
      (o : J) (fields : List (String × J)) (key : String)
      → laws.is_object o ≡ true
      → json.contains (set_all json o fields) key
        ≡ is_found (last_field fields key) (json.contains o key)
  unfolding set_all last_field is_found
  contains-set_all o [] key h = refl
  contains-set_all o ((k, w) ∷ fields) key h =
      contains-set_all (json.set o k w) fields key (laws.set_object o k w h)
      ∙ ap (is_found (last_field fields key)) (laws.contains_set o k w key h)
      ∙ is_found-or_else (last_field fields key) (str_eq k key) w (json.contains o key)

  -- A new document of these fields, and a key that was assigned.
  pub at-field :
      (fields : List (String × J)) (key : String) (v : J)
      → last_field fields key ≡ some v
      → json.at (set_all json json.fresh fields) key ≡ ok v
  unfolding found
  at-field fields key v e =
      at-set_all json.fresh fields key laws.fresh_object
      ∙ ap (λ l. found l (json.at json.fresh key)) e

  contains-field :
      (fields : List (String × J)) (key : String) (v : J)
      → last_field fields key ≡ some v
      → json.contains (set_all json json.fresh fields) key ≡ true
  unfolding is_found
  contains-field fields key v e =
      contains-set_all json.fresh fields key laws.fresh_object
      ∙ ap (λ l. is_found l (json.contains json.fresh key)) e

  pub read_text-field :
      (fields : List (String × J)) (key t : String)
      → last_field fields key ≡ some (json.text t)
      → read_text json (set_all json json.fresh fields) key ≡ ok t
  unfolding read_text
  read_text-field fields key t e =
      ap (λ r. r >>= json.get_text) (at-field fields key _ e) ∙ laws.get_text_text t

  pub read_number-field :
      (fields : List (String × J)) (key : String) (n : ℕ)
      → last_field fields key ≡ some (json.number n)
      → read_number json (set_all json json.fresh fields) key ≡ ok n
  unfolding read_number
  read_number-field fields key n e =
      ap (λ r. r >>= json.get_number) (at-field fields key _ e) ∙ laws.get_number_number n

  pub read_numbers-field :
      (fields : List (String × J)) (key : String) (ns : List ℕ)
      → last_field fields key ≡ some (json.numbers ns)
      → read_numbers json (set_all json json.fresh fields) key ≡ ok ns
  unfolding read_numbers
  read_numbers-field fields key ns e =
      ap (λ r. r >>= json.get_numbers) (at-field fields key _ e) ∙ laws.get_numbers_numbers ns

  pub read_int_or-field :
      (fields : List (String × J)) (key : String) (n default : ℕ)
      → n < 2 ^ 31
      → last_field fields key ≡ some (json.number n)
      → read_int_or json (set_all json json.fresh fields) key default ≡ ok n
  unfolding read_int_or
  read_int_or-field fields key n default h e =
      rw (contains-field fields key _ e)
        (ap (λ r. r >>= json.get_int) (at-field fields key _ e) ∙ laws.get_int_number n h)

  pub number_or-field :
      (fields : List (String × J)) (key : String) (n : ℕ) (default : Result ℕ)
      → last_field fields key ≡ some (json.number n)
      → number_or json (set_all json json.fresh fields) key default ≡ ok n
  unfolding number_or
  number_or-field fields key n default e =
      rw (contains-field fields key _ e) (read_number-field fields key n e)

  pub numbers_or-field :
      (fields : List (String × J)) (key : String) (ns : List ℕ) (default : Result (List ℕ))
      → last_field fields key ≡ some (json.numbers ns)
      → numbers_or json (set_all json json.fresh fields) key default ≡ ok ns
  unfolding numbers_or
  numbers_or-field fields key ns default e =
      rw (contains-field fields key _ e) (read_numbers-field fields key ns e)
