-- ===== src/Planner/Strings.antt =====
-- What the planner asks of the C++ library to read a setting: `std::stoll`, and the parts of a text
-- between separators.
use Prim.Native.String.{String}
use flag_fft.Prelude.{
  ℕ, List, Option, none, some, Bool, ◌==◌, when◌then◌else◌, Result, ok, throws, bad_setting,
}
use flag_fft.Api.Ints.{ℤ}

pub record Strings : Type 0 where
  -- The number at the start of a text and how many characters it takes; `none` where `std::stoll`
  -- throws.
  pub stoll : String → Option (ℤ × ℕ)
  pub size : String → ℕ
  -- The parts before and after the first place where a separator stands, if there is one.
  pub cut : (separator text : String) → Option (String × String)
  -- The parts before, between and after the places where a separator stands.
  pub split : (separator text : String) → List String

-- `std::stoll(text, &parsed)` where `parsed` has to be the size of the text.
unfoldable pub whole_number : Strings → String → Option (ℤ × ℕ) → Option ℤ
whole_number strings text none = none
whole_number strings text (some (value, parsed)) =
    when parsed == strings.size text then some value else none

unfoldable pub read_number : Strings → String → Option ℤ
unfolding whole_number
read_number strings text = whole_number strings text (strings.stoll text)

-- A number that passes a test, or the exception that names the setting.
unfoldable pub accepted : (ℤ → Bool) → String → Option ℤ → Result ℤ
accepted test name none = throws (bad_setting name)
accepted test name (some value) = when test value then ok value else throws (bad_setting name)
