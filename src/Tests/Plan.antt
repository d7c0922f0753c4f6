-- ===== src/Tests/Plan.antt =====
-- A four-step plan with two leaves, written and read with a small JSON library.
use Prim.Native.String.{String}
use text.Mathlib.Text.{◌==◌ as str_eq}
use flag_fft.Prelude.{
  ℕ, List, [], ◌∷◌, none, Bool, true, false, if◌then◌else◌, ◌≡◌, refl, Result, ok, throws,
  missing_key, wrong_type, arith,
}
use flag_fft.Plan.{PlanNode, leaf_plan, four_step_plan, height}
use flag_fft.Plan.Json.{JsonLibrary, JsonLaws, plan_node_to_json, plan_node_from_json}
use flag_fft.Plan.Json.RoundTrip.{plan_node_from_json-plan_node_to_json}

-- A document is a chain of assignments.
data Value : Type 0 where
  empty an_array : Value
  a_text : String → Value
  a_number : ℕ → Value
  some_numbers : List ℕ → Value
  assigned : Value → String → Value → Value

abbrev at_key : Value → String → Result Value
at_key (assigned o k v) l = if str_eq k l then ok v else at_key o l
at_key _ l = throws (missing_key l)

abbrev has_key : Value → String → Bool
has_key (assigned o k v) l = if str_eq k l then true else has_key o l
has_key _ l = false

abbrev text_of : Value → Result String
text_of (a_text t) = ok t
text_of _ = throws wrong_type

abbrev number_of : Value → Result ℕ
number_of (a_number n) = ok n
number_of _ = throws wrong_type

abbrev numbers_of : Value → Result (List ℕ)
numbers_of (some_numbers ns) = ok ns
numbers_of _ = throws wrong_type

abbrev values : JsonLibrary Value
values = record {
  fresh = empty;
  set = assigned;
  at = at_key;
  contains = has_key;
  text = a_text;
  number = a_number;
  numbers = some_numbers;
  array = an_array;
  get_text = text_of;
  get_number = number_of;
  get_int = number_of;
  get_numbers = numbers_of;
}

values_laws : JsonLaws Value values
values_laws = record {
  is_object = λ o. true;
  fresh_object = refl;
  set_object = λ o k v h. refl;
  at_set = λ o k v l h. refl;
  contains_set = λ o k v l h. refl;
  get_text_text = λ t. refl;
  get_number_number = λ n. refl;
  get_int_number = λ n h. refl;
  get_numbers_numbers = λ ns. refl;
}

abbrev leaf_of_64 : PlanNode
leaf_of_64 = leaf_plan 64 (8 ∷ 8 ∷ []) 1 8 1 [] 64

abbrev plan_of_4096 : PlanNode
plan_of_4096 = four_step_plan 4096 64 64 leaf_of_64 leaf_of_64

plan_node_from_json-plan_node_to_json_example :
    plan_node_from_json values none 2 (plan_node_to_json values plan_of_4096) ≡ ok plan_of_4096
unfolding height
plan_node_from_json-plan_node_to_json_example =
    plan_node_from_json-plan_node_to_json values values_laws none 2 plan_of_4096 (omega arith)
      (omega arith, omega arith)
