-- ===== src/Plan/Json.antt =====
-- Plans as JSON documents: `plan_node_to_json` of `src/utils/plan_json.cpp` and `plan_node_from_json`
-- of `src/plan/plan_deserialize.cpp`. The documents are those of nlohmann's library, a parameter.
pub mod Fields
pub mod RoundTrip
use Prim.Native.String.{String}
use text.Mathlib.Text.{◌==◌ as str_eq}
use flag_fft.Prelude.{
  ℕ, zero, suc, ◌-◌, ◌<◌, ◌^◌, List, [], ◌∷◌, Option, none, some, Bool, true, false, if◌then◌else◌,
  ◌≡◌, Result, ok, throws, ◌>>=◌, unknown_kind, out_of_fuel,
}
use flag_fft.Base.{ceil_power_of_two}
use flag_fft.Base.PlanKinds.{
  PlanNodeKind, plan_node_kind_name, kind_of_name, ct_leaf, four_step, direct_dft,
  stockham_autosort, bluestein, rader, two_dim, three_dim,
}
use flag_fft.Planner.Context.{RequestContext}
use flag_fft.Planner.Lanes.{choose_lanes, choose_num_warps, is_single_stage}
use flag_fft.Plan.{
  TwoDimStrategy, rtrt, ThreeDimStrategy, rtrt_3d, PlanNode, leaf_plan, direct_dft_plan,
  stockham_plan, four_step_plan, bluestein_plan, rader_plan, two_dim_plan, three_dim_plan,
  length_of, kind_of, generic_radices_of,
}

-- What the code calls of `nlohmann::json`: a new value, assignment to a key, `at`, `contains`, the
-- values of text, numbers and lists, and `get<T>` for the types that the code asks for.
pub record JsonLibrary (J : Type 0) : Type 0 where
  pub fresh : J
  pub set : J → String → J → J
  pub at : J → String → Result J
  pub contains : J → String → Bool
  pub text : String → J
  pub number : ℕ → J
  pub numbers : List ℕ → J
  pub array : J
  pub get_text : J → Result String
  pub get_number : J → Result ℕ
  pub get_int : J → Result ℕ
  pub get_numbers : J → Result (List ℕ)

-- What the documentation of the library promises: a key that is assigned is found, the others are
-- left, a value is read back, and `get<int>` reads a number that an `int` holds. A new value of the
-- library is null, to which keys are assigned as to an empty object; `is_object` is true of both, and the
-- exceptions of `at` for a key that either lacks are one in the model.
pub record JsonLaws (J : Type 0) (json : JsonLibrary J) : Type 0 where
  pub is_object : J → Bool
  pub fresh_object : is_object json.fresh ≡ true
  pub set_object :
      (o : J) (k : String) (v : J) → is_object o ≡ true → is_object (json.set o k v) ≡ true
  pub at_set :
      (o : J) (k : String) (v : J) (l : String)
      → is_object o ≡ true
      → json.at (json.set o k v) l ≡ (if str_eq k l then ok v else json.at o l)
  pub contains_set :
      (o : J) (k : String) (v : J) (l : String)
      → is_object o ≡ true
      → json.contains (json.set o k v) l ≡ (if str_eq k l then true else json.contains o l)
  pub get_text_text : (t : String) → json.get_text (json.text t) ≡ ok t
  pub get_number_number : (n : ℕ) → json.get_number (json.number n) ≡ ok n
  pub get_int_number : (n : ℕ) → n < 2 ^ 31 → json.get_int (json.number n) ≡ ok n
  pub get_numbers_numbers : (ns : List ℕ) → json.get_numbers (json.numbers ns) ≡ ok ns

-- Assignments `out[key] = value`, one after the other.
unfoldable pub set_all : {J : Type 0} → JsonLibrary J → J → List (String × J) → J
set_all json out [] = out
set_all json out ((key, value) ∷ fields) = set_all json (json.set out key value) fields

unfoldable pub two_dim_strategy_name : TwoDimStrategy → String
two_dim_strategy_name rtrt = "RTRT"

unfoldable pub three_dim_strategy_name : ThreeDimStrategy → String
three_dim_strategy_name rtrt_3d = "RTRT"

-- The fields of every node, and after them those of its type.
unfoldable pub document : {J : Type 0} → JsonLibrary J → PlanNode → List (String × J) → J
unfolding set_all
document json node own = set_all json json.fresh (
    ("kind", json.text (plan_node_kind_name (kind_of node)))
    ∷ ("length", json.number (length_of node))
    ∷ own)

unfoldable pub plan_node_to_json : {J : Type 0} → JsonLibrary J → PlanNode → J
unfolding document
plan_node_to_json json (leaf_plan n factors remainder lanes num_warps generic_radices smem_size) =
    document json (leaf_plan n factors remainder lanes num_warps generic_radices smem_size) (
      ("factors", json.numbers factors)
      ∷ ("remainder", json.number remainder)
      ∷ ("lanes", json.number lanes)
      ∷ ("num_warps", json.number num_warps)
      ∷ ("generic_radices", json.numbers generic_radices)
      ∷ ("smem_size", json.number smem_size)
      ∷ [])
plan_node_to_json json (direct_dft_plan n) =
    document json (direct_dft_plan n) (("impl", json.text "torch_matmul") ∷ [])
plan_node_to_json json (stockham_plan n factors) =
    document json (stockham_plan n factors)
      (("factors", json.numbers factors) ∷ ("stages", json.array) ∷ [])
plan_node_to_json json (four_step_plan n n1 n2 row_plan col_plan) =
    document json (four_step_plan n n1 n2 row_plan col_plan) (
      ("n1", json.number n1)
      ∷ ("n2", json.number n2)
      ∷ ("row", plan_node_to_json json row_plan)
      ∷ ("col", plan_node_to_json json col_plan)
      ∷ [])
plan_node_to_json json (bluestein_plan n conv_length fft_plan) =
    document json (bluestein_plan n conv_length fft_plan) (
      ("conv_length", json.number conv_length) ∷ ("fft_plan", plan_node_to_json json fft_plan) ∷ [])
plan_node_to_json json (rader_plan p root idx conv_plan) =
    document json (rader_plan p root idx conv_plan) (
      ("prime", json.number p)
      ∷ ("root", json.number root)
      ∷ ("idx", json.numbers idx)
      ∷ ("conv_length", json.number (p - 1))
      ∷ ("conv_plan", plan_node_to_json json conv_plan)
      ∷ [])
plan_node_to_json json (two_dim_plan n0 n1 strategy row_plan col_plan) =
    document json (two_dim_plan n0 n1 strategy row_plan col_plan) (
      ("n0", json.number n0)
      ∷ ("n1", json.number n1)
      ∷ ("strategy", json.text (two_dim_strategy_name strategy))
      ∷ ("row", plan_node_to_json json row_plan)
      ∷ ("col", plan_node_to_json json col_plan)
      ∷ [])
plan_node_to_json json (three_dim_plan n0 n1 n2 strategy n2_plan n1_plan n0_plan) =
    document json (three_dim_plan n0 n1 n2 strategy n2_plan n1_plan n0_plan) (
      ("n0", json.number n0)
      ∷ ("n1", json.number n1)
      ∷ ("n2", json.number n2)
      ∷ ("strategy", json.text (three_dim_strategy_name strategy))
      ∷ ("n2_plan", plan_node_to_json json n2_plan)
      ∷ ("n1_plan", plan_node_to_json json n1_plan)
      ∷ ("n0_plan", plan_node_to_json json n0_plan)
      ∷ [])

-- `node.at(key).get<T>()`
unfoldable pub read_text : {J : Type 0} → JsonLibrary J → J → String → Result String
read_text json node key = json.at node key >>= json.get_text

unfoldable pub read_number : {J : Type 0} → JsonLibrary J → J → String → Result ℕ
read_number json node key = json.at node key >>= json.get_number

unfoldable pub read_numbers : {J : Type 0} → JsonLibrary J → J → String → Result (List ℕ)
read_numbers json node key = json.at node key >>= json.get_numbers

-- `node.value("remainder", 1)`: the default is an `int`, and so is the value that is read.
unfoldable pub read_int_or : {J : Type 0} → JsonLibrary J → J → String → ℕ → Result ℕ
read_int_or json node key default =
    if json.contains node key then json.at node key >>= json.get_int else ok default

-- `node.contains(key) ? node[key].get<T>() : default`
unfoldable pub number_or : {J : Type 0} → JsonLibrary J → J → String → Result ℕ → Result ℕ
unfolding read_number
number_or json node key default =
    if json.contains node key then read_number json node key else default

unfoldable pub numbers_or :
    {J : Type 0} → JsonLibrary J → J → String → Result (List ℕ) → Result (List ℕ)
unfolding read_numbers
numbers_or json node key default =
    if json.contains node key then read_numbers json node key else default

-- The branch for a leaf.
unfoldable pub leaf_from_json :
    {J : Type 0} → JsonLibrary J → Option RequestContext → ℕ → J → Result PlanNode
unfolding read_numbers read_int_or number_or numbers_or
leaf_from_json json context n node = do
  factors ← read_numbers json node "factors"
  remainder ← read_int_or json node "remainder" 1
  lanes ← number_or json node "lanes" (choose_lanes context n factors)
  num_warps ← number_or json node "num_warps" (ok (choose_num_warps context lanes))
  generic_radices ← numbers_or json node "generic_radices" (ok (generic_radices_of factors))
  smem_size ←
      number_or json node "smem_size"
        (ok (if is_single_stage factors then 0 else ceil_power_of_two n))
  ok (leaf_plan n factors remainder lanes num_warps generic_radices smem_size)

-- The branches by kind; `child` reads a child node from its JSON value.
unfoldable pub kind_from_json :
    {J : Type 0}
    → JsonLibrary J
    → Option RequestContext
    → (J → Result PlanNode)
    → ℕ
    → J
    → Option PlanNodeKind
    → Result PlanNode
unfolding read_number read_numbers leaf_from_json
kind_from_json json context child n node none = throws unknown_kind
kind_from_json json context child n node (some ct_leaf) = leaf_from_json json context n node
kind_from_json json context child n node (some four_step) = do
  n1 ← read_number json node "n1"
  n2 ← read_number json node "n2"
  row_plan ← json.at node "row" >>= child
  col_plan ← json.at node "col" >>= child
  ok (four_step_plan n n1 n2 row_plan col_plan)
kind_from_json json context child n node (some bluestein) = do
  conv_length ← read_number json node "conv_length"
  fft_plan ← json.at node "fft_plan" >>= child
  ok (bluestein_plan n conv_length fft_plan)
kind_from_json json context child n node (some rader) = do
  root ← read_number json node "root"
  idx ← read_numbers json node "idx"
  conv_plan ← json.at node "conv_plan" >>= child
  ok (rader_plan n root idx conv_plan)
kind_from_json json context child n node (some direct_dft) = ok (direct_dft_plan n)
kind_from_json json context child n node (some stockham_autosort) = do
  factors ← read_numbers json node "factors"
  ok (stockham_plan n factors)
kind_from_json json context child n node (some two_dim) = do
  n0 ← read_number json node "n0"
  n1 ← read_number json node "n1"
  row_plan ← json.at node "row" >>= child
  col_plan ← json.at node "col" >>= child
  ok (two_dim_plan n0 n1 rtrt row_plan col_plan)
kind_from_json json context child n node (some three_dim) = do
  n0 ← read_number json node "n0"
  n1 ← read_number json node "n1"
  n2 ← read_number json node "n2"
  n2_plan ← json.at node "n2_plan" >>= child
  n1_plan ← json.at node "n1_plan" >>= child
  n0_plan ← json.at node "n0_plan" >>= child
  ok (three_dim_plan n0 n1 n2 rtrt_3d n2_plan n1_plan n0_plan)

-- `plan_node_from_json`, on fuel for the depth of the document.
unfoldable pub plan_node_from_json :
    {J : Type 0} → JsonLibrary J → Option RequestContext → (fuel : ℕ) → J → Result PlanNode
unfolding read_text read_number kind_from_json
plan_node_from_json json context zero node = throws out_of_fuel
plan_node_from_json json context (suc fuel) node = do
  kind ← read_text json node "kind"
  n ← read_number json node "length"
  kind_from_json json context (plan_node_from_json json context fuel) n node (kind_of_name kind)
