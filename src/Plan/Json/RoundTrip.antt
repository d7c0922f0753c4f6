-- ===== src/Plan/Json/RoundTrip.antt =====
-- Writing a plan as JSON and reading it back.
use flag_fft.Prelude.{ℕ, zero, suc, ◌*◌, ◌<◌, ◌≤◌, ◌^◌, List, Option, ◌≡◌, refl, ok, arith}
use flag_fft.Base.PlanKinds.{kind_of_name, plan_node_kind_name}
use flag_fft.Planner.Context.{RequestContext}
use flag_fft.Plan.{
  rtrt, rtrt_3d, PlanNode, leaf_plan, direct_dft_plan, stockham_plan, four_step_plan,
  bluestein_plan, rader_plan, two_dim_plan, three_dim_plan, height, kind_of, length_of,
}
use flag_fft.Plan.Json.{
  JsonLibrary, JsonLaws, document, plan_node_to_json, leaf_from_json, kind_from_json,
  plan_node_from_json,
}
use flag_fft.Plan.Json.Fields.{
  or_else, last_field, at-field, read_text-field, read_number-field, read_numbers-field,
  read_int_or-field, number_or-field, numbers_or-field,
}

-- The remainders of the leaves, which are read as an `int`, fit one.
abbrev pub HasIntRemainders : PlanNode → Type 0
HasIntRemainders (leaf_plan n factors remainder lanes num_warps generic_radices smem_size) =
    remainder < 2 ^ 31
HasIntRemainders (four_step_plan n n1 n2 row_plan col_plan) =
    HasIntRemainders row_plan × HasIntRemainders col_plan
HasIntRemainders (bluestein_plan n conv_length fft_plan) = HasIntRemainders fft_plan
HasIntRemainders (rader_plan p root idx conv_plan) = HasIntRemainders conv_plan
HasIntRemainders (two_dim_plan n0 n1 strategy row_plan col_plan) =
    HasIntRemainders row_plan × HasIntRemainders col_plan
HasIntRemainders (three_dim_plan n0 n1 n2 strategy n2_plan n1_plan n0_plan) =
    HasIntRemainders n2_plan × (HasIntRemainders n1_plan × HasIntRemainders n0_plan)
HasIntRemainders _ = Unit

module _ {J : Type 0} (json : JsonLibrary J) (laws : JsonLaws J json)
    (context : Option RequestContext) where
  abbrev Reads : ℕ → PlanNode → Type 0
  Reads fuel node = plan_node_from_json json context fuel (plan_node_to_json json node) ≡ ok node

  Reads-leaf :
      (fuel n : ℕ) (factors : List ℕ) (remainder lanes num_warps : ℕ) (generic_radices : List ℕ)
      (smem_size : ℕ)
      → remainder < 2 ^ 31
      → Reads (suc fuel) (leaf_plan n factors remainder lanes num_warps generic_radices smem_size)
  unfolding plan_node_from_json plan_node_to_json kind_from_json leaf_from_json document length_of
      kind_of kind_of_name plan_node_kind_name last_field or_else
  Reads-leaf fuel n factors remainder lanes num_warps generic_radices smem_size h =
      rw
        (
          read_text-field json laws _ "kind" "ct_leaf" refl,
          read_number-field json laws _ "length" n refl,
          read_numbers-field json laws _ "factors" factors refl,
          read_int_or-field json laws _ "remainder" remainder 1 h refl,
          number_or-field json laws _ "lanes" lanes _ refl,
          number_or-field json laws _ "num_warps" num_warps _ refl,
          numbers_or-field json laws _ "generic_radices" generic_radices _ refl,
          number_or-field json laws _ "smem_size" smem_size _ refl,
        )
        refl

  -- A plan that is written as JSON and read back, with fuel for its height and leaf remainders that
  -- an `int` holds, is the plan that was written, whatever context the reader has.
  pub plan_node_from_json-plan_node_to_json :
      (fuel : ℕ) (node : PlanNode)
      → height node ≤ fuel
      → HasIntRemainders node
      → plan_node_from_json json context fuel (plan_node_to_json json node) ≡ ok node
  unfolding plan_node_from_json plan_node_to_json kind_from_json document length_of kind_of
      kind_of_name plan_node_kind_name last_field or_else height
  plan_node_from_json-plan_node_to_json zero
        (leaf_plan n factors remainder lanes num_warps generic_radices smem_size) low r =
      absurd (omega arith)
  plan_node_from_json-plan_node_to_json zero _ low r = absurd (omega arith)
  plan_node_from_json-plan_node_to_json (suc fuel)
        (leaf_plan n factors remainder lanes num_warps generic_radices smem_size) low r =
      Reads-leaf fuel n factors remainder lanes num_warps generic_radices smem_size r
  plan_node_from_json-plan_node_to_json (suc fuel) (direct_dft_plan n) low r =
      rw
        (
          read_text-field json laws _ "kind" "direct_dft" refl,
          read_number-field json laws _ "length" n refl,
        )
        refl
  plan_node_from_json-plan_node_to_json (suc fuel) (stockham_plan n factors) low r =
      rw
        (
          read_text-field json laws _ "kind" "stockham_autosort" refl,
          read_number-field json laws _ "length" n refl,
          read_numbers-field json laws _ "factors" factors refl,
        )
        refl
  plan_node_from_json-plan_node_to_json (suc fuel) (four_step_plan n n1 n2 row col) low (r, s) =
      rw
        (
          read_text-field json laws _ "kind" "four_step" refl,
          read_number-field json laws _ "length" n refl,
          read_number-field json laws _ "n1" n1 refl,
          read_number-field json laws _ "n2" n2 refl,
          at-field json laws _ "row" (plan_node_to_json json row) refl,
          at-field json laws _ "col" (plan_node_to_json json col) refl,
          plan_node_from_json-plan_node_to_json fuel row (omega arith) r,
          plan_node_from_json-plan_node_to_json fuel col (omega arith) s,
        )
        refl
  plan_node_from_json-plan_node_to_json (suc fuel) (bluestein_plan n conv_length fft_plan) low r =
      rw
        (
          read_text-field json laws _ "kind" "bluestein" refl,
          read_number-field json laws _ "length" n refl,
          read_number-field json laws _ "conv_length" conv_length refl,
          at-field json laws _ "fft_plan" (plan_node_to_json json fft_plan) refl,
          plan_node_from_json-plan_node_to_json fuel fft_plan (omega arith) r,
        )
        refl
  plan_node_from_json-plan_node_to_json (suc fuel) (rader_plan p root idx conv_plan) low r =
      rw
        (
          read_text-field json laws _ "kind" "rader" refl,
          read_number-field json laws _ "length" p refl,
          read_number-field json laws _ "root" root refl,
          read_numbers-field json laws _ "idx" idx refl,
          at-field json laws _ "conv_plan" (plan_node_to_json json conv_plan) refl,
          plan_node_from_json-plan_node_to_json fuel conv_plan (omega arith) r,
        )
        refl
  plan_node_from_json-plan_node_to_json (suc fuel) (two_dim_plan n0 n1 rtrt row col) low (r, s) =
      rw
        (
          read_text-field json laws _ "kind" "two_dim" refl,
          read_number-field json laws _ "length" (n0 * n1) refl,
          read_number-field json laws _ "n0" n0 refl,
          read_number-field json laws _ "n1" n1 refl,
          at-field json laws _ "row" (plan_node_to_json json row) refl,
          at-field json laws _ "col" (plan_node_to_json json col) refl,
          plan_node_from_json-plan_node_to_json fuel row (omega arith) r,
          plan_node_from_json-plan_node_to_json fuel col (omega arith) s,
        )
        refl
  plan_node_from_json-plan_node_to_json (suc fuel)
        (three_dim_plan n0 n1 n2 rtrt_3d n2_plan n1_plan n0_plan) low (r, (s, t)) =
      rw
        (
          read_text-field json laws _ "kind" "three_dim" refl,
          read_number-field json laws _ "length" (n0 * n1 * n2) refl,
          read_number-field json laws _ "n0" n0 refl,
          read_number-field json laws _ "n1" n1 refl,
          read_number-field json laws _ "n2" n2 refl,
          at-field json laws _ "n2_plan" (plan_node_to_json json n2_plan) refl,
          at-field json laws _ "n1_plan" (plan_node_to_json json n1_plan) refl,
          at-field json laws _ "n0_plan" (plan_node_to_json json n0_plan) refl,
          plan_node_from_json-plan_node_to_json fuel n2_plan (omega arith) r,
          plan_node_from_json-plan_node_to_json fuel n1_plan (omega arith) s,
          plan_node_from_json-plan_node_to_json fuel n0_plan (omega arith) t,
        )
        refl
