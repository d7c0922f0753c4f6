-- ===== src/Base/PlanKinds.antt =====
-- `PlanNodeKind` and its names.
use Prim.Native.String.{String}
use text.Mathlib.Text.{◌==◌ as str_eq}
use mathlib.Core.Option.{some-injective}
use flag_fft.Prelude.{◌≡◌, refl, sym, ap, ◌∙◌, Option, none, some, if◌then◌else◌}

pub data PlanNodeKind : Type 0 where
  ct_leaf four_step direct_dft stockham_autosort bluestein rader two_dim three_dim : PlanNodeKind

unfoldable pub plan_node_kind_name : PlanNodeKind → String
plan_node_kind_name ct_leaf = "ct_leaf"
plan_node_kind_name four_step = "four_step"
plan_node_kind_name direct_dft = "direct_dft"
plan_node_kind_name stockham_autosort = "stockham_autosort"
plan_node_kind_name bluestein = "bluestein"
plan_node_kind_name rader = "rader"
plan_node_kind_name two_dim = "two_dim"
plan_node_kind_name three_dim = "three_dim"

-- The kind that a name stands for, in the order of the tests of `plan_node_from_json`.
unfoldable pub kind_of_name : String → Option PlanNodeKind
kind_of_name s =
    if str_eq s "ct_leaf"
    then some ct_leaf
    else if str_eq s "four_step"
    then some four_step
    else if str_eq s "bluestein"
    then some bluestein
    else if str_eq s "rader"
    then some rader
    else if str_eq s "direct_dft"
    then some direct_dft
    else if str_eq s "stockham_autosort"
    then some stockham_autosort
    else if str_eq s "two_dim"
    then some two_dim
    else if str_eq s "three_dim"
    then some three_dim
    else none

-- A name is read back as its kind.
pub kind_of_name-plan_node_kind_name :
    (k : PlanNodeKind) → kind_of_name (plan_node_kind_name k) ≡ some k
unfolding kind_of_name plan_node_kind_name
kind_of_name-plan_node_kind_name ct_leaf = refl
kind_of_name-plan_node_kind_name _ = refl

-- Two kinds of plan nodes with the same name are the same kind.
pub plan_node_kind_name-injective :
    (a b : PlanNodeKind) → plan_node_kind_name a ≡ plan_node_kind_name b → a ≡ b
plan_node_kind_name-injective a b e = some-injective a b (
    sym (kind_of_name-plan_node_kind_name a)
    ∙ ap kind_of_name e
    ∙ kind_of_name-plan_node_kind_name b)
