-- ===== src/Api/Setup.antt =====
-- The second half of `build_plan` of `src/exec/c_api_plan.cpp`: from a plan tree and its requests to the
-- compiled nodes and the handle. The compiler is an interface; the pass over a plan tree of each of its
-- functions gives a node or throws.
use Prim.Native.String.{String}
use text.Mathlib.Text.{◌==◌ as str_eq}
use flag_fft.Prelude.{
  ◌*◌, Option, none, some, Bool, true, false, not, ◌&&◌, ◌||◌, leb, ◌==◌, when◌then◌else◌, Result,
  ok, ◌and_then◌, Env, map,
}
use flag_fft.Base.{FftRequest}
use flag_fft.Plan.{PlanNode}
use flag_fft.Policy.{is_value}
use flag_fft.Api.Ints.{ℤ}
use flag_fft.Api.{
  PlanDesc, is_real_forward, is_real_inverse, is_supported_2d_desc, is_supported_3d_desc,
}
use flag_fft.Api.Request.{magnitude, nth}
use flag_fft.Api.Handles.{Executable, FlagFftPlan}

-- A function of `TritonCompiler`.
abbrev pub Pass : Type 0 → Type 0
Pass Node = PlanNode → FftRequest → ℤ → Result Node

pub record Passes (Node : Type 0) : Type 0 where
  pub complex : Pass Node
  pub real_to_complex : Pass Node
  pub complex_to_real : Pass Node

-- The functions for one, two and three dimensions, and `CompiledRawGraphNode`.
pub record Compiler (Node : Type 0) : Type 0 where
  pub line : Passes Node
  pub plane : Passes Node
  pub block : Passes Node
  pub graph_node : Node → Node

pub record Planned : Type 0 where
  pub root : PlanNode
  pub forward_request : FftRequest
  pub inverse_request : FftRequest

module _ {Node : Type 0} where
  unfoldable pub executable_of : Planned → Option Node → Option Node → Executable Node
  executable_of planned forward inverse = record {
    forward_request = planned.forward_request;
    inverse_request = planned.inverse_request;
    forward = forward;
    inverse = inverse;
  }

  -- The directions that the type of the transform has are compiled.
  unfoldable pub compile_directions : Passes Node → PlanDesc → Planned → Result (Executable Node)
  unfolding executable_of
  compile_directions passes desc planned =
      when is_real_forward desc.fft_type
      then passes.real_to_complex planned.root planned.forward_request desc.batch
        and_then (λ node. ok (executable_of planned (some node) none))
      else when is_real_inverse desc.fft_type
      then passes.complex_to_real planned.root planned.inverse_request desc.batch
        and_then (λ node. ok (executable_of planned none (some node)))
      else passes.complex planned.root planned.forward_request desc.batch and_then λ node.
          passes.complex planned.root planned.inverse_request desc.batch and_then λ other.
          ok (executable_of planned (some node) (some other))

unfoldable pub is_unset : Option String → Bool
is_unset none = true
is_unset (some value) = false

-- Whether the block may be recorded as one graph.
unfoldable pub graph_allowed : Env → PlanDesc → Planned → Bool
unfolding is_unset
graph_allowed env desc planned =
    let n0 = nth (map magnitude desc.n) 0 in
    let n1 = nth (map magnitude desc.n) 1 in
    let n2 = nth (map magnitude desc.n) 2 in
    let batch = magnitude desc.batch in
    let graph_max_elements =
      when is_value (env "FLAGFFT_HCU_3D_GRAPH_LARGE") "1" then 4 * 1024 * 1024 else 64 * 64 * 64 in
    let real_transform = is_real_forward desc.fft_type || is_real_inverse desc.fft_type in
    let hcu_prime_real_graph =
      str_eq planned.forward_request.device_type "hcu"
      && real_transform
      && batch == 1
      && n0 == 16
      && n1 == 997
      && n2 == 64 in
    let total_elements = batch * n0 * n1 * n2 in
    str_eq planned.forward_request.device_type "hcu"
    && (leb total_elements graph_max_elements || hcu_prime_real_graph)
    && is_unset (env "FLAGFFT_PROFILE_KERNELS")
    && not (is_value (env "FLAGFFT_HCU_3D_GRAPH") "0")

module _ {Node : Type 0} where
  unfoldable pub wrap_node : (Node → Node) → Option Node → Option Node
  wrap_node graph_node none = none
  wrap_node graph_node (some node) = some (graph_node node)

  unfoldable pub with_graph : Compiler Node → Bool → Executable Node → Executable Node
  unfolding wrap_node
  with_graph compiler allowed executable =
      when allowed
      then record {
        forward_request = executable.forward_request;
        inverse_request = executable.inverse_request;
        forward = wrap_node compiler.graph_node executable.forward;
        inverse = wrap_node compiler.graph_node executable.inverse;
      }
      else executable

  unfoldable pub compile_executable :
      Env → Compiler Node → PlanDesc → Planned → Result (Executable Node)
  unfolding compile_directions graph_allowed with_graph
  compile_executable env compiler desc planned =
      when is_supported_2d_desc desc
      then compile_directions compiler.plane desc planned
      else when is_supported_3d_desc desc
      then compile_directions compiler.block desc planned and_then (λ executable.
        ok (with_graph compiler (graph_allowed env desc planned) executable))
      else compile_directions compiler.line desc planned

  -- A new plan has no stream of its own yet.
  unfoldable pub new_plan : PlanDesc → Executable Node → FlagFftPlan Node
  new_plan desc executable = record {
    desc = desc;
    initialized = true;
    destroyed = false;
    stream = 0;
    executable = executable;
  }
