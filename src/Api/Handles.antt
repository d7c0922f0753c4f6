-- ===== src/Api/Handles.antt =====
-- The handles of `src/exec/c_api_internal.hpp` and the calls on them of `src/exec/c_api_exec.cpp`: the six
-- functions that run a plan, `flagfftSetStream` and `flagfftDestroy`, in a build without the SiP
-- library. A pointer is a number, 0 the null pointer. The calls come one after another, which is what
-- the mutex of a plan sees to.
pub mod Spec
pub mod Live
pub mod Refine
use flag_fft.Prelude.{
  ℕ, Option, none, some, Bool, true, false, not, ◌&&◌, ◌||◌, ◌==◌, when◌then◌else◌,
}
use flag_fft.Base.{FftRequest}
use flag_fft.Api.Ints.{ℤ, pos, negsuc, same_int}
use flag_fft.Api.{
  FftType, c2c, r2c, c2r, z2z, d2z, z2d, ApiResult, success, invalid_plan, invalid_value,
  invalid_type, PlanDesc,
}

abbrev pub forward_direction : ℤ
forward_direction = negsuc 0

abbrev pub inverse_direction : ℤ
inverse_direction = pos 1

unfoldable pub is_type : FftType → FftType → Bool
is_type c2c c2c = true
is_type z2z z2z = true
is_type r2c r2c = true
is_type d2z d2z = true
is_type c2r c2r = true
is_type z2d z2d = true
is_type _ _ = false

-- `FlagFFTExecutable`, without the keys: the requests and the compiled node of each direction, `none`
-- where the direction is not compiled.
pub record Executable (Node : Type 0) : Type 0 where
  pub forward_request : FftRequest
  pub inverse_request : FftRequest
  pub forward : Option Node
  pub inverse : Option Node

-- `FlagFFTPlan`, with the fields of its `FlagFFTPlanState`.
pub record FlagFftPlan (Node : Type 0) : Type 0 where
  pub desc : PlanDesc
  pub initialized : Bool
  pub destroyed : Bool
  pub stream : ℕ
  pub executable : Executable Node

-- What the memory at a pointer holds: nothing that may be read, or a handle, whose `impl` is null or
-- points to a plan of its own.
pub data Slot (Node : Type 0) : Type 0 where
  unallocated no_impl : Slot Node
  owns : FlagFftPlan Node → Slot Node

-- `RawExecutionContext`
pub record RawExecutionContext : Type 0 where
  pub request : FftRequest
  pub stream : ℕ
  pub batch : ℤ
  pub input_distance : ℤ
  pub output_distance : ℤ

pub record World (Node Device : Type 0) : Type 0 where
  pub slots : ℕ → Slot Node
  pub device : Device

-- A call reads what it may not read, or it returns a code.
pub data Outcome (Node Device : Type 0) : Type 0 where
  undefined : Outcome Node Device
  returns : ApiResult → World Node Device → Outcome Node Device

-- The virtual function `execute` of a compiled node.
abbrev pub Execute : Type 0 → Type 0 → Type 0
Execute Node Device = Node → (input output : ℕ) → RawExecutionContext → Device → ApiResult × Device

unfoldable pub put : {A : Type 0} → ℕ → A → (ℕ → A) → ℕ → A
put address a slots other = when other == address then a else slots other

unfoldable pub is_unusable : {Node : Type 0} → FlagFftPlan Node → Bool
is_unusable plan = plan.destroyed || not plan.initialized

unfoldable pub with_stream : {Node : Type 0} → FlagFftPlan Node → ℕ → FlagFftPlan Node
with_stream plan stream = record {
  desc = plan.desc;
  initialized = plan.initialized;
  destroyed = plan.destroyed;
  stream = stream;
  executable = plan.executable;
}

module _ {Node Device : Type 0} where
  -- `checked_plan`: the test of the handle and of its `impl`; a null plan is FLAGFFT_INVALID_PLAN to
  -- every caller.
  unfoldable pub on_slot :
      Slot Node → World Node Device → (FlagFftPlan Node → Outcome Node Device) → Outcome Node Device
  on_slot unallocated world use_plan = undefined
  on_slot no_impl world use_plan = returns invalid_plan world
  on_slot (owns plan) world use_plan = use_plan plan

  unfoldable pub checked_plan :
      World Node Device → ℕ → (FlagFftPlan Node → Outcome Node Device) → Outcome Node Device
  unfolding on_slot
  checked_plan world handle use_plan =
      when handle == 0
      then returns invalid_plan world
      else on_slot (world.slots handle) world use_plan

  unfoldable pub finish : World Node Device → ApiResult × Device → Outcome Node Device
  finish world (code, device) = returns code (record { slots = world.slots; device = device })

  -- `compiled->execute(...)`, where `compiled` may be null.
  unfoldable pub launch :
      Execute Node Device
      → World Node Device
      → FlagFftPlan Node
      → Option Node
      → FftRequest
      → (idata odata : ℕ) → Outcome Node Device
  unfolding finish
  launch execute world plan none request idata odata = undefined
  launch execute world plan (some node) request idata odata = finish world (
      execute node idata odata
        (record {
          request = request;
          stream = plan.stream;
          batch = plan.desc.batch;
          input_distance = plan.desc.idist;
          output_distance = plan.desc.odist;
        })
        world.device)

  unfoldable pub launch_forward :
      Execute Node Device
      → World Node Device
      → FlagFftPlan Node
      → (idata odata : ℕ) → Outcome Node Device
  unfolding launch
  launch_forward execute world plan idata odata =
      launch execute world plan plan.executable.forward plan.executable.forward_request idata odata

  unfoldable pub launch_inverse :
      Execute Node Device
      → World Node Device
      → FlagFftPlan Node
      → (idata odata : ℕ) → Outcome Node Device
  unfolding launch
  launch_inverse execute world plan idata odata =
      launch execute world plan plan.executable.inverse plan.executable.inverse_request idata odata

  unfoldable pub exec_c2c :
      Execute Node Device → World Node Device → (handle idata odata : ℕ) → ℤ → Outcome Node Device
  unfolding checked_plan is_unusable is_type launch_forward launch_inverse
  exec_c2c execute world handle idata odata direction = checked_plan world handle λ plan.
      when is_unusable plan
      then returns invalid_plan world
      else when idata == 0 || odata == 0
      then returns invalid_value world
      else when not (is_type plan.desc.fft_type c2c)
      then returns invalid_type world
      else when not (same_int direction forward_direction)
          && not (same_int direction inverse_direction)
      then returns invalid_value world
      else when same_int direction inverse_direction
      then launch_inverse execute world plan idata odata
      else launch_forward execute world plan idata odata

  unfoldable pub exec_z2z :
      Execute Node Device → World Node Device → (handle idata odata : ℕ) → ℤ → Outcome Node Device
  unfolding checked_plan is_unusable is_type launch_forward launch_inverse
  exec_z2z execute world handle idata odata direction = checked_plan world handle λ plan.
      when is_unusable plan
      then returns invalid_plan world
      else when idata == 0 || odata == 0
      then returns invalid_value world
      else when not (is_type plan.desc.fft_type z2z)
      then returns invalid_type world
      else when not (same_int direction forward_direction)
          && not (same_int direction inverse_direction)
      then returns invalid_value world
      else when same_int direction inverse_direction
      then launch_inverse execute world plan idata odata
      else launch_forward execute world plan idata odata

  unfoldable pub exec_r2c :
      Execute Node Device → World Node Device → (handle idata odata : ℕ) → Outcome Node Device
  unfolding checked_plan is_unusable is_type launch_forward
  exec_r2c execute world handle idata odata = checked_plan world handle λ plan.
      when is_unusable plan
      then returns invalid_plan world
      else when idata == 0 || odata == 0
      then returns invalid_value world
      else when not (is_type plan.desc.fft_type r2c)
      then returns invalid_type world
      else launch_forward execute world plan idata odata

  unfoldable pub exec_d2z :
      Execute Node Device → World Node Device → (handle idata odata : ℕ) → Outcome Node Device
  unfolding checked_plan is_unusable is_type launch_forward
  exec_d2z execute world handle idata odata = checked_plan world handle λ plan.
      when is_unusable plan
      then returns invalid_plan world
      else when idata == 0 || odata == 0
      then returns invalid_value world
      else when not (is_type plan.desc.fft_type d2z)
      then returns invalid_type world
      else launch_forward execute world plan idata odata

  unfoldable pub exec_c2r :
      Execute Node Device → World Node Device → (handle idata odata : ℕ) → Outcome Node Device
  unfolding checked_plan is_unusable is_type launch_inverse
  exec_c2r execute world handle idata odata = checked_plan world handle λ plan.
      when is_unusable plan
      then returns invalid_plan world
      else when idata == 0 || odata == 0
      then returns invalid_value world
      else when not (is_type plan.desc.fft_type c2r)
      then returns invalid_type world
      else launch_inverse execute world plan idata odata

  unfoldable pub exec_z2d :
      Execute Node Device → World Node Device → (handle idata odata : ℕ) → Outcome Node Device
  unfolding checked_plan is_unusable is_type launch_inverse
  exec_z2d execute world handle idata odata = checked_plan world handle λ plan.
      when is_unusable plan
      then returns invalid_plan world
      else when idata == 0 || odata == 0
      then returns invalid_value world
      else when not (is_type plan.desc.fft_type z2d)
      then returns invalid_type world
      else launch_inverse execute world plan idata odata

  unfoldable pub store : World Node Device → ℕ → Slot Node → World Node Device
  unfolding put
  store world handle slot = record { slots = put handle slot world.slots; device = world.device }

  unfoldable pub set_stream : World Node Device → (handle stream : ℕ) → Outcome Node Device
  unfolding checked_plan with_stream store
  set_stream world handle stream = checked_plan world handle λ plan.
      when plan.destroyed
      then returns invalid_plan world
      else returns success (store world handle (owns (with_stream plan stream)))

  -- The plan and the handle are deleted; a handle without a plan is deleted too.
  unfoldable pub free_slot : World Node Device → ℕ → Slot Node → Outcome Node Device
  unfolding store
  free_slot world handle unallocated = undefined
  free_slot world handle no_impl = returns success (store world handle unallocated)
  free_slot world handle (owns plan) = returns success (store world handle unallocated)

  unfoldable pub destroy : World Node Device → ℕ → Outcome Node Device
  unfolding free_slot
  destroy world handle =
      when handle == 0
      then returns invalid_plan world
      else free_slot world handle (world.slots handle)
