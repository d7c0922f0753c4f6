-- ===== src/Tests/Handles.antt =====
-- A plane of 32 by 48 points set up at address 1, run on a device that keeps the streams it was given.
use flag_fft.Prelude.{
  ℕ, suc, List, [], ◌∷◌, none, some, false, ◌≡◌, refl, ok, when◌then◌else◌, ◌and_then◌, arith,
  subst, Env,
}
use flag_fft.Plan.{direct_dft_plan, two_dim_plan, rtrt}
use flag_fft.Planner.Context.{Adaptor}
use flag_fft.Api.Ints.{pos, negsuc, same_int}
use flag_fft.Api.{
  c2c, success, PlanDesc, float32, is_supported_2d_desc, is_real_forward, is_real_inverse,
}
use flag_fft.Api.Request.{request_of}
use flag_fft.Api.Handles.{
  Slot, unallocated, no_impl, owns, put, FlagFftPlan, World, Execute, Executable, store,
}
use flag_fft.Api.Handles.Spec.{run, enter_c2c, answer, perform, handle_of}
use flag_fft.Api.Handles.Live.{set_up, Reach, here, then_step, IsSound, Reach-IsSound}
use flag_fft.Api.Handles.Refine.{Matches, view, perform-Matches}
use flag_fft.Api.Setup.{
  Passes, Compiler, Planned, new_plan, compile_executable, executable_of, compile_directions,
}

abbrev square : PlanDesc
square = record {
  rank = 2;
  n = pos 32 ∷ pos 32 ∷ [];
  inembed = pos 32 ∷ pos 32 ∷ [];
  istride = pos 1;
  idist = pos 1024;
  onembed = pos 32 ∷ pos 32 ∷ [];
  ostride = pos 1;
  odist = pos 1024;
  batch = pos 1;
  fft_type = c2c;
  precision = float32;
  kind = c2c;
  real_input = false;
  real_output = false;
  device_index = 0;
  device_arch = "";
}

abbrev cuda : Adaptor
cuda = record { backend_name = "cuda"; max_dynamic_smem_bytes = λ index. 65536 }

abbrev planned : Planned
planned = record {
  root = two_dim_plan 32 32 rtrt (direct_dft_plan 32) (direct_dft_plan 32);
  forward_request = request_of cuda square "forward" 0;
  inverse_request = request_of cuda square "inverse" 0;
}

-- A node is a number; a device is the list of the nodes and streams it ran.
abbrev passes : ℕ → Passes ℕ
passes node = record {
  complex = λ root request batch. ok node;
  real_to_complex = λ root request batch. ok (suc node);
  complex_to_real = λ root request batch. ok (suc (suc node));
}

abbrev compiler : Compiler ℕ
compiler = record { line = passes 10; plane = passes 20; block = passes 30; graph_node = suc }

abbrev execute : Execute ℕ (List (ℕ × ℕ))
execute node input output context device = (success, (node, context.stream) ∷ device)

abbrev no_settings : Env
no_settings name = none

abbrev empty : World ℕ (List (ℕ × ℕ))
empty = record { slots = λ handle. unallocated; device = [] }

abbrev compiled : Executable ℕ
compiled = executable_of planned (some 20) (some 20)

abbrev one_plan : World ℕ (List (ℕ × ℕ))
one_plan = store empty 1 (owns (new_plan square compiled))

IsOwned : {Node : Type 0} → Slot Node → Type 0
IsOwned unallocated = ⊥
IsOwned no_impl = ⊥
IsOwned (owns plan) = Unit

is_owned : {plan : FlagFftPlan ℕ} → owns plan ≡ unallocated → ⊥
unfolding IsOwned
is_owned h = subst IsOwned h tt

one_plan-Reach : Reach no_settings compiler execute empty one_plan
unfolding compile_executable compile_directions ◌and_then◌ when◌then◌else◌ is_supported_2d_desc
    is_real_forward is_real_inverse same_int executable_of
one_plan-Reach = then_step here (set_up 1 square planned compiled (λ h. omega (arith, h)) refl refl)

one_plan-IsSound : IsSound one_plan
one_plan-IsSound = Reach-IsSound (λ handle. refl) one_plan-Reach

Reach-IsSound_example : IsSound one_plan
Reach-IsSound_example = Reach-IsSound (λ handle. refl) one_plan-Reach

perform-Matches_example :
    Matches
      (perform execute one_plan (run enter_c2c 1 64 128 (negsuc 0)))
      (answer execute (view one_plan) (run enter_c2c 1 64 128 (negsuc 0)))
unfolding store put when◌then◌else◌ handle_of
perform-Matches_example =
    perform-Matches execute one_plan (run enter_c2c 1 64 128 (negsuc 0)) one_plan-IsSound
      λ proper absent. is_owned absent
