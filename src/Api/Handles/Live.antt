-- ===== src/Api/Handles/Live.antt =====
-- The worlds that a program can reach: it sets up plans at fresh addresses and calls the library with
-- any arguments, as long as no call is undefined.
use flag_fft.Prelude.{
  Ensures, Ensures-ok, Ensures-throws, Ensures-if, Ensures-run, Ensures-and_then, ℕ, Option, none,
  some, Bool, true, false, not, ◌==◌, when◌then◌else◌, ◌≡◌, ◌≢◌, refl, sym, subst, ◌∙◌, inl, inr,
  Bool-cases, Result, ok, throws, Env, ap,
}
use flag_fft.Api.{
  FftType, r2c, c2r, c2c, d2z, z2d, z2z, other_type, ApiResult, PlanDesc, is_real_forward,
  is_real_inverse, invalid_plan, invalid_value, invalid_type,
}
use flag_fft.Api.Handles.{
  Slot, unallocated, no_impl, owns, World, Outcome, undefined, returns, Execute, Executable,
  exec_c2c, exec_z2z, exec_r2c, exec_d2z, exec_c2r, exec_z2d, set_stream, destroy, launch_forward,
  launch_inverse, free_slot, FlagFftPlan, checked_plan, on_slot, launch, finish, put, store,
  with_stream,
}
use flag_fft.Api.Handles.Spec.{
  Call, perform, run, use_stream, release, enter_c2c, enter_z2z, enter_r2c, enter_d2z, enter_c2r,
  enter_z2d,
}
use flag_fft.Base.{FftRequest}
use flag_fft.Api.Setup.{
  Compiler, Passes, Planned, compile_directions, compile_executable, with_graph, wrap_node,
  executable_of, new_plan,
}

unfoldable pub is_compiled {ℓ} : {A : Type ℓ} → Option A → Bool
is_compiled none = false
is_compiled (some node) = true

-- A plan has the node of each direction that its type has.
pub record IsReady {Node : Type 0} (desc : PlanDesc) (executable : Executable Node) : Type 0 where
  pub forward_ready : is_compiled executable.forward ≡ not (is_real_inverse desc.fft_type)
  pub inverse_ready : is_compiled executable.inverse ≡ not (is_real_forward desc.fft_type)

pub record IsUsable {Node : Type 0} (plan : FlagFftPlan Node) : Type 0 where
  pub is_initialized : plan.initialized ≡ true
  pub is_kept : plan.destroyed ≡ false
  pub ready : IsReady plan.desc plan.executable

-- A handle that may be read has a plan, and the plan can be used.
unfoldable pub IsLive : {Node : Type 0} → Slot Node → Type 0
IsLive unallocated = Unit
IsLive no_impl = ⊥
IsLive (owns plan) = IsUsable plan

unfoldable pub IsSound : {Node Device : Type 0} → World Node Device → Type 0
unfolding IsLive
IsSound world = (handle : ℕ) → IsLive (world.slots handle)

module _ {Node Device : Type 0} (env : Env) (compiler : Compiler Node)
    (execute : Execute Node Device) where
  pub data Step : World Node Device → World Node Device → Type 0 where
    set_up :
        {world : World Node Device} (handle : ℕ) (desc : PlanDesc) (planned : Planned)
        (executable : Executable Node)
        → handle ≢ 0
        → world.slots handle ≡ unallocated
        → compile_executable env compiler desc planned ≡ ok executable
        → Step world (store world handle (owns (new_plan desc executable)))
    calls :
        {world next : World Node Device} (call : Call) (code : ApiResult)
        → perform execute world call ≡ returns code next
        → Step world next

  pub data Reach (start : World Node Device) : World Node Device → Type 0 where
    here : Reach start start
    then_step :
        {world next : World Node Device} → Reach start world → Step world next → Reach start next

-- A type of transform is not both.
one_way : (fft_type : FftType) → is_real_forward fft_type ≡ true → is_real_inverse fft_type ≡ false
unfolding is_real_forward is_real_inverse
one_way r2c h = refl
one_way d2z h = refl
one_way c2r h = cc
one_way z2d h = cc
one_way c2c h = refl
one_way z2z h = refl
one_way (other_type code) h = refl

module _ {Node : Type 0} where
  any_node : (result : Result Node) → Ensures (λ node. Unit) result
  any_node (ok node) = Ensures-ok tt
  any_node (throws e) = Ensures-throws

  ready :
      {desc : PlanDesc} {executable : Executable Node}
      → is_compiled executable.forward ≡ not (is_real_inverse desc.fft_type)
      → is_compiled executable.inverse ≡ not (is_real_forward desc.fft_type)
      → IsReady desc executable
  ready h k = record { forward_ready = h; inverse_ready = k }

  compile_directions-IsReady :
      (passes : Passes Node) (desc : PlanDesc) (planned : Planned)
      → Ensures (IsReady desc) (compile_directions passes desc planned)
  unfolding compile_directions is_compiled executable_of
  compile_directions-IsReady passes desc planned =
      Ensures-if
        (λ e.
          Ensures-and_then (any_node _)
            λ node h. Ensures-ok (ready (sym (ap not (one_way desc.fft_type e))) (sym (ap not e))))
        (λ e.
          Ensures-if
            (λ i.
              Ensures-and_then (any_node _)
                λ node h. Ensures-ok (ready (sym (ap not i)) (sym (ap not e))))
            (λ i. Ensures-and_then (any_node _) λ node h.
              Ensures-and_then (any_node _)
                λ other k. Ensures-ok (ready (sym (ap not i)) (sym (ap not e)))))

  is_compiled-wrap :
      (graph_node : Node → Node) (node : Option Node)
      → is_compiled (wrap_node graph_node node) ≡ is_compiled node
  unfolding is_compiled wrap_node
  is_compiled-wrap graph_node none = refl
  is_compiled-wrap graph_node (some node) = refl

  with_graph-IsReady :
      (compiler : Compiler Node) (desc : PlanDesc) (allowed : Bool) (executable : Executable Node)
      → IsReady desc executable
      → IsReady desc (with_graph compiler allowed executable)
  unfolding with_graph when◌then◌else◌
  with_graph-IsReady compiler desc false executable h = h
  with_graph-IsReady compiler desc true executable h =
      ready (is_compiled-wrap _ _ ∙ h.forward_ready) (is_compiled-wrap _ _ ∙ h.inverse_ready)

  compile_executable-IsReady :
      (env : Env) (compiler : Compiler Node) (desc : PlanDesc) (planned : Planned)
      → Ensures (IsReady desc) (compile_executable env compiler desc planned)
  unfolding compile_executable
  compile_executable-IsReady env compiler desc planned =
      Ensures-if (λ e. compile_directions-IsReady compiler.plane desc planned)
        (λ e.
          Ensures-if
            (λ i.
              Ensures-and_then (compile_directions-IsReady compiler.block desc planned)
                λ executable h. Ensures-ok (with_graph-IsReady compiler desc _ executable h))
            (λ i. compile_directions-IsReady compiler.line desc planned))

with_stream-IsUsable :
    {Node : Type 0} (plan : FlagFftPlan Node) (stream : ℕ)
    → IsUsable plan
    → IsUsable (with_stream plan stream)
unfolding with_stream
with_stream-IsUsable plan stream h = record {
  is_initialized = h.is_initialized;
  is_kept = h.is_kept;
  ready = h.ready;
}

new_plan-IsUsable :
    {Node : Type 0} (desc : PlanDesc) (executable : Executable Node)
    → IsReady desc executable
    → IsUsable (new_plan desc executable)
unfolding new_plan
new_plan-IsUsable desc executable h = record { is_initialized = refl; is_kept = refl; ready = h }

module _ {Node Device : Type 0} where
  -- A slot that is stored is live where its world is sound.
  store-IsSound :
      (world : World Node Device) (handle : ℕ) (slot : Slot Node)
      → IsSound world
      → IsLive slot
      → IsSound (store world handle slot)
  unfolding store put IsSound when◌then◌else◌
  store-IsSound world handle slot sound live other = elim (Bool-cases (other == handle)) [
    | inl e ↦ rw e live
    | inr e ↦ rw e (sound other)
  ]

  abbrev Kept : Outcome Node Device → Type 0
  Kept undefined = Unit
  Kept (returns code world) = IsSound world

  -- What an outcome leaves is sound.
  record Keeps (outcome : Outcome Node Device) : Type 0 where
    kept : Kept outcome

  Keeps-returns :
      {code : ApiResult} {world : World Node Device} → IsSound world → Keeps (returns code world)
  Keeps-returns h = record { kept = h }

  Keeps-undefined : Keeps undefined
  Keeps-undefined = record { kept = tt }

  Keeps-if :
      (test : Bool) {first other : Outcome Node Device}
      → Keeps first
      → Keeps other
      → Keeps (when test then first else other)
  unfolding when◌then◌else◌
  Keeps-if true h k = h
  Keeps-if false h k = k

  on_slot-Keeps :
      (world : World Node Device) (use_plan : FlagFftPlan Node → Outcome Node Device)
      (slot : Slot Node)
      → IsSound world
      → IsLive slot
      → ((plan : FlagFftPlan Node) → IsUsable plan → Keeps (use_plan plan))
      → Keeps (on_slot slot world use_plan)
  unfolding on_slot IsLive
  on_slot-Keeps world use_plan unallocated sound live h = Keeps-undefined
  on_slot-Keeps world use_plan no_impl sound live h = absurd live
  on_slot-Keeps world use_plan (owns plan) sound live h = h plan live

  checked_plan-Keeps :
      (world : World Node Device) (handle : ℕ) (use_plan : FlagFftPlan Node → Outcome Node Device)
      → IsSound world
      → ((plan : FlagFftPlan Node) → IsUsable plan → Keeps (use_plan plan))
      → Keeps (checked_plan world handle use_plan)
  unfolding checked_plan IsSound
  checked_plan-Keeps world handle use_plan sound h =
      Keeps-if _ (Keeps-returns sound) (on_slot-Keeps _ _ _ sound (sound handle) h)

  launch-Keeps :
      (execute : Execute Node Device) (world : World Node Device) (plan : FlagFftPlan Node)
      (node : Option Node) (request : FftRequest) (idata odata : ℕ)
      → IsSound world
      → Keeps (launch execute world plan node request idata odata)
  unfolding launch finish IsSound
  launch-Keeps execute world plan none request idata odata sound = Keeps-undefined
  launch-Keeps execute world plan (some node) request idata odata sound = Keeps-returns sound

  launch_forward-Keeps :
      (execute : Execute Node Device) (world : World Node Device) (plan : FlagFftPlan Node)
      (idata odata : ℕ)
      → IsSound world
      → Keeps (launch_forward execute world plan idata odata)
  unfolding launch_forward
  launch_forward-Keeps execute world plan idata odata =
      launch-Keeps execute world plan plan.executable.forward plan.executable.forward_request idata
        odata

  launch_inverse-Keeps :
      (execute : Execute Node Device) (world : World Node Device) (plan : FlagFftPlan Node)
      (idata odata : ℕ)
      → IsSound world
      → Keeps (launch_inverse execute world plan idata odata)
  unfolding launch_inverse
  launch_inverse-Keeps execute world plan idata odata =
      launch-Keeps execute world plan plan.executable.inverse plan.executable.inverse_request idata
        odata

  free_slot-Keeps :
      (world : World Node Device) (handle : ℕ) (slot : Slot Node)
      → IsSound world
      → Keeps (free_slot world handle slot)
  unfolding free_slot IsLive
  free_slot-Keeps world handle unallocated sound = Keeps-undefined
  free_slot-Keeps world handle no_impl sound = Keeps-returns (store-IsSound _ _ _ sound tt)
  free_slot-Keeps world handle (owns plan) sound = Keeps-returns (store-IsSound _ _ _ sound tt)

  -- One function that runs a plan, and one with a choice of direction.
  run_fixed :
      (world : World Node Device) (handle : ℕ) (a b c : FlagFftPlan Node → Bool)
      (go : FlagFftPlan Node → Outcome Node Device)
      → IsSound world
      → ((plan : FlagFftPlan Node) → Keeps (go plan))
      → Keeps (
          checked_plan world handle λ plan.
            when a plan
            then returns invalid_plan world
            else when b plan
            then returns invalid_value world
            else when c plan
            then returns invalid_type world
            else go plan)
  run_fixed world handle a b c go sound h = checked_plan-Keeps _ _ _ sound λ plan usable.
      Keeps-if _ (Keeps-returns sound)
        (Keeps-if _ (Keeps-returns sound) (Keeps-if _ (Keeps-returns sound) (h plan)))

  -- Every call keeps a sound world sound.
  perform-Keeps :
      (execute : Execute Node Device) (world : World Node Device) (call : Call)
      → IsSound world
      → Keeps (perform execute world call)
  unfolding perform exec_c2c exec_z2z exec_r2c exec_d2z exec_c2r exec_z2d set_stream destroy IsLive
  perform-Keeps execute world (run enter_c2c handle idata odata direction) sound =
      run_fixed _ _ _ _ _ _ sound λ plan. Keeps-if _ (Keeps-returns sound) (
        Keeps-if _ (launch_inverse-Keeps execute world plan idata odata sound)
          (launch_forward-Keeps execute world plan idata odata sound))
  perform-Keeps execute world (run enter_z2z handle idata odata direction) sound =
      run_fixed _ _ _ _ _ _ sound λ plan. Keeps-if _ (Keeps-returns sound) (
        Keeps-if _ (launch_inverse-Keeps execute world plan idata odata sound)
          (launch_forward-Keeps execute world plan idata odata sound))
  perform-Keeps execute world (run enter_r2c handle idata odata direction) sound =
      run_fixed _ _ _ _ _ _ sound λ plan. launch_forward-Keeps execute world plan idata odata sound
  perform-Keeps execute world (run enter_d2z handle idata odata direction) sound =
      run_fixed _ _ _ _ _ _ sound λ plan. launch_forward-Keeps execute world plan idata odata sound
  perform-Keeps execute world (run enter_c2r handle idata odata direction) sound =
      run_fixed _ _ _ _ _ _ sound λ plan. launch_inverse-Keeps execute world plan idata odata sound
  perform-Keeps execute world (run enter_z2d handle idata odata direction) sound =
      run_fixed _ _ _ _ _ _ sound λ plan. launch_inverse-Keeps execute world plan idata odata sound
  perform-Keeps execute world (use_stream handle stream) sound =
      checked_plan-Keeps _ _ _ sound λ plan usable.
        Keeps-if _ (Keeps-returns sound)
          (Keeps-returns (store-IsSound _ _ _ sound (with_stream-IsUsable plan stream usable)))
  perform-Keeps execute world (release handle) sound =
      Keeps-if _ (Keeps-returns sound) (free_slot-Keeps _ _ _ sound)

  Step-IsSound :
      {env : Env} {compiler : Compiler Node} {execute : Execute Node Device}
      {world next : World Node Device}
      → Step env compiler execute world next
      → IsSound world
      → IsSound next
  unfolding IsLive
  Step-IsSound (set_up handle desc planned executable proper fresh compiled) sound =
      store-IsSound _ _ _ sound (
        new_plan-IsUsable desc executable
          (Ensures-run (compile_executable-IsReady _ _ desc planned) compiled))
  Step-IsSound {execute = execute} {world = world} (calls call code e) sound =
      (subst Keeps e (perform-Keeps execute world call sound)).kept

  -- Before the first call no handle is allocated. In every world that set-ups at fresh addresses and calls
  -- with any arguments lead to, each handle that may be read has a plan that is initialized, is not
  -- marked destroyed, and has a compiled node for each direction of its type.
  pub Reach-IsSound :
      {env : Env} {compiler : Compiler Node} {execute : Execute Node Device}
      {start world : World Node Device}
      → ((handle : ℕ) → start.slots handle ≡ unallocated)
      → Reach env compiler execute start world
      → IsSound world
  unfolding IsSound IsLive
  Reach-IsSound empty here = λ handle. rw (empty handle) tt
  Reach-IsSound empty (then_step before step) = Step-IsSound step (Reach-IsSound empty before)
