-- ===== src/Api/Handles/Refine.antt =====
-- The calls on handles and the table of `Api/Handles/Spec.antt`.
use flag_fft.Prelude.{
  ℕ, Option, none, some, Bool, true, false, not, ◌&&◌, ◌||◌, ◌==◌, when◌then◌else◌, ◌≡◌, refl, ◌∙◌,
  inl, inr, Bool-cases, ap, arith,
}
use flag_fft.Base.{FftRequest}
use flag_fft.Api.Ints.{ℤ, pos, negsuc, same_int}
use flag_fft.Api.{
  FftType, other_type, c2c, r2c, c2r, z2z, d2z, z2d, ApiResult, success, invalid_plan,
  invalid_value, invalid_type, is_real_forward, is_real_inverse,
}
use flag_fft.Api.Handles.{
  forward_direction, inverse_direction, is_type, Execute, put, Slot, unallocated, no_impl, owns,
  World, Outcome, undefined, returns, FlagFftPlan, on_slot, checked_plan, is_unusable, finish,
  launch, launch_forward, launch_inverse, exec_c2c, exec_z2z, exec_r2c, exec_d2z, exec_c2r,
  exec_z2d, with_stream, store, set_stream, free_slot, destroy,
}
use flag_fft.Api.Handles.Spec.{
  enter_c2c, enter_z2z, enter_r2c, enter_d2z, enter_c2r, enter_z2d, entry_type, Call, run,
  use_stream, release, perform, Transform, direction_of, Table, Answer, unspecified, answers,
  context_of, node_of, request_of, run_node, run_direction, run_transform, renew, restream,
  answer_at, handle_of, answer,
}
use flag_fft.Api.Handles.Live.{is_compiled, IsUsable, IsLive, IsSound}

unfoldable transform_of : {Node : Type 0} → FlagFftPlan Node → Transform Node
transform_of plan = record {
  desc = plan.desc;
  stream = plan.stream;
  forward_request = plan.executable.forward_request;
  inverse_request = plan.executable.inverse_request;
  forward = plan.executable.forward;
  inverse = plan.executable.inverse;
}

unfoldable transform_in : {Node : Type 0} → Slot Node → Option (Transform Node)
unfolding transform_of
transform_in unallocated = none
transform_in no_impl = none
transform_in (owns plan) = some (transform_of plan)

module _ {Node Device : Type 0} where
  -- The table that a world stands for; the null pointer is no handle.
  unfoldable pub view : World Node Device → Table Node Device
  unfolding transform_in
  view world = record {
    entries = λ handle. when handle == 0 then none else transform_in (world.slots handle);
    device = world.device;
  }

  record Agrees (world : World Node Device) (table : Table Node Device) : Type 0 where
    entries_agree : (handle : ℕ) → (view world).entries handle ≡ table.entries handle
    devices_agree : world.device ≡ table.device

  abbrev Matched : Outcome Node Device → Answer Node Device → Type 0
  Matched undefined b = ⊥
  Matched (returns code world) unspecified = ⊥
  Matched (returns code world) (answers other table) = (code ≡ other) × Agrees world table

  -- A call returns, with the code of the answer, in a world that stands for its table.
  pub record Matches (outcome : Outcome Node Device) (expected : Answer Node Device) : Type 0 where
    matched : Matched outcome expected

  Matches-same :
      (code : ApiResult) (world : World Node Device)
      → Matches (returns code world) (answers code (view world))
  unfolding view
  Matches-same code world = record {
    matched = (refl, record { entries_agree = λ handle. refl; devices_agree = refl });
  }

  Matches-if :
      (test : Bool) (a b : Outcome Node Device) (x y : Answer Node Device)
      → (test ≡ true → Matches a x)
      → (test ≡ false → Matches b y)
      → Matches (when test then a else b) (when test then x else y)
  unfolding when◌then◌else◌
  Matches-if true a b x y h k = h refl
  Matches-if false a b x y h k = k refl

  Matches-if_not :
      (test : Bool) (a b : Outcome Node Device) (x y : Answer Node Device)
      → (test ≡ true → Matches b x)
      → Matches a y
      → Matches (when not test then a else b) (when test then x else y)
  unfolding when◌then◌else◌
  Matches-if_not true a b x y h k = h refl
  Matches-if_not false a b x y h k = k

  -- A branch that is not taken.
  Matches-else :
      (test : Bool) (a b : Outcome Node Device) (x : Answer Node Device)
      → test ≡ false
      → Matches b x
      → Matches (when test then a else b) x
  unfolding when◌then◌else◌
  Matches-else test a b x e h = rw e h

is_type-eq : (a b : FftType) → is_type a b ≡ true → a ≡ b
unfolding is_type
is_type-eq c2c b = elim b as (λ t. is_type c2c t ≡ true → c2c ≡ t) [
  | c2c ↦ λ h. refl
  | z2z ↦ λ h. cc
  | r2c ↦ λ h. cc
  | d2z ↦ λ h. cc
  | c2r ↦ λ h. cc
  | z2d ↦ λ h. cc
  | other_type j ↦ λ h. cc
]
is_type-eq z2z b = elim b as (λ t. is_type z2z t ≡ true → z2z ≡ t) [
  | c2c ↦ λ h. cc
  | z2z ↦ λ h. refl
  | r2c ↦ λ h. cc
  | d2z ↦ λ h. cc
  | c2r ↦ λ h. cc
  | z2d ↦ λ h. cc
  | other_type j ↦ λ h. cc
]
is_type-eq r2c b = elim b as (λ t. is_type r2c t ≡ true → r2c ≡ t) [
  | c2c ↦ λ h. cc
  | z2z ↦ λ h. cc
  | r2c ↦ λ h. refl
  | d2z ↦ λ h. cc
  | c2r ↦ λ h. cc
  | z2d ↦ λ h. cc
  | other_type j ↦ λ h. cc
]
is_type-eq d2z b = elim b as (λ t. is_type d2z t ≡ true → d2z ≡ t) [
  | c2c ↦ λ h. cc
  | z2z ↦ λ h. cc
  | r2c ↦ λ h. cc
  | d2z ↦ λ h. refl
  | c2r ↦ λ h. cc
  | z2d ↦ λ h. cc
  | other_type j ↦ λ h. cc
]
is_type-eq c2r b = elim b as (λ t. is_type c2r t ≡ true → c2r ≡ t) [
  | c2c ↦ λ h. cc
  | z2z ↦ λ h. cc
  | r2c ↦ λ h. cc
  | d2z ↦ λ h. cc
  | c2r ↦ λ h. refl
  | z2d ↦ λ h. cc
  | other_type j ↦ λ h. cc
]
is_type-eq z2d b = elim b as (λ t. is_type z2d t ≡ true → z2d ≡ t) [
  | c2c ↦ λ h. cc
  | z2z ↦ λ h. cc
  | r2c ↦ λ h. cc
  | d2z ↦ λ h. cc
  | c2r ↦ λ h. cc
  | z2d ↦ λ h. refl
  | other_type j ↦ λ h. cc
]
is_type-eq (other_type k) b =
    elim b as (λ t. is_type (other_type k) t ≡ true → (other_type k) ≡ t) [
      | c2c ↦ λ h. cc
      | z2z ↦ λ h. cc
      | r2c ↦ λ h. cc
      | d2z ↦ λ h. cc
      | c2r ↦ λ h. cc
      | z2d ↦ λ h. cc
      | other_type j ↦ λ h. cc
    ]

is_unusable_lem :
    {Node : Type 0} (plan : FlagFftPlan Node) → IsUsable plan → is_unusable plan ≡ false
unfolding is_unusable
is_unusable_lem plan usable = rw (usable.is_initialized, usable.is_kept) refl

same_address :
    (other handle : ℕ) → other == handle ≡ true → handle == 0 ≡ false → other == 0 ≡ false
same_address other handle h e = ground arith

-- A direction is not both.
one_direction :
    (direction : ℤ)
    → same_int direction forward_direction ≡ true
    → same_int direction inverse_direction ≡ false
unfolding same_int
one_direction (pos n) h = cc
one_direction (negsuc n) h = refl

module _ {Node Device : Type 0} where
  -- A node that is compiled is run as the table says.
  launch_lem :
      (execute : Execute Node Device) (world : World Node Device) (plan : FlagFftPlan Node)
      (node : Option Node) (request : FftRequest) (idata odata : ℕ)
      → is_compiled node ≡ true
      → Matches
          (launch execute world plan node request idata odata)
          (run_node execute (view world) node idata odata (context_of (transform_of plan) request))
  unfolding launch finish run_node view context_of transform_of is_compiled
  launch_lem execute world plan none request idata odata h = cc
  launch_lem execute world plan (some node) request idata odata h = record {
    matched = (refl, record { entries_agree = λ handle. refl; devices_agree = refl });
  }

  -- A plan of a type that is not complex to real is run forward, and one that is not real to complex back.
  launch_forward_lem :
      (execute : Execute Node Device) (world : World Node Device) (plan : FlagFftPlan Node)
      (idata odata : ℕ)
      → IsUsable plan
      → is_real_inverse plan.desc.fft_type ≡ false
      → Matches
          (launch_forward execute world plan idata odata)
          (run_direction execute (view world) (transform_of plan) idata odata (some false))
  unfolding launch_forward run_direction node_of request_of when◌then◌else◌ transform_of
  launch_forward_lem execute world plan idata odata usable e =
      launch_lem execute world plan plan.executable.forward plan.executable.forward_request idata
        odata (usable.ready.forward_ready ∙ ap not e)

  launch_inverse_lem :
      (execute : Execute Node Device) (world : World Node Device) (plan : FlagFftPlan Node)
      (idata odata : ℕ)
      → IsUsable plan
      → is_real_forward plan.desc.fft_type ≡ false
      → Matches
          (launch_inverse execute world plan idata odata)
          (run_direction execute (view world) (transform_of plan) idata odata (some true))
  unfolding launch_inverse run_direction node_of request_of when◌then◌else◌ transform_of
  launch_inverse_lem execute world plan idata odata usable e =
      launch_lem execute world plan plan.executable.inverse plan.executable.inverse_request idata
        odata (usable.ready.inverse_ready ∙ ap not e)

  -- The tests that the six functions share.
  run_plan_lem :
      (execute : Execute Node Device) (world : World Node Device) (plan : FlagFftPlan Node)
      (fft_type : FftType) (idata odata : ℕ) (direction : ℤ) (go : Outcome Node Device)
      → IsUsable plan
      → (plan.desc.fft_type ≡ fft_type
          → Matches go (
              run_direction execute
                (view world)
                (transform_of plan)
                idata
                odata
                (direction_of fft_type direction)))
      → Matches
          (when is_unusable plan
            then returns invalid_plan world
            else when idata == 0 || odata == 0
            then returns invalid_value world
            else when not (is_type plan.desc.fft_type fft_type)
            then returns invalid_type world
            else go)
          (run_transform execute (view world) (transform_of plan) fft_type idata odata direction)
  unfolding run_transform transform_of
  run_plan_lem execute world plan fft_type idata odata direction go usable h =
      Matches-else (is_unusable plan) _ _ _ (is_unusable_lem plan usable) (
        Matches-if (idata == 0 || odata == 0) _ _ _ _ (λ e. Matches-same invalid_value world)
          (λ e.
            Matches-if_not (is_type plan.desc.fft_type fft_type) _ _ _ _ (λ t. h (is_type-eq _ _ t))
              (Matches-same invalid_type world)))

  -- Both directions.
  either_lem :
      (execute : Execute Node Device) (world : World Node Device) (plan : FlagFftPlan Node)
      (fft_type : FftType) (idata odata : ℕ) (direction : ℤ)
      → IsUsable plan
      → is_real_forward fft_type ≡ false
      → is_real_inverse fft_type ≡ false
      → plan.desc.fft_type ≡ fft_type
      → Matches
          (when not (same_int direction forward_direction)
              && not (same_int direction inverse_direction)
            then returns invalid_value world
            else when same_int direction inverse_direction
            then launch_inverse execute world plan idata odata
            else launch_forward execute world plan idata odata)
          (run_direction execute
            (view world)
            (transform_of plan)
            idata
            odata
            (direction_of fft_type direction))
  unfolding direction_of run_direction when◌then◌else◌ launch_forward launch_inverse
  either_lem execute world plan fft_type idata odata direction usable f i e =
      rw (f, i)
        (elim (Bool-cases (same_int direction forward_direction)) [
          | inl forth ↦
              rw (forth, one_direction direction forth)
                (launch_forward_lem execute world plan idata odata usable
                  (ap is_real_inverse e ∙ i))
          | inr forth ↦ elim (Bool-cases (same_int direction inverse_direction)) [
            | inl back ↦
                rw (forth, back)
                  (launch_inverse_lem execute world plan idata odata usable
                    (ap is_real_forward e ∙ f))
            | inr back ↦ rw (forth, back) (Matches-same invalid_value world)
          ]
        ])

  -- What is stored at a handle stands in the table there.
  store_lem :
      (code : ApiResult) (world : World Node Device) (handle : ℕ) (slot : Slot Node)
      → handle == 0 ≡ false
      → Matches
          (returns code (store world handle slot))
          (answers code (renew (view world) handle (transform_in slot)))
  unfolding view store renew put when◌then◌else◌
  store_lem code world handle slot e = record {
    matched = (
      refl,
      record {
        entries_agree = λ other. elim (Bool-cases (other == handle)) [
          | inl same ↦ rw (same, same_address other handle same e) refl
          | inr same ↦ rw same refl
        ];
        devices_agree = refl;
      },
    );
  }

  slot_lem :
      (execute : Execute Node Device) (world : World Node Device)
      (use_plan : FlagFftPlan Node → Outcome Node Device) (call : Call) (slot : Slot Node)
      → IsLive slot
      → ¬ (slot ≡ unallocated)
      → ((plan : FlagFftPlan Node)
          → IsUsable plan
          → Matches
              (use_plan plan)
              (answer_at execute (view world) (some (transform_of plan)) call))
      → Matches
          (on_slot slot world use_plan)
          (answer_at execute (view world) (transform_in slot) call)
  unfolding on_slot transform_in IsLive
  slot_lem execute world use_plan call unallocated live readable h = absurd (readable refl)
  slot_lem execute world use_plan call no_impl live readable h = absurd live
  slot_lem execute world use_plan call (owns plan) live readable h = h plan live

  -- A handle that is null, or may be read: what is done with its plan decides.
  handle_lem :
      (execute : Execute Node Device) (world : World Node Device) (handle : ℕ)
      (use_plan : FlagFftPlan Node → Outcome Node Device) (call : Call)
      → IsSound world
      → (handle == 0 ≡ false → ¬ (world.slots handle ≡ unallocated))
      → (handle == 0 ≡ false
          → (plan : FlagFftPlan Node) → IsUsable plan
          → Matches
              (use_plan plan)
              (answer_at execute (view world) (some (transform_of plan)) call))
      → Matches
          (checked_plan world handle use_plan)
          (answer_at execute (view world) ((view world).entries handle) call)
  unfolding checked_plan IsSound view when◌then◌else◌ answer_at
  handle_lem execute world handle use_plan call sound readable h = elim (Bool-cases (handle == 0)) [
    | inl e ↦ rw e (Matches-same invalid_plan world)
    | inr e ↦ rw e (
        slot_lem execute world use_plan call (world.slots handle) (sound handle) (readable e) (h e))
  ]

  free_lem :
      (execute : Execute Node Device) (world : World Node Device) (handle : ℕ) (slot : Slot Node)
      → handle == 0 ≡ false
      → IsLive slot
      → ¬ (slot ≡ unallocated)
      → Matches
          (free_slot world handle slot)
          (answer_at execute (view world) (transform_in slot) (release handle))
  unfolding free_slot answer_at transform_in IsLive
  free_lem execute world handle unallocated e live readable = absurd (readable refl)
  free_lem execute world handle no_impl e live readable = absurd live
  free_lem execute world handle (owns plan) e live readable =
      store_lem success world handle unallocated e

  -- The calls of the library implement the table. In a sound world, a call whose handle is null or may be
  -- read returns, and it gives the code, the device and the table of the specification: the null
  -- handle is refused, a null buffer is, a type that is not the entry point's is, a direction that is
  -- neither -1 nor 1 is; else the device runs the node of the direction, with its request, the stream
  -- that was set last, and the batch and distances of the descriptor.
  pub perform-Matches :
      (execute : Execute Node Device) (world : World Node Device) (call : Call)
      → IsSound world
      → (handle_of call == 0 ≡ false → ¬ (world.slots (handle_of call) ≡ unallocated))
      → Matches (perform execute world call) (answer execute (view world) call)
  unfolding perform answer handle_of answer_at entry_type exec_c2c exec_z2z exec_r2c exec_d2z
      exec_c2r exec_z2d set_stream destroy with_stream restream transform_in transform_of view
      when◌then◌else◌ IsSound direction_of is_real_forward is_real_inverse
  perform-Matches execute world (run enter_c2c handle idata odata direction) sound readable =
      handle_lem execute world handle _ (run enter_c2c handle idata odata direction) sound readable
        λ e plan usable.
          run_plan_lem execute world plan c2c idata odata direction _ usable
            (either_lem execute world plan c2c idata odata direction usable refl refl)
  perform-Matches execute world (run enter_z2z handle idata odata direction) sound readable =
      handle_lem execute world handle _ (run enter_z2z handle idata odata direction) sound readable
        λ e plan usable.
          run_plan_lem execute world plan z2z idata odata direction _ usable
            (either_lem execute world plan z2z idata odata direction usable refl refl)
  perform-Matches execute world (run enter_r2c handle idata odata direction) sound readable =
      handle_lem execute world handle _ (run enter_r2c handle idata odata direction) sound readable
        λ e plan usable.
          run_plan_lem execute world plan r2c idata odata direction _ usable
            λ t. launch_forward_lem execute world plan idata odata usable (ap is_real_inverse t)
  perform-Matches execute world (run enter_d2z handle idata odata direction) sound readable =
      handle_lem execute world handle _ (run enter_d2z handle idata odata direction) sound readable
        λ e plan usable.
          run_plan_lem execute world plan d2z idata odata direction _ usable
            λ t. launch_forward_lem execute world plan idata odata usable (ap is_real_inverse t)
  perform-Matches execute world (run enter_c2r handle idata odata direction) sound readable =
      handle_lem execute world handle _ (run enter_c2r handle idata odata direction) sound readable
        λ e plan usable.
          run_plan_lem execute world plan c2r idata odata direction _ usable
            λ t. launch_inverse_lem execute world plan idata odata usable (ap is_real_forward t)
  perform-Matches execute world (run enter_z2d handle idata odata direction) sound readable =
      handle_lem execute world handle _ (run enter_z2d handle idata odata direction) sound readable
        λ e plan usable.
          run_plan_lem execute world plan z2d idata odata direction _ usable
            λ t. launch_inverse_lem execute world plan idata odata usable (ap is_real_forward t)
  perform-Matches execute world (use_stream handle stream) sound readable =
      handle_lem execute world handle _ (use_stream handle stream) sound readable λ e plan usable.
        Matches-else plan.destroyed _ _ _ usable.is_kept
          (store_lem success world handle (owns (with_stream plan stream)) e)
  perform-Matches execute world (release handle) sound readable = elim (Bool-cases (handle == 0)) [
    | inl e ↦ rw e (Matches-same invalid_plan world)
    | inr e ↦
        rw e (free_lem execute world handle (world.slots handle) e (sound handle) (readable e))
  ]
