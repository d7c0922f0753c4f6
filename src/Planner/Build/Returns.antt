-- ===== src/Planner/Build/Returns.antt =====
-- `build` on Ascend devices, where nothing is set and the transform is not two-dimensional: from the request
-- to the plan.
use Prim.Native.String.{String}
use text.Mathlib.Text.{◌==◌ as str_eq}
use native.Mathlib.Nat.{mul-zero}
use flag_fft.Prelude.{
  ℕ, suc, ◌*◌, ◌/◌, ◌≤◌, [], none, some, Bool, true, false, not, ◌&&◌, ◌||◌, ◌==◌, if◌then◌else◌,
  when◌then◌else◌, ◌≡◌, refl, sym, ap, ◌∙◌, subst, inl, inr, Bool-cases, Env, Result, ok,
  ok-injective, ◌>>=◌, arith,
}
use flag_fft.Base.{FftRequest}
use flag_fft.Plan.{PlanNode, four_step_plan}
use flag_fft.Policy.{
  is_value, is_ix_dense_1d, ix_ct_single_policy_enabled, ix_ct_batch_policy_enabled,
  maca_tail_policy_enabled, maca_tail_automatic_plan, tail_plans_after, explicit_plans,
  maca_tail_plans,
}
use flag_fft.Planner.Action.{Action, Exit, returned, pure, ◌>>=◌ as and_then, ◌>>◌}
use flag_fft.Planner.Action.Maintains.{Left}
use flag_fft.Planner.Candidates.{planner}
use flag_fft.Planner.Context.{
  Adaptor, RequestContext, BuilderState, make_request_context, set_request_context,
}
use flag_fft.Planner.Context.Switch.{set_request_context_lem}
use flag_fft.Planner.Convolution.{split_node}
use flag_fft.Planner.Costs.{Recursive}
use flag_fft.Planner.Doubles.{Doubles}
use flag_fft.Planner.Leaves.{State}
use flag_fft.Planner.Leaves.Factors.{Good}
use flag_fft.Planner.Npu.Total.{Returns, planner-Returns}
use flag_fft.Planner.Npu.Unset.{bind_lem, lift_lem, taken, skipped}
use flag_fft.Planner.Npu.Factors.{side_lem}
use flag_fft.Planner.Strings.{Strings}
use flag_fft.Planner.WellFormed.{IsPlanOf, IsGood}
use flag_fft.Planner.Build.{
  set_side, npu_operator_side, is_maca_batch_c2c, left_context, switch_context, or_node, aiv64_leaf,
  split_at, setting_split, fixed_split, first_experiment, build_last, build_3d, build_root, build,
  is_hcu_single_c2r_root, is_first_dim,
}
use flag_fft.Planner.Build.Splits.{operator_lem}
use flag_fft.Planner.Build.Sound.{build-Maintains}

single_lem :
    (env : Env) (request : FftRequest)
    → request.device_type ≡ "npu"
    → ix_ct_single_policy_enabled env request ≡ ok false
unfolding ix_ct_single_policy_enabled is_ix_dense_1d
single_lem env request npu = rw npu refl

batch_policy_lem :
    (env : Env) (request : FftRequest)
    → request.device_type ≡ "npu"
    → ix_ct_batch_policy_enabled env request ≡ ok false
unfolding ix_ct_batch_policy_enabled is_ix_dense_1d
batch_policy_lem env request npu = rw npu refl

policy_lem :
    (env : Env) (request : FftRequest)
    → request.device_type ≡ "npu"
    → maca_tail_policy_enabled env request ≡ ok false
unfolding maca_tail_policy_enabled
policy_lem env request npu = rw npu refl

experiments_lem :
    (env : Env) (n : ℕ) (request : FftRequest)
    → request.device_type ≡ "npu"
    → env "FLAGFFT_MACA_TAIL_PLAN" ≡ none
    → maca_tail_plans env n request false ≡ ok []
unfolding maca_tail_plans maca_tail_automatic_plan tail_plans_after explicit_plans
experiments_lem env n request npu unset = rw (policy_lem env request npu, unset) refl

bind-ok :
    {A B : Type 0} (first : Result A) (next : A → Result B) (a : A)
    → first ≡ ok a
    → (first >>= next) ≡ next a
bind-ok first next a e = rw e refl

-- The context of the request is there, with its device and rank.
context_of :
    (env : Env) (adaptor : Adaptor) (request : FftRequest)
    → request.device_type ≡ "npu"
    → (context : RequestContext) × (make_request_context env adaptor request ≡ ok context)
      × (context.device_type ≡ request.device_type)
      × (context.origin_rank ≡ request.origin_rank)
unfolding make_request_context
context_of env adaptor request npu = (
  _,
  bind-ok _ _ false (chosen (request.requested_n == 1024))
      ∙ bind-ok _ _ false (batch_policy_lem env request npu),
  refl,
  refl,
)
  where
    chosen :
        (test : Bool)
        → (if test then ix_ct_single_policy_enabled env request else ok false) ≡ ok false
    chosen true = single_lem env request npu
    chosen false = refl

switch_lem :
    {Node Cost : Type 0} (env : Env) (adaptor : Adaptor) (request : FftRequest)
    (old : BuilderState Node Cost) (context : RequestContext)
    → make_request_context env adaptor request ≡ ok context
    → (new : BuilderState Node Cost) × (set_request_context env adaptor request old ≡ ok new)
unfolding set_request_context
switch_lem env adaptor request old context made = (_, bind-ok _ _ context made)

last_false : (a b : Bool) → b ≡ false → a && b ≡ false
last_false a b h = ground arith

false_within : (a b : Bool) → a && false && b ≡ false
false_within true b = refl
false_within false b = refl

-- The measured sides divide.
sides :
    (n : ℕ)
    → 1 ≤ n
    → (first : Bool) → first && not (npu_operator_side n == 0) ≡ true
    → (1 ≤ npu_operator_side n) × (1 ≤ n / npu_operator_side n)
sides n positive first h =
    let measured : not (npu_operator_side n == 0) ≡ true = ground (arith, h) in
    let whole = side_lem n (npu_operator_side n) (operator_lem n measured) in
    (ground (arith, measured), quotient (npu_operator_side n) (n / npu_operator_side n) whole)
  where
    quotient : (side other : ℕ) → side * other ≡ n → 1 ≤ other
    quotient side other e = elim (Bool-cases (other == 0)) [
      | inl zero' ↦
          let none' : other ≡ 0 = ground arith in
          absurd (omega (arith, e, ap (λ t. side * t) none', mul-zero side, positive))
      | inr more ↦ ground arith
    ]

module _ (doubles : Doubles) (env : Env) (strings : Strings)
    (unset : (name : String) → env name ≡ none) (recursive : Recursive doubles)
    (request : FftRequest) (npu : request.device_type ≡ "npu") (n : ℕ) (positive : 1 ≤ n)
    (context : RequestContext)
    (nodes : (m : ℕ) (heuristic : Bool) (state : State doubles)
      → state.context ≡ some context
      → 1 ≤ m
      → Returns context (recursive.build_auto_node m heuristic state)) where
  -- A group that reads a setting finds none.
  setting_lem :
      (test : Bool) (name : String) (build_split : ℕ → Action (State doubles) PlanNode)
      (state : State doubles)
      → setting_split doubles env strings recursive test name n build_split state
        ≡ (returned none, state)
  unfolding setting_split set_side split_at pure
  setting_lem test name build_split state = elim (Bool-cases test) [
    | inl e ↦
        taken test _ _ state _ e
          (bind_lem _ _ state state none _ (lift_lem _ state none (rw (unset name) refl)) refl)
    | inr e ↦ skipped test _ _ state _ e refl
  ]

  no_split :
      (test : Bool) (n1 : ℕ) (state : State doubles)
      → test ≡ false
      → fixed_split doubles env strings recursive test n n1 state ≡ (returned none, state)
  unfolding fixed_split pure
  no_split test n1 state e = skipped test _ _ state _ e refl

  one_split :
      (test : Bool) (n1 : ℕ) (state state' : State doubles) (node : PlanNode)
      → test ≡ true
      → split_node doubles env recursive n n1 (n / n1) state ≡ (returned node, state')
      → fixed_split doubles env strings recursive test n n1 state ≡ (returned (some node), state')
  unfolding fixed_split pure
  one_split test n1 state state' node e h =
      taken test _ _ state _ e (bind_lem _ _ state state' node _ h refl)

  split_node-Returns :
      (n1 : ℕ) (state : State doubles)
      → state.context ≡ some context
      → 1 ≤ n1
      → 1 ≤ n / n1
      → Returns context (split_node doubles env recursive n n1 (n / n1) state)
  unfolding split_node pure
  split_node-Returns n1 state here a b =
      let (row, state', e, here') = nodes n1 false state here a in
      let (col, state'', f, here'') = nodes (n / n1) false state' here' b in
      (
        four_step_plan n n1 (n / n1) row col,
        state'',
        bind_lem _ _ state state' row _ e (bind_lem _ _ state' state'' col _ f refl),
        here'',
      )

  -- From the MACA experiments on.
  last-Returns :
      (state : State doubles)
      → state.context ≡ some context
      → Returns context (build_last doubles env strings recursive request n state)
  unfolding build_last first_experiment or_node pure is_maca_batch_c2c
  last-Returns state here =
      let (node, state', e, here') = nodes n true state here positive in
      (
        node,
        state',
        bind_lem _ _ state state [] _
            (lift_lem _ state [] (experiments_lem env n request npu (unset _)))
            (bind_lem _ _ state state none _ refl
              (bind_lem _ _ state state none _ (no_split _ _ state batch) e)),
        here',
      )
    where
      batch : is_maca_batch_c2c env request n && (n == 16384 || n == 663000) ≡ false
      batch = rw npu refl

  -- From the splits of three dimensions on.
  block-Returns :
      (state : State doubles)
      → state.context ≡ some context
      → Returns context (build_3d doubles env strings recursive request n state)
  unfolding build_3d aiv64_leaf or_node pure is_value
  block-Returns state here = elim (Bool-cases operator) [
    | inl test ↦
        let side = npu_operator_side n in
        let (node, state', e, here') =
          split_node-Returns side state here (sides n positive _ test).0
            (sides n positive _ test).1 in
        (
          node,
          state',
          prefix _ (
              bind_lem _ _ state state' (some node) _ (one_split _ _ state state' node test e)
                refl),
          here',
        )
    | inr test ↦
        let (node, state', e, here') = last-Returns state here in
        (
          node,
          state',
          prefix _ (bind_lem _ _ state state none _ (no_split _ _ state test) e),
          here',
        )
  ]
    where
      operator : Bool
      operator =
          str_eq request.device_type "npu"
          && is_first_dim request.raw_dim
          && request.origin_rank == 1
          && request.requested_n == n
          && (str_eq request.input_dtype "complex64" || str_eq request.output_dtype "complex64")
          && not (npu_operator_side n == 0)

      prefix :
          (result : Exit PlanNode × State doubles)
          → (and_then
                (fixed_split doubles env strings recursive operator n (npu_operator_side n))
                (λ found.
                  or_node doubles found (build_last doubles env strings recursive request n)))
              state
            ≡ result
          → build_3d doubles env strings recursive request n state ≡ result
      prefix result e =
          bind_lem _ _ state state none _
            (skipped _ _ _ state _ (rw (unset "FLAGFFT_NPU_3D_AIV64") (false_within _ _)) refl)
            (bind_lem _ _ state state none _ (setting_lem _ _ _ state) e)

  -- After the context is set.
  root-Returns :
      (state : State doubles)
      → state.context ≡ some context
      → Returns context (build_root doubles env strings recursive request n state)
  unfolding build_root or_node pure is_hcu_single_c2r_root
  root-Returns state here =
      let (node, state', e, here') = block-Returns state here in
      (
        node,
        state',
        bind_lem _ _ state state none _ (setting_lem _ _ _ state) (
            bind_lem _ _ state state none _ (no_split _ _ state (rw npu refl)) (
              bind_lem _ _ state state none _ (setting_lem _ _ _ state)
                (bind_lem _ _ state state none _ (setting_lem _ _ _ state) e))),
        here',
      )

switch_context_lem :
    (doubles : Doubles) (env : Env) (adaptor : Adaptor) (request : FftRequest)
    (state new : State doubles)
    → set_request_context env adaptor request state ≡ ok new
    → switch_context doubles env adaptor request state ≡ (returned tt, new)
unfolding switch_context left_context pure
switch_context_lem doubles env adaptor request state new switched = rw switched refl

-- The statements of `build` one after the other.
run_lem :
    (doubles : Doubles) (env : Env) (strings : Strings) (adaptor : Adaptor) (depth n : ℕ)
    (request : FftRequest) (state new : State doubles) (result : Exit PlanNode × State doubles)
    → set_request_context env adaptor request state ≡ ok new
    → 1 ≤ n
    → build_root doubles env strings (planner doubles env strings depth) request n new ≡ result
    → build doubles env strings adaptor depth n request state ≡ result
unfolding build ◌>>◌
run_lem doubles env strings adaptor depth n request state new result switched positive e =
    bind_lem (switch_context doubles env adaptor request) _ state new tt _
      (switch_context_lem doubles env adaptor request state new switched)
      (skipped _ _ _ new _ (ground (arith, positive)) e)

-- On an Ascend device, where nothing is set and the transform is not two-dimensional, `build` returns for every
-- positive length, if the planner may call itself twice: from right memo tables it returns a plan of that
-- length and leaves the memo tables right.
pub build-Returns :
    (doubles : Doubles) (env : Env) (strings : Strings) (adaptor : Adaptor) (depth n : ℕ)
    (request : FftRequest) (state : State doubles)
    → ((name : String) → env name ≡ none)
    → request.device_type ≡ "npu"
    → request.origin_rank == 2 ≡ false
    → IsGood state
    → 1 ≤ n
    → (node : PlanNode) × (state' : State doubles) × (build doubles env strings adaptor
          (suc (suc depth))
          n
          request
          state
        ≡ (returned node, state'))
      × IsPlanOf n node
      × IsGood state'
build-Returns doubles env strings adaptor depth n request state unset npu rank good positive =
    let (context, made, device, same_rank) = context_of env adaptor request npu in
    let (new, switched) = switch_lem env adaptor request state context made in
    let (next, made', here, how) = set_request_context_lem env adaptor request state new switched in
    let same : next ≡ context = ok-injective next context (sym made' ∙ made) in
    let (node, state', e, kept) =
      root-Returns doubles env strings unset (planner doubles env strings (suc (suc depth))) request
        npu n positive context
        (λ m heuristic old h low.
          planner-Returns doubles env strings depth m heuristic context old unset (device ∙ npu)
            (ap (λ r. r == 2) same_rank ∙ rank) h low)
        new (here ∙ ap some same) in
    let run : build doubles env strings adaptor (suc (suc depth)) n request state
        ≡ (returned node, state') =
      run_lem doubles env strings adaptor (suc (suc depth)) n request state new _ switched positive
        e in
    let (right, good') = subst (Left (Good doubles) (IsPlanOf n)) run (
      (build-Maintains doubles env strings adaptor (suc (suc depth)) n request (unset _)).left state
        good) in
    (node, state', run, right, good')
