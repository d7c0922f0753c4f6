-- ===== src/Planner/Context/Switch.antt =====
-- Changing the request context of a builder.
use Prim.Native.String.{String}
use text.Mathlib.Text.{◌==◌ as str_eq, is_eq}
use text.Mathlib.TextPositions.{compare_refl}
use text.Mathlib.TextEquality.{eq_iff}
use flag_fft.Prelude.{
  ℕ, [], Option, none, some, Bool, true, false, Bool-cases, ◌==◌, ◌&&◌, ◌≡◌, ◌⊎◌, ◌↔◌, inl, inr,
  refl, sym, ap, subst, Result, ok, ok-injective, >>=-eq-ok, Env, if◌then◌else◌, arith,
}
use mathlib.Core.Option.{some-injective}
use flag_fft.Base.{FftRequest}
use flag_fft.Planner.Context.{
  RequestContext, same_index, same_flag, same_context, Adaptor, make_request_context, BuilderState,
  is_current, set_request_context,
}

same_index_refl : (i : Option ℕ) → same_index i i ≡ true
unfolding same_index
same_index_refl none = refl
same_index_refl (some i) = ground arith

same_number_refl : (n : ℕ) → n == n ≡ true
same_number_refl n = ground arith

same_flag_refl : (b : Bool) → same_flag b b ≡ true
unfolding same_flag
same_flag_refl true = refl
same_flag_refl false = refl

same_text_refl : (s : String) → str_eq s s ≡ true
same_text_refl s = ap is_eq (compare_refl s)

same_context_refl : (c : RequestContext) → same_context c c ≡ true
unfolding same_context
same_context_refl c =
    rw
      (
        same_text_refl c.input_dtype,
        same_text_refl c.output_dtype,
        same_text_refl c.real_transform_kind,
        same_text_refl c.origin_real_transform_kind,
        same_text_refl c.device_type,
        same_index_refl c.device_index,
        same_text_refl c.device_arch,
        same_number_refl c.origin_rank,
        same_number_refl c.requested_n,
        same_number_refl c.batch,
        same_flag_refl c.maca_3d_c2c32_single_cube,
        same_flag_refl c.ix_short_single,
        same_flag_refl c.ix_ct_batch,
        same_number_refl c.max_dynamic_smem_bytes,
      )
      refl

same_index-eq : (i j : Option ℕ) → same_index i j ≡ true → i ≡ j
unfolding same_index
same_index-eq none none h = refl
same_index-eq (some i) (some j) h = ap some (ground arith)
same_index-eq none (some j) h = cc
same_index-eq (some i) none h = cc

same_flag-eq : (b c : Bool) → same_flag b c ≡ true → b ≡ c
unfolding same_flag
same_flag-eq true c h = sym h
same_flag-eq false true h = cc
same_flag-eq false false h = refl

same_number-eq : (m n : ℕ) → m == n ≡ true → m ≡ n
same_number-eq m n h = ground arith

same_text-eq : (s t : String) → str_eq s t ≡ true → s ≡ t
same_text-eq s t h = (eq_iff s t).0 h

both_hold : (a b : Bool) → a && b ≡ true → (a ≡ true) × (b ≡ true)
both_hold true true h = (refl, refl)
both_hold true false h = cc
both_hold false b h = cc

-- Contexts that compare equal agree in every field.
same_context-eq : (c d : RequestContext) → same_context c d ≡ true → c ≡ d
unfolding same_context
same_context-eq c d h =
    let (r13, h14) = both_hold _ _ h in
    let (r12, h13) = both_hold _ _ r13 in
    let (r11, h12) = both_hold _ _ r12 in
    let (r10, h11) = both_hold _ _ r11 in
    let (r9, h10) = both_hold _ _ r10 in
    let (r8, h9) = both_hold _ _ r9 in
    let (r7, h8) = both_hold _ _ r8 in
    let (r6, h7) = both_hold _ _ r7 in
    let (r5, h6) = both_hold _ _ r6 in
    let (r4, h5) = both_hold _ _ r5 in
    let (r3, h4) = both_hold _ _ r4 in
    let (r2, h3) = both_hold _ _ r3 in
    let (h1, h2) = both_hold _ _ r2 in
    fields c d (same_text-eq _ _ h1) (same_text-eq _ _ h2) (same_text-eq _ _ h3)
      (same_text-eq _ _ h4) (same_text-eq _ _ h5) (same_index-eq _ _ h6) (same_text-eq _ _ h7)
      (same_number-eq _ _ h8) (same_number-eq _ _ h9) (same_number-eq _ _ h10)
      (same_flag-eq _ _ h11) (same_flag-eq _ _ h12) (same_flag-eq _ _ h13) (same_number-eq _ _ h14)
  where
    fields :
        (c d : RequestContext)
        → c.input_dtype ≡ d.input_dtype
        → c.output_dtype ≡ d.output_dtype
        → c.real_transform_kind ≡ d.real_transform_kind
        → c.origin_real_transform_kind ≡ d.origin_real_transform_kind
        → c.device_type ≡ d.device_type
        → c.device_index ≡ d.device_index
        → c.device_arch ≡ d.device_arch
        → c.origin_rank ≡ d.origin_rank
        → c.requested_n ≡ d.requested_n
        → c.batch ≡ d.batch
        → c.maca_3d_c2c32_single_cube ≡ d.maca_3d_c2c32_single_cube
        → c.ix_short_single ≡ d.ix_short_single
        → c.ix_ct_batch ≡ d.ix_ct_batch
        → c.max_dynamic_smem_bytes ≡ d.max_dynamic_smem_bytes
        → c ≡ d
    fields c d a1 a2 a3 a4 a5 a6 a7 a8 a9 a10 a11 a12 a13 a14 = cc

differs : {b : Bool} → b ≡ true → b ≡ false → ⊥
differs h k = cc

-- A state's context is current exactly if it is the new one.
is_current_iff :
    (old : Option RequestContext) (next : RequestContext)
    → (is_current old next ≡ true) ↔ (old ≡ some next)
unfolding is_current
is_current_iff none next = ((λ h. cc), (λ h. cc))
is_current_iff (some c) next = (
  (λ h. ap some (same_context-eq c next h)),
  (λ h. subst (λ d. same_context c d ≡ true) (some-injective c next h) (same_context_refl c)),
)

-- The nodes and costs of a state are forgotten, and the three other tables kept.
abbrev pub Forgets : {Node Cost : Type 0} → BuilderState Node Cost → BuilderState Node Cost → Type 0
Forgets old new =
    (new.node_cache ≡ [])
    × (new.cost_cache ≡ [])
    × (new.divisor_cache ≡ old.divisor_cache)
    × (new.factorization_cache ≡ old.factorization_cache)
    × (new.best_leaf_factors_cache ≡ old.best_leaf_factors_cache)

-- The state with a new context.
abbrev renewed :
    {Node Cost : Type 0} → BuilderState Node Cost → RequestContext → BuilderState Node Cost
renewed old next = record {
  context = some next;
  parallel_leaf_heuristic_enabled = old.parallel_leaf_heuristic_enabled;
  node_cache = [];
  cost_cache = [];
  divisor_cache = old.divisor_cache;
  factorization_cache = old.factorization_cache;
  best_leaf_factors_cache = old.best_leaf_factors_cache;
}

abbrev replaced :
    {Node Cost : Type 0} → BuilderState Node Cost → RequestContext → Result (BuilderState Node Cost)
replaced old next = ok (if is_current old.context next then old else renewed old next)

-- After `set_request_context` the context of the state is the one of the request. If it was that
-- before, the state is the one before; else the nodes and costs are forgotten, while the divisors,
-- factorizations and best leaf factors are kept.
pub set_request_context_lem :
    {Node Cost : Type 0} (env : Env) (adaptor : Adaptor) (request : FftRequest)
    (old new : BuilderState Node Cost)
    → set_request_context env adaptor request old ≡ ok new
    → (next : RequestContext) × (make_request_context env adaptor request ≡ ok next)
      × (new.context ≡ some next)
      × (((old.context ≡ some next) × (new ≡ old))
          ⊎ ((¬ (old.context ≡ some next)) × Forgets old new))
unfolding set_request_context
set_request_context_lem {Node} {Cost} env adaptor request old new h =
    let (next, made, rest) =
      >>=-eq-ok (make_request_context env adaptor request) (replaced old) h in
    elim (Bool-cases (is_current old.context next)) [
      | inl same ↦
          let kept : old ≡ new = ok-injective old new (rw same at rest) in
          let was = (is_current_iff old.context next).0 same in
          (next, made, subst (λ s. (s).context ≡ some next) kept was, inl (was, sym kept))
      | inr other ↦
          let changed : renewed old next ≡ new =
            ok-injective (renewed old next) new (rw other at rest) in
          (
            next,
            made,
            subst (λ s. (s).context ≡ some next) changed refl,
            inr (
              (λ was. differs ((is_current_iff old.context next).1 was) other),
              subst (λ s. Forgets old s) changed (refl, refl, refl, refl, refl),
            ),
          )
    ]
