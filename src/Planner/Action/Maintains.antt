-- ===== src/Planner/Action/Maintains.antt =====
-- What an action maintains and returns: rules along the structure of the code.
use flag_fft.Prelude.{
  Option, none, some, Bool, true, false, Error, Result, ok, throws, ◌≡◌, when◌then◌else◌, refl,
}
use flag_fft.Planner.Action.{
  Exit, returned, raised, stopped, Action, pure, raise, stop, read, modify, visit, continue, ◌>>=◌,
  ◌>>◌, lift, caught, attempt, restored, guarded,
}

module _ {State Value : Type 0} (I : State → Type 0) (P : Value → Type 0) where
  abbrev pub Left : Exit Value × State → Type 0
  Left (returned value, state) = P value × I state
  Left (raised e, state) = I state
  Left (stopped, state) = Unit

  -- From a state with `I`, a value that the action returns has `P`, and the state it leaves, also by
  -- an exception, has `I`.
  pub record Maintains (action : Action State Value) : Type 0 where
    pub left : (state : State) → I state → Left (action state)

abbrev pub Optional : {Value : Type 0} → (Value → Type 0) → Option Value → Type 0
Optional P none = Unit
Optional P (some value) = P value

caught-Left :
    {State Value : Type 0} (I : State → Type 0) (P : Value → Type 0) (exit : Exit Value × State)
    → Left I P exit
    → Left I (Optional P) (caught exit)
unfolding caught
caught-Left I P (returned value, state) h = h
caught-Left I P (raised e, state) h = (tt, h)
caught-Left I P (stopped, state) h = tt

module _ {State : Type 0} {I : State → Type 0} where
  pub Maintains-pure :
      {Value : Type 0} {P : Value → Type 0} (value : Value) → P value → Maintains I P (pure value)
  unfolding pure
  Maintains-pure value p = record { left = λ state h. (p, h) }

  pub Maintains-raise : {Value : Type 0} {P : Value → Type 0} (e : Error) → Maintains I P (raise e)
  unfolding raise
  Maintains-raise e = record { left = λ state h. h }

  pub Maintains-stop : {Value : Type 0} {P : Value → Type 0} → Maintains I P stop
  unfolding stop
  Maintains-stop = record { left = λ state h. tt }

  pub Maintains-read :
      {Value : Type 0} {P : Value → Type 0} (field : State → Value)
      → ((state : State) → I state → P (field state))
      → Maintains I P (read field)
  unfolding read
  Maintains-read field p = record { left = λ state h. (p state h, h) }

  pub Maintains-modify :
      {P : Unit {0} → Type 0} (change : State → State)
      → P tt
      → ((state : State) → I state → I (change state))
      → Maintains I P (modify change)
  unfolding modify
  Maintains-modify change p k = record { left = λ state h. (p, k state h) }

  pub Maintains-visit :
      {Value : Type 0} {P : Value → Type 0} (member : State → Value × State)
      → ((state : State) → I state → P (member state).0 × I (member state).1)
      → Maintains I P (visit member)
  unfolding visit
  Maintains-visit member k = record { left = λ state h. k state h }

  pub Maintains-lift :
      {Value : Type 0} {P : Value → Type 0} (result : Result Value)
      → ((value : Value) → result ≡ ok value → P value)
      → Maintains I P (lift result)
  unfolding lift
  Maintains-lift (ok value) p = record { left = λ state h. (p value refl, h) }
  Maintains-lift (throws e) p = record { left = λ state h. h }

  module _ {Value Next : Type 0} (P : Value → Type 0) (Q : Next → Type 0) where
    continue-Left :
        (exit : Exit Value × State) (next : Value → Action State Next)
        → Left I P exit
        → ((value : Value) → P value → Maintains I Q (next value))
        → Left I Q (continue exit next)
    unfolding continue
    continue-Left (returned value, state) next (p, h) k = (k value p).left state h
    continue-Left (raised e, state) next h k = h
    continue-Left (stopped, state) next h k = tt

  pub Maintains-bind :
      {Value Next : Type 0} {P : Value → Type 0} {Q : Next → Type 0} (first : Action State Value)
      (next : Value → Action State Next)
      → Maintains I P first
      → ((value : Value) → P value → Maintains I Q (next value))
      → Maintains I Q (first >>= next)
  unfolding ◌>>=◌
  Maintains-bind {P = P} {Q = Q} first next m k = record {
    left = λ state h. continue-Left P Q (first state) next (m.left state h) k;
  }

  pub Maintains-then :
      {Next : Type 0} {P : Unit {0} → Type 0} {Q : Next → Type 0} (first : Action State (Unit {0}))
      (next : Action State Next)
      → Maintains I P first
      → Maintains I Q next
      → Maintains I Q (first >> next)
  unfolding ◌>>◌
  Maintains-then first next m k = Maintains-bind first (λ done. next) m (λ value p. k)

  pub Maintains-when :
      {Value : Type 0} {P : Value → Type 0} (test : Bool) (first other : Action State Value)
      → (test ≡ true → Maintains I P first)
      → (test ≡ false → Maintains I P other)
      → Maintains I P (when test then first else other)
  unfolding when◌then◌else◌
  Maintains-when true first other h k = h refl
  Maintains-when false first other h k = k refl

  module _ {Value : Type 0} (P : Value → Type 0) where
    restored-Left :
        (restore : State → State) (exit : Exit Value × State)
        → ((state : State) → I state → I (restore state))
        → Left I P exit
        → Left I P (restored restore exit)
    unfolding restored
    restored-Left restore (returned value, state) k (p, h) = (p, k state h)
    restored-Left restore (raised e, state) k h = k state h
    restored-Left restore (stopped, state) k h = tt

  pub Maintains-attempt :
      {Value : Type 0} {P : Value → Type 0} (body : Action State Value)
      → Maintains I P body
      → Maintains I (Optional P) (attempt body)
  unfolding attempt
  Maintains-attempt {P = P} body m = record {
    left = λ state h. caught-Left I P (body state) (m.left state h);
  }

  pub Maintains-guarded :
      {Value : Type 0} {P : Value → Type 0} (restore : State → State) (body : Action State Value)
      → ((state : State) → I state → I (restore state))
      → Maintains I P body
      → Maintains I P (guarded restore body)
  unfolding guarded
  Maintains-guarded {P = P} restore body k m = record {
    left = λ state h. restored-Left P restore (body state) k (m.left state h);
  }
