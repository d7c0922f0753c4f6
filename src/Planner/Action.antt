-- ===== src/Planner/Action.antt =====
-- The methods of `PlanBuilder` as actions: a function of the builder's state that returns a value, throws,
-- or stops because its fuel is used up or because the language leaves the rest undefined. The state
-- comes back after an exception, since what was written stays written.
pub mod Maintains
use flag_fft.Prelude.{Option, none, some, Bool, true, false, Error, Result, ok, throws}

pub data Exit (Value : Type 0) : Type 0 where
  returned : Value → Exit Value
  raised : Error → Exit Value
  stopped : Exit Value

abbrev pub Action : Type 0 → Type 0 → Type 0
Action State Value = State → Exit Value × State

module _ {State : Type 0} where
  unfoldable pub pure : {Value : Type 0} → Value → Action State Value
  pure value state = (returned value, state)

  unfoldable pub raise : {Value : Type 0} → Error → Action State Value
  raise e state = (raised e, state)

  unfoldable pub stop : {Value : Type 0} → Action State Value
  stop state = (stopped, state)

  unfoldable pub read : {Value : Type 0} → (State → Value) → Action State Value
  read field state = (returned (field state), state)

  unfoldable pub modify : (State → State) → Action State (Unit {0})
  modify change state = (returned tt, change state)

  -- A member function that reads and writes one field.
  unfoldable pub visit : {Value : Type 0} → (State → Value × State) → Action State Value
  visit member state = let (value, state') = member state in (returned value, state')

  unfoldable pub continue :
      {Value Next : Type 0} → Exit Value × State → (Value → Action State Next) → Exit Next × State
  continue (returned value, state) next = next value state
  continue (raised e, state) next = (raised e, state)
  continue (stopped, state) next = (stopped, state)

  infixl 5 ◌>>=◌ ◌>>◌
  unfoldable pub ◌>>=◌ :
      {Value Next : Type 0} → Action State Value → (Value → Action State Next) → Action State Next
  unfolding continue
  ◌>>=◌ first next state = continue (first state) next

  unfoldable pub ◌>>◌ :
      {Next : Type 0} → Action State (Unit {0}) → Action State Next → Action State Next
  unfolding ◌>>=◌
  first >> next = first >>= λ done. next

  unfoldable pub lift : {Value : Type 0} → Result Value → Action State Value
  lift (ok value) state = (returned value, state)
  lift (throws e) state = (raised e, state)

  unfoldable pub caught : {Value : Type 0} → Exit Value × State → Exit (Option Value) × State
  caught (returned value, state) = (returned (some value), state)
  caught (raised e, state) = (returned none, state)
  caught (stopped, state) = (stopped, state)

  -- `try { ... } catch (const std::exception &) {}`: `none` where the block throws.
  unfoldable pub attempt : {Value : Type 0} → Action State Value → Action State (Option Value)
  unfolding caught
  attempt body state = caught (body state)

  unfoldable pub restored :
      {Value : Type 0} → (State → State) → Exit Value × State → Exit Value × State
  restored restore (exit, state) = (exit, restore state)

  -- A block after which, also if it throws, a part of the state is set back.
  unfoldable pub guarded :
      {Value : Type 0} → (State → State) → Action State Value → Action State Value
  unfolding restored
  guarded restore body state = restored restore (body state)
