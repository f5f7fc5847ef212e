-- ===== src/Coroutine.antt =====
-- The shape that the coroutines of this library share: `resume` is a loop over a state, each pass of
-- which goes round again, returns a result to the caller, or panics.
pub mod Drive
pub mod Runs
pub mod More
pub mod Keeps
pub mod Converse
use io_http.Prelude.{ℕ, zero, suc, ◌≤◌, ◌≡◌, refl, Option, arith}

-- One pass of the loop, on a state and on what is left of the argument after `arg.take()`.
pub data Turn (State Arg Result : Type 0) : Type 0 where
  again : State → Option Arg → Turn State Arg Result
  yield : State → Result → Turn State Arg Result
  panic : Turn State Arg Result
  -- An inner loop had too little fuel.
  starved : Turn State Arg Result

-- One call of `resume`.
pub data Resumed (State Result : Type 0) : Type 0 where
  returned : State → Result → Resumed State Result
  panicked : Resumed State Result
  out_of_fuel : Resumed State Result

module _ {State Arg Result : Type 0} (step : State → Option Arg → Turn State Arg Result) where
  -- The loop, with the passes that it may make as fuel.
  unfoldable pub loop : ℕ → State → Option Arg → Resumed State Result
  loop zero s a = out_of_fuel
  loop (suc fuel) s a = elim (step s a) [
    | again s' a' ↦ loop fuel s' a'
    | yield s' r ↦ returned s' r
    | panic ↦ panicked
    | starved ↦ out_of_fuel
  ]
