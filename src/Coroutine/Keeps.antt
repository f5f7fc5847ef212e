-- ===== src/Coroutine/Keeps.antt =====
-- What every pass of a coroutine keeps, a call of `resume` keeps.
use io_http.Prelude.{ℕ, zero, suc, ◌≡◌, refl, Option}
use io_http.Coroutine.{
  Turn, again, yield, panic, starved, Resumed, returned, panicked, out_of_fuel, loop,
}

-- The state that a call leaves and its result fit together; where it panics, `Crash` holds.
abbrev pub ResumedKeeps :
    {State Result : Type 0} → (State → Result → Type 0) → Type 0 → Resumed State Result → Type 0
ResumedKeeps Left Crash (returned m r) = Left m r
ResumedKeeps Left Crash panicked = Crash
ResumedKeeps Left Crash out_of_fuel = Unit

-- A weaker claim where it panics.
pub ResumedKeeps-imp :
    {State Result : Type 0} (Left : State → Result → Type 0) {Crash Crash' : Type 0}
    → (Crash → Crash')
    → (o : Resumed State Result) → ResumedKeeps Left Crash o
    → ResumedKeeps Left Crash' o
ResumedKeeps-imp Left f (returned m r) h = h
ResumedKeeps-imp Left f panicked h = f h
ResumedKeeps-imp Left f out_of_fuel h = tt

-- A pass that goes round again leaves a state that is held, and one that returns a state and a result
-- that fit together; where it panics, `Crash` holds.
abbrev pub TurnKeeps :
    {State Arg Result : Type 0}
    → (State → Type 0)
    → (State → Result → Type 0)
    → Type 0
    → Turn State Arg Result
    → Type 0
TurnKeeps Held Left Crash (again m a) = Held m
TurnKeeps Held Left Crash (yield m r) = Left m r
TurnKeeps Held Left Crash panic = Crash
TurnKeeps Held Left Crash starved = Unit

module _ {State Arg Result : Type 0} (step : State → Option Arg → Turn State Arg Result)
    (Bad : State → Option Arg → Type 0) where
  -- The passes of one call, from a state and an answer on, come to a pass where `Bad` holds.
  pub data Reaches : State → Option Arg → Type 0 where
    here : {m : State} {a : Option Arg} → Bad m a → Reaches m a
    later :
        {m m' : State} {a a' : Option Arg} → step m a ≡ again m' a' → Reaches m' a' → Reaches m a

  pub Reaches-never :
      ((m : State) (a : Option Arg) → ¬ Bad m a) → {m : State} {a : Option Arg} → ¬ Reaches m a
  Reaches-never never {m} {a} (here b) = never m a b
  Reaches-never never (later e r) = Reaches-never never r

  module _ (Held : State → Type 0) (Left : State → Result → Type 0) where
    abbrev continued : ℕ → Turn State Arg Result → Resumed State Result
    continued n (again m a) = loop step n m a
    continued n (yield m r) = returned m r
    continued n panic = panicked
    continued n starved = out_of_fuel

    loop-continued :
        (n : ℕ) (m : State) (arg : Option Arg) (turn : Turn State Arg Result)
        → step m arg ≡ turn
        → loop step (suc n) m arg ≡ continued n turn
    unfolding loop
    loop-continued n m arg (again m' a) e = rw (e, loop)
    loop-continued n m arg (yield m' r) e = rw (e, loop)
    loop-continued n m arg panic e = rw (e, loop)
    loop-continued n m arg starved e = rw (e, loop)

    continued-keeps :
        (n : ℕ) (m : State) (arg : Option Arg)
        → ((m : State) (arg : Option Arg)
            → Held m
            → ResumedKeeps Left (Reaches m arg) (loop step n m arg))
        → (turn : Turn State Arg Result) → step m arg ≡ turn
        → TurnKeeps Held Left (Bad m arg) turn
        → ResumedKeeps Left (Reaches m arg) (continued n turn)
    continued-keeps n m arg ih (again m' a) e h =
        ResumedKeeps-imp Left (λ r. later e r) (loop step n m' a) (ih m' a h)
    continued-keeps n m arg ih (yield m' r) e h = h
    continued-keeps n m arg ih panic e h = here h
    continued-keeps n m arg ih starved e h = h

    pub loop-keeps :
        ((m : State) (arg : Option Arg) → Held m → TurnKeeps Held Left (Bad m arg) (step m arg))
        → (n : ℕ) (m : State) (arg : Option Arg) → Held m
        → ResumedKeeps Left (Reaches m arg) (loop step n m arg)
    loop-keeps keeps zero m arg h = unfold loop in tt
    loop-keeps keeps (suc n) m arg h =
        rw (loop-continued n m arg (step m arg) refl)
          (continued-keeps n m arg (loop-keeps keeps n) (step m arg) refl (keeps m arg h))
