-- ===== src/Coroutine/Drive.antt =====
-- The caller's loop (the loop of every example and test of the repository): resume the coroutine,
-- let the runtime handle an input that it asks for, resume it with the answer, and so on. Beside
-- the loop on fuel stands the relation that holds when it comes to an end.
use io_http.Prelude.{ℕ, zero, suc, ◌+◌, ◌≤◌, ◌≡◌, ◌∙◌, Option, none, some, arith}
use io_http.Coroutine.{Turn, again, yield, panic, returned, panicked, out_of_fuel, loop}

pub data Outcome (Result : Type 0) : Type 0 where
  finished : Result → Outcome Result
  crashed : Outcome Result
  unfinished : Outcome Result

module _ {State Arg Result Input Stream : Type 0}
    (step : State → Option Arg → Turn State Arg Result) (input_of : Result → Option Input)
    (handle : Stream → Input → Stream × Arg) where
  -- `calls` bounds the passes of each call of `resume`, `rounds` the calls.
  unfoldable pub drive : ℕ → ℕ → State → Option Arg → Stream → Outcome Result
  drive calls zero s a stream = unfinished
  drive calls (suc rounds) s a stream = elim (loop step calls s a) [
    | panicked ↦ crashed
    | out_of_fuel ↦ unfinished
    | returned s' r ↦ elim (input_of r) [
      | none ↦ finished r
      | some i ↦ let (stream', a') = handle stream i in drive calls rounds s' (some a') stream'
    ]
  ]

  -- One call of `resume` on `s` and `a` returns `r` and leaves the state `s'`.
  pub data Resumes (s' : State) (r : Result) : State → Option Arg → Type 0 where
    stop : {s : State} {a : Option Arg} → step s a ≡ yield s' r → Resumes s' r s a
    pass :
        {s s₁ : State} {a a₁ : Option Arg}
        → step s a ≡ again s₁ a₁
        → Resumes s' r s₁ a₁
        → Resumes s' r s a

  -- One call of `resume` on `s` and `a` panics.
  pub data Panics : State → Option Arg → Type 0 where
    halt : {s : State} {a : Option Arg} → step s a ≡ panic → Panics s a
    pass_by :
        {s s₁ : State} {a a₁ : Option Arg} → step s a ≡ again s₁ a₁ → Panics s₁ a₁ → Panics s a

  -- The caller's loop ends, with an outcome that meets `P`.
  pub data Drives (P : Outcome Result → Type 0) : State → Option Arg → Stream → Type 0 where
    done :
        {s s' : State} {a : Option Arg} {stream : Stream} {r : Result}
        → Resumes s' r s a
        → input_of r ≡ none
        → P (finished r)
        → Drives P s a stream
    crash :
        {s : State} {a : Option Arg} {stream : Stream}
        → Panics s a
        → P crashed
        → Drives P s a stream
    ask :
        {s s' : State} {a : Option Arg} {stream : Stream} {r : Result} {i : Input}
        → Resumes s' r s a
        → input_of r ≡ some i
        → Drives P s' (some (handle stream i).1) (handle stream i).0
        → Drives P s a stream

  -- A pass in front.
  pub Drives-pass :
      {P : Outcome Result → Type 0} {s s₁ : State} {a a₁ : Option Arg} {stream : Stream}
      → step s a ≡ again s₁ a₁
      → Drives P s₁ a₁ stream
      → Drives P s a stream
  Drives-pass e (done c n p) = done (pass e c) n p
  Drives-pass e (crash c p) = crash (pass_by e c) p
  Drives-pass e (ask c i d) = ask (pass e c) i d

  pub loop-yield :
      {s s' : State} {a : Option Arg} {r : Result}
      → step s a ≡ yield s' r
      → (calls : ℕ) → 1 ≤ calls
      → loop step calls s a ≡ returned s' r
  unfolding loop
  loop-yield e zero h = absurd (omega arith)
  loop-yield e (suc calls) h = rw (e, loop)

  pub loop-again :
      {s s₁ : State} {a a₁ : Option Arg}
      → step s a ≡ again s₁ a₁
      → (calls : ℕ) → loop step (suc calls) s a ≡ loop step calls s₁ a₁
  unfolding loop
  loop-again e calls = rw (e, loop)

  loop-pass :
      {s s₁ s' : State} {a a₁ : Option Arg} {r : Result} (fuel : ℕ)
      → step s a ≡ again s₁ a₁
      → ((calls : ℕ) → fuel ≤ calls → loop step calls s₁ a₁ ≡ returned s' r)
      → (calls : ℕ) → fuel + 1 ≤ calls
      → loop step calls s a ≡ returned s' r
  loop-pass fuel e h zero k = absurd (omega arith)
  loop-pass fuel e h (suc calls) k = loop-again e calls ∙ h calls (omega arith)

  -- A call that returns does so on every fuel from some number on.
  pub Resumes-loop :
      {s' : State} {r : Result} {s : State} {a : Option Arg}
      → Resumes s' r s a
      → (fuel : ℕ) × ((calls : ℕ) → fuel ≤ calls → loop step calls s a ≡ returned s' r)
  Resumes-loop (stop e) = (1, loop-yield e)
  Resumes-loop (pass e c) = let (fuel, h) = Resumes-loop c in (fuel + 1, loop-pass fuel e h)

  pub drive-done :
      (s s' : State) (a : Option Arg) (stream : Stream) {r : Result} (calls rounds : ℕ)
      → loop step calls s a ≡ returned s' r
      → input_of r ≡ none
      → 1 ≤ rounds
      → drive calls rounds s a stream ≡ finished r
  unfolding drive
  drive-done s s' a stream calls zero e n h = absurd (omega arith)
  drive-done s s' a stream calls (suc rounds) e n h = rw (e, drive, n)

  pub drive-ask :
      (s s' : State) (a : Option Arg) (stream : Stream) {r : Result} (i : Input) (calls rounds : ℕ)
      → loop step calls s a ≡ returned s' r
      → input_of r ≡ some i
      → drive calls (suc rounds) s a stream
        ≡ drive calls rounds s' (some (handle stream i).1) (handle stream i).0
  unfolding drive
  drive-ask s s' a stream i calls rounds e n = rw (e, drive, n)

  pub loop-panic :
      {s : State} {a : Option Arg}
      → step s a ≡ panic
      → (calls : ℕ) → loop step (suc calls) s a ≡ panicked
  unfolding loop
  loop-panic e calls = rw (e, loop)

  panics_later :
      {s s₁ : State} {a a₁ : Option Arg} (fuel : ℕ)
      → step s a ≡ again s₁ a₁
      → ((calls : ℕ) → fuel ≤ calls → loop step (suc calls) s₁ a₁ ≡ panicked)
      → (calls : ℕ) → fuel + 1 ≤ calls
      → loop step (suc calls) s a ≡ panicked
  panics_later fuel e h zero k = absurd (omega arith)
  panics_later fuel e h (suc calls) k = loop-again e (suc calls) ∙ h calls (omega arith)

  -- A call that panics does so on every fuel from some number on.
  pub Panics-loop :
      {s : State} {a : Option Arg}
      → Panics s a
      → (fuel : ℕ) × ((calls : ℕ) → fuel ≤ calls → loop step (suc calls) s a ≡ panicked)
  Panics-loop (halt e) = (0, λ calls h. loop-panic e calls)
  Panics-loop (pass_by {s} {s₁} {a} {a₁} e c) =
      let (fuel, h) = Panics-loop c in (fuel + 1, panics_later fuel e h)

  pub drive-crashed :
      (calls rounds : ℕ) (s : State) (a : Option Arg) (stream : Stream)
      → loop step calls s a ≡ panicked
      → drive calls (suc rounds) s a stream ≡ crashed
  unfolding drive
  drive-crashed calls rounds s a stream e = rw (e, drive)

  crashes_now :
      (s : State) (a : Option Arg) (stream : Stream) (fuel : ℕ)
      → ((calls : ℕ) → fuel ≤ calls → loop step (suc calls) s a ≡ panicked)
      → (calls rounds : ℕ) → fuel + 1 ≤ calls
      → fuel + 1 ≤ rounds
      → drive calls rounds s a stream ≡ crashed
  crashes_now s a stream fuel h zero rounds k l = absurd (omega arith)
  crashes_now s a stream fuel h (suc calls) zero k l = absurd (omega arith)
  crashes_now s a stream fuel h (suc calls) (suc rounds) k l =
      drive-crashed (suc calls) rounds s a stream (h calls (omega arith))

  drive-round :
      (s s' : State) (a : Option Arg) (stream : Stream) {r' : Result} (o : Outcome Result)
      (i : Input) (f g : ℕ)
      → ((calls : ℕ) → f ≤ calls → loop step calls s a ≡ returned s' r')
      → input_of r' ≡ some i
      → ((calls rounds : ℕ)
          → g ≤ calls
          → g ≤ rounds
          → drive calls rounds s' (some (handle stream i).1) (handle stream i).0 ≡ o)
      → (calls rounds : ℕ) → f + g + 1 ≤ calls
      → f + g + 1 ≤ rounds
      → drive calls rounds s a stream ≡ o
  drive-round s s' a stream o i f g h n k calls zero p q = absurd (omega arith)
  drive-round s s' a stream o i f g h n k calls (suc rounds) p q =
      drive-ask s s' a stream i calls rounds (h calls (omega arith)) n
      ∙ k calls rounds (omega arith) (omega arith)

  -- The caller's loop ends on every fuel from some number on.
  pub Drives-drive :
      {P : Outcome Result → Type 0} {s : State} {a : Option Arg} {stream : Stream}
      → Drives P s a stream
      → (o : Outcome Result) × P o
        × (fuel : ℕ) × ((calls rounds : ℕ)
            → fuel ≤ calls
            → fuel ≤ rounds
            → drive calls rounds s a stream ≡ o)
  Drives-drive (done {s} {s'} {a} {stream} {r} c n p) =
      let (f, h) = Resumes-loop c in
      (
        finished r,
        p,
        f + 1,
        λ calls rounds k l.
            drive-done s s' a stream calls rounds (h calls (omega arith)) n (omega arith),
      )
  Drives-drive (crash {s} {a} {stream} c p) =
      let (f, h) = Panics-loop c in (crashed, p, f + 1, crashes_now s a stream f h)
  Drives-drive (ask {s} {s'} {a} {stream} {i = i} c n d) =
      let (f, h) = Resumes-loop c in
      let (o, p, g, k) = Drives-drive d in
      (o, p, f + g + 1, drive-round s s' a stream o i f g h n k)

  -- The same for one outcome.
  pub Drives-drive_one :
      {o : Outcome Result} {s : State} {a : Option Arg} {stream : Stream}
      → Drives (λ x. x ≡ o) s a stream
      → (fuel : ℕ) × ((calls rounds : ℕ)
          → fuel ≤ calls
          → fuel ≤ rounds
          → drive calls rounds s a stream ≡ o)
  Drives-drive_one d =
      let (x, p, fuel, h) = Drives-drive d in (fuel, λ calls rounds k l. h calls rounds k l ∙ p)
