-- ===== src/Coroutine/Runs.antt =====
-- The caller's loop over a coroutine whose passes run an inner loop on fuel: what holds from some
-- fuel on, of the inner loop and of the outer one.
use io_http.Prelude.{ℕ, zero, suc, ◌+◌, ◌≤◌, ◌≡◌, ◌∙◌, Option, none, some, arith}
use io_http.Coroutine.{Turn, again, yield, returned, loop}
use io_http.Coroutine.Drive.{drive, finished, loop-yield, loop-again, drive-done, drive-ask}

module _ {State Arg Result Input Stream : Type 0}
    (step : ℕ → State → Option Arg → Turn State Arg Result) (input_of : Result → Option Input)
    (handle : Stream → Input → Stream × Arg) where
  -- One call of `resume` on `s` and `a` returns `r` and leaves the state `s'`.
  abbrev pub Returns : State → Result → State → Option Arg → Type 0
  Returns s' r s a =
      (k : ℕ) × ((fuel calls : ℕ)
        → k ≤ fuel
        → k ≤ calls
        → loop (step fuel) calls s a ≡ returned s' r)

  pub Returns-yield :
      {s s' : State} {a : Option Arg} {r : Result} (k : ℕ)
      → ((fuel : ℕ) → k ≤ fuel → step fuel s a ≡ yield s' r)
      → Returns s' r s a
  Returns-yield k h = (
    k + 1,
    λ fuel calls p q.
        loop-yield (step fuel) input_of handle (h fuel (omega arith)) calls (omega arith),
  )

  pub Returns-pass :
      {s s₁ s' : State} {a a₁ : Option Arg} {r : Result}
      → ((fuel : ℕ) → step fuel s a ≡ again s₁ a₁)
      → Returns s' r s₁ a₁
      → Returns s' r s a
  Returns-pass {s} {s₁} {s'} {a} {a₁} {r} e (k, h) = (k + 1, go)
    where
      go :
          (fuel calls : ℕ)
          → k + 1 ≤ fuel
          → k + 1 ≤ calls
          → loop (step fuel) calls s a ≡ returned s' r
      go fuel zero p q = absurd (omega arith)
      go fuel (suc calls) p q =
          loop-again (step fuel) input_of handle (e fuel) calls
          ∙ h fuel calls (omega arith) (omega arith)

  -- The caller's loop ends with a result that meets `P`.
  pub data Runs (P : Result → Type 0) : State → Option Arg → Stream → Type 0 where
    done :
        {s s' : State} {a : Option Arg} {stream : Stream} {r : Result}
        → Returns s' r s a
        → input_of r ≡ none
        → P r
        → Runs P s a stream
    ask :
        {s s' : State} {a : Option Arg} {stream : Stream} {r : Result} {i : Input}
        → Returns s' r s a
        → input_of r ≡ some i
        → Runs P s' (some (handle stream i).1) (handle stream i).0
        → Runs P s a stream

  -- A pass in front.
  pub Runs-pass :
      {P : Result → Type 0} {s s₁ : State} {a a₁ : Option Arg} {stream : Stream}
      → ((fuel : ℕ) → step fuel s a ≡ again s₁ a₁)
      → Runs P s₁ a₁ stream
      → Runs P s a stream
  Runs-pass e (done c n p) = done (Returns-pass e c) n p
  Runs-pass e (ask c i d) = ask (Returns-pass e c) i d

  run-ask :
      (s s' : State) (a : Option Arg) (stream : Stream) (r r' : Result) (i : Input) (f g : ℕ)
      → ((fuel calls : ℕ) → f ≤ fuel → f ≤ calls → loop (step fuel) calls s a ≡ returned s' r')
      → input_of r' ≡ some i
      → ((fuel calls rounds : ℕ)
          → g ≤ fuel
          → g ≤ calls
          → g ≤ rounds
          → drive
              (step fuel)
              input_of
              handle
              calls
              rounds
              s'
              (some (handle stream i).1)
              (handle stream i).0
            ≡ finished r)
      → (fuel calls rounds : ℕ) → f + g + 1 ≤ fuel
      → f + g + 1 ≤ calls
      → f + g + 1 ≤ rounds
      → drive (step fuel) input_of handle calls rounds s a stream ≡ finished r
  run-ask s s' a stream r r' i f g h n k fuel calls zero p q l = absurd (omega arith)
  run-ask s s' a stream r r' i f g h n k fuel calls (suc rounds) p q l =
      drive-ask (step fuel) input_of handle s s' a stream i calls rounds
        (h fuel calls (omega arith) (omega arith)) n
      ∙ k fuel calls rounds (omega arith) (omega arith) (omega arith)

  -- The caller's loop ends on every fuel from some number on.
  pub Runs-drive :
      {P : Result → Type 0} {s : State} {a : Option Arg} {stream : Stream}
      → Runs P s a stream
      → (r : Result) × P r
        × (k : ℕ) × ((fuel calls rounds : ℕ)
            → k ≤ fuel
            → k ≤ calls
            → k ≤ rounds
            → drive (step fuel) input_of handle calls rounds s a stream ≡ finished r)
  Runs-drive (done {s} {s'} {a} {stream} {r} (f, h) n p) = (
    r,
    p,
    f + 1,
    λ fuel calls rounds k l o.
        drive-done (step fuel) input_of handle s s' a stream calls rounds
          (h fuel calls (omega arith) (omega arith)) n (omega arith),
  )
  Runs-drive (ask {s} {s'} {a} {stream} {r = r'} {i} (f, h) n d) =
      let (r, p, g, k) = Runs-drive d in (r, p, f + g + 1, run-ask s s' a stream r r' i f g h n k)
