-- ===== src/Coroutine/Converse.antt =====
-- The caller's loop over any `resume`, also one that wraps another.
pub mod Wrapped
use io_http.Prelude.{ℕ, zero, suc, ◌≡◌, refl, sym, ◌∙◌, Option, none, some, arith}
use io_http.Coroutine.{Turn, Resumed, returned, panicked, out_of_fuel, loop}
use io_http.Coroutine.Drive.{
  drive-crashed, Outcome, finished, crashed, unfinished, drive, drive-done, drive-ask,
}
use io_http.Coroutine.More.{drive-unfinished}

module _ {State Arg Result Input Stream : Type 0}
    (resume : State → Option Arg → Resumed State Result) (input_of : Result → Option Input)
    (handle : Stream → Input → Stream × Arg) where
  pub answered :
      Option Input
      → Result
      → State
      → Stream
      → (State → Option Arg → Stream → Outcome Result)
      → Outcome Result
  answered none r s stream rest = finished r
  answered (some i) r s stream rest = rest s (some (handle stream i).1) (handle stream i).0

  pub resumed :
      Resumed State Result
      → Stream
      → (State → Option Arg → Stream → Outcome Result)
      → Outcome Result
  resumed (returned s r) stream rest = answered (input_of r) r s stream rest
  resumed panicked stream rest = crashed
  resumed out_of_fuel stream rest = unfinished

  unfoldable pub converse : ℕ → State → Option Arg → Stream → Outcome Result
  unfolding resumed answered
  converse zero s a stream = unfinished
  converse (suc rounds) s a stream = resumed (resume s a) stream (converse rounds)

module _ {State Arg Result Input Stream : Type 0}
    (step : State → Option Arg → Turn State Arg Result) (input_of : Result → Option Input)
    (handle : Stream → Input → Stream × Arg) (calls : ℕ) where
  asked_round :
      (o : Option Input) (rounds : ℕ) (s s' : State) (a : Option Arg) (stream : Stream) (r : Result)
      → loop step calls s a ≡ returned s' r
      → input_of r ≡ o
      → drive step input_of handle calls (suc rounds) s a stream
        ≡ answered
            (loop step calls)
            input_of
            handle
            o
            r
            s'
            stream
            (drive step input_of handle calls rounds)
  unfolding answered
  asked_round none rounds s s' a stream r e i =
      drive-done step input_of handle s s' a stream calls (suc rounds) e i (omega arith)
  asked_round (some j) rounds s s' a stream r e i =
      drive-ask step input_of handle s s' a stream j calls rounds e i

  one_round :
      (t : Resumed State Result) (rounds : ℕ) (s : State) (a : Option Arg) (stream : Stream)
      → loop step calls s a ≡ t
      → drive step input_of handle calls (suc rounds) s a stream
        ≡ resumed
            (loop step calls)
            input_of
            handle
            t
            stream
            (drive step input_of handle calls rounds)
  unfolding resumed
  one_round (returned s' r) rounds s a stream e =
      asked_round (input_of r) rounds s s' a stream r e refl
  one_round panicked rounds s a stream e =
      drive-crashed step input_of handle calls rounds s a stream e
  one_round out_of_fuel rounds s a stream e =
      drive-unfinished step input_of handle calls rounds s a stream e

  answered_same :
      (o : Option Input) (rounds : ℕ) (s : State) (stream : Stream) (r : Result)
      → ((s₁ : State) (a₁ : Option Arg) (stream₁ : Stream)
          → converse (loop step calls) input_of handle rounds s₁ a₁ stream₁
            ≡ drive step input_of handle calls rounds s₁ a₁ stream₁)
      → answered
          (loop step calls)
          input_of
          handle
          o
          r
          s
          stream
          (converse (loop step calls) input_of handle rounds)
        ≡ answered
            (loop step calls)
            input_of
            handle
            o
            r
            s
            stream
            (drive step input_of handle calls rounds)
  unfolding answered
  answered_same none rounds s stream r ih = refl
  answered_same (some i) rounds s stream r ih = ih s _ _

  resumed_same :
      (t : Resumed State Result) (rounds : ℕ) (stream : Stream)
      → ((s₁ : State) (a₁ : Option Arg) (stream₁ : Stream)
          → converse (loop step calls) input_of handle rounds s₁ a₁ stream₁
            ≡ drive step input_of handle calls rounds s₁ a₁ stream₁)
      → resumed
          (loop step calls)
          input_of
          handle
          t
          stream
          (converse (loop step calls) input_of handle rounds)
        ≡ resumed
            (loop step calls)
            input_of
            handle
            t
            stream
            (drive step input_of handle calls rounds)
  unfolding resumed
  resumed_same (returned s r) rounds stream ih = answered_same (input_of r) rounds s stream r ih
  resumed_same panicked rounds stream ih = refl
  resumed_same out_of_fuel rounds stream ih = refl

  pub converse-drive :
      (rounds : ℕ) (s : State) (a : Option Arg) (stream : Stream)
      → converse (loop step calls) input_of handle rounds s a stream
        ≡ drive step input_of handle calls rounds s a stream
  unfolding converse
  converse-drive zero s a stream = unfold drive in refl
  converse-drive (suc rounds) s a stream =
      resumed_same (loop step calls s a) rounds stream (converse-drive rounds)
      ∙ sym (one_round (loop step calls s a) rounds s a stream refl)
