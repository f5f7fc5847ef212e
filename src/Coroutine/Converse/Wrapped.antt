-- ===== src/Coroutine/Converse/Wrapped.antt =====
-- A coroutine that wraps another and translates its results.
use io_http.Prelude.{ℕ, zero, suc, ◌≡◌, refl, ◌∙◌, ap, Option, none, some}
use io_http.Coroutine.{Resumed, returned, panicked, out_of_fuel}
use io_http.Coroutine.Drive.{Outcome, finished, crashed, unfinished}
use io_http.Coroutine.Converse.{answered, resumed, converse}

module _ {Result Result' : Type 0} (view : Result → Result') where
  unfoldable pub viewed : Outcome Result → Outcome Result'
  viewed (finished r) = finished (view r)
  viewed crashed = crashed
  viewed unfinished = unfinished

  module _ {State State' : Type 0} (wrap : State → State') where
    unfoldable pub wrapped : Resumed State Result → Resumed State' Result'
    wrapped (returned s r) = returned (wrap s) (view r)
    wrapped panicked = panicked
    wrapped out_of_fuel = out_of_fuel

    module _ {Arg Input Stream : Type 0} (resume : State → Option Arg → Resumed State Result)
        (resume' : State' → Option Arg → Resumed State' Result') (input_of : Result → Option Input)
        (input_of' : Result' → Option Input) (handle : Stream → Input → Stream × Arg)
        (agree : (s : State) (a : Option Arg) → resume' (wrap s) a ≡ wrapped (resume s a))
        (same_input : (r : Result) → input_of' (view r) ≡ input_of r) where
      answered_view :
          (o : Option Input) (rounds : ℕ) (r : Result) (s : State) (stream : Stream)
          → ((s₁ : State) (a₁ : Option Arg) (stream₁ : Stream)
              → converse resume' input_of' handle rounds (wrap s₁) a₁ stream₁
                ≡ viewed (converse resume input_of handle rounds s₁ a₁ stream₁))
          → answered resume' input_of' handle o
              (view r)
              (wrap s)
              stream
              (converse resume' input_of' handle rounds)
            ≡ viewed (
                answered resume input_of handle o r s stream
                  (converse resume input_of handle rounds))
      unfolding answered viewed
      answered_view none rounds r s stream ih = refl
      answered_view (some i) rounds r s stream ih = ih s _ _

      resumed_view :
          (t : Resumed State Result) (rounds : ℕ) (stream : Stream)
          → ((s₁ : State) (a₁ : Option Arg) (stream₁ : Stream)
              → converse resume' input_of' handle rounds (wrap s₁) a₁ stream₁
                ≡ viewed (converse resume input_of handle rounds s₁ a₁ stream₁))
          → resumed resume' input_of' handle
              (wrapped t)
              stream
              (converse resume' input_of' handle rounds)
            ≡ viewed
                (resumed resume input_of handle t stream (converse resume input_of handle rounds))
      unfolding resumed wrapped viewed
      resumed_view (returned s r) rounds stream ih =
          ap
            (λ o.
              answered resume' input_of' handle o (view r) (wrap s) stream
                (converse resume' input_of' handle rounds))
            (same_input r)
          ∙ answered_view (input_of r) rounds r s stream ih
      resumed_view panicked rounds stream ih = refl
      resumed_view out_of_fuel rounds stream ih = refl

      pub converse-view :
          (rounds : ℕ) (s : State) (a : Option Arg) (stream : Stream)
          → converse resume' input_of' handle rounds (wrap s) a stream
            ≡ viewed (converse resume input_of handle rounds s a stream)
      unfolding converse viewed
      converse-view zero s a stream = refl
      converse-view (suc rounds) s a stream =
          ap
            (λ t.
              resumed resume' input_of' handle t stream (converse resume' input_of' handle rounds))
            (agree s a)
          ∙ resumed_view (resume s a) rounds stream (converse-view rounds)
