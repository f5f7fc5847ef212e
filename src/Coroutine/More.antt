-- ===== src/Coroutine/More.antt =====
-- More fuel does not change the result of a run that has ended.
use io_http.Prelude.{ℕ, zero, suc, ◌≤◌, ◌≡◌, refl, sym, ◌∙◌, Option, none, some, arith}
use io_http.Coroutine.{
  Turn, again, yield, panic, starved, Resumed, returned, panicked, out_of_fuel, loop,
}
use io_http.Coroutine.Drive.{
  loop-panic, drive-crashed, finished, unfinished, drive, loop-again, loop-yield, drive-done,
  drive-ask,
}

module _ {State Arg Result Input Stream : Type 0}
    (step : State → Option Arg → Turn State Arg Result) (input_of : Result → Option Input)
    (handle : Stream → Input → Stream × Arg) where
  loop-starved :
      {s : State} {a : Option Arg}
      → step s a ≡ starved
      → (c : ℕ) → loop step (suc c) s a ≡ out_of_fuel
  unfolding loop
  loop-starved e c = rw (e, loop)

  pub drive-unfinished :
      (c n : ℕ) (s : State) (a : Option Arg) (stream : Stream)
      → loop step c s a ≡ out_of_fuel
      → drive step input_of handle c (suc n) s a stream ≡ unfinished
  unfolding drive
  drive-unfinished c n s a stream e = rw (e, drive)

  -- One pass more, where the passes behind it keep their result.
  pass_more :
      (t : Turn State Arg Result) (c k : ℕ) (s s' : State) (a : Option Arg) (r : Result)
      → step s a ≡ t
      → ((s₁ : State) (a₁ : Option Arg)
          → loop step c s₁ a₁ ≡ returned s' r
          → loop step k s₁ a₁ ≡ returned s' r)
      → loop step (suc c) s a ≡ returned s' r
      → loop step (suc k) s a ≡ returned s' r
  pass_more (again s₁ a₁) c k s s' a r e ih h =
      loop-again step input_of handle e k ∙ ih s₁ a₁ (sym (loop-again step input_of handle e c) ∙ h)
  pass_more (yield s₁ r₁) c k s s' a r e ih h =
      loop-yield step input_of handle e (suc k) (omega arith)
      ∙ sym (loop-yield step input_of handle e (suc c) (omega arith))
      ∙ h
  pass_more panic c k s s' a r e ih h = let e' = loop-panic step input_of handle e c in cc
  pass_more starved c k s s' a r e ih h = let e' = loop-starved e c in cc

  loop-more :
      (c k : ℕ) (s s' : State) (a : Option Arg) (r : Result)
      → c ≤ k
      → loop step c s a ≡ returned s' r
      → loop step k s a ≡ returned s' r
  loop-more zero k s s' a r le h = unfold loop in cc
  loop-more (suc c) zero s s' a r le h = absurd (omega arith)
  loop-more (suc c) (suc k) s s' a r le h =
      pass_more (step s a) c k s s' a r refl (λ s₁ a₁. loop-more c k s₁ s' a₁ r (omega arith)) h

  asked_more :
      (o : Option Input) (c k n l : ℕ) (s s' : State) (a : Option Arg) (stream : Stream)
      (r' r : Result)
      → c ≤ k
      → loop step c s a ≡ returned s' r'
      → input_of r' ≡ o
      → ((s₁ : State) (a₁ : Option Arg) (stream₁ : Stream)
          → drive step input_of handle c n s₁ a₁ stream₁ ≡ finished r
          → drive step input_of handle k l s₁ a₁ stream₁ ≡ finished r)
      → drive step input_of handle c (suc n) s a stream ≡ finished r
      → drive step input_of handle k (suc l) s a stream ≡ finished r
  asked_more none c k n l s s' a stream r' r le e i ih h =
      drive-done step input_of handle s s' a stream k (suc l) (loop-more c k s s' a r' le e) i
        (omega arith)
      ∙ sym (drive-done step input_of handle s s' a stream c (suc n) e i (omega arith))
      ∙ h
  asked_more (some j) c k n l s s' a stream r' r le e i ih h =
      drive-ask step input_of handle s s' a stream j k l (loop-more c k s s' a r' le e) i
      ∙ ih s' (some (handle stream j).1) (handle stream j).0
          (sym (drive-ask step input_of handle s s' a stream j c n e i) ∙ h)

  round_more :
      (t : Resumed State Result) (c k n l : ℕ) (s : State) (a : Option Arg) (stream : Stream)
      (r : Result)
      → c ≤ k
      → loop step c s a ≡ t
      → ((s₁ : State) (a₁ : Option Arg) (stream₁ : Stream)
          → drive step input_of handle c n s₁ a₁ stream₁ ≡ finished r
          → drive step input_of handle k l s₁ a₁ stream₁ ≡ finished r)
      → drive step input_of handle c (suc n) s a stream ≡ finished r
      → drive step input_of handle k (suc l) s a stream ≡ finished r
  round_more (returned s' r') c k n l s a stream r le e ih h =
      asked_more (input_of r') c k n l s s' a stream r' r le e refl ih h
  round_more panicked c k n l s a stream r le e ih h =
      let e' = drive-crashed step input_of handle c n s a stream e in cc
  round_more out_of_fuel c k n l s a stream r le e ih h =
      let e' = drive-unfinished c n s a stream e in cc

  pub drive-more :
      (c k n l : ℕ) (s : State) (a : Option Arg) (stream : Stream) (r : Result)
      → c ≤ k
      → n ≤ l
      → drive step input_of handle c n s a stream ≡ finished r
      → drive step input_of handle k l s a stream ≡ finished r
  drive-more c k zero l s a stream r le more h = unfold drive in cc
  drive-more c k (suc n) zero s a stream r le more h = absurd (omega arith)
  drive-more c k (suc n) (suc l) s a stream r le more h =
      round_more (loop step c s a) c k n l s a stream r le refl
        (λ s₁ a₁ stream₁. drive-more c k n l s₁ a₁ stream₁ r le (omega arith)) h
