-- ===== src/Exchange/Writing.antt =====
-- The phase that writes the request, under the caller's loop.
use native.Mathlib.Nat.{zero-add}
use io_http.Prelude.{
  List-cases, ℕ, zero, suc, ◌+◌, ◌-◌, ◌≤◌, [], ◌++◌, ◌≡◌, ◌≢◌, sym, ◌∙◌, ap, inl, inr, Option, none,
  some, length, arith, append_assoc, append-nil, length-append, length-pos,
}
use io_http.Text.{Bytes}
use io_http.External.Socket.{IoSocket, SocketWriteResult}
use io_http.External.Socket.Transport.{Transport}
use io_http.External.Socket.Runtime.{RuntimeLaws}
use io_http.Coroutine.{again, returned, loop}
use io_http.Coroutine.Drive.{Outcome, finished, drive, drive-ask, loop-yield, loop-again}
use io_http.Coroutine.Runs.{Runs-drive}
use io_http.Exchange.Machine.{Machine, Writer, Finishes, passes}

module _ {io : IoSocket} {State Result : Type 0} (m : Machine io State Result) (t : Transport io)
    (runtime : RuntimeLaws io t) where
  abbrev pub drive_machine : ℕ → ℕ → ℕ → State → Option io.SocketOutput → t.Stream → Outcome Result
  drive_machine fuel calls rounds st a s =
      drive (m.step fuel) m.input_of t.handle calls rounds st a s

  module _ {behind : State} (writer : Writer m behind) where
    -- From the writer `w`, which waits for the answer to `input`, to the last answer of the stream,
    -- which has taken all the bytes then.
    record HandedOver (w : io.SocketWrite) (input : io.SocketInput) (bytes : Bytes) (s : t.Stream)
        : Type 0 where
      pub last : io.SocketWrite
      pub next : io.SocketWrite
      pub answer : io.SocketOutput
      pub s' : t.Stream
      pub asks : ℕ
      pub full : io.write_resume last (some answer) ≡ (next, SocketWriteResult.ok)
      pub taken : t.sent s' ≡ t.sent s ++ bytes
      pub unread : t.pending s' ≡ t.pending s
      pub runs :
          (fuel calls rounds : ℕ)
          → 1 ≤ calls
          → drive_machine fuel calls
              (asks + rounds)
              (writer.at w)
              (some (t.handle s input).1)
              (t.handle s input).0
            ≡ drive_machine fuel calls rounds (writer.at last) (some answer) s'

    hand_over :
        (n : ℕ) (w : io.SocketWrite) (input : io.SocketInput) (bytes : Bytes) (s : t.Stream)
        → length bytes ≤ n
        → runtime.Writing w input bytes
        → bytes ≢ []
        → HandedOver w input bytes s
    hand_over zero w input bytes s le writing ne =
        let pos = length-pos bytes ne in absurd (omega arith)
    hand_over (suc n) w input bytes s le writing ne =
        let got = runtime.write_goes w input bytes s writing ne in
        elim (List-cases got.rest) [
          | inl all ↦ record {
            last = w;
            next = got.next;
            answer = (t.handle s input).1;
            s' = (t.handle s input).0;
            asks = 0;
            full = got.full all;
            taken =
                got.taken
                ∙ ap (λ x. t.sent s ++ x) (sym (got.split ∙ rw all (append-nil got.part)));
            unread = got.unread;
            runs = λ fuel calls rounds h. rw zero-add;
          }
          | inr some_left ↦
              let (i, asks, writing') = got.more some_left in
              let pos = length-pos got.part got.some_bytes in
              let sum = length-append got.part got.rest in
              let same = ap length got.split in
              let later =
                hand_over n got.next i got.rest (t.handle s input).0 (omega arith) writing'
                  some_left in
              record {
                last = later.last;
                next = later.next;
                answer = later.answer;
                s' = later.s';
                asks = suc later.asks;
                full = later.full;
                taken =
                    later.taken
                    ∙ ap (λ x. x ++ got.rest) got.taken
                    ∙ append_assoc (t.sent s) got.part got.rest
                    ∙ ap (λ x. t.sent s ++ x) (sym got.split);
                unread = later.unread ∙ got.unread;
                runs = λ fuel calls rounds h.
                    let one_more : suc later.asks + rounds ≡ suc (later.asks + rounds) =
                      omega arith in
                    rw one_more (
                      drive-ask (m.step fuel) m.input_of t.handle (writer.at w) (writer.at got.next)
                        _ (t.handle s input).0 i calls (later.asks + rounds)
                        (loop-yield (m.step fuel) m.input_of t.handle
                          (writer.asks fuel _ w got.next i asks) calls h)
                        (m.input_of-asks_for i)
                      ∙ later.runs fuel calls rounds h);
              }
        ]

    module _ (start : State) (bytes : Bytes) (some_bytes : bytes ≢ [])
        (starts : (fuel : ℕ)
          → m.step fuel start none ≡ again (writer.at (io.write_new bytes)) none) where
      -- The first call of `resume`: two passes.
      first_call :
          (fuel : ℕ) (w : io.SocketWrite) (input : io.SocketInput)
          → io.write_resume (io.write_new bytes) none ≡ (w, SocketWriteResult.io input)
          → (calls : ℕ) → 2 ≤ calls
          → loop (m.step fuel) calls start none ≡ returned (writer.at w) (m.asks_for input)
      first_call fuel w input asks zero h = absurd (omega arith)
      first_call fuel w input asks (suc calls) h =
          loop-again (m.step fuel) m.input_of t.handle (starts fuel) calls
          ∙ loop-yield (m.step fuel) m.input_of t.handle (writer.asks fuel none _ w input asks)
              calls (omega arith)

      pub all_written :
          (s : t.Stream)
          → (rounds_before : ℕ) × (w : io.SocketWrite) × (answer : io.SocketOutput)
            × (s' : t.Stream) × (t.sent s' ≡ t.sent s ++ bytes)
            × (t.pending s' ≡ t.pending s)
            × ((fuel : ℕ) → m.step fuel (writer.at w) (some answer) ≡ again behind none)
            × ((fuel calls rounds : ℕ)
                → 2 ≤ calls
                → drive_machine fuel calls (rounds_before + rounds) start none s
                  ≡ drive_machine fuel calls rounds (writer.at w) (some answer) s')
      all_written s =
          let (w, input, asks, writing) = runtime.write_asks bytes some_bytes in
          let over = hand_over (length bytes) w input bytes s (omega arith) writing some_bytes in
          (
            suc over.asks,
            over.last,
            over.answer,
            over.s',
            over.taken,
            over.unread,
            λ fuel. writer.ends fuel _ over.last over.next over.full,
            λ fuel calls rounds h.
                let one_more : suc over.asks + rounds ≡ suc (over.asks + rounds) = omega arith in
                rw one_more (
                  drive-ask (m.step fuel) m.input_of t.handle start (writer.at w) none s input calls
                    (over.asks + rounds) (first_call fuel w input asks calls h)
                    (m.input_of-asks_for input)
                  ∙ over.runs fuel calls rounds (omega arith)),
          )

      -- A whole exchange, from what it does once the request is written.
      pub after_writing :
          {P : Result → Type 0} (s : t.Stream)
          → ((s' : t.Stream) → t.pending s' ≡ t.pending s → Finishes m t P behind none s')
          → (r : Result) × P r
            × (enough : ℕ) × ((fuel calls rounds : ℕ)
                → enough ≤ fuel
                → enough ≤ calls
                → enough ≤ rounds
                → drive_machine fuel calls rounds start none s ≡ finished r)
      after_writing s goes_on =
          let (before, w, answer, s', taken, unread, ends, runs) = all_written s in
          let (r, holds, k, h) =
            Runs-drive m.step m.input_of t.handle (passes m t ends (goes_on s' unread)) in
          (
            r,
            holds,
            before + k + 2,
            λ fuel calls rounds p o l.
                let split : rounds ≡ before + (rounds - before) = omega arith in
                ap (λ x. drive_machine fuel calls x start none s) split
                ∙ runs fuel calls (rounds - before) (omega arith)
                ∙ h fuel calls (rounds - before) (omega arith) (omega arith) (omega arith),
          )
