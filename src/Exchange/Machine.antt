-- ===== src/Exchange/Machine.antt =====
-- An exchange as a machine over the coroutines of io-socket, and the interfaces of its phases.
use io_http.Prelude.{ℕ, ◌≤◌, ◌++◌, ◌≡◌, Option, none, some}
use io_http.Text.{Bytes, slice_to}
use io_http.External.Httparse.{Httparse, partial}
use io_http.External.Socket.{
  IoSocket, Buffer, SocketReadResult, SocketWriteResult, SocketReadExactResult,
  SocketReadToEndResult,
}
use io_http.External.Socket.Transport.{Transport}
use io_http.Coroutine.{Turn, again, yield}
use io_http.Coroutine.Runs.{Runs, Runs-pass, Returns-yield}

pub record Machine (io : IoSocket) (State Result : Type 0) : Type 0 where
  -- One pass, with the fuel of an inner loop.
  pub step : ℕ → State → Option io.SocketOutput → Turn State io.SocketOutput Result
  pub input_of : Result → Option io.SocketInput
  pub asks_for : io.SocketInput → Result
  pub input_of-asks_for : (i : io.SocketInput) → input_of (asks_for i) ≡ some i

module _ {io : IoSocket} {State Result : Type 0} (m : Machine io State Result) where
  -- The phase that writes, and the state behind it.
  pub record Writer (behind : State) : Type 0 where
    pub at : io.SocketWrite → State
    pub asks :
        (fuel : ℕ) (arg : Option io.SocketOutput) (w next : io.SocketWrite) (i : io.SocketInput)
        → io.write_resume w arg ≡ (next, SocketWriteResult.io i)
        → m.step fuel (at w) arg ≡ yield (at next) (m.asks_for i)
    pub ends :
        (fuel : ℕ) (arg : Option io.SocketOutput) (w next : io.SocketWrite)
        → io.write_resume w arg ≡ (next, SocketWriteResult.ok)
        → m.step fuel (at w) arg ≡ again behind none

  -- The phase that reads the head, as long as the parser asks for more; `cut` is its result at the
  -- end of the stream.
  pub record HeadReader (parser : Httparse) (cut : Result) : Type 0 where
    pub at : io.SocketRead → Bytes → State
    pub cut_ends : m.input_of cut ≡ none
    pub asks :
        (fuel : ℕ) (arg : Option io.SocketOutput) (read next : io.SocketRead) (headers : Bytes)
        (i : io.SocketInput)
        → io.read_resume read arg ≡ (next, SocketReadResult.io i)
        → m.step fuel (at read headers) arg ≡ yield (at next headers) (m.asks_for i)
    pub eof :
        (fuel : ℕ) (arg : Option io.SocketOutput) (read next : io.SocketRead) (headers : Bytes)
        → io.read_resume read arg ≡ (next, SocketReadResult.eof)
        → m.step fuel (at read headers) arg ≡ yield (at next headers) cut
    pub more :
        (fuel : ℕ) (arg : Option io.SocketOutput) (read next : io.SocketRead)
        (headers bytes : Bytes) (buf : Buffer) (n : ℕ)
        → io.read_resume read arg ≡ (next, SocketReadResult.ok buf n)
        → slice_to n buf.bytes ≡ some bytes
        → parser.parse 64 (headers ++ bytes) ≡ partial
        → m.step fuel (at read headers) arg
          ≡ again (at (io.read_replace next buf) (headers ++ bytes)) none

  -- The phase that reads a body of a given length.
  pub record Filler : Type 0 where
    pub at : io.SocketReadExact → State
    pub answer : Bytes → Result
    pub failure : io.SocketReadExactError → Result
    pub answer_ends : (body : Bytes) → m.input_of (answer body) ≡ none
    pub failure_ends : (e : io.SocketReadExactError) → m.input_of (failure e) ≡ none
    pub asks :
        (fuel : ℕ) (arg : Option io.SocketOutput) (read next : io.SocketReadExact)
        (i : io.SocketInput)
        → io.exact_resume read arg ≡ (next, SocketReadExactResult.io i)
        → m.step fuel (at read) arg ≡ yield (at next) (m.asks_for i)
    pub ends :
        (arg : Option io.SocketOutput) (read next : io.SocketReadExact) (body : Bytes)
        → io.exact_resume read arg ≡ (next, SocketReadExactResult.ok body)
        → (left : State) × ((fuel : ℕ) → m.step fuel (at read) arg ≡ yield left (answer body))
    pub errs :
        (arg : Option io.SocketOutput) (read next : io.SocketReadExact)
        (e : io.SocketReadExactError)
        → io.exact_resume read arg ≡ (next, SocketReadExactResult.err e)
        → (left : State) × ((fuel : ℕ) → m.step fuel (at read) arg ≡ yield left (failure e))

  -- The phase that reads a body up to the end of the stream.
  pub record Drainer : Type 0 where
    pub at : io.SocketReadToEnd → State
    pub answer : Bytes → Result
    pub answer_ends : (body : Bytes) → m.input_of (answer body) ≡ none
    pub asks :
        (fuel : ℕ) (arg : Option io.SocketOutput) (read next : io.SocketReadToEnd)
        (i : io.SocketInput)
        → io.to_end_resume read arg ≡ (next, SocketReadToEndResult.io i)
        → m.step fuel (at read) arg ≡ yield (at next) (m.asks_for i)
    pub ends :
        (arg : Option io.SocketOutput) (read next : io.SocketReadToEnd) (body : Bytes)
        → io.to_end_resume read arg ≡ (next, SocketReadToEndResult.ok body)
        → (left : State) × ((fuel : ℕ) → m.step fuel (at read) arg ≡ yield left (answer body))

module _ {io : IoSocket} {State Result : Type 0} (m : Machine io State Result)
    (t : Transport io) where
  -- The caller's loop ends with a result that meets `P`.
  abbrev pub Finishes : (Result → Type 0) → State → Option io.SocketOutput → t.Stream → Type 0
  Finishes P st arg s = Runs m.step m.input_of t.handle P st arg s

  pub stops_now :
      {P : Result → Type 0} {st left : State} {arg : Option io.SocketOutput} {s : t.Stream}
      {r : Result} (k : ℕ)
      → ((fuel : ℕ) → k ≤ fuel → m.step fuel st arg ≡ yield left r)
      → m.input_of r ≡ none
      → P r
      → Finishes P st arg s
  stops_now k h n p = Runs.done (Returns-yield m.step m.input_of t.handle k h) n p

  pub asks_first :
      {P : Result → Type 0} {st st' : State} {arg : Option io.SocketOutput} {s : t.Stream}
      {i : io.SocketInput} (k : ℕ)
      → ((fuel : ℕ) → k ≤ fuel → m.step fuel st arg ≡ yield st' (m.asks_for i))
      → Finishes P st' (some (t.handle s i).1) (t.handle s i).0
      → Finishes P st arg s
  asks_first {i = i} k h d =
      Runs.ask (Returns-yield m.step m.input_of t.handle k h) (m.input_of-asks_for i) d

  pub passes :
      {P : Result → Type 0} {st st' : State} {arg arg' : Option io.SocketOutput} {s : t.Stream}
      → ((fuel : ℕ) → m.step fuel st arg ≡ again st' arg')
      → Finishes P st' arg' s
      → Finishes P st arg s
  passes h d = Runs-pass m.step m.input_of t.handle h d
