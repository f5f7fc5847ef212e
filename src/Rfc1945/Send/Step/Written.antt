-- ===== src/Rfc1945/Send/Step/Written.antt =====
-- The first phase of an HTTP/1.0 exchange: the request is written out.
use io_http.Prelude.{ℕ, ◌+◌, ◌≤◌, [], ◌++◌, ◌≡◌, ◌≢◌, refl, Option, none, some, arith}
use io_http.Text.{Bytes}
use io_http.External.Url.{UrlApi}
use io_http.External.Httparse.{Httparse}
use io_http.External.Socket.{IoSocket}
use io_http.External.Socket.Transport.{Transport}
use io_http.External.Socket.Runtime.{RuntimeLaws}
use io_http.Coroutine.{again}
use io_http.Coroutine.Drive.{Outcome, finished, drive}
use io_http.Exchange.Machine.{Finishes}
use io_http.Exchange.Writing.{all_written, after_writing}
use io_http.Rfc9110.Request.{HttpRequest}
use io_http.Rfc9110.Wire.{http_10, serialize}
use io_http.Rfc9110.Wire.Head.{serialize-ne-nil}
use io_http.Rfc1945.Send.Types.{Http10SendResult, sending, receive_headers, Http10Send}
use io_http.Rfc1945.Send.Step.{new, step, input_of}
use io_http.Rfc1945.Send.Step.Passes.{step-serializing}
use io_http.Rfc1945.Send.Step.Phases.{machine, writer}

module _ (io : IoSocket) (url : UrlApi) (parser : Httparse) (t : Transport io) where
  abbrev pub drive_http10 :
      ℕ
      → ℕ
      → Http10Send io url
      → Option io.SocketOutput
      → t.Stream
      → Outcome (Http10SendResult io url parser)
  drive_http10 calls rounds m a s =
      drive (step io url parser) (input_of io url parser) t.handle calls rounds m a s

  -- The bytes of a request, as the exchange serializes it.
  abbrev pub request_bytes : HttpRequest url.Url → Bytes
  request_bytes q = serialize q.method (url.path q.url) (url.query q.url) http_10 q.headers q.body

  some_bytes : (q : HttpRequest url.Url) → request_bytes q ≢ []
  some_bytes q =
      serialize-ne-nil q.method (url.path q.url) (url.query q.url) http_10 q.headers q.body

  module _ (runtime : RuntimeLaws io t) where
    -- A new HTTP/1.0 exchange under the caller's loop first hands the whole serialized request to
    -- the stream, in as many writes as the stream takes, and reads nothing before: after some rounds
    -- the stream was sent exactly these bytes and has all that it had to deliver, and the exchange,
    -- resumed with the answer to the last write, goes on to receive the head.
    pub http10_written :
        (q : HttpRequest url.Url) (s : t.Stream)
        → (rounds_before : ℕ) × (w : io.SocketWrite) × (answer : io.SocketOutput) × (s' : t.Stream)
          × (t.sent s' ≡ t.sent s ++ request_bytes q)
          × (t.pending s' ≡ t.pending s)
          × (step io url parser (record (new io url parser q) { state = sending w }) (some answer)
              ≡ again
                  (record (new io url parser q) { state = receive_headers io.read_default [] })
                  none)
          × ((calls rounds : ℕ)
              → 2 ≤ calls
              → drive_http10 calls (rounds_before + rounds) (new io url parser q) none s
                ≡ drive_http10 calls rounds
                    (record (new io url parser q) { state = sending w })
                    (some answer)
                    s')
    unfolding new
    http10_written q s =
        let (before, w, answer, s', taken, unread, ends, runs) =
          all_written (machine io url parser) t runtime (writer io url parser q)
            (new io url parser q) (request_bytes q) (some_bytes q)
            (λ fuel. step-serializing io url parser (new io url parser q) none q refl refl) s in
        (before, w, answer, s', taken, unread, ends 0, runs 0)

    -- A whole exchange, from what it does once the request is written.
    pub after_request :
        {P : Http10SendResult io url parser → Type 0} (q : HttpRequest url.Url) (s : t.Stream)
        → ((s' : t.Stream)
            → t.pending s' ≡ t.pending s
            → Finishes
                (machine io url parser)
                t
                P
                (record (new io url parser q) { state = receive_headers io.read_default [] })
                none
                s')
        → (r : Http10SendResult io url parser) × P r
          × (enough : ℕ) × ((calls rounds : ℕ)
              → enough ≤ calls
              → enough ≤ rounds
              → drive_http10 calls rounds (new io url parser q) none s ≡ finished r)
    unfolding new
    after_request q s goes_on =
        let (r, holds, enough, h) =
          after_writing (machine io url parser) t runtime (writer io url parser q)
            (new io url parser q) (request_bytes q) (some_bytes q)
            (λ fuel. step-serializing io url parser (new io url parser q) none q refl refl) s
            goes_on in
        (r, holds, enough, λ calls rounds p l. h enough calls rounds (omega arith) p l)
