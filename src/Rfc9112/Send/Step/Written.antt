-- ===== src/Rfc9112/Send/Step/Written.antt =====
-- The first phase of an HTTP/1.1 exchange: the request is written out.
use io_http.Prelude.{ℕ, ◌+◌, ◌≤◌, [], ◌++◌, ◌≡◌, ◌≢◌, refl, Option, none, some}
use io_http.Text.{Bytes}
use io_http.External.Memchr.{Memchr}
use io_http.External.Url.{UrlApi}
use io_http.External.Httparse.{Httparse}
use io_http.External.Socket.{IoSocket}
use io_http.External.Socket.Transport.{Transport}
use io_http.External.Socket.Runtime.{RuntimeLaws}
use io_http.Coroutine.{again}
use io_http.Coroutine.Runs.{Runs}
use io_http.Coroutine.Drive.{Outcome, finished, drive}
use io_http.Rfc9110.Request.{HttpRequest}
use io_http.Rfc9110.Wire.{http_11, serialize}
use io_http.Rfc9110.Wire.Head.{serialize-ne-nil}
use io_http.Rfc9112.Send.Types.{Http11SendResult, sending, receive_headers, Http11Send}
use io_http.Rfc9112.Send.Step.{new, step, input_of}
use io_http.Exchange.Writing.{all_written, after_writing}
use io_http.Rfc9112.Send.Step.Phases.{machine, writer}
use io_http.Rfc9112.Send.Step.Passes.{step-serializing}

module _ (io : IoSocket) (url : UrlApi) (parser : Httparse) (mem : Memchr) (t : Transport io)
    (runtime : RuntimeLaws io t) where
  abbrev pub send_drive :
      ℕ
      → ℕ
      → ℕ
      → Http11Send io url
      → Option io.SocketOutput
      → t.Stream
      → Outcome (Http11SendResult io url parser)
  send_drive fuel calls rounds m a s =
      drive (step io url parser mem fuel) (input_of io url parser) t.handle calls rounds m a s

  -- The bytes of a request, as the exchange serializes it.
  abbrev pub request_bytes : HttpRequest url.Url → Bytes
  request_bytes q = serialize q.method (url.path q.url) (url.query q.url) http_11 q.headers q.body

  some_bytes : (q : HttpRequest url.Url) → request_bytes q ≢ []
  some_bytes q =
      serialize-ne-nil q.method (url.path q.url) (url.query q.url) http_11 q.headers q.body

  -- A new exchange under the caller's loop first hands the whole serialized request to the stream,
  -- in as many writes as the stream takes, and reads nothing before: after some rounds the stream
  -- was sent exactly these bytes and has all that it had to deliver, and the exchange, resumed with
  -- the answer to the last write, goes on to receive the head.
  pub request_written :
      (q : HttpRequest url.Url) (s : t.Stream)
      → (rounds_before : ℕ) × (w : io.SocketWrite) × (answer : io.SocketOutput) × (s' : t.Stream)
        × (t.sent s' ≡ t.sent s ++ request_bytes q)
        × (t.pending s' ≡ t.pending s)
        × ((fuel : ℕ)
            → step io url parser mem fuel
                (record (new io url parser q) { state = sending w })
                (some answer)
              ≡ again
                  (record (new io url parser q) { state = receive_headers io.read_default [] })
                  none)
        × ((fuel calls rounds : ℕ)
            → 2 ≤ calls
            → send_drive fuel calls (rounds_before + rounds) (new io url parser q) none s
              ≡ send_drive fuel calls rounds
                  (record (new io url parser q) { state = sending w })
                  (some answer)
                  s')
  unfolding new
  request_written q s =
      all_written (machine io url parser mem) t runtime (writer io url parser mem q)
        (new io url parser q) (request_bytes q) (some_bytes q)
        (λ fuel. step-serializing io url parser mem fuel (new io url parser q) none q refl refl) s

  -- A whole exchange, from what it does once the request is written.
  pub after_request :
      {P : Http11SendResult io url parser → Type 0} (q : HttpRequest url.Url) (s : t.Stream)
      → ((s' : t.Stream)
          → t.pending s' ≡ t.pending s
          → Runs
              (λ fuel. step io url parser mem fuel)
              (input_of io url parser)
              t.handle
              P
              (record (new io url parser q) { state = receive_headers io.read_default [] })
              none
              s')
      → (r : Http11SendResult io url parser) × P r
        × (enough : ℕ) × ((fuel calls rounds : ℕ)
            → enough ≤ fuel
            → enough ≤ calls
            → enough ≤ rounds
            → send_drive fuel calls rounds (new io url parser q) none s ≡ finished r)
  unfolding new
  after_request q s goes_on =
      after_writing (machine io url parser mem) t runtime (writer io url parser mem q)
        (new io url parser q) (request_bytes q) (some_bytes q)
        (λ fuel. step-serializing io url parser mem fuel (new io url parser q) none q refl refl) s
        goes_on
