-- ===== src/Rfc1945/Send/Step/Passes.antt =====
-- The single passes of an HTTP/1.0 exchange up to the end of the head, as equations.
use io_http.Prelude.{ℕ, [], ◌++◌, ◌≡◌, refl, ◌∙◌, ap, Option, none, some, take, drop}
use io_http.Text.{Bytes, slice_to}
use io_http.External.Url.{UrlApi}
use io_http.External.Httparse.{Httparse, complete, partial}
use io_http.External.Socket.{IoSocket, Buffer, SocketReadResult, SocketWriteResult}
use io_http.Coroutine.{again, yield, panic}
use io_http.Rfc9110.Headers.{Headers}
use io_http.Rfc9110.Request.{HttpRequest}
use io_http.Rfc9110.Wire.{http_10, serialize}
use io_http.Rfc1945.Send.Types.{
  unexpected_eof, err, io_request, State, serializing, sending, receive_headers, Http10Send,
}
use io_http.Rfc1945.Send.Head.{no_content, response_of, persists, framing}
use io_http.Rfc1945.Send.Step.{
  SendTurn, step_serialize, sent, step_send, start_body, head_done, parsed_head, got_headers,
  step_receive_headers, in_state, step,
}

module _ (io : IoSocket) (url : UrlApi) (parser : Httparse) (m : Http10Send io url) where
  -- Which handler a pass runs.
  pub step_at :
      (arg : Option io.SocketOutput) (st : State io)
      → m.state ≡ st
      → step io url parser m arg ≡ in_state io url parser st m arg
  step_at arg st e = unfold step in rw e

  abbrev serialized : Option io.SocketOutput → Option (HttpRequest url.Url) → SendTurn io url parser
  serialized arg none = panic
  serialized arg (some req) =
      again
        (record m {
          state = sending (
              io.write_new (
                serialize req.method (url.path req.url) (url.query req.url) http_10 req.headers
                  req.body));
        })
        arg

  pub step-serializing :
      (arg : Option io.SocketOutput) (req : HttpRequest url.Url)
      → m.state ≡ serializing
      → m.request ≡ some req
      → step io url parser m arg
        ≡ again
            (record m {
              state = sending (
                  io.write_new (
                    serialize req.method
                      (url.path req.url)
                      (url.query req.url)
                      http_10
                      req.headers
                      req.body));
            })
            arg
  unfolding in_state
  step-serializing arg req e f =
      step_at arg serializing e ∙ (unfold step_serialize in ap (serialized arg) f)

  pub step-sending_asks :
      (arg : Option io.SocketOutput) (write next : io.SocketWrite) (input : io.SocketInput)
      → m.state ≡ sending write
      → io.write_resume write arg ≡ (next, SocketWriteResult.io input)
      → step io url parser m arg ≡ yield (record m { state = sending next }) (io_request input)
  unfolding in_state step_send sent
  step-sending_asks arg write next input e f = step_at arg _ e ∙ (rw f)

  pub step-sending_ends :
      (arg : Option io.SocketOutput) (write next : io.SocketWrite)
      → m.state ≡ sending write
      → io.write_resume write arg ≡ (next, SocketWriteResult.ok)
      → step io url parser m arg
        ≡ again (record m { state = receive_headers io.read_default [] }) none
  unfolding in_state step_send sent
  step-sending_ends arg write next e f = step_at arg _ e ∙ (rw f)

  pub step-headers_asks :
      (arg : Option io.SocketOutput) (read next : io.SocketRead) (headers : Bytes)
      (input : io.SocketInput)
      → m.state ≡ receive_headers read headers
      → io.read_resume read arg ≡ (next, SocketReadResult.io input)
      → step io url parser m arg
        ≡ yield (record m { state = receive_headers next headers }) (io_request input)
  unfolding in_state step_receive_headers got_headers
  step-headers_asks arg read next headers input e f = step_at arg _ e ∙ (rw f)

  pub step-headers_eof :
      (arg : Option io.SocketOutput) (read next : io.SocketRead) (headers : Bytes)
      → m.state ≡ receive_headers read headers
      → io.read_resume read arg ≡ (next, SocketReadResult.eof)
      → step io url parser m arg
        ≡ yield (record m { state = receive_headers next headers }) (err unexpected_eof)
  unfolding in_state step_receive_headers got_headers
  step-headers_eof arg read next headers e f = step_at arg _ e ∙ (rw f)

  module _ (arg : Option io.SocketOutput) (read next : io.SocketRead) (headers bytes : Bytes)
      (buf : Buffer) (n : ℕ) (st : m.state ≡ receive_headers read headers)
      (got : io.read_resume read arg ≡ (next, SocketReadResult.ok buf n))
      (content : slice_to n buf.bytes ≡ some bytes) where
    abbrev sliced : Option Bytes → SendTurn io url parser
    sliced none = panic
    sliced (some s) =
        parsed_head io url parser m buf next (headers ++ s) (parser.parse 64 (headers ++ s))

    step-headers_got : step io url parser m arg ≡ sliced (some bytes)
    unfolding in_state step_receive_headers got_headers
    step-headers_got =
        step_at arg _ st
        ∙ ap (λ x. got_headers io url parser m x.0 headers x.1) got
        ∙ ap sliced content

    pub step-headers_more :
        parser.parse 64 (headers ++ bytes) ≡ partial
        → step io url parser m arg
          ≡ again
              (record m { state = receive_headers (io.read_replace next buf) (headers ++ bytes) })
              none
    step-headers_more e =
        step-headers_got
        ∙ ap (parsed_head io url parser m buf next (headers ++ bytes)) e
        ∙ (unfold parsed_head in refl)

    pub step-headers_done :
        (k : ℕ) (version code : Option ℕ) (lines : Headers)
        → parser.parse 64 (headers ++ bytes) ≡ complete k version code lines
        → step io url parser m arg
          ≡ start_body io url parser
              (record m { keep_alive = persists m.keep_alive (response_of code lines) })
              next
              (take k (headers ++ bytes))
              (drop k (headers ++ bytes))
              (response_of code lines)
              (framing (no_content code) (response_of code lines))
    step-headers_done k version code lines e =
        step-headers_got
        ∙ ap (parsed_head io url parser m buf next (headers ++ bytes)) e
        ∙ (unfold parsed_head in unfold head_done in refl)
