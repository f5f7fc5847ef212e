-- ===== src/Rfc9112/Send/Step/HeadRead.antt =====
-- The phase of an HTTP/1.1 exchange that reads the head, up to the pass that follows its last byte.
use io_http.Prelude.{
  cut_front, ℕ, [], ◌++◌, ◌≡◌, refl, ◌∙◌, ap, Bool, false, Option, none, some, length, arith,
  length-pos,
}
use io_http.Text.{Bytes}
use io_http.External.Memchr.{Memchr}
use io_http.External.Url.{UrlApi}
use io_http.External.Httparse.{Httparse, IsHead}
use io_http.External.Socket.{IoSocket, Buffer}
use io_http.External.Socket.Transport.{Transport, SocketLaws, Reads}
use io_http.Rfc9110.Headers.{Headers}
use io_http.Rfc9110.Request.{HttpRequest}
use io_http.Rfc9112.Send.Types.{Http11SendResult, State, receive_headers}
use io_http.Rfc9112.Send.Head.{is_http10, no_content, response_of, closes, framing}
use io_http.Rfc9112.Send.Step.{start_body, step}
use io_http.Rfc9112.Send.Step.Passes.{step-headers_done}
use io_http.Exchange.Machine.{Finishes}
use io_http.Exchange.Heading.{head_runs}
use io_http.Rfc9112.Send.Step.Phases.{machine, exchanging, head_reader}

module _ (io : IoSocket) (url : UrlApi) (parser : Httparse) (mem : Memchr) (t : Transport io)
    (laws : SocketLaws io t) (q : HttpRequest url.Url) (head payload : Bytes)
    (version code : Option ℕ) (lines : Headers) (P : Http11SendResult io url parser → Type 0) where
  abbrev closed : Bool
  closed = closes (is_http10 version) (response_of version code lines)

  abbrev Receives : State io → Option io.SocketOutput → t.Stream → Type 0
  Receives st arg s =
      Finishes (machine io url parser mem) t P (exchanging io url parser mem q false st) arg s

  -- The run from the pass on that starts the body, with `seed` of the payload in the buffer.
  abbrev pub GoesOn : Type 0
  GoesOn =
      (st : State io) (arg : Option io.SocketOutput) (buf : Buffer) (read : io.SocketRead)
      (seed : Bytes) (s : t.Stream)
      → laws.Ready (io.read_replace read buf)
      → seed ++ t.pending s ≡ payload
      → ((fuel : ℕ)
          → step io url parser mem fuel (exchanging io url parser mem q false st) arg
            ≡ start_body io url parser (exchanging io url parser mem q closed st) buf read head seed
                (response_of version code lines)
                (framing (is_http10 version) (no_content code) (response_of version code lines)))
      → Receives st arg s

  module _ (is_head : IsHead parser head version code lines) (goes_on : GoesOn) where
    -- The read that brings the last byte of the head.
    head_ends :
        (read : io.SocketRead) (input : io.SocketInput) (headers seed : Bytes) (s : t.Stream)
        (got : Reads io t laws.Ready read input s)
        → headers ++ got.bytes ≡ head ++ seed
        → seed ++ t.pending (t.handle s input).0 ≡ payload
        → Receives (receive_headers read headers) (some (t.handle s input).1) (t.handle s input).0
    head_ends read input headers seed s got e left =
        goes_on (receive_headers read headers) (some (t.handle s input).1) got.buf got.next seed
          (t.handle s input).0 got.ready left
          (λ fuel.
            step-headers_done io url parser mem fuel (exchanging io url parser mem q false _) _ read
              got.next headers got.bytes got.buf got.count refl got.returns got.content
              (length head) version code lines (ap (parser.parse 64) e ∙ is_head.finds_end seed)
            ∙ ap
                (λ x.
                  start_body io url parser
                    (exchanging io url parser mem q closed (receive_headers read headers)) got.buf
                    got.next x.0 x.1 (response_of version code lines)
                    (framing (is_http10 version) (no_content code)
                      (response_of version code lines)))
                (cut_front head (headers ++ got.bytes) seed e))

    pub head_runs_on :
        (s : t.Stream)
        → t.pending s ≡ head ++ payload
        → Receives (receive_headers io.read_default []) none s
    head_runs_on s e =
        let pos = length-pos head is_head.some_bytes in
        head_runs (machine io url parser mem) t laws (head_reader io url parser mem q) head is_head
          payload head_ends (length (t.pending s)) io.read_default [] s (omega arith)
          laws.default_ready e (omega arith)
