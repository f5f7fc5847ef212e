-- ===== src/Rfc9112/Send/Step/Request.antt =====
-- Who owns the request during an exchange (the comment on the field `request` of
-- src/rfc9112/send.rs).
use io_http.Prelude.{
  ℕ, ◌≤◌, ◌≡◌, ap, refl, Bool, Option, none, some, Option-cases, inl, inr, arith, not, length, take,
  drop,
}
use io_http.Text.{Bytes, slice_to}
use io_http.External.Memchr.{Memchr}
use io_http.External.Url.{UrlApi}
use io_http.External.Httparse.{Httparse, Parsed, complete, partial, failed}
use io_http.External.Socket.{
  IoSocket, Buffer, SocketReadResult, SocketWriteResult, SocketReadExactResult,
  SocketReadToEndResult,
}
use io_http.Coroutine.{Resumed, returned, panicked, out_of_fuel}
use io_http.Coroutine.Keeps.{TurnKeeps, ResumedKeeps, Reaches, loop-keeps}
use io_http.Rfc9110.Request.{HttpRequest}
use io_http.Rfc9110.Response.{HttpResponse, ResponseBuilder, build}
use io_http.Rfc9110.Redirect.{redirect_target}
use io_http.Rfc9112.Chunk
use io_http.Rfc9112.Chunk.{HttpChunksRead, HttpChunksReadResult}
use io_http.Rfc9112.Send.Types.{
  Http11SendResult, ok, io_request, redirect, err, State, serializing, sending, receive_headers,
  receive_chunked_body, receive_lengthed_body, receive_body, Http11Send,
}
use io_http.Rfc9112.Send.Head.{Framing, no_body, chunked, until_eof, lengthed}
use io_http.Rfc9112.Send.Step.{
  finish, SendTurn, step_serialize, sent, step_send, start_body, head_done, parsed_head,
  got_headers, step_receive_headers, ends, got_chunks, got_exact, got_to_end, in_state, step,
  resume,
}

module _ (io : IoSocket) (url : UrlApi) (parser : Httparse) (q : HttpRequest url.Url) (mem : Memchr)
    (fuel : ℕ) where
  -- A result and the state that it leaves: an unfinished or failed exchange still holds the request,
  -- a finished one hands that same request to the caller and holds none.
  abbrev pub Owned : Http11Send io url → Http11SendResult io url parser → Type 0
  Owned m (ok request response keep_alive) = (request ≡ q) × (m.request ≡ none)
  Owned m (redirect target request response keep_alive same) = (request ≡ q) × (m.request ≡ none)
  Owned m (io_request input) = m.request ≡ some q
  Owned m (err e) = m.request ≡ some q

  -- The exchange is in a chunked body, and its own decoder panics on the answer.
  abbrev pub ChunksPanic : Http11Send io url → Option io.SocketOutput → Type 0
  ChunksPanic m arg =
      (read : HttpChunksRead io) × (response : ResponseBuilder) × (m.state
        ≡ receive_chunked_body read response)
      × (Chunk.resume io mem fuel read arg ≡ panicked)

  abbrev pub TurnOwned : Type 0 → SendTurn io url parser → Type 0
  TurnOwned = TurnKeeps (λ m. m.request ≡ some q) Owned

  -- A call on `m` and `arg` that panics does so in a pass that it comes to in a chunked body, where
  -- its decoder panics.
  abbrev pub ResumedOwned :
      Http11Send io url
      → Option io.SocketOutput
      → Resumed (Http11Send io url) (Http11SendResult io url parser)
      → Type 0
  ResumedOwned m arg = ResumedKeeps Owned (Reaches (step io url parser mem fuel) ChunksPanic m arg)

  finish-Owned :
      (m : Http11Send io url) (response : HttpResponse) (keep_alive : Bool)
      → m.request ≡ none
      → Owned m (finish io url parser q response keep_alive)
  finish-Owned m response keep_alive e = elim (Option-cases (redirect_target url q response)) [
    | inl f ↦ unfold finish in rw (f, finish) (refl, e)
    | inr (u, f) ↦ unfold finish in rw (f, finish) (refl, e)
  ]

  -- Every pass of a state's handler, if the count that a read returns lies in its buffer.
  module _
      (in_buffer : (r r' : io.SocketRead) (a : Option io.SocketOutput) (buf : Buffer) (n : ℕ)
        → io.read_resume r a ≡ (r', SocketReadResult.ok buf n)
        → n ≤ length buf.bytes) where
    module _ (Crash : Type 0) where
      start_body-Owned :
          (m : Http11Send io url) (buf : Buffer) (read : io.SocketRead) (head body : Bytes)
          (response : ResponseBuilder) (framed : Framing)
          → m.request ≡ some q
          → TurnOwned Crash (start_body io url parser m buf read head body response framed)
      unfolding start_body
      start_body-Owned m buf read head body response no_body e = rw (e, start_body) (refl, refl)
      start_body-Owned m buf read head body response chunked e = e
      start_body-Owned m buf read head body response (lengthed n) e = e
      start_body-Owned m buf read head body response until_eof e = e

      ends-Owned :
          (m : Http11Send io url) (left : State io) (response : ResponseBuilder) (body : Bytes)
          → m.request ≡ some q
          → TurnOwned Crash (ends io url parser m left response body)
      unfolding ends
      ends-Owned m left response body e =
          rw (e, ends)
            (finish-Owned (record m { request = none; state = left }) (build response body)
              (not m.is_conn_closed) refl)

      parsed_head-Owned :
          (m : Http11Send io url) (buf : Buffer) (read : io.SocketRead) (headers : Bytes)
          (p : Parsed parser.Error)
          → m.request ≡ some q
          → TurnOwned Crash (parsed_head io url parser m buf read headers p)
      unfolding parsed_head head_done
      parsed_head-Owned m buf read headers (complete n version code lines) e =
          start_body-Owned _ buf read (take n headers) (drop n headers) _ _ e
      parsed_head-Owned m buf read headers partial e = e
      parsed_head-Owned m buf read headers (failed x) e = e

      slice_to-in : (n : ℕ) (s : Bytes) → n ≤ length s → slice_to n s ≡ some (take n s)
      unfolding slice_to
      slice_to-in n s h = ground arith

      got_headers-Owned :
          (m : Http11Send io url) (read : io.SocketRead) (headers : Bytes)
          (result : SocketReadResult io.SocketInput io.SocketReadError)
          → ((buf : Buffer) (n : ℕ) → result ≡ SocketReadResult.ok buf n → n ≤ length buf.bytes)
          → m.request ≡ some q
          → TurnOwned Crash (got_headers io url parser m read headers result)
      unfolding got_headers
      got_headers-Owned m read headers (SocketReadResult.ok buf n) fits e =
          rw (slice_to-in n buf.bytes (fits buf n refl), got_headers)
            (parsed_head-Owned m buf read _ _ e)
      got_headers-Owned m read headers (SocketReadResult.err x) fits e = e
      got_headers-Owned m read headers (SocketReadResult.io input) fits e = e
      got_headers-Owned m read headers SocketReadResult.eof fits e = e

      sent-Owned :
          (m : Http11Send io url) (write : io.SocketWrite)
          (result : SocketWriteResult io.SocketInput io.SocketWriteError)
          → m.request ≡ some q
          → TurnOwned Crash (sent io url parser m write result)
      unfolding sent
      sent-Owned m write SocketWriteResult.ok e = e
      sent-Owned m write (SocketWriteResult.err x) e = e
      sent-Owned m write (SocketWriteResult.io input) e = e
      sent-Owned m write SocketWriteResult.eof e = e

      got_exact-Owned :
          (m : Http11Send io url) (response : ResponseBuilder) (read : io.SocketReadExact)
          (result : SocketReadExactResult io.SocketInput io.SocketReadExactError)
          → m.request ≡ some q
          → TurnOwned Crash (got_exact io url parser m response read result)
      unfolding got_exact
      got_exact-Owned m response read (SocketReadExactResult.ok buf) e =
          ends-Owned m _ response buf e
      got_exact-Owned m response read (SocketReadExactResult.err x) e = e
      got_exact-Owned m response read (SocketReadExactResult.io input) e = e

      got_to_end-Owned :
          (m : Http11Send io url) (response : ResponseBuilder) (read : io.SocketReadToEnd)
          (result : SocketReadToEndResult io.SocketInput io.SocketReadToEndError)
          → m.request ≡ some q
          → TurnOwned Crash (got_to_end io url parser m response read result)
      unfolding got_to_end
      got_to_end-Owned m response read (SocketReadToEndResult.ok buf) e =
          ends-Owned m _ response buf e
      got_to_end-Owned m response read (SocketReadToEndResult.err x) e = e
      got_to_end-Owned m response read (SocketReadToEndResult.io input) e = e

      got_chunks-Owned :
          (m : Http11Send io url) (response : ResponseBuilder)
          (result : Resumed (HttpChunksRead io) (HttpChunksReadResult io))
          → (result ≡ panicked → Crash)
          → m.request ≡ some q
          → TurnOwned Crash (got_chunks io url parser m response result)
      unfolding got_chunks
      got_chunks-Owned m response (returned read (HttpChunksReadResult.ok body)) ne e =
          ends-Owned m _ response body e
      got_chunks-Owned m response (returned read (HttpChunksReadResult.err x)) ne e = e
      got_chunks-Owned m response (returned read (HttpChunksReadResult.io_request input)) ne e = e
      got_chunks-Owned m response panicked ne e = ne refl
      got_chunks-Owned m response out_of_fuel ne e = tt

    in_state-Owned :
        (st : State io) (m : Http11Send io url) (arg : Option io.SocketOutput)
        → m.request ≡ some q
        → m.state ≡ st
        → TurnOwned (ChunksPanic m arg) (in_state io url parser mem fuel st m arg)
    unfolding in_state step_send step_receive_headers
    in_state-Owned serializing m arg e at = unfold step_serialize in rw (e, step_serialize) e
    in_state-Owned (sending write) m arg e at = sent-Owned (ChunksPanic m arg) m _ _ e
    in_state-Owned (receive_headers read headers) m arg e at =
        got_headers-Owned (ChunksPanic m arg) m _ headers _
          (λ buf n f.
            in_buffer read (io.read_resume read arg).0 arg buf n
              (ap (λ x. ((io.read_resume read arg).0, x)) f))
          e
    in_state-Owned (receive_chunked_body read response) m arg e at =
        got_chunks-Owned (ChunksPanic m arg) m response _ (λ p. (read, response, at, p)) e
    in_state-Owned (receive_lengthed_body read response) m arg e at =
        got_exact-Owned (ChunksPanic m arg) m response _ _ e
    in_state-Owned (receive_body read response) m arg e at =
        got_to_end-Owned (ChunksPanic m arg) m response _ _ e

    step-Owned :
        (m : Http11Send io url) (arg : Option io.SocketOutput)
        → m.request ≡ some q
        → TurnOwned (ChunksPanic m arg) (step io url parser mem fuel m arg)
    step-Owned m arg e = unfold step in in_state-Owned m.state m arg e refl

    -- `resume`, on an exchange that holds its request, where it ends within the fuel, returns with the
    -- request still held, or hands that very request to the caller with the response, and then holds
    -- none. It panics only where its passes come to the
    -- chunked body and the decoder of that body panics on the answer at hand. This is so if the count that a read returns
    -- lies in its buffer.
    pub resume-Owned :
        (m : Http11Send io url) (arg : Option io.SocketOutput)
        → m.request ≡ some q
        → ResumedOwned m arg (resume io url parser mem fuel m arg)
    resume-Owned m arg e =
        unfold resume in
        loop-keeps (step io url parser mem fuel) ChunksPanic (λ m. m.request ≡ some q) Owned
          step-Owned fuel m arg e
