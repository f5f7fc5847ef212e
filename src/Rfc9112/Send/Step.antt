-- ===== src/Rfc9112/Send/Step.antt =====
-- One pass of the loop of `Http11Send::resume` in each state, and `finish` (src/rfc9112/send.rs).
pub mod Request
pub mod Passes
pub mod BodyPasses
pub mod Written
pub mod ChunkedBody
pub mod Phases
pub mod HeadRead
pub mod Payloads
pub mod Cut
pub mod Broken
pub mod Failed
pub mod Received
pub mod Finish
use io_http.Prelude.{ℕ, [], ◌++◌, Bool, false, not, Option, none, some, take, drop}
use io_http.Text.{Bytes, slice_to}
use io_http.External.Memchr.{Memchr}
use io_http.External.Url.{UrlApi}
use io_http.External.Httparse.{Httparse, Parsed, complete, partial, failed}
use io_http.External.Socket.{
  IoSocket, Buffer, SocketReadResult, SocketWriteResult, SocketReadExactResult,
  SocketReadToEndResult,
}
use io_http.Coroutine.{
  Turn, again, yield, panic, starved, Resumed, returned, panicked, out_of_fuel, loop,
}
use io_http.Rfc9110.Headers.{Headers}
use io_http.Rfc9110.Request.{HttpRequest}
use io_http.Rfc9110.Response.{HttpResponse, ResponseBuilder, default_builder, build}
use io_http.Rfc9110.Redirect.{same_origin, redirect_target}
use io_http.Rfc9110.Wire.{http_11, serialize}
use io_http.Rfc9112.Chunk
use io_http.Rfc9112.Chunk.{HttpChunksRead, HttpChunksReadResult}
use io_http.Rfc9112.Send.Types.{
  unexpected_eof, parse_response_headers, socket_read, http_chunks_read, socket_read_exact,
  socket_read_to_end, socket_write, Http11SendResult, ok, io_request, redirect, err, State,
  serializing, sending, receive_headers, receive_chunked_body, receive_lengthed_body, receive_body,
  Http11Send,
}
use io_http.Rfc9112.Send.Head.{
  is_http10, no_content, response_of, closes, Framing, no_body, chunked, until_eof, lengthed,
  framing,
}

module _ (io : IoSocket) (url : UrlApi) (parser : Httparse) where
  -- `Http11Send::new`.
  unfoldable pub new : HttpRequest url.Url → Http11Send io url
  new request = record { request = some request; state = serializing; is_conn_closed = false }

  -- A redirect where there is a target, else the response.
  unfoldable pub finish : HttpRequest url.Url → HttpResponse → Bool → Http11SendResult io url parser
  finish request response keep_alive = elim (redirect_target url request response) [
    | none ↦ ok request response keep_alive
    | some target ↦ redirect target request response keep_alive (same_origin url request.url target)
  ]

  abbrev pub SendTurn : Type 0
  SendTurn = Turn (Http11Send io url) io.SocketOutput (Http11SendResult io url parser)

  -- `self.request.as_ref().unwrap()`, and the whole request is written at once.
  step_serialize : Http11Send io url → Option io.SocketOutput → SendTurn
  step_serialize m arg = elim m.request [
    | none ↦ panic
    | some req ↦
        again
          (record m {
            state = sending (
                io.write_new (
                  serialize req.method (url.path req.url) (url.query req.url) http_11 req.headers
                    req.body));
          })
          arg
  ]

  sent :
      Http11Send io url
      → io.SocketWrite
      → SocketWriteResult io.SocketInput io.SocketWriteError
      → SendTurn
  sent m write SocketWriteResult.ok =
      again (record m { state = receive_headers io.read_default [] }) none
  sent m write (SocketWriteResult.err e) =
      yield (record m { state = sending write }) (err (socket_write e))
  sent m write (SocketWriteResult.io input) =
      yield (record m { state = sending write }) (io_request input)
  sent m write SocketWriteResult.eof =
      yield (record m { state = sending write }) (err unexpected_eof)

  step_send : Http11Send io url → io.SocketWrite → Option io.SocketOutput → SendTurn
  step_send m write arg = let (write', result) = io.write_resume write arg in sent m write' result

  -- The state that reads a body whose first bytes came with the head; a 204 or a 304 ends here.
  pub start_body :
      Http11Send io url
      → Buffer
      → io.SocketRead
      → Bytes
      → Bytes
      → ResponseBuilder
      → Framing
      → SendTurn
  start_body m buf read head body response no_body = elim m.request [
    | none ↦ panic
    | some req ↦
        yield (record m { request = none; state = receive_headers read head })
          (ok req (build response []) (not m.is_conn_closed))
  ]
  start_body m buf read head body response chunked =
      let chunks = Chunk.new io (io.read_replace (io.read_with_capacity buf.capacity) buf) in
      again (record m { state = receive_chunked_body (Chunk.extend io chunks body) response }) none
  start_body m buf read head body response (lengthed n) =
      again
        (record m {
          state = receive_lengthed_body (io.exact_extend (io.exact_new n) body) response;
        })
        none
  start_body m buf read head body response until_eof =
      again (record m { state = receive_body (io.to_end_extend io.to_end_new body) response }) none

  -- The head is complete: `n` bytes of `headers`, with the rest drained into the body.
  head_done :
      Http11Send io url
      → Buffer
      → io.SocketRead
      → Bytes
      → ℕ
      → Option ℕ
      → Option ℕ
      → Headers
      → SendTurn
  head_done m buf read headers n version code lines =
      let response = response_of version code lines in
      let http10 = is_http10 version in
      start_body (record m { is_conn_closed = closes http10 response }) buf read (take n headers)
        (drop n headers) response (framing http10 (no_content code) response)

  parsed_head : Http11Send io url → Buffer → io.SocketRead → Bytes → Parsed parser.Error → SendTurn
  parsed_head m buf read headers (complete n version code lines) =
      head_done m buf read headers n version code lines
  parsed_head m buf read headers partial =
      again (record m { state = receive_headers (io.read_replace read buf) headers }) none
  parsed_head m buf read headers (failed e) =
      yield (record m { state = receive_headers read headers }) (err (parse_response_headers e))

  got_headers :
      Http11Send io url
      → io.SocketRead
      → Bytes
      → SocketReadResult io.SocketInput io.SocketReadError
      → SendTurn
  got_headers m read headers (SocketReadResult.ok buf n) = elim (slice_to n buf.bytes) [
    | none ↦ panic
    | some bytes ↦ parsed_head m buf read (headers ++ bytes) (parser.parse 64 (headers ++ bytes))
  ]
  got_headers m read headers (SocketReadResult.err e) =
      yield (record m { state = receive_headers read headers }) (err (socket_read e))
  got_headers m read headers (SocketReadResult.io input) =
      yield (record m { state = receive_headers read headers }) (io_request input)
  got_headers m read headers SocketReadResult.eof =
      yield (record m { state = receive_headers read headers }) (err unexpected_eof)

  step_receive_headers :
      Http11Send io url → io.SocketRead → Bytes → Option io.SocketOutput → SendTurn
  step_receive_headers m read headers arg =
      let (read', result) = io.read_resume read arg in got_headers m read' headers result

  -- `finish(self.request.take().unwrap(), mem::take(response).build(body), !self.is_conn_closed)`;
  -- `left` is the state with the response taken out of it.
  ends : Http11Send io url → State io → ResponseBuilder → Bytes → SendTurn
  ends m left response body = elim m.request [
    | none ↦ panic
    | some req ↦
        yield (record m { request = none; state = left })
          (finish req (build response body) (not m.is_conn_closed))
  ]

  got_chunks :
      Http11Send io url
      → ResponseBuilder
      → Resumed (HttpChunksRead io) (HttpChunksReadResult io)
      → SendTurn
  got_chunks m response (returned read (HttpChunksReadResult.ok body)) =
      ends m (receive_chunked_body read default_builder) response body
  got_chunks m response (returned read (HttpChunksReadResult.err e)) =
      yield (record m { state = receive_chunked_body read response }) (err (http_chunks_read e))
  got_chunks m response (returned read (HttpChunksReadResult.io_request input)) =
      yield (record m { state = receive_chunked_body read response }) (io_request input)
  got_chunks m response panicked = panic
  got_chunks m response out_of_fuel = starved

  got_exact :
      Http11Send io url
      → ResponseBuilder
      → io.SocketReadExact
      → SocketReadExactResult io.SocketInput io.SocketReadExactError
      → SendTurn
  got_exact m response read (SocketReadExactResult.ok buf) =
      ends m (receive_lengthed_body read default_builder) response buf
  got_exact m response read (SocketReadExactResult.err e) =
      yield (record m { state = receive_lengthed_body read response }) (err (socket_read_exact e))
  got_exact m response read (SocketReadExactResult.io input) =
      yield (record m { state = receive_lengthed_body read response }) (io_request input)

  got_to_end :
      Http11Send io url
      → ResponseBuilder
      → io.SocketReadToEnd
      → SocketReadToEndResult io.SocketInput io.SocketReadToEndError
      → SendTurn
  got_to_end m response read (SocketReadToEndResult.ok buf) =
      ends m (receive_body read default_builder) response buf
  got_to_end m response read (SocketReadToEndResult.err e) =
      yield (record m { state = receive_body read response }) (err (socket_read_to_end e))
  got_to_end m response read (SocketReadToEndResult.io input) =
      yield (record m { state = receive_body read response }) (io_request input)

  -- `fuel` bounds the passes of the chunk decoder's own loop.
  module _ (mem : Memchr) (fuel : ℕ) where
    pub in_state : State io → Http11Send io url → Option io.SocketOutput → SendTurn
    in_state serializing m arg = step_serialize m arg
    in_state (sending write) m arg = step_send m write arg
    in_state (receive_headers read headers) m arg = step_receive_headers m read headers arg
    in_state (receive_chunked_body read response) m arg =
        got_chunks m response (Chunk.resume io mem fuel read arg)
    in_state (receive_lengthed_body read response) m arg =
        let (read', result) = io.exact_resume read arg in got_exact m response read' result
    in_state (receive_body read response) m arg =
        let (read', result) = io.to_end_resume read arg in got_to_end m response read' result

    unfoldable pub step : Http11Send io url → Option io.SocketOutput → SendTurn
    unfolding in_state step_serialize step_send sent step_receive_headers got_headers parsed_head
        head_done start_body got_chunks got_exact got_to_end ends
    step m arg = in_state m.state m arg

    unfoldable pub resume :
        Http11Send io url
        → Option io.SocketOutput
        → Resumed (Http11Send io url) (Http11SendResult io url parser)
    resume m arg = loop step fuel m arg

  -- The socket input that a result asks for.
  abbrev pub input_of : Http11SendResult io url parser → Option io.SocketInput
  input_of (ok request response keep_alive) = none
  input_of (redirect target request response keep_alive same_origin) = none
  input_of (err e) = none
  input_of (io_request input) = some input
