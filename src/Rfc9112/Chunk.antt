-- ===== src/Rfc9112/Chunk.antt =====
-- The chunked body decoder (src/rfc9112/chunk.rs). A state of the coroutine is a record, one pass of
-- the loop of `resume` is `step`, and `resume` is the loop.
pub mod Grammar
pub mod Passes
pub mod Fetch
pub mod Collect
pub mod Seeding
pub mod Complete
pub mod Overflow
pub mod Truncated
pub mod Reference
pub mod Lines
pub mod Short
use io_http.Prelude.{
  ℕ, ◌+◌, ◌%◌, [], ◌++◌, Option, none, some, ◌==◌, if◌then◌else◌, min, length, take, drop,
}
use mathlib.Core.Option.{get_or}
use io_http.Text.{Bytes, slice_to}
use io_http.Text.Radix.{from_str_radix, usize_mod}
use io_http.Text.Search.{crlf, crlf_crlf}
use io_http.Text.Utf8.{from_utf8_lossy}
use io_http.External.Memchr.{Memchr}
use io_http.External.Socket.{IoSocket, Buffer, SocketReadResult, SocketReadExactResult}
use io_http.Coroutine.{Turn, again, yield, panic, Resumed, loop}

module _ (io : IoSocket) where
  pub data HttpChunksReadError : Type 0 where
    unexpected_eof : HttpChunksReadError
    invalid_chunk_size : Bytes → HttpChunksReadError
    socket_read : io.SocketReadError → HttpChunksReadError
    socket_read_exact : io.SocketReadExactError → HttpChunksReadError

  pub data HttpChunksReadResult : Type 0 where
    ok : Bytes → HttpChunksReadResult
    err : HttpChunksReadError → HttpChunksReadResult
    io_request : io.SocketInput → HttpChunksReadResult

  pub data State : Type 0 where
    chunk_size : State
    chunk_data : io.SocketReadExact → ℕ → State
    trailer : State

  pub record HttpChunksRead : Type 0 where
    pub read : io.SocketRead
    pub state : State
    pub buffer : Bytes
    pub body : Bytes

module _ (io : IoSocket) where
  -- `HttpChunksRead::new`.
  unfoldable pub new : io.SocketRead → HttpChunksRead io
  new read = record { read = read; state = chunk_size; buffer = []; body = [] }

  unfoldable pub extend : HttpChunksRead io → Bytes → HttpChunksRead io
  extend m bytes = record m { buffer = m.buffer ++ bytes }

  abbrev pub ChunksTurn : Type 0
  ChunksTurn = Turn (HttpChunksRead io) io.SocketOutput (HttpChunksReadResult io)

  -- `self.buffer.extend_from_slice(&buf[..n]); self.read.replace(buf)`.
  refill : HttpChunksRead io → Buffer → ℕ → ChunksTurn
  refill m buf n = elim (slice_to n buf.bytes) [
    | none ↦ panic
    | some bytes ↦
        again (record m { buffer = m.buffer ++ bytes; read = io.read_replace m.read buf }) none
  ]

  -- What a pass does with the result of `self.read.resume(arg.take())`.
  filled : HttpChunksRead io → SocketReadResult io.SocketInput io.SocketReadError → ChunksTurn
  filled m (SocketReadResult.ok buf n) = refill m buf n
  filled m (SocketReadResult.err e) = yield m (err (socket_read e))
  filled m (SocketReadResult.io input) = yield m (io_request input)
  filled m SocketReadResult.eof = yield m (err unexpected_eof)

  pub fill : HttpChunksRead io → Option io.SocketOutput → ChunksTurn
  fill m arg =
      let (read', result) = io.read_resume m.read arg in filled (record m { read = read' }) result

  -- The result of the exact read: `buf` holds the chunk and its CRLF, and `buf[..size]` is kept.
  read_chunk :
      HttpChunksRead io
      → io.SocketReadExact
      → ℕ
      → SocketReadExactResult io.SocketInput io.SocketReadExactError
      → ChunksTurn
  read_chunk m read size (SocketReadExactResult.ok buf) = elim (slice_to size buf) [
    | none ↦ panic
    | some chunk ↦ again (record m { body = m.body ++ chunk; state = chunk_size }) none
  ]
  read_chunk m read size (SocketReadExactResult.err e) =
      yield (record m { state = chunk_data read size }) (err (socket_read_exact e))
  read_chunk m read size (SocketReadExactResult.io input) =
      yield (record m { state = chunk_data read size }) (io_request input)

  step_chunk_data : HttpChunksRead io → io.SocketReadExact → ℕ → Option io.SocketOutput → ChunksTurn
  step_chunk_data m read size arg =
      let (read', result) = io.exact_resume read arg in read_chunk m read' size result

  -- The exact read of a chunk and its CRLF, seeded with no more of the buffer than it needs.
  -- `chunk_size + CRLF.len()` is computed in a `usize`.
  pub start_chunk : HttpChunksRead io → Bytes → ℕ → Option io.SocketOutput → ChunksTurn
  start_chunk m buffer size arg =
      let target = (size + 2) % usize_mod in
      let pre_seed = min (length buffer) target in
      let read = io.exact_extend (io.exact_new target) (take pre_seed buffer) in
      again (record m { buffer = drop pre_seed buffer; state = chunk_data read size }) arg

  module _ (mem : Memchr) where
    -- A size line is in the buffer: its CRLF stands at `crlf_at`, its size ends at `ext`.
    size_line : HttpChunksRead io → ℕ → Option io.SocketOutput → ChunksTurn
    size_line m crlf_at arg =
        let ext = get_or (mem.memchr b';' (take crlf_at m.buffer)) crlf_at in
        let text = from_utf8_lossy (take ext m.buffer) in
        elim (from_str_radix text 16) [
          | none ↦ yield m (err (invalid_chunk_size text))
          | some size ↦
              if size == 0
              then again (record m { buffer = drop crlf_at m.buffer; state = trailer }) arg
              else start_chunk m (drop (crlf_at + 2) m.buffer) size arg
        ]

    step_chunk_size : HttpChunksRead io → Option io.SocketOutput → ChunksTurn
    step_chunk_size m arg = elim (mem.find m.buffer crlf) [
      | none ↦ fill m arg
      | some crlf_at ↦ size_line m crlf_at arg
    ]

    -- The body is moved out with `mem::take`.
    step_trailer : HttpChunksRead io → Option io.SocketOutput → ChunksTurn
    step_trailer m arg = elim (mem.find m.buffer crlf_crlf) [
      | none ↦ fill m arg
      | some end ↦ yield (record m { body = [] }) (ok m.body)
    ]

    pub in_state : State io → HttpChunksRead io → Option io.SocketOutput → ChunksTurn
    in_state chunk_size m arg = step_chunk_size m arg
    in_state (chunk_data read size) m arg = step_chunk_data m read size arg
    in_state trailer m arg = step_trailer m arg

    -- One pass of the loop of `resume`.
    unfoldable pub step : HttpChunksRead io → Option io.SocketOutput → ChunksTurn
    unfolding in_state step_chunk_size step_trailer size_line start_chunk step_chunk_data read_chunk
        fill filled refill slice_to
    step m arg = in_state m.state m arg

    unfoldable pub resume :
        ℕ
        → HttpChunksRead io
        → Option io.SocketOutput
        → Resumed (HttpChunksRead io) (HttpChunksReadResult io)
    unfolding loop
    resume fuel m arg = loop step fuel m arg

  -- The socket input that a result asks for.
  abbrev pub input_of : HttpChunksReadResult io → Option io.SocketInput
  input_of (ok body) = none
  input_of (err e) = none
  input_of (io_request input) = some input
