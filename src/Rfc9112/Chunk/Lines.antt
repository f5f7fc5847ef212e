-- ===== src/Rfc9112/Chunk/Lines.antt =====
-- A pass of the decoder on any line in front of a CRLF, and on an exact read that fails.
use io_http.Prelude.{
  ℕ, ◌+◌, [], ◌∷◌, ◌++◌, ◌≡◌, ◌∙◌, ap, Option, none, some, ◌==◌, if◌then◌else◌, length, take, drop,
  take-length_append, take-append_le, drop-length_append,
}
use mathlib.Core.Option.{get_or}
use io_http.Text.{Bytes}
use io_http.Text.Radix.{from_str_radix}
use io_http.Text.Search.{crlf, index_of}
use io_http.Text.Search.Found.{before, take-index_of, index_of-le_length}
use io_http.Text.Utf8.{from_utf8_lossy}
use io_http.External.Memchr.{Memchr, MemchrLaws}
use io_http.External.Socket.{IoSocket, SocketReadExactResult}
use io_http.Coroutine.{again, yield}
use io_http.Rfc9112.Chunk.{
  chunk_size, chunk_data, trailer, HttpChunksRead, err, invalid_chunk_size, socket_read_exact,
  ChunksTurn, start_chunk, read_chunk, step_chunk_data, size_line, step_chunk_size, in_state, step,
}
use io_http.Rfc9112.Chunk.Passes.{step_at, drop-line}
use io_http.Rfc9112.Chunk.Reference.{size_text}

module _ (io : IoSocket) where
  -- What a line with `y` behind its CRLF leads to.
  abbrev pub line_turn :
      HttpChunksRead io → Bytes → Bytes → Option io.SocketOutput → Option ℕ → ChunksTurn io
  line_turn m text y arg none = yield m (err (invalid_chunk_size text))
  line_turn m text y arg (some size) =
      if size == 0
      then again (record m { buffer = crlf ++ y; state = trailer }) arg
      else start_chunk io m y size arg

  module _ (mem : Memchr) where
    pub step-chunk_data_fails :
        (m : HttpChunksRead io) (arg : Option io.SocketOutput) (read next : io.SocketReadExact)
        (size : ℕ) (e : io.SocketReadExactError)
        → m.state ≡ chunk_data read size
        → io.exact_resume read arg ≡ (next, SocketReadExactResult.err e)
        → step io mem m arg
          ≡ yield (record m { state = chunk_data next size }) (err (socket_read_exact e))
    unfolding in_state read_chunk step_chunk_data
    step-chunk_data_fails m arg read next size e f g =
        step_at io mem m arg _ f ∙ (rw (g, step_chunk_data))

    module _ (first : MemchrLaws mem) (line y : Bytes) where
      size_line-turn :
          (m : HttpChunksRead io) (arg : Option io.SocketOutput) (o : Option ℕ)
          → m.buffer ≡ line ++ (crlf ++ y)
          → from_str_radix (size_text line) 16 ≡ o
          → size_line io mem m (length line) arg ≡ line_turn m (size_text line) y arg o
      unfolding size_line
      size_line-turn m arg o e f =
          let at_line : take (length line) m.buffer ≡ line =
            ap (take (length line)) e ∙ take-length_append line (crlf ++ y) in
          let n = get_or (index_of (b';' ∷ []) line) (length line) in
          let ext : take (get_or (mem.memchr b';' (take (length line) m.buffer)) (length line))
                m.buffer
              ≡ before b';' line =
            rw (at_line, first.memchr_first)
              (ap (take n) e
                ∙ take-append_le n line (crlf ++ y) (index_of-le_length b';' line)
                ∙ take-index_of b';' line) in
          let text : from_utf8_lossy (
                take (get_or (mem.memchr b';' (take (length line) m.buffer)) (length line))
                  m.buffer)
              ≡ size_text line =
            unfold size_text in ap from_utf8_lossy ext in
          let from_crlf : drop (length line) m.buffer ≡ crlf ++ y =
            ap (drop (length line)) e ∙ drop-length_append line (crlf ++ y) in
          let behind : drop (length line + 2) m.buffer ≡ y =
            ap (drop (length line + 2)) e ∙ drop-line line y in
          elim o
              as (λ o.
                from_str_radix (size_text line) 16 ≡ o
                → size_line io mem m (length line) arg ≡ line_turn m (size_text line) y arg o) [
                  | none ↦ λ f. rw (text, size_line, f) (rw text)
                  | some size ↦ λ f. rw (text, size_line, f) (rw (from_crlf, behind))
                ]
            f

      -- A pass that finds a line.
      pub step-chunk_size_line :
          (m : HttpChunksRead io) (arg : Option io.SocketOutput) (o : Option ℕ)
          → m.state ≡ chunk_size
          → m.buffer ≡ line ++ (crlf ++ y)
          → index_of crlf m.buffer ≡ some (length line)
          → from_str_radix (size_text line) 16 ≡ o
          → step io mem m arg ≡ line_turn m (size_text line) y arg o
      unfolding in_state step_chunk_size
      step-chunk_size_line m arg o e b f g =
          step_at io mem m arg _ e
          ∙ (rw (first.find_first m.buffer crlf ∙ f, step_chunk_size) (size_line-turn m arg o b g))
