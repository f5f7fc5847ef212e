-- ===== src/Rfc9112/Chunk/Passes.antt =====
-- What one pass of the decoder's loop does in each situation, as equations about `step`.
use io_http.Prelude.{
  ℕ, suc, ◌+◌, ◌%◌, ◌<◌, [], ◌∷◌, ◌++◌, ◌≡◌, refl, ◌∙◌, ap, Option, none, some, ◌==◌, if◌then◌else◌,
  min, length, take, drop, arith, take-length_append, drop-length_append,
}
use mathlib.Core.Option.{get_or}
use io_http.Text.{Bytes, slice_to}
use io_http.Text.Radix.{usize_mod, from_str_radix}
use io_http.Text.Search.{crlf, crlf_crlf, index_of}
use io_http.Text.Utf8.{from_utf8_lossy}
use io_http.External.Memchr.{Memchr, MemchrLaws}
use io_http.External.Socket.{IoSocket, Buffer, SocketReadResult, SocketReadExactResult}
use io_http.Coroutine.{again, yield}
use io_http.Rfc9112.Chunk.{
  State, chunk_size, chunk_data, trailer, HttpChunksRead, ok, err, io_request, unexpected_eof, fill,
  filled, refill, read_chunk, step_chunk_data, start_chunk, size_line, step_chunk_size,
  step_trailer, in_state, step,
}
use io_http.Rfc9112.Chunk.Grammar.{SizeLine, SizeLine-ext, SizeLine-size}

pub drop-line : (line y : Bytes) → drop (length line + 2) (line ++ (crlf ++ y)) ≡ y
drop-line [] y = refl
drop-line (c ∷ line) y =
    let next : length (c ∷ line) + 2 ≡ suc (length line + 2) = omega arith in
    rw next (drop-line line y)

module _ (io : IoSocket) where
  pub fill-asks :
      (m : HttpChunksRead io) (arg : Option io.SocketOutput) (r : io.SocketRead)
      (input : io.SocketInput)
      → io.read_resume m.read arg ≡ (r, SocketReadResult.io input)
      → fill io m arg ≡ yield (record m { read = r }) (io_request input)
  unfolding filled fill
  fill-asks m arg r input e = rw (e, fill)

  pub fill-eof :
      (m : HttpChunksRead io) (arg : Option io.SocketOutput) (r : io.SocketRead)
      → io.read_resume m.read arg ≡ (r, SocketReadResult.eof)
      → fill io m arg ≡ yield (record m { read = r }) (err unexpected_eof)
  unfolding filled fill
  fill-eof m arg r e = rw (e, fill)

  pub fill-gets :
      (m : HttpChunksRead io) (arg : Option io.SocketOutput) (r : io.SocketRead) (buf : Buffer)
      (n : ℕ) (bytes : Bytes)
      → io.read_resume m.read arg ≡ (r, SocketReadResult.ok buf n)
      → slice_to n buf.bytes ≡ some bytes
      → fill io m arg
        ≡ again (record m { buffer = m.buffer ++ bytes; read = io.read_replace r buf }) none
  unfolding filled fill refill
  fill-gets m arg r buf n bytes e f = rw (e, fill, f, refill)

  pub start_chunk-seeded :
      (m : HttpChunksRead io) (buffer : Bytes) (size : ℕ) (arg : Option io.SocketOutput)
      → size + 2 < usize_mod
      → start_chunk io m buffer size arg
        ≡ again
            (record m {
              buffer = drop (min (length buffer) (size + 2)) buffer;
              state =
                  chunk_data
                    (io.exact_extend
                      (io.exact_new (size + 2))
                      (take (min (length buffer) (size + 2)) buffer))
                    size;
            })
            arg
  unfolding start_chunk
  start_chunk-seeded m buffer size arg h =
      let same : (size + 2) % usize_mod ≡ size + 2 = omega arith in rw same

  read_chunk-full :
      (m : HttpChunksRead io) (read : io.SocketReadExact) (size : ℕ) (buf chunk : Bytes)
      → slice_to size buf ≡ some chunk
      → read_chunk io m read size (SocketReadExactResult.ok buf)
        ≡ again (record m { body = m.body ++ chunk; state = chunk_size }) none
  unfolding read_chunk
  read_chunk-full m read size buf chunk e = rw (e, read_chunk)

  module _ (mem : Memchr) where
    -- Which handler a pass runs.
    pub step_at :
        (m : HttpChunksRead io) (arg : Option io.SocketOutput) (st : State io)
        → m.state ≡ st
        → step io mem m arg ≡ in_state io mem st m arg
    step_at m arg st e = unfold step in rw e

    pub step-chunk_data_full :
        (m : HttpChunksRead io) (arg : Option io.SocketOutput) (read next : io.SocketReadExact)
        (size : ℕ) (buf chunk : Bytes)
        → m.state ≡ chunk_data read size
        → io.exact_resume read arg ≡ (next, SocketReadExactResult.ok buf)
        → slice_to size buf ≡ some chunk
        → step io mem m arg ≡ again (record m { body = m.body ++ chunk; state = chunk_size }) none
    unfolding in_state step_chunk_data
    step-chunk_data_full m arg read next size buf chunk e f g =
        step_at m arg _ e ∙ (rw (f, step_chunk_data) (read_chunk-full m next size buf chunk g))

    pub step-chunk_data_asks :
        (m : HttpChunksRead io) (arg : Option io.SocketOutput) (read next : io.SocketReadExact)
        (size : ℕ) (input : io.SocketInput)
        → m.state ≡ chunk_data read size
        → io.exact_resume read arg ≡ (next, SocketReadExactResult.io input)
        → step io mem m arg ≡ yield (record m { state = chunk_data next size }) (io_request input)
    unfolding in_state read_chunk step_chunk_data
    step-chunk_data_asks m arg read next size input e f =
        step_at m arg _ e ∙ (rw (f, step_chunk_data))

    module _ (first : MemchrLaws mem) where
      pub step-chunk_size_waits :
          (m : HttpChunksRead io) (arg : Option io.SocketOutput)
          → m.state ≡ chunk_size
          → index_of crlf m.buffer ≡ none
          → step io mem m arg ≡ fill io m arg
      unfolding in_state step_chunk_size
      step-chunk_size_waits m arg e f =
          step_at m arg _ e ∙ (rw (first.find_first m.buffer crlf ∙ f, step_chunk_size))

      pub step-trailer_waits :
          (m : HttpChunksRead io) (arg : Option io.SocketOutput)
          → m.state ≡ trailer
          → index_of crlf_crlf m.buffer ≡ none
          → step io mem m arg ≡ fill io m arg
      unfolding in_state step_trailer
      step-trailer_waits m arg e f =
          step_at m arg _ e ∙ (rw (first.find_first m.buffer crlf_crlf ∙ f, step_trailer))

      pub step-trailer_ends :
          (m : HttpChunksRead io) (arg : Option io.SocketOutput) (i : ℕ)
          → m.state ≡ trailer
          → index_of crlf_crlf m.buffer ≡ some i
          → step io mem m arg ≡ yield (record m { body = [] }) (ok m.body)
      unfolding in_state step_trailer
      step-trailer_ends m arg i e f =
          step_at m arg _ e ∙ (rw (first.find_first m.buffer crlf_crlf ∙ f, step_trailer))

      -- A size line that is in the buffer, up to its CRLF.
      module _ {line : Bytes} {size : ℕ} (l : SizeLine line size) (small : size < usize_mod) where
        size_line-reads :
            (m : HttpChunksRead io) (y : Bytes) (arg : Option io.SocketOutput)
            → m.buffer ≡ line ++ (crlf ++ y)
            → size_line io mem m (length line) arg ≡ (
                if size == 0
                then again (record m { buffer = crlf ++ y; state = trailer }) arg
                else start_chunk io m y size arg)
        unfolding size_line
        size_line-reads m y arg e =
            let at_line : take (length line) m.buffer ≡ line =
              ap (take (length line)) e ∙ take-length_append line (crlf ++ y) in
            let ext : get_or (mem.memchr b';' (take (length line) m.buffer)) (length line)
                ≡ length l.digits =
              rw (at_line, first.memchr_first) (SizeLine-ext l) in
            let read : from_str_radix (from_utf8_lossy (take (length l.digits) m.buffer)) 16
                ≡ some size =
              ap (λ b. from_str_radix (from_utf8_lossy (take (length l.digits) b)) 16) e
              ∙ SizeLine-size l (crlf ++ y) small in
            let from_crlf : drop (length line) m.buffer ≡ crlf ++ y =
              ap (drop (length line)) e ∙ drop-length_append line (crlf ++ y) in
            let behind : drop (length line + 2) m.buffer ≡ y =
              ap (drop (length line + 2)) e ∙ drop-line line y in
            rw (ext, size_line, read, from_crlf, behind)

        -- A pass that finds a size line.
        pub step-chunk_size_reads :
            (m : HttpChunksRead io) (y : Bytes) (arg : Option io.SocketOutput)
            → m.state ≡ chunk_size
            → m.buffer ≡ line ++ (crlf ++ y)
            → index_of crlf m.buffer ≡ some (length line)
            → step io mem m arg ≡ (
                if size == 0
                then again (record m { buffer = crlf ++ y; state = trailer }) arg
                else start_chunk io m y size arg)
        unfolding in_state step_chunk_size
        step-chunk_size_reads m y arg e b f =
            step_at m arg _ e
            ∙ (rw (first.find_first m.buffer crlf ∙ f, step_chunk_size) (size_line-reads m y arg b))
