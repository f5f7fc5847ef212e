-- ===== src/Rfc9112/Chunk/Overflow.antt =====
-- What the decoder does with a chunk size whose sum with the length of CRLF does not fit a `usize`.
use io_http.Prelude.{
  ℕ, suc, ◌+◌, ◌%◌, ◌<◌, [], ◌∷◌, ◌++◌, ◌≡◌, refl, ◌∙◌, Option, none, some, min, length, arith,
  ◌==◌, false,
}
use io_http.Text.{Bytes, slice_to}
use io_http.Text.Radix.{usize_mod}
use io_http.Text.Search.{crlf, index_of}
use io_http.External.Memchr.{Memchr, MemchrLaws}
use io_http.External.Socket.{IoSocket, SocketReadExactResult}
use io_http.External.Socket.Transport.{Transport, SocketLaws}
use io_http.Coroutine.{again, panic, loop, panicked}
use io_http.Rfc9112.Chunk.{
  chunk_size, chunk_data, HttpChunksRead, start_chunk, read_chunk, step_chunk_data, in_state, step,
  resume,
}
use io_http.Rfc9112.Chunk.Grammar.{SizeLine}
use io_http.Rfc9112.Chunk.Passes.{step_at, step-chunk_size_reads}

module _ (io : IoSocket) (mem : Memchr) where
  start_chunk-wrapped :
      (m : HttpChunksRead io) (c : ℕ) (y : Bytes) (size : ℕ) (arg : Option io.SocketOutput)
      → size + 1 ≡ usize_mod
      → start_chunk io m (c ∷ y) size arg
        ≡ again
            (record m {
              buffer = y;
              state = chunk_data (io.exact_extend (io.exact_new 1) (c ∷ [])) size;
            })
            arg
  unfolding start_chunk
  start_chunk-wrapped m c y size arg h =
      let target : (size + 2) % usize_mod ≡ 1 = omega arith in
      let seed : min (length (c ∷ y)) 1 ≡ 1 = omega arith in rw (target, seed)

  slice_to-past : (size : ℕ) (buf : Bytes) → length buf < size → slice_to size buf ≡ none
  unfolding slice_to
  slice_to-past size buf h = ground arith

  pub step-chunk_data_short :
      (m : HttpChunksRead io) (arg : Option io.SocketOutput) (read next : io.SocketReadExact)
      (size : ℕ) (buf : Bytes)
      → m.state ≡ chunk_data read size
      → io.exact_resume read arg ≡ (next, SocketReadExactResult.ok buf)
      → length buf < size
      → step io mem m arg ≡ panic
  unfolding in_state step_chunk_data read_chunk
  step-chunk_data_short m arg read next size buf e f g =
      step_at io mem m arg _ e
      ∙ (rw (f, step_chunk_data) (rw (slice_to-past size buf g, read_chunk)))

  loop_panics :
      (m m' : HttpChunksRead io) (fuel : ℕ)
      → step io mem m none ≡ again m' none
      → step io mem m' none ≡ panic
      → resume io mem (suc (suc fuel)) m none ≡ panicked
  unfolding resume
  loop_panics m m' fuel e f = rw (e, loop) (rw (f, loop))

  module _ (t : Transport io) (first : MemchrLaws mem) (laws : SocketLaws io t) where
    -- A chunk-size line of `usize::MAX` with a byte behind it in the buffer makes `resume` panic: the
    -- length of the exact read wraps round to 1, and the slice of `size` bytes is out of range.
    pub chunk_size_max_panics :
        (m : HttpChunksRead io) (line : Bytes) (size c : ℕ) (y : Bytes) (fuel : ℕ)
        → SizeLine line size
        → size + 1 ≡ usize_mod
        → m.state ≡ chunk_size
        → m.buffer ≡ line ++ (crlf ++ (c ∷ y))
        → index_of crlf m.buffer ≡ some (length line)
        → resume io mem (suc (suc fuel)) m none ≡ panicked
    chunk_size_max_panics m line size c y fuel l h st b found =
        let read = io.exact_extend (io.exact_new 1) (c ∷ []) in
        let m' : HttpChunksRead io = record m { buffer = y; state = chunk_data read size } in
        let nonzero : (size == 0) ≡ false = ground arith in
        let (next, full) =
          laws.exact_full read 1 (c ∷ [])
            (laws.extend_filling (io.exact_new 1) 1 [] (c ∷ []) (laws.new_filling 1) (omega arith))
            refl in
        loop_panics m m' fuel
          (step-chunk_size_reads io mem first l (omega arith) m (c ∷ y) none st b found
            ∙ (rw nonzero (start_chunk-wrapped m c y size none h)))
          (step-chunk_data_short m' none read next size (c ∷ []) refl full (omega arith))
