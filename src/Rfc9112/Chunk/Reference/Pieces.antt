-- ===== src/Rfc9112/Chunk/Reference/Pieces.antt =====
-- The decoder in the trailer, and in front of a chunk that is all there or cut.
use io_http.Prelude.{
  ℕ, ◌+◌, ◌≤◌, ◌<◌, [], ◌++◌, ◌≡◌, refl, sym, ◌∙◌, ap, none, some, min, length, take, drop, arith,
  drop-drop, length-append, length-take, length-drop, take-append-drop, length-drop, Option,
}
use io_http.Text.{Bytes}
use io_http.Text.Radix.{usize_mod}
use io_http.Text.Search.{crlf_crlf, index_of}
use io_http.Text.Search.Found.{index_of-split}
use io_http.External.Memchr.{Memchr, MemchrLaws}
use io_http.External.Socket.{IoSocket}
use io_http.External.Socket.Transport.{Transport, SocketLaws}
use io_http.Coroutine.{again, yield}
use io_http.Coroutine.Drive.{Outcome, finished, crashed, done, stop}
use io_http.Rfc9112.Chunk.{
  chunk_size, chunk_data, trailer, HttpChunksRead, HttpChunksReadResult, ok, err, unexpected_eof,
  invalid_chunk_size, start_chunk,
}
use io_http.Rfc9112.Chunk.Fetch.{Goes, At, fetch}
use io_http.Rfc9112.Chunk.Complete.{read_data}
use io_http.Rfc9112.Chunk.Passes.{step-trailer_waits, step-trailer_ends, start_chunk-seeded}
use io_http.Rfc9112.Chunk.Reference.{
  Decoded, whole, cut_line, cut_chunk, too_large, bad_size, trailer_ends,
}
use io_http.Rfc9112.Chunk.Short.{ExactError, start_short}
use io_http.Rfc9112.Chunk.Truncated.{run_dry}

-- The outcome that a decision stands for. Where a wire is cut in a chunk, it is whatever error the
-- exact read gives; where a size is too large, `resume` panics.
abbrev pub Agrees : (io : IoSocket) → Decoded → Outcome (HttpChunksReadResult io) → Type 0
Agrees io (whole body) o = o ≡ finished (ok body)
Agrees io cut_line o = o ≡ finished (err unexpected_eof)
Agrees io cut_chunk o = ExactError io o
Agrees io too_large o = o ≡ crashed
Agrees io (bad_size text) o = o ≡ finished (err (invalid_chunk_size text))

module _ (io : IoSocket) (mem : Memchr) (t : Transport io) (first : MemchrLaws mem)
    (laws : SocketLaws io t) where
  -- In the trailer, with `from_crlf` on the wire.
  pub read_end :
      (sofar from_crlf : Bytes) (o : Option ℕ)
      → index_of crlf_crlf from_crlf ≡ o
      → (m : HttpChunksRead io) (s : t.Stream) → At io mem t laws trailer sofar from_crlf m s
      → Goes io mem t laws (Agrees io (trailer_ends sofar o)) m none s
  unfolding trailer_ends
  read_end sofar from_crlf none e m s at =
      run_dry io mem t first laws trailer crlf_crlf sofar from_crlf
        (step-trailer_waits io mem first) e (length (t.pending s)) m s (omega arith) at
  read_end sofar from_crlf (some i) e m s at =
      let (split, fits) = index_of-split crlf_crlf from_crlf i e in
      fetch io mem t laws trailer crlf_crlf sofar from_crlf (take i from_crlf)
        (drop (i + 4) from_crlf) split (step-trailer_waits io mem first)
        (λ m' s' j at' found.
          done
            (stop (
              step-trailer_ends io mem first m' none j at'.state found
              ∙ ap (λ x. yield (record m' { body = [] }) (ok x)) at'.body))
            refl refl)
        m s at

  -- In front of the data of a chunk that is not all there.
  pub read_cut :
      (size : ℕ) (behind : Bytes) (m : HttpChunksRead io) (s : t.Stream) (y : Bytes)
      → size + 2 < usize_mod
      → length behind < size + 2
      → y ++ t.pending s ≡ behind
      → (m' : HttpChunksRead io) × (start_chunk io m y size none ≡ again m' none)
        × Goes io mem t laws (ExactError io) m' none s
  read_cut size behind m s y small short e =
      let pre = min (length y) (size + 2) in
      let parts = length-append y (t.pending s) in
      let same = ap length e in
      let have = length-take pre y in
      let read = io.exact_extend (io.exact_new (size + 2)) (take pre y) in
      (
        record m { buffer = drop pre y; state = chunk_data read size },
        start_chunk-seeded io m y size none small,
        start_short io mem t laws size (size + 2) read (take pre y) _ s
            (laws.extend_filling _ (size + 2) [] (take pre y) (laws.new_filling (size + 2))
              (omega arith))
            (omega arith) refl,
      )

  -- In front of the data of a chunk that is all there, whatever its last two bytes are.
  pub read_whole :
      (size : ℕ) (sofar behind : Bytes) {P : Outcome (HttpChunksReadResult io) → Type 0}
      → size + 2 < usize_mod
      → size + 2 ≤ length behind
      → ((m : HttpChunksRead io) (s : t.Stream)
          → At io mem t laws chunk_size (sofar ++ take size behind) (drop (size + 2) behind) m s
          → Goes io mem t laws P m none s)
      → (m : HttpChunksRead io) (s : t.Stream) (y : Bytes) → laws.Ready m.read
      → m.body ≡ sofar
      → y ++ t.pending s ≡ behind
      → (m' : HttpChunksRead io) × (start_chunk io m y size none ≡ again m' none)
        × Goes io mem t laws P m' none s
  read_whole size sofar behind {P} small enough rest m s y ready body e =
      let bytes = take size behind in
      let ending = take 2 (drop size behind) in
      let long : length bytes ≡ size = omega (arith, length-take size behind) in
      let two : length ending ≡ 2 =
        omega (arith, length-take 2 (drop size behind), length-drop size behind) in
      let split : y ++ t.pending s ≡ bytes ++ (ending ++ drop 2 (drop size behind)) =
        e
        ∙ sym (take-append-drop size behind)
        ∙ ap (λ x. bytes ++ x) (sym (take-append-drop 2 (drop size behind))) in
      let last_part = drop-drop size 2 behind in
      let (m', starts, goes) =
        read_data io mem t first laws bytes ending (drop 2 (drop size behind)) sofar two
          (rw long small) {P = P} (rw last_part rest) m s y ready body split in
      (m', ap (λ k. start_chunk io m y k none) (sym long) ∙ starts, goes)
