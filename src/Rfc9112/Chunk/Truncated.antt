-- ===== src/Rfc9112/Chunk/Truncated.antt =====
-- The decoder on a stream that ends too early: in a chunk-size line, or before the trailer is
-- closed.
use io_http.Prelude.{
  List-cases, ℕ, zero, suc, ◌+◌, ◌≤◌, ◌<◌, [], ◌++◌, ◌≡◌, ◌≢◌, refl, ◌∙◌, ap, inl, inr, Option,
  none, some, length, arith, length-pos,
}
use io_http.Text.{Bytes}
use io_http.Text.Radix.{usize_mod}
use io_http.Text.Search.{crlf, crlf_crlf, index_of, index_of-none_prefix, index_of-line}
use io_http.External.Memchr.{Memchr, MemchrLaws}
use io_http.External.Socket.{IoSocket}
use io_http.External.Socket.Transport.{Transport, SocketLaws}
use io_http.Coroutine.Drive.{ask, done, stop, Drives-pass, Drives-drive_one, drive, finished}
use io_http.Rfc9112.Chunk.{
  State, chunk_size, trailer, HttpChunksRead, err, unexpected_eof, fill, step, input_of, new,
  extend,
}
use io_http.Rfc9112.Chunk.Grammar.{SizeLine, SizeLine-Lacks}
use io_http.Rfc9112.Chunk.Passes.{
  fill-asks, fill-eof, step-chunk_size_waits, step-chunk_size_reads, step-trailer_waits,
}
use io_http.Rfc9112.Chunk.Fetch.{Goes, At, fetch, fetch_once}
use io_http.Rfc9112.Chunk.Complete.{read_chunk_from}

-- `Truncated wire`: after any number of complete chunks, `wire` ends before the CRLF of a chunk-size
-- line, or behind the last chunk's line before the empty line that closes the trailer.
pub data Truncated : Bytes → Type 0 where
  in_size_line : {wire : Bytes} → index_of crlf wire ≡ none → Truncated wire
  in_trailer :
      {wire : Bytes} (line rest : Bytes)
      → SizeLine line 0
      → wire ≡ line ++ (crlf ++ rest)
      → index_of crlf_crlf (crlf ++ rest) ≡ none
      → Truncated wire
  behind_chunk :
      {wire : Bytes} (line chunk_data rest : Bytes)
      → SizeLine line (length chunk_data)
      → chunk_data ≢ []
      → length chunk_data + 2 < usize_mod
      → Truncated rest
      → wire ≡ line ++ (crlf ++ (chunk_data ++ (crlf ++ rest)))
      → Truncated wire

module _ (io : IoSocket) (mem : Memchr) (t : Transport io) (first : MemchrLaws mem)
    (laws : SocketLaws io t) where
  -- A separator that never comes is waited for until the stream ends.
  module _ (st : State io) (needle body wire : Bytes)
      (waits : (m : HttpChunksRead io) (arg : Option io.SocketOutput)
        → m.state ≡ st
        → index_of needle m.buffer ≡ none
        → step io mem m arg ≡ fill io m arg)
      (never : index_of needle wire ≡ none) where
    missing_in :
        (m : HttpChunksRead io) (s : t.Stream)
        → At io mem t laws st body wire m s
        → index_of needle m.buffer ≡ none
    missing_in m s at =
        index_of-none_prefix needle m.buffer (t.pending s) (ap (index_of needle) at.wire ∙ never)

    ends_dry :
        (m : HttpChunksRead io) (s : t.Stream)
        → t.pending s ≡ []
        → At io mem t laws st body wire m s
        → Goes io mem t laws (λ o. o ≡ finished (err unexpected_eof)) m none s
    ends_dry m s ended at =
        let (r', input, asks, asked) = laws.read_asks m.read at.ready in
        let (r₂, ends) = laws.read_ends r' input s asked ended in
        let m₁ : HttpChunksRead io = record m { read = r' } in
        let missing = missing_in m s at in
        ask (stop (waits m none at.state missing ∙ fill-asks io m none r' input asks)) refl
          (done (stop (waits m₁ _ at.state missing ∙ fill-eof io m₁ _ r₂ ends)) refl refl)

    pub run_dry :
        (n : ℕ) (m : HttpChunksRead io) (s : t.Stream)
        → length (t.pending s) ≤ n
        → At io mem t laws st body wire m s
        → Goes io mem t laws (λ o. o ≡ finished (err unexpected_eof)) m none s
    run_dry zero m s le at = elim (List-cases (t.pending s)) [
      | inl ended ↦ ends_dry m s ended at
      | inr more ↦ let pos = length-pos (t.pending s) more in absurd (omega arith)
    ]
    run_dry (suc n) m s le at = elim (List-cases (t.pending s)) [
      | inl ended ↦ ends_dry m s ended at
      | inr more ↦
          fetch_once io mem t laws st needle body wire waits n m s le at (missing_in m s at) more
            (run_dry n)
    ]

  -- The step behind a size line of 0 whose trailer is never closed.
  read_open_trailer :
      (line rest sofar wire : Bytes)
      → SizeLine line 0
      → wire ≡ line ++ (crlf ++ rest)
      → index_of crlf_crlf (crlf ++ rest) ≡ none
      → (m : HttpChunksRead io) (s : t.Stream) → At io mem t laws chunk_size sofar wire m s
      → Goes io mem t laws (λ o. o ≡ finished (err unexpected_eof)) m none s
  read_open_trailer line rest sofar wire l e never =
      fetch io mem t laws chunk_size crlf sofar wire line rest e
        (step-chunk_size_waits io mem first)
        (λ m s i at found.
          let (y, front, coming, len) =
            index_of-line line m.buffer (t.pending s) rest i (SizeLine-Lacks l) (at.wire ∙ e)
              found in
          let m' : HttpChunksRead io = record m { buffer = crlf ++ y; state = trailer } in
          Drives-pass _ _ _
            (step-chunk_size_reads io mem first l (omega arith) m y none at.state front
              (found ∙ ap some len))
            (run_dry trailer crlf_crlf sofar (crlf ++ rest) (step-trailer_waits io mem first) never
              (length (t.pending s)) m' s (omega arith)
              (record {
                state = refl;
                ready = at.ready;
                body = at.body;
                wire = ap (λ x. crlf ++ x) coming;
              })))

  cut_from :
      (sofar : Bytes) {wire : Bytes}
      → Truncated wire
      → (m : HttpChunksRead io) (s : t.Stream) → At io mem t laws chunk_size sofar wire m s
      → Goes io mem t laws (λ o. o ≡ finished (err unexpected_eof)) m none s
  cut_from sofar (in_size_line never) = λ m s at.
      run_dry chunk_size crlf sofar _ (step-chunk_size_waits io mem first) never
        (length (t.pending s)) m s (omega arith) at
  cut_from sofar (in_trailer line rest l e never) = read_open_trailer line rest sofar _ l e never
  cut_from sofar (behind_chunk line data_bytes rest l ne small c e) =
      read_chunk_from io mem t first laws data_bytes rest sofar ne small
        (cut_from (sofar ++ data_bytes) c) line _ l e

  -- A new decoder whose reader is ready and whose buffer was extended with the first bytes, on a
  -- stream that delivers the others in pieces of any size and then ends: if together they are
  -- truncated in a chunk-size line or in the trailer, then the caller's loop ends, within some fuel
  -- and on every larger one, and returns the error of an unexpected end of file.
  pub decode-Truncated :
      (read : io.SocketRead) (seed : Bytes) (s : t.Stream) {wire : Bytes}
      → laws.Ready read
      → Truncated wire
      → seed ++ t.pending s ≡ wire
      → (fuel : ℕ) × ((calls rounds : ℕ)
          → fuel ≤ calls
          → fuel ≤ rounds
          → drive
              (step io mem)
              (input_of io)
              t.handle
              calls
              rounds
              (extend io (new io read) seed)
              none
              s
            ≡ finished (err unexpected_eof))
  decode-Truncated read seed s ready c e = Drives-drive_one (step io mem) (input_of io) t.handle (
      cut_from [] c (extend io (new io read) seed) s
        (unfold extend new in record { state = refl; ready = ready; body = refl; wire = e }))
