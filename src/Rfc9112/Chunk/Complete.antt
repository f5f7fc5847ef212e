-- ===== src/Rfc9112/Chunk/Complete.antt =====
-- The decoder reads every chunked body to its end.
use io_http.Prelude.{
  List, ℕ, ◌+◌, ◌≤◌, ◌<◌, [], ◌++◌, ◌≡◌, ◌≢◌, refl, sym, ◌∙◌, ap, none, some, min, length, take,
  drop, arith, ◌==◌, append_assoc, append-nil, length-pos, length-append, length-take,
  take-length_append, false,
}
use io_http.Text.{Bytes}
use io_http.Text.Radix.{usize_mod}
use io_http.Text.Search.{crlf, crlf_crlf, index_of-line}
use io_http.External.Memchr.{Memchr, MemchrLaws}
use io_http.External.Socket.{IoSocket}
use io_http.External.Socket.Transport.{Transport, SocketLaws}
use io_http.Coroutine.{again, yield}
use io_http.Coroutine.Drive.{Outcome, done, stop, Drives-pass, Drives-drive_one, drive, finished}
use io_http.Rfc9112.Chunk.{
  chunk_size, chunk_data, trailer, HttpChunksRead, HttpChunksReadResult, ok, start_chunk, step,
  input_of, new, extend,
}
use io_http.Rfc9112.Chunk.Grammar.{
  SizeLine, SizeLine-Lacks, Chunked, last_chunk, chunk, trailer_section, trailer_end,
}
use io_http.Rfc9112.Chunk.Passes.{
  step-chunk_size_waits, step-chunk_size_reads, step-trailer_waits, step-trailer_ends,
  start_chunk-seeded,
}
use io_http.Rfc9112.Chunk.Fetch.{Goes, At, fetch}
use io_http.Rfc9112.Chunk.Collect.{collect}
use io_http.Rfc9112.Chunk.Seeding.{seed_split, seed_enough}

module _ (io : IoSocket) (mem : Memchr) (t : Transport io) (first : MemchrLaws mem)
    (laws : SocketLaws io t) where
  -- From the CRLF of the last chunk's line on.
  read_trailer :
      (fields : List Bytes) (behind sofar : Bytes) (m : HttpChunksRead io) (s : t.Stream)
      → At io mem t laws trailer sofar (crlf ++ (trailer_section fields ++ (crlf ++ behind))) m s
      → Goes io mem t laws (λ o. o ≡ finished (ok sofar)) m none s
  read_trailer fields behind sofar m s at =
      let (a, there) = trailer_end fields behind in
      fetch io mem t laws trailer crlf_crlf sofar _ a behind there (step-trailer_waits io mem first)
        (λ m' s' i at' found.
          done
            (stop (
              step-trailer_ends io mem first m' none i at'.state found
              ∙ ap (λ x. yield (record m' { body = [] }) (ok x)) at'.body))
            refl refl)
        m s at

  -- The step behind a size line of 0.
  read_last :
      (line : Bytes) (fields : List Bytes) (behind sofar wire : Bytes)
      → SizeLine line 0
      → wire ≡ line ++ (crlf ++ (trailer_section fields ++ (crlf ++ behind)))
      → (m : HttpChunksRead io) (s : t.Stream) → At io mem t laws chunk_size sofar wire m s
      → Goes io mem t laws (λ o. o ≡ finished (ok sofar)) m none s
  read_last line fields behind sofar wire l e =
      fetch io mem t laws chunk_size crlf sofar wire line
        (trailer_section fields ++ (crlf ++ behind)) e (step-chunk_size_waits io mem first)
        (λ m s i at found.
          let (y, front, rest, len) =
            index_of-line line m.buffer (t.pending s) (trailer_section fields ++ (crlf ++ behind)) i
              (SizeLine-Lacks l) (at.wire ∙ e) found in
          let m' : HttpChunksRead io = record m { buffer = crlf ++ y; state = trailer } in
          Drives-pass _ _ _
            (step-chunk_size_reads io mem first l (omega arith) m y none at.state front
              (found ∙ ap some len))
            (read_trailer fields behind sofar m' s (record {
              state = refl;
              ready = at.ready;
              body = at.body;
              wire = ap (λ x. crlf ++ x) rest;
            })))

  module _ (data_bytes ending rest sofar : Bytes) (two : length ending ≡ 2)
      (small : length data_bytes + 2 < usize_mod) {P : Outcome (HttpChunksReadResult io) → Type 0}
      (goes_on : (m : HttpChunksRead io) (s : t.Stream)
        → At io mem t laws chunk_size (sofar ++ data_bytes) rest m s
        → Goes io mem t laws P m none s) where
    -- From the data of a chunk on, with `y` in the buffer. No byte of `ending` is looked at.
    pub read_data :
        (m : HttpChunksRead io) (s : t.Stream) (y : Bytes)
        → laws.Ready m.read
        → m.body ≡ sofar
        → y ++ t.pending s ≡ data_bytes ++ (ending ++ rest)
        → (m' : HttpChunksRead io) × (start_chunk io m y (length data_bytes) none ≡ again m' none)
          × Goes io mem t laws P m' none s
    read_data m s y ready body e =
        let size = length data_bytes in
        let pre = min (length y) (size + 2) in
        let e' : y ++ t.pending s ≡ (data_bytes ++ ending) ++ rest =
          e ∙ sym (append_assoc data_bytes ending rest) in
        let long : length (data_bytes ++ ending) ≡ size + 2 =
          omega (arith, length-append data_bytes ending, two) in
        let have_le : length (take pre y) ≤ size + 2 = omega (arith, length-take pre y) in
        let read = io.exact_extend (io.exact_new (size + 2)) (take pre y) in
        let m' : HttpChunksRead io = record m {
          buffer = drop pre y;
          state = chunk_data read size;
        } in
        (
          m',
          start_chunk-seeded io m y size none small,
          collect io mem t laws sofar (drop pre y) size (size + 2) (omega arith)
              (take pre y ++ t.pending s)
              (λ m₂ s₂ ready₂ c.
                let (same, wire₂) =
                  seed_split (size + 2) y (t.pending s) (data_bytes ++ ending) rest c.data_bytes
                    (t.pending s₂) long c.data_length e' c.data_split in
                goes_on m₂ s₂ (record {
                  state = c.at_size;
                  ready = ready₂;
                  body =
                      c.longer_body
                      ∙ ap (λ x. sofar ++ x)
                          (ap (take size) same ∙ take-length_append data_bytes ending);
                  wire = ap (λ b. b ++ t.pending s₂) c.same_buffer ∙ wire₂;
                }))
              read (take pre y) m' s
              (laws.extend_filling _ (size + 2) [] (take pre y) (laws.new_filling (size + 2))
                have_le)
              have_le
              (record {
                state = refl;
                ready = ready;
                same_body = body;
                same_buffer = refl;
                enough = seed_enough (size + 2) y (t.pending s) (data_bytes ++ ending) rest long e';
                split = refl;
              }),
        )

  module _ (data_bytes rest sofar : Bytes) (ne : data_bytes ≢ [])
      (small : length data_bytes + 2 < usize_mod) {P : Outcome (HttpChunksReadResult io) → Type 0}
      (goes_on : (m : HttpChunksRead io) (s : t.Stream)
        → At io mem t laws chunk_size (sofar ++ data_bytes) rest m s
        → Goes io mem t laws P m none s) where
    -- From the size line of a chunk on.
    pub read_chunk_from :
        (line wire : Bytes)
        → SizeLine line (length data_bytes)
        → wire ≡ line ++ (crlf ++ (data_bytes ++ (crlf ++ rest)))
        → (m : HttpChunksRead io) (s : t.Stream) → At io mem t laws chunk_size sofar wire m s
        → Goes io mem t laws P m none s
    read_chunk_from line wire l e =
        fetch io mem t laws chunk_size crlf sofar wire line (data_bytes ++ (crlf ++ rest)) e
          (step-chunk_size_waits io mem first)
          (λ m s i at found.
            let (y, front, coming, len) =
              index_of-line line m.buffer (t.pending s) (data_bytes ++ (crlf ++ rest)) i
                (SizeLine-Lacks l) (at.wire ∙ e) found in
            let (m', starts, goes) =
              read_data data_bytes crlf rest sofar refl small goes_on m s y at.ready at.body
                coming in
            let pos = length-pos data_bytes ne in
            let nonzero : (length data_bytes == 0) ≡ false = ground arith in
            Drives-pass _ _ _
              (step-chunk_size_reads io mem first l (omega arith) m y none at.state front
                  (found ∙ ap some len)
                ∙ (rw nonzero starts))
              goes)

  decode_from :
      (sofar : Bytes) {wire body : Bytes}
      → Chunked wire body
      → (m : HttpChunksRead io) (s : t.Stream) → At io mem t laws chunk_size sofar wire m s
      → Goes io mem t laws (λ o. o ≡ finished (ok (sofar ++ body))) m none s
  decode_from sofar (last_chunk line fields behind l e b) =
      rw (b, append-nil) (read_last line fields behind sofar _ l e)
  decode_from sofar (chunk line data_bytes rest rest_body l ne small c e b) =
      rw (b, ← append_assoc)
        (read_chunk_from data_bytes rest sofar ne small (decode_from (sofar ++ data_bytes) c) line _
          l e)

  pub decode_goes :
      (read : io.SocketRead) (seed : Bytes) (s : t.Stream) {wire body : Bytes}
      → laws.Ready read
      → Chunked wire body
      → seed ++ t.pending s ≡ wire
      → Goes io mem t laws (λ o. o ≡ finished (ok body)) (extend io (new io read) seed) none s
  decode_goes read seed s ready c e =
      decode_from [] c (extend io (new io read) seed) s
        (unfold extend new in record { state = refl; ready = ready; body = refl; wire = e })

  -- A new decoder whose reader is ready and whose buffer was extended with the first bytes, on a
  -- stream that delivers the others in pieces of any size: if together they are a chunked body, then
  -- the caller's loop ends, within some fuel and on every larger one, and returns the body.
  pub decode_complete :
      (read : io.SocketRead) (seed : Bytes) (s : t.Stream) {wire body : Bytes}
      → laws.Ready read
      → Chunked wire body
      → seed ++ t.pending s ≡ wire
      → (fuel : ℕ) × ((calls rounds : ℕ)
          → fuel ≤ calls
          → fuel ≤ rounds
          → drive
              (step io mem)
              (input_of io)
              t.handle
              calls
              rounds
              (extend io (new io read) seed)
              none
              s
            ≡ finished (ok body))
  decode_complete read seed s ready c e =
      Drives-drive_one (step io mem) (input_of io) t.handle (decode_goes read seed s ready c e)
