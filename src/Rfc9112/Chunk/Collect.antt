-- ===== src/Rfc9112/Chunk/Collect.antt =====
-- The loop that reads a chunk to its full length, driven by the caller.
use io_http.Prelude.{
  ℕ, zero, suc, ◌≤◌, ◌<◌, [], ◌++◌, ◌≡◌, ◌≢◌, refl, sym, ◌∙◌, ap, inl, inr, Option, none, some,
  length, take, arith, append_assoc, length-append, length-pos, ltb, Bool-cases, ltb→lt,
  ltb_false→le,
}
use io_http.Text.{Bytes, slice_to}
use io_http.External.Memchr.{Memchr}
use io_http.External.Socket.{IoSocket, SocketReadExactResult}
use io_http.External.Socket.Transport.{Transport, SocketLaws}
use io_http.Coroutine.Drive.{Outcome, ask, stop, Drives-pass}
use io_http.Rfc9112.Chunk.{chunk_size, chunk_data, HttpChunksRead, HttpChunksReadResult}
use io_http.Rfc9112.Chunk.Passes.{step-chunk_data_full, step-chunk_data_asks}
use io_http.Rfc9112.Chunk.Fetch.{Goes, shorter}

module _ (io : IoSocket) (mem : Memchr) (t : Transport io) (laws : SocketLaws io t) where
  -- What the decoder holds when a chunk has been read: `data` in front of what was to come.
  pub record Collected (body buffer : Bytes) (size target : ℕ) (coming : Bytes)
      (m : HttpChunksRead io) (s : t.Stream) : Type 0 where
    pub data_bytes : Bytes
    pub data_length : length data_bytes ≡ target
    pub data_split : coming ≡ data_bytes ++ t.pending s
    pub at_size : m.state ≡ chunk_size
    pub same_buffer : m.buffer ≡ buffer
    pub longer_body : m.body ≡ body ++ take size data_bytes

  module _ (body buffer : Bytes) (size target : ℕ) (fits : size ≤ target) (coming : Bytes)
      {P : Outcome (HttpChunksReadResult io) → Type 0}
      (collected : (m : HttpChunksRead io) (s : t.Stream)
        → laws.Ready m.read
        → Collected body buffer size target coming m s
        → Goes io mem t laws P m none s) where
    -- The decoder is in the middle of a chunk, of which it has `have`.
    pub record Inside (read : io.SocketReadExact) (have : Bytes) (m : HttpChunksRead io)
        (s : t.Stream) : Type 0 where
      pub state : m.state ≡ chunk_data read size
      pub ready : laws.Ready m.read
      pub same_body : m.body ≡ body
      pub same_buffer : m.buffer ≡ buffer
      pub enough : target ≤ length coming
      pub split : coming ≡ have ++ t.pending s

    slice_to-le : (s : Bytes) → size ≤ length s → slice_to size s ≡ some (take size s)
    unfolding slice_to
    slice_to-le s h = ground arith

    still-Inside :
        (read : io.SocketReadExact) (have : Bytes) (m : HttpChunksRead io) (s : t.Stream)
        → Inside read have m s
        → length have < target
        → t.pending s ≢ []
    still-Inside read have m s at short ended =
        let sum = length-append have (t.pending s) in
        let none_left = ap length ended in
        let same = ap length at.split in let long = at.enough in absurd (omega arith)

    -- The exact read is done.
    close :
        (read next : io.SocketReadExact) (whole : Bytes) (arg : Option io.SocketOutput)
        (have : Bytes) (m : HttpChunksRead io) (before s : t.Stream)
        → Inside read have m before
        → io.exact_resume read arg ≡ (next, SocketReadExactResult.ok whole)
        → length whole ≡ target
        → coming ≡ whole ++ t.pending s
        → Goes io mem t laws P m arg s
    close read next whole arg have m before s at full long split =
        Drives-pass _ _ _
          (step-chunk_data_full io mem m arg read next size whole (take size whole) at.state full
            (slice_to-le whole (omega arith)))
          (collected (record m { body = m.body ++ take size whole; state = chunk_size }) s at.ready
            (record {
              data_bytes = whole;
              data_length = long;
              data_split = split;
              at_size = refl;
              same_buffer = at.same_buffer;
              longer_body = ap (λ x. x ++ take size whole) at.same_body;
            }))

    collect_within :
        (n : ℕ) (read : io.SocketReadExact) (input : io.SocketInput) (have : Bytes)
        (m : HttpChunksRead io) (s : t.Stream)
        → length (t.pending s) ≤ n
        → laws.Waiting read input target have
        → length have < target
        → Inside read have m s
        → Goes io mem t laws P m (some (t.handle s input).1) (t.handle s input).0
    collect_within zero read input have m s le waiting short at =
        let pos = length-pos (t.pending s) (still-Inside read have m s at short) in
        absurd (omega arith)
    collect_within (suc n) read input have m s le waiting short at =
        let got =
          laws.exact_gets read input target have s waiting (still-Inside read have m s at short) in
        let s' = (t.handle s input).0 in
        let split : coming ≡ (have ++ got.bytes) ++ t.pending s' =
          at.split ∙ ap (λ x. have ++ x) got.split ∙ sym (append_assoc have got.bytes _) in
        elim (Bool-cases (ltb (length (have ++ got.bytes)) target)) [
          | inl e ↦
              let lt = ltb→lt (length (have ++ got.bytes)) target e in
              let (i, asks, waiting') = got.more lt in
              let m' : HttpChunksRead io = record m { state = chunk_data got.next size } in
              let at' : Inside got.next (have ++ got.bytes) m' s' = record {
                state = refl;
                ready = at.ready;
                same_body = at.same_body;
                same_buffer = at.same_buffer;
                enough = at.enough;
                split = split;
              } in
              ask (stop (step-chunk_data_asks io mem m _ read got.next size i at.state asks)) refl (
                collect_within n got.next i (have ++ got.bytes) m' s'
                  (shorter io mem t laws n got.bytes _ _ got.some_bytes got.split le) waiting' lt
                  at')
          | inr e ↦
              let ge = ltb_false→le (length (have ++ got.bytes)) target e in
              let le_target = got.fits in
              let long : length (have ++ got.bytes) ≡ target = omega arith in
              close read got.next (have ++ got.bytes) _ have m s s' at (got.full long) long split
        ]

    -- If the whole chunk is still to come, the loop comes to the state behind it.
    pub collect :
        (read : io.SocketReadExact) (have : Bytes) (m : HttpChunksRead io) (s : t.Stream)
        → laws.Filling read target have
        → length have ≤ target
        → Inside read have m s
        → Goes io mem t laws P m none s
    collect read have m s filling le at = elim (Bool-cases (ltb (length have) target)) [
      | inl e ↦
          let short = ltb→lt (length have) target e in
          let (next, input, asks, waiting) = laws.exact_asks read target have filling short in
          let m' : HttpChunksRead io = record m { state = chunk_data next size } in
          let at' : Inside next have m' s = record {
            state = refl;
            ready = at.ready;
            same_body = at.same_body;
            same_buffer = at.same_buffer;
            enough = at.enough;
            split = at.split;
          } in
          ask (stop (step-chunk_data_asks io mem m none read next size input at.state asks)) refl (
            collect_within (length (t.pending s)) next input have m' s (omega arith) waiting short
              at')
      | inr e ↦
          let ge = ltb_false→le (length have) target e in
          let long : length have ≡ target = omega arith in
          let (next, full) = laws.exact_full read target have filling long in
          close read next have none have m s s at full long at.split
    ]
