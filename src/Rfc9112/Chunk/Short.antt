-- ===== src/Rfc9112/Chunk/Short.antt =====
-- The decoder on a stream that ends inside a chunk.
use io_http.Prelude.{
  List-cases, ℕ, zero, suc, ◌+◌, ◌≤◌, ◌<◌, ◌++◌, ◌≡◌, ap, refl, inl, inr, none, some, length, arith,
  length-append, length-pos,
}
use io_http.Text.{Bytes}
use io_http.External.Memchr.{Memchr}
use io_http.External.Socket.{IoSocket}
use io_http.External.Socket.Transport.{Transport, SocketLaws}
use io_http.Coroutine.Drive.{Outcome, finished, ask, done, stop}
use io_http.Rfc9112.Chunk.{chunk_data, HttpChunksRead, HttpChunksReadResult, err, socket_read_exact}
use io_http.Rfc9112.Chunk.Fetch.{Goes}
use io_http.Rfc9112.Chunk.Lines.{step-chunk_data_fails}
use io_http.Rfc9112.Chunk.Passes.{step-chunk_data_asks}

-- The error of an exact read.
abbrev pub ExactError : (io : IoSocket) → Outcome (HttpChunksReadResult io) → Type 0
ExactError io o = (e : io.SocketReadExactError) × (o ≡ finished (err (socket_read_exact e)))

module _ (io : IoSocket) (mem : Memchr) (t : Transport io) (laws : SocketLaws io t) where
  module _ (size target : ℕ) where
    run_short :
        (n : ℕ) (read : io.SocketReadExact) (input : io.SocketInput) (have : Bytes)
        (m : HttpChunksRead io) (s : t.Stream)
        → length (t.pending s) ≤ n
        → laws.Waiting read input target have
        → length have + length (t.pending s) < target
        → m.state ≡ chunk_data read size
        → Goes io mem t laws (ExactError io) m (some (t.handle s input).1) (t.handle s input).0
    run_short zero read input have m s le waiting short st =
        elim (List-cases (t.pending s))
          as (λ _.
            Goes io mem t laws (ExactError io) m (some (t.handle s input).1) (t.handle s input).0) [
              | inl ended ↦
                  let (r', e, fails) =
                    laws.exact_ends read input target have s waiting (omega arith) ended in
                  done (stop (step-chunk_data_fails io mem m _ read r' size e st fails)) refl
                    (e, refl)
              | inr more ↦ let pos = length-pos (t.pending s) more in absurd (omega arith)
            ]
    run_short (suc n) read input have m s le waiting short st =
        elim (List-cases (t.pending s))
          as (λ _.
            Goes io mem t laws (ExactError io) m (some (t.handle s input).1) (t.handle s input).0) [
              | inl ended ↦
                  let (r', e, fails) =
                    laws.exact_ends read input target have s waiting (omega arith) ended in
                  done (stop (step-chunk_data_fails io mem m _ read r' size e st fails)) refl
                    (e, refl)
              | inr more ↦
                  let got = laws.exact_gets read input target have s waiting more in
                  let s' = (t.handle s input).0 in
                  let sum = length-append got.bytes (t.pending s') in
                  let longer = length-append have got.bytes in
                  let same = ap length got.split in
                  let pos = length-pos got.bytes got.some_bytes in
                  let (i, asks, waiting') = got.more (omega arith) in
                  let m' : HttpChunksRead io = record m { state = chunk_data got.next size } in
                  ask (stop (step-chunk_data_asks io mem m _ read got.next size i st asks)) refl (
                    run_short n got.next i (have ++ got.bytes) m' s' (omega arith) waiting'
                      (omega arith) refl)
            ]

    -- An exact read with less to come than it needs.
    pub start_short :
        (read : io.SocketReadExact) (have : Bytes) (m : HttpChunksRead io) (s : t.Stream)
        → laws.Filling read target have
        → length have + length (t.pending s) < target
        → m.state ≡ chunk_data read size
        → Goes io mem t laws (ExactError io) m none s
    start_short read have m s filling short st =
        let (next, input, asks, waiting) = laws.exact_asks read target have filling (omega arith) in
        let m' : HttpChunksRead io = record m { state = chunk_data next size } in
        ask (stop (step-chunk_data_asks io mem m none read next size input st asks)) refl
          (run_short (length (t.pending s)) next input have m' s (omega arith) waiting short refl)
