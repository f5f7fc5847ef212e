-- ===== src/Rfc9112/Chunk/Reference/Large.antt =====
-- The decoder in front of a chunk whose size does not fit a `usize` with its CRLF.
use io_http.Prelude.{
  ℕ, ◌+◌, ◌%◌, ◌≤◌, ◌<◌, [], ◌++◌, ◌≡◌, refl, ap, inl, inr, Option, none, min, length, take, drop,
  arith, length-append, length-take, length-pos, List-cases, Bool-cases, ltb, ltb→lt, ltb_false→le,
}
use io_http.Text.{Bytes}
use io_http.Text.Radix.{usize_mod}
use io_http.External.Memchr.{Memchr}
use io_http.External.Socket.{IoSocket}
use io_http.External.Socket.Transport.{Transport, SocketLaws}
use io_http.Coroutine.{again}
use io_http.Coroutine.Drive.{crashed, ask, crash, halt, stop}
use io_http.Rfc9112.Chunk.{chunk_data, HttpChunksRead, start_chunk}
use io_http.Rfc9112.Chunk.Fetch.{Goes}
use io_http.Rfc9112.Chunk.Overflow.{step-chunk_data_short}
use io_http.Rfc9112.Chunk.Passes.{step-chunk_data_asks}
use io_http.Rfc9112.Chunk.Short.{ExactError, start_short}

module _ (io : IoSocket) (mem : Memchr) (t : Transport io) (laws : SocketLaws io t) where
  -- A read of no byte or one, which is there, panics where the size of the chunk is larger.
  read_byte :
      (size target : ℕ) (read : io.SocketReadExact) (have : Bytes) (m : HttpChunksRead io)
      (s : t.Stream)
      → target ≤ 1
      → target < size
      → laws.Filling read target have
      → length have ≤ target
      → target ≤ length have + length (t.pending s)
      → m.state ≡ chunk_data read size
      → Goes io mem t laws (λ o. o ≡ crashed) m none s
  read_byte size target read have m s one larger filling le enough st =
      elim (Bool-cases (ltb (length have) target)) [
        | inr e ↦
            let ge = ltb_false→le (length have) target e in
            let (next, full) = laws.exact_full read target have filling (omega arith) in
            crash
              (halt (step-chunk_data_short io mem m none read next size have st full (omega arith)))
              refl
        | inl e ↦
            let lt = ltb→lt (length have) target e in
            let (next, input, asks, waiting) = laws.exact_asks read target have filling lt in
            let m' : HttpChunksRead io = record m { state = chunk_data next size } in
            ask (stop (step-chunk_data_asks io mem m none read next size input st asks)) refl
              (elim (List-cases (t.pending s)) [
                | inl ended ↦ let none_left = ap length ended in absurd (omega arith)
                | inr more ↦
                    let got = laws.exact_gets next input target have s waiting more in
                    let pos = length-pos got.bytes got.some_bytes in
                    let sum = length-append have got.bytes in
                    let fits = got.fits in
                    crash
                      (halt (
                        step-chunk_data_short io mem m' _ next got.next size (have ++ got.bytes)
                          refl (got.full (omega arith)) (omega arith)))
                      refl
              ])
      ]

  start_chunk-wraps :
      (m : HttpChunksRead io) (y : Bytes) (size target : ℕ) (arg : Option io.SocketOutput)
      → (size + 2) % usize_mod ≡ target
      → start_chunk io m y size arg
        ≡ again
            (record m {
              buffer = drop (min (length y) target) y;
              state =
                  chunk_data
                    (io.exact_extend (io.exact_new target) (take (min (length y) target) y))
                    size;
            })
            arg
  unfolding start_chunk
  start_chunk-wraps m y size target arg e = rw e

  module _ (size : ℕ) (behind : Bytes) (m : HttpChunksRead io) (s : t.Stream) (y : Bytes)
      (below : size < usize_mod) (large : usize_mod ≤ size + 2) where
    -- With the bytes of the wrapped read on the wire, `resume` panics.
    pub read_large :
        size + 2 ≤ usize_mod + length behind
        → y ++ t.pending s ≡ behind
        → (m' : HttpChunksRead io) × (start_chunk io m y size none ≡ again m' none)
          × Goes io mem t laws (λ o. o ≡ crashed) m' none s
    read_large there e =
        let target = (size + 2) % usize_mod in
        let pre = min (length y) target in
        let parts = length-append y (t.pending s) in
        let same = ap length e in
        let have = length-take pre y in
        let read = io.exact_extend (io.exact_new target) (take pre y) in
        (
          record m { buffer = drop pre y; state = chunk_data read size },
          start_chunk-wraps m y size target none refl,
          read_byte size target read (take pre y) _ s (omega arith) (omega arith)
              (laws.extend_filling _ target [] (take pre y) (laws.new_filling target) (omega arith))
              (omega arith) (omega arith) refl,
        )

    -- Without them, the exact read fails.
    pub read_large_cut :
        usize_mod + length behind < size + 2
        → y ++ t.pending s ≡ behind
        → (m' : HttpChunksRead io) × (start_chunk io m y size none ≡ again m' none)
          × Goes io mem t laws (ExactError io) m' none s
    read_large_cut short e =
        let target = (size + 2) % usize_mod in
        let pre = min (length y) target in
        let parts = length-append y (t.pending s) in
        let same = ap length e in
        let have = length-take pre y in
        let read = io.exact_extend (io.exact_new target) (take pre y) in
        (
          record m { buffer = drop pre y; state = chunk_data read size },
          start_chunk-wraps m y size target none refl,
          start_short io mem t laws size target read (take pre y) _ s
              (laws.extend_filling _ target [] (take pre y) (laws.new_filling target) (omega arith))
              (omega arith) refl,
        )
