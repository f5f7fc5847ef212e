-- ===== src/Tests/Decoding.antt =====
-- The reference decoder on short wires, and the decoder beside it.
use io_http.Prelude.{ℕ, ◌≡◌, ◌≤◌, refl, ◌∙◌, subst, arith, none, length}
use io_http.Text.{Bytes, codes}
use io_http.Text.Radix.{from_str_radix}
use io_http.Text.Search.{index_of}
use io_http.Text.Utf8.{from_utf8_lossy}
use io_http.Coroutine.Drive.{Outcome, drive, finished}
use io_http.Rfc9112.Chunk.{HttpChunksReadResult, step, input_of, extend, new}
use io_http.Rfc9112.Chunk.Reference.{whole, cut_chunk, too_large, bad_size, decode}
use io_http.Rfc9112.Chunk.Reference.Equivalence.{drive-decode}
use io_http.Rfc9112.Chunk.Reference.Pieces.{Agrees}
use io_http.Rfc9112.Chunk.Reference.Bodies.{Accepted}
use io_http.Rfc9112.Chunk.Reference.Sound.{drive-Accepted}
use io_http.Tests.Sample.{sample_io, sample_memchr, sample_first, sample_transport, arriving}
use io_http.Tests.Stream.{sample_laws}

whole_body : decode (codes "3;x\r\nabc\r\n0\r\n\r\n") ≡ whole (codes "abc")
unfolding decode index_of from_str_radix from_utf8_lossy
whole_body = refl

-- A sign in front of the size, and any two bytes behind the data.
lenient_body : decode (codes "+3\r\nabc??0\r\n\r\n") ≡ whole (codes "abc")
unfolding decode index_of from_str_radix from_utf8_lossy
lenient_body = refl

cut_body : decode (codes "3\r\nab") ≡ cut_chunk
unfolding decode index_of from_str_radix from_utf8_lossy
cut_body = refl

no_size : decode (codes "xyz\r\n") ≡ bad_size (codes "xyz")
unfolding decode index_of from_str_radix from_utf8_lossy
no_size = refl

-- The largest size wraps round to a read of one byte, which is there or cut.
large_size : decode (codes "ffffffffffffffff\r\nx") ≡ too_large
unfolding decode index_of from_str_radix from_utf8_lossy
large_size = refl

large_size_cut : decode (codes "ffffffffffffffff\r\n") ≡ cut_chunk
unfolding decode index_of from_str_radix from_utf8_lossy
large_size_cut = refl

drive-decode_example :
    (o : Outcome (HttpChunksReadResult sample_io)) × Agrees sample_io (decode (codes "3\r\nab")) o
    × (fuel : ℕ) × ((calls rounds : ℕ)
        → fuel ≤ calls
        → fuel ≤ rounds
        → drive
            (step sample_io sample_memchr)
            (input_of sample_io)
            sample_transport.handle
            calls
            rounds
            (extend sample_io (new sample_io tt) (codes "3"))
            none
            (arriving (codes "\r\nab"))
          ≡ o)
drive-decode_example =
    drive-decode sample_io sample_memchr sample_transport sample_first sample_laws tt (codes "3")
      (arriving (codes "\r\nab")) sample_laws.default_ready

-- The run on the lenient body, on the fuel that the equivalence gives.
lenient_run :
    (fuel : ℕ) × (drive
        (step sample_io sample_memchr)
        (input_of sample_io)
        sample_transport.handle
        fuel
        fuel
        (extend sample_io (new sample_io tt) (codes "+3"))
        none
        (arriving (codes "\r\nabc??0\r\n\r\n"))
      ≡ finished (HttpChunksReadResult.ok (codes "abc")))
lenient_run =
    let (o, agrees, fuel, h) =
      drive-decode sample_io sample_memchr sample_transport sample_first sample_laws tt (codes "+3")
        (arriving (codes "\r\nabc??0\r\n\r\n")) sample_laws.default_ready in
    let decoded : Agrees sample_io (whole (codes "abc")) o =
      subst (λ d. Agrees sample_io d o) lenient_body agrees in
    (fuel, h fuel fuel (omega arith) (omega arith) ∙ decoded)

drive-Accepted_example :
    Accepted (codes "+3\r\nabc??0\r\n\r\n") (codes "abc")
    × ((other : Bytes) → Accepted (codes "+3\r\nabc??0\r\n\r\n") other → other ≡ codes "abc")
    × (length (codes "abc") ≤ length (codes "+3\r\nabc??0\r\n\r\n"))
drive-Accepted_example =
    drive-Accepted sample_io sample_memchr sample_transport sample_first sample_laws tt (codes "+3")
      (codes "abc") (arriving (codes "\r\nabc??0\r\n\r\n")) lenient_run.0 lenient_run.0
      sample_laws.default_ready lenient_run.1
