-- ===== src/Tests/Bodies.antt =====
-- A chunked body that arrives byte by byte, and a size line that is too large.
use io_http.Prelude.{ℕ, ◌≤◌, [], ◌≡◌, refl, inl, inr, none, arith}
use mathlib.Core.List.{cons-ne-nil}
use io_http.Text.{codes}
use io_http.Text.Search.{index_of}
use io_http.Coroutine.{panicked}
use io_http.Coroutine.Drive.{drive, finished}
use io_http.Rfc9112.Chunk.{
  err, unexpected_eof, HttpChunksRead, ok, chunk_size, step, input_of, extend, new, resume,
}
use io_http.Rfc9112.Chunk.Grammar.{SizeLine, Chunked, last_chunk, chunk}
use io_http.Rfc9112.Chunk.Complete.{decode_complete}
use io_http.Rfc9112.Chunk.Truncated.{Truncated, in_trailer, behind_chunk, decode-Truncated}
use io_http.Rfc9112.Chunk.Overflow.{chunk_size_max_panics}
use io_http.Tests.Sample.{sample_io, sample_memchr, sample_first, sample_transport, arriving}
use io_http.Tests.Stream.{sample_laws}

line_0 : SizeLine (codes "0") 0
line_0 = record {
  digits = codes "0";
  ext = [];
  line_split = refl;
  has_digit = cons-ne-nil _ _;
  all_hex = (inl (omega arith, omega arith), tt);
  size_value = refl;
  ext_form = inl refl;
  ext_no_cr = tt;
}

line_3 : SizeLine (codes "3;x") 3
line_3 = record {
  digits = codes "3";
  ext = codes ";x";
  line_split = refl;
  has_digit = cons-ne-nil _ _;
  all_hex = (inl (omega arith, omega arith), tt);
  size_value = refl;
  ext_form = inr (codes "x", refl);
  ext_no_cr = omega arith;
}

wire_0 : Chunked (codes "0\r\n\r\n") []
wire_0 = last_chunk (codes "0") [] [] line_0 refl refl

wire_abc : Chunked (codes "3;x\r\nabc\r\n0\r\n\r\n") (codes "abc")
wire_abc =
    chunk (codes "3;x") (codes "abc") (codes "0\r\n\r\n") [] line_3 (cons-ne-nil _ _) (omega arith)
      wire_0 refl refl

decode_complete_example :
    (fuel : ℕ) × ((calls rounds : ℕ)
      → fuel ≤ calls
      → fuel ≤ rounds
      → drive
          (step sample_io sample_memchr)
          (input_of sample_io)
          sample_transport.handle
          calls
          rounds
          (extend sample_io (new sample_io tt) (codes "3;x"))
          none
          (arriving (codes "\r\nabc\r\n0\r\n\r\n"))
        ≡ finished (ok (codes "abc")))
decode_complete_example =
    decode_complete sample_io sample_memchr sample_transport sample_first sample_laws tt
      (codes "3;x") (arriving (codes "\r\nabc\r\n0\r\n\r\n")) sample_laws.default_ready wire_abc
      refl

line_max : SizeLine (codes "ffffffffffffffff") 18446744073709551615
line_max = record {
  digits = codes "ffffffffffffffff";
  ext = [];
  line_split = refl;
  has_digit = cons-ne-nil _ _;
  all_hex = omega arith;
  size_value = refl;
  ext_form = inl refl;
  ext_no_cr = tt;
}

abbrev decoder_max : HttpChunksRead sample_io
decoder_max = record {
  read = tt;
  state = chunk_size;
  buffer = codes "ffffffffffffffff\r\nx";
  body = [];
}

chunk_size_max_panics_example : resume sample_io sample_memchr 2 decoder_max none ≡ panicked
unfolding index_of
chunk_size_max_panics_example =
    chunk_size_max_panics sample_io sample_memchr sample_transport sample_first sample_laws
      decoder_max (codes "ffffffffffffffff") 18446744073709551615 b'x' [] 0 line_max refl refl refl
      refl

wire_cut : Truncated (codes "3;x\r\nabc\r\n0\r\nA: b\r\n")
unfolding index_of
wire_cut =
    behind_chunk (codes "3;x") (codes "abc") (codes "0\r\nA: b\r\n") line_3 (cons-ne-nil _ _)
      (omega arith) (in_trailer (codes "0") (codes "A: b\r\n") line_0 refl refl) refl

decode-Truncated_example :
    (fuel : ℕ) × ((calls rounds : ℕ)
      → fuel ≤ calls
      → fuel ≤ rounds
      → drive
          (step sample_io sample_memchr)
          (input_of sample_io)
          sample_transport.handle
          calls
          rounds
          (extend sample_io (new sample_io tt) (codes "3;x"))
          none
          (arriving (codes "\r\nabc\r\n0\r\nA: b\r\n"))
        ≡ finished (err unexpected_eof))
decode-Truncated_example =
    decode-Truncated sample_io sample_memchr sample_transport sample_first sample_laws tt
      (codes "3;x") (arriving (codes "\r\nabc\r\n0\r\nA: b\r\n")) sample_laws.default_ready wire_cut
      refl
