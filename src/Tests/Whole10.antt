-- ===== src/Tests/Whole10.antt =====
-- Whole HTTP/1.0 exchanges over the stream that delivers one byte at a time.
use io_http.Prelude.{ℕ, ◌+◌, ◌≤◌, [], ◌∷◌, ◌++◌, ◌≡◌, refl, false, none, some, arith}
use io_http.Text.{Bytes, codes}
use io_http.Text.Ascii.{eq_ignore_ascii_case, to_lowercase}
use io_http.Text.Radix.{from_str_radix}
use io_http.Text.Trim.{trim}
use io_http.Text.Utf8.{from_utf8_lossy}
use io_http.Coroutine.{again}
use io_http.Coroutine.Drive.{finished}
use io_http.Rfc9110.Headers.{Headers}
use io_http.Rfc9110.Response.{push_header, push_headers, get_header}
use io_http.Rfc1945.Send.Types.{unexpected_eof, socket_read_exact, err, sending, receive_headers}
use io_http.Rfc1945.Send.Head.{lengthed, no_content, response_of, persists, framing}
use io_http.Rfc1945.Send.Step.{new, step}
use io_http.Rfc1945.Send.Step.Payloads.{Payload, to_eof, received}
use io_http.Rfc1945.Send.Step.Written.{drive_http10, request_bytes, http10_written}
use io_http.Rfc1945.Send.Step.Received.{http10_complete, http10_short}
use io_http.Rfc1945.Send.Step.Cut.{http10_cut}
use io_http.Tests.Sample.{
  parser_of, sample_io, sample_url, sample_parser, sample_transport, arriving,
}
use io_http.Tests.Stream.{sample_laws}
use io_http.Tests.Runtime.{sample_runtime}
use io_http.Tests.Whole.{request, head, is_head}

http10_written_example :
    (rounds_before : ℕ) × (w : Bytes) × (answer : sample_io.SocketOutput)
    × (s' : sample_transport.Stream) × (sample_transport.sent s'
        ≡ [] ++ request_bytes sample_io sample_url sample_parser sample_transport request)
    × (sample_transport.pending s' ≡ codes "hi")
    × (step sample_io sample_url sample_parser
          (record (new sample_io sample_url sample_parser request) { state = sending w })
          (some answer)
        ≡ again
            (record (new sample_io sample_url sample_parser request) {
              state = receive_headers tt [];
            })
            none)
    × ((calls rounds : ℕ)
        → 2 ≤ calls
        → drive_http10 sample_io sample_url sample_parser sample_transport calls
            (rounds_before + rounds)
            (new sample_io sample_url sample_parser request)
            none
            (arriving (codes "hi"))
          ≡ drive_http10 sample_io sample_url sample_parser sample_transport calls rounds
              (record (new sample_io sample_url sample_parser request) { state = sending w })
              (some answer)
              s')
http10_written_example =
    http10_written sample_io sample_url sample_parser sample_transport sample_runtime request
      (arriving (codes "hi"))

carries :
    Payload (framing (no_content (some 200)) (response_of (some 200) [])) (codes "hi") (codes "hi")
unfolding framing response_of no_content get_header push_headers
carries = to_eof (codes "hi")

http10_complete_example :
    (enough : ℕ) × ((calls rounds : ℕ)
      → enough ≤ calls
      → enough ≤ rounds
      → drive_http10 sample_io sample_url sample_parser sample_transport calls rounds
          (new sample_io sample_url sample_parser request)
          none
          (arriving (head ++ codes "hi"))
        ≡ finished (
            received sample_io sample_url sample_parser
              (framing (no_content (some 200)) (response_of (some 200) []))
              request
              (response_of (some 200) [])
              (codes "hi")
              (persists false (response_of (some 200) []))))
http10_complete_example =
    http10_complete sample_io sample_url sample_parser sample_transport sample_laws sample_runtime
      request head (codes "hi") (some 1) (some 200) [] (is_head []) (arriving (head ++ codes "hi"))
      refl (codes "hi") carries

abbrev five : Headers
five = (codes "content-length", codes "5") ∷ []

five_announced : framing (no_content (some 200)) (response_of (some 200) five) ≡ lengthed 5
unfolding framing response_of no_content get_header push_headers from_str_radix trim push_header
    eq_ignore_ascii_case to_lowercase from_utf8_lossy
five_announced = refl

http10_short_example :
    (e : Unit {0}) × (enough : ℕ) × ((calls rounds : ℕ)
      → enough ≤ calls
      → enough ≤ rounds
      → drive_http10 sample_io sample_url
          (parser_of five)
          sample_transport
          calls
          rounds
          (new sample_io sample_url (parser_of five) request)
          none
          (arriving (head ++ codes "abc"))
        ≡ finished (err (socket_read_exact e)))
http10_short_example =
    http10_short sample_io sample_url (parser_of five) sample_transport sample_laws sample_runtime
      request head (codes "abc") (some 1) (some 200) five (is_head five)
      (arriving (head ++ codes "abc")) refl 5 five_announced (omega arith)

http10_cut_example :
    (enough : ℕ) × ((calls rounds : ℕ)
      → enough ≤ calls
      → enough ≤ rounds
      → drive_http10 sample_io sample_url sample_parser sample_transport calls rounds
          (new sample_io sample_url sample_parser request)
          none
          (arriving (codes "HTTP/1.1 2"))
        ≡ finished (err unexpected_eof))
http10_cut_example =
    http10_cut sample_io sample_url sample_parser sample_transport sample_laws sample_runtime
      request head (codes "00 OK\r\n\r\n") (some 1) (some 200) [] (is_head []) (λ none_left. cc)
      (arriving (codes "HTTP/1.1 2")) refl
