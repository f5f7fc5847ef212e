-- ===== src/Tests/Failing.antt =====
-- Exchanges whose stream breaks off, and a whole discovery.
use io_http.Prelude.{ℕ, ◌≤◌, [], ◌∷◌, ◌++◌, ◌≡◌, refl, none, some, arith}
use io_http.Text.{codes}
use io_http.Text.Radix.{from_str_radix}
use io_http.Text.Trim.{trim}
use io_http.Text.Ascii.{eq_ignore_ascii_case, to_lowercase}
use io_http.Text.Utf8.{from_utf8_lossy}
use io_http.Coroutine.Drive.{finished, drive}
use io_http.Coroutine.Converse.{converse}
use io_http.Coroutine.Converse.Wrapped.{viewed}
use io_http.Rfc9110.Headers.{Headers}
use io_http.Rfc9110.Response.{push_header, push_headers, get_header}
use io_http.Rfc9112.Send.Types.{Http11SendResult, unexpected_eof, err}
use io_http.Rfc9112.Send.Head.{is_http10, no_content, response_of, framing}
use io_http.Rfc9112.Send.Step.{new, step, input_of}
use io_http.Rfc9112.Send.Step.Broken.{Broken, Fails, short}
use io_http.Rfc9112.Send.Step.Cut.{exchange_cut}
use io_http.Rfc9112.Send.Step.Failed.{exchange_errors}
use io_http.Rfc9112.Send.Step.Written.{send_drive}
use io_http.Rfc8615.WellKnown
use io_http.Rfc8615.WellKnown.Whole.{converse-discovered}
use io_http.Tests.Sample.{
  parser_of, sample_io, sample_url, sample_parser, sample_memchr, sample_first, sample_transport,
  arriving,
}
use io_http.Tests.Stream.{sample_laws}
use io_http.Tests.Runtime.{sample_runtime}
use io_http.Tests.Whole.{request, head, is_head}

exchange_cut_example :
    (enough : ℕ) × ((fuel calls rounds : ℕ)
      → enough ≤ fuel
      → enough ≤ calls
      → enough ≤ rounds
      → send_drive sample_io sample_url sample_parser sample_memchr sample_transport sample_runtime
          fuel calls rounds
          (new sample_io sample_url sample_parser request)
          none
          (arriving (codes "HTTP/1.1 2"))
        ≡ finished (err unexpected_eof))
exchange_cut_example =
    exchange_cut sample_io sample_url sample_parser sample_memchr sample_transport sample_laws
      sample_runtime request head (codes "00 OK\r\n\r\n") (some 1) (some 200) [] (is_head [])
      (λ none_left. cc) (arriving (codes "HTTP/1.1 2")) refl

abbrev five : Headers
five = (codes "content-length", codes "5") ∷ []

three_of_five :
    Broken
      (framing (is_http10 (some 1)) (no_content (some 200)) (response_of (some 1) (some 200) five))
      (codes "abc")
unfolding framing response_of is_http10 no_content get_header push_headers from_str_radix trim
    push_header eq_ignore_ascii_case to_lowercase from_utf8_lossy
three_of_five = short (omega arith)

exchange_errors_example :
    (r : Http11SendResult sample_io sample_url (parser_of five)) × Fails sample_io sample_url
      (parser_of five)
      (framing (is_http10 (some 1)) (no_content (some 200)) (response_of (some 1) (some 200) five))
      r
    × (enough : ℕ) × ((fuel calls rounds : ℕ)
        → enough ≤ fuel
        → enough ≤ calls
        → enough ≤ rounds
        → send_drive sample_io sample_url
            (parser_of five)
            sample_memchr
            sample_transport
            sample_runtime
            fuel
            calls
            rounds
            (new sample_io sample_url (parser_of five) request)
            none
            (arriving (head ++ codes "abc"))
          ≡ finished r)
exchange_errors_example =
    exchange_errors sample_io sample_url (parser_of five) sample_memchr sample_transport
      sample_first sample_laws sample_runtime request head (codes "abc") (some 1) (some 200) five
      (arriving (head ++ codes "abc")) (is_head five) three_of_five refl

converse-discovered_example :
    converse
      (WellKnown.resume sample_io sample_url sample_parser sample_memchr 9)
      (WellKnown.input_of sample_io sample_url sample_parser)
      sample_transport.handle
      40
      (WellKnown.new sample_io sample_url sample_parser request)
      none
      (arriving head)
    ≡ viewed (WellKnown.discovered sample_io sample_url sample_parser) (
        drive
          (step sample_io sample_url sample_parser sample_memchr 9)
          (input_of sample_io sample_url sample_parser)
          sample_transport.handle
          9
          40
          (new sample_io sample_url sample_parser request)
          none
          (arriving head))
converse-discovered_example =
    converse-discovered sample_io sample_url sample_parser sample_memchr sample_transport.handle
      request 9 40 (arriving head)
