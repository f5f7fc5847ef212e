-- ===== src/Tests/Whole.antt =====
-- A whole exchange over the stream that delivers one byte at a time.
use io_http.Prelude.{
  ℕ, ◌+◌, ◌≤◌, [], ◌++◌, ◌≡◌, ◌≢◌, refl, sym, ◌∙◌, ap, not, none, some, inl, inr, Option-cases,
  arith, length, length-append, length-pos,
}
use io_http.Text.{Bytes, codes}
use io_http.Text.Search.{index_of, crlf_crlf}
use io_http.Text.Search.Found.{index_of-split, index_of-extend}
use io_http.External.Httparse.{IsHead, partial}
use io_http.Coroutine.{again}
use io_http.Coroutine.Drive.{finished}
use io_http.Rfc9110.Request.{HttpRequest}
use io_http.Rfc9112.Send.Types.{sending, receive_headers}
use io_http.Rfc9110.Response.{push_headers, get_header}
use io_http.Rfc9112.Send.Head.{is_http10, no_content, response_of, framing, closes}
use io_http.Rfc9112.Send.Step.{new, step}
use io_http.Rfc9112.Send.Step.Payloads.{Payload, to_eof, received}
use io_http.Rfc9112.Send.Step.Written.{send_drive, request_bytes, request_written}
use io_http.Rfc9112.Send.Step.Received.{exchange_complete}
use io_http.Rfc9110.Headers.{Headers}
use io_http.Tests.Sample.{
  parser_of, sample_io, sample_url, sample_parser, sample_memchr, sample_first, sample_transport,
  arriving,
}
use io_http.Tests.Stream.{sample_laws}
use io_http.Tests.Runtime.{sample_runtime}

abbrev pub request : HttpRequest Bytes
request = record { method = codes "GET"; url = codes "a"; headers = []; body = [] }

abbrev pub head : Bytes
head = codes "HTTP/1.1 200 OK\r\n\r\n"

head_at : index_of crlf_crlf head ≡ some 15
unfolding index_of
head_at = refl

asks_more :
    (lines : Headers) (s rest : Bytes)
    → s ++ rest ≡ head
    → rest ≢ []
    → (parser_of lines).parse 64 s ≡ partial
asks_more lines s rest e ne = elim (Option-cases (index_of crlf_crlf s)) [
  | inl none_yet ↦ rw none_yet
  | inr (i, found) ↦
      let (split, fits) = index_of-split crlf_crlf s i found in
      let at : some i ≡ some 15 =
        sym (index_of-extend crlf_crlf s rest i found) ∙ ap (index_of crlf_crlf) e ∙ head_at in
      let i_15 : i ≡ 15 = cc in
      let pos = length-pos rest ne in
      let sum = length-append s rest in
      let same : length (s ++ rest) ≡ 19 = ap length e in absurd (omega arith)
]

pub is_head : (lines : Headers) → IsHead (parser_of lines) head (some 1) (some 200) lines
is_head lines = record {
  some_bytes = λ none_left. cc;
  asks_more = asks_more lines;
  finds_end = λ rest. rw (index_of-extend crlf_crlf head rest 15 head_at);
}

request_written_example :
    (rounds_before : ℕ) × (w : Bytes) × (answer : sample_io.SocketOutput)
    × (s' : sample_transport.Stream) × (sample_transport.sent s'
        ≡ []
          ++ request_bytes sample_io sample_url sample_parser sample_memchr sample_transport
              sample_runtime request)
    × (sample_transport.pending s' ≡ codes "hi")
    × ((fuel : ℕ)
        → step sample_io sample_url sample_parser sample_memchr fuel
            (record (new sample_io sample_url sample_parser request) { state = sending w })
            (some answer)
          ≡ again
              (record (new sample_io sample_url sample_parser request) {
                state = receive_headers tt [];
              })
              none)
    × ((fuel calls rounds : ℕ)
        → 2 ≤ calls
        → send_drive sample_io sample_url sample_parser sample_memchr sample_transport
            sample_runtime fuel calls
            (rounds_before + rounds)
            (new sample_io sample_url sample_parser request)
            none
            (arriving (codes "hi"))
          ≡ send_drive sample_io sample_url sample_parser sample_memchr sample_transport
              sample_runtime fuel calls rounds
              (record (new sample_io sample_url sample_parser request) { state = sending w })
              (some answer)
              s')
request_written_example =
    request_written sample_io sample_url sample_parser sample_memchr sample_transport sample_runtime
      request (arriving (codes "hi"))

carries :
    Payload
      (framing (is_http10 (some 1)) (no_content (some 200)) (response_of (some 1) (some 200) []))
      (codes "hi")
      (codes "hi")
unfolding framing response_of is_http10 no_content get_header push_headers
carries = to_eof (codes "hi")

exchange_complete_example :
    (enough : ℕ) × ((fuel calls rounds : ℕ)
      → enough ≤ fuel
      → enough ≤ calls
      → enough ≤ rounds
      → send_drive sample_io sample_url sample_parser sample_memchr sample_transport sample_runtime
          fuel calls rounds
          (new sample_io sample_url sample_parser request)
          none
          (arriving (head ++ codes "hi"))
        ≡ finished (
            received sample_io sample_url sample_parser
              (framing
                (is_http10 (some 1))
                (no_content (some 200))
                (response_of (some 1) (some 200) []))
              request
              (response_of (some 1) (some 200) [])
              (codes "hi")
              (not (closes (is_http10 (some 1)) (response_of (some 1) (some 200) [])))))
exchange_complete_example =
    exchange_complete sample_io sample_url sample_parser sample_memchr sample_transport sample_first
      sample_laws sample_runtime request head (codes "hi") (codes "hi") (some 1) (some 200) []
      (is_head []) carries (arriving (head ++ codes "hi")) refl
