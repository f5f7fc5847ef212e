-- ===== src/Tests/Clients11.antt =====
-- The HTTP/1.1 example program over the stream that delivers one byte at a time.
use io_http.Prelude.{arith, ◌+◌, ℕ, suc, ◌≤◌, [], ◌++◌, ◌≡◌, ◌≢◌, refl, ◌⊎◌, inr, some}
use io_http.Text.{Bytes, codes}
use io_http.Text.Ascii.{eq_ignore_ascii_case, to_lowercase}
use io_http.Text.Utf8.{from_utf8_lossy}
use io_http.Coroutine.Drive.{finished}
use io_http.Rfc9110.Response.{push_header, header, get_header, push_headers, status_or_200, build}
use io_http.Rfc9110.Redirect.Laws.{RedirectsTo}
use io_http.Rfc9112.Send.Head
use io_http.Rfc9112.Send.Step.Payloads
use io_http.Examples.Redirects.{outer}
use io_http.Examples.Redirects.Printed.{page_text}
use io_http.Examples.TokioHttp11.{http11_request, http11_visit, http11_main}
use io_http.Examples.TokioHttp11.Prints as Prints11
use io_http.Examples.TokioHttp11.Run.{http11_round}
use io_http.Tests.Sample.{
  sample_io, sample_url, sample_parser, sample_memchr, sample_first, sample_transport, arriving,
}
use io_http.Tests.Stream.{sample_laws}
use io_http.Tests.Runtime.{sample_runtime}
use io_http.Tests.Whole.{head, is_head}
use io_http.Tests.Clients.{connect}
use io_http.Tests.Moved.{
  moved_head, to_b, moving_parser, is_moved, is_found, moving_connect, one_host, asking,
}

abbrev how11 : Head.Framing
how11 =
    Head.framing (Head.is_http10 (some 1)) (Head.no_content (some 200))
      (Head.response_of (some 1) (some 200) [])

carries11 : Payloads.Payload how11 (codes "hi") (codes "hi")
unfolding Head.framing Head.response_of Head.is_http10 Head.no_content get_header push_headers
carries11 = Payloads.to_eof (codes "hi")

http11_round_example :
    (enough : ℕ) × ((fuel calls rounds hops : ℕ)
      → enough ≤ fuel
      → enough ≤ calls
      → enough ≤ rounds
      → ((how11 ≡ Head.no_body)
            ⊎ ((v : Bytes)
                → ¬ RedirectsTo sample_url
                    (http11_request sample_io sample_url sample_parser sample_memchr
                      sample_transport connect
                      (codes "a")
                      (codes "a"))
                    (build (Head.response_of (some 1) (some 200) []) (codes "hi"))
                    v)
          → outer
              (http11_visit sample_io sample_url sample_parser sample_memchr sample_transport
                connect fuel calls rounds)
              (suc hops)
              (4, codes "a")
            ≡ finished (build (Head.response_of (some 1) (some 200) []) (codes "hi")))
        × ((v : Bytes)
            → how11 ≢ Head.no_body
            → RedirectsTo sample_url
                (http11_request sample_io sample_url sample_parser sample_memchr sample_transport
                  connect
                  (codes "a")
                  (codes "a"))
                (build (Head.response_of (some 1) (some 200) []) (codes "hi"))
                v
            → outer
                (http11_visit sample_io sample_url sample_parser sample_memchr sample_transport
                  connect fuel calls rounds)
                (suc hops)
                (4, codes "a")
              ≡ outer
                  (http11_visit sample_io sample_url sample_parser sample_memchr sample_transport
                    connect fuel calls rounds)
                  hops
                  (5, v)))
http11_round_example =
    http11_round sample_io sample_url sample_parser sample_memchr sample_transport connect
      sample_first sample_laws sample_runtime 4 (codes "a") (codes "a")
      (arriving (head ++ codes "hi")) head (codes "hi") (codes "hi") (some 1) (some 200) [] refl
      refl (is_head []) refl carries11

moved_carries11 :
    Payloads.Payload
      (Head.framing
        (Head.is_http10 (some 1))
        (Head.no_content (some 301))
        (Head.response_of (some 1) (some 301) to_b))
      (codes "at b")
      (codes "at b")
unfolding Head.framing Head.response_of Head.is_http10 Head.no_content get_header push_headers
    push_header eq_ignore_ascii_case to_lowercase
moved_carries11 = Payloads.to_eof (codes "at b")

has_body11 :
    (Head.framing
      (Head.is_http10 (some 1))
      (Head.no_content (some 301))
      (Head.response_of (some 1) (some 301) to_b))
    ≢ Head.no_body
unfolding Head.framing Head.response_of Head.is_http10 Head.no_content get_header push_headers
    push_header eq_ignore_ascii_case to_lowercase
has_body11 e = absurd (cc)

moves11 :
    RedirectsTo one_host
      (asking (codes "a"))
      (build (Head.response_of (some 1) (some 301) to_b) (codes "at b"))
      (codes "b")
unfolding build Head.response_of push_headers status_or_200 header push_header eq_ignore_ascii_case
    to_lowercase from_utf8_lossy
moves11 = ((omega arith, omega arith), (codes "b", refl, refl))

stays11 :
    (v : Bytes)
    → ¬ RedirectsTo one_host
        (asking (codes "b"))
        (build (Head.response_of (some 1) (some 200) []) (codes "hi"))
        v
unfolding build Head.response_of push_headers status_or_200
stays11 v ((low, high), located) = absurd (omega arith)

abbrev moved_page11 :
    Prints11.Page sample_io one_host moving_parser sample_memchr sample_transport moving_connect 0
      (codes "a")
moved_page11 = record {
  host = codes "h";
  stream = arriving (moved_head ++ codes "at b");
  head = moved_head;
  payload = codes "at b";
  body = codes "at b";
  version = some 1;
  code = some 301;
  lines = to_b;
  at_host = refl;
  connected = refl;
  is_head = is_moved;
  arrives = refl;
  carries = moved_carries11;
}

abbrev page11 :
    Prints11.Page sample_io one_host moving_parser sample_memchr sample_transport moving_connect 1
      (codes "b")
page11 = record {
  host = codes "h";
  stream = arriving (head ++ codes "hi");
  head = head;
  payload = codes "hi";
  body = codes "hi";
  version = some 1;
  code = some 200;
  lines = [];
  at_host = refl;
  connected = refl;
  is_head = is_found;
  arrives = refl;
  carries = carries11;
}

-- One redirect.
abbrev way11 :
    Prints11.Trail sample_io one_host moving_parser sample_memchr sample_transport moving_connect
      (build (Head.response_of (some 1) (some 200) []) (codes "hi"))
      1
      0
      (codes "a")
way11 =
    Prints11.hop moved_page11 has_body11 moves11 (Prints11.last page11 (inr stays11) refl refl) refl

-- The page behind one redirect, on the same host.
http11_prints_example :
    Prints11.AllSend sample_io one_host moving_parser sample_memchr sample_transport moving_connect
      way11
    × (enough : ℕ) × ((fuel calls rounds more : ℕ)
        → enough ≤ fuel
        → enough ≤ calls
        → enough ≤ rounds
        → http11_main sample_io one_host moving_parser sample_memchr sample_transport moving_connect
            fuel calls rounds
            (suc (1 + more))
            (some (codes "a"))
          ≡ finished (page_text (build (Head.response_of (some 1) (some 200) []) (codes "hi"))))
http11_prints_example =
    Prints11.http11_prints sample_io one_host moving_parser sample_memchr sample_transport
      moving_connect sample_first sample_laws sample_runtime (some (codes "a")) (codes "a")
      (build (Head.response_of (some 1) (some 200) []) (codes "hi")) 1 (inr (codes "a", refl, refl))
      way11
