-- ===== src/Tests/Clients10.antt =====
-- The HTTP/1.0 example program over the stream that delivers one byte at a time.
use io_http.Prelude.{arith, ◌+◌, ℕ, suc, ◌≤◌, [], ◌++◌, ◌≡◌, ◌≢◌, refl, ◌⊎◌, inr, some}
use io_http.Text.{Bytes, codes}
use io_http.Text.Ascii.{eq_ignore_ascii_case, to_lowercase}
use io_http.Text.Utf8.{from_utf8_lossy}
use io_http.Coroutine.Drive.{finished}
use io_http.Rfc9110.Response.{push_header, header, get_header, push_headers, status_or_200, build}
use io_http.Rfc9110.Redirect.Laws.{RedirectsTo}
use io_http.Rfc1945.Send.Head as Head10
use io_http.Rfc1945.Send.Step.Payloads as Payloads10
use io_http.Examples.Redirects.{outer}
use io_http.Examples.Redirects.Printed.{page_text}
use io_http.Examples.StdHttp10.{http10_request, http10_visit, http10_main}
use io_http.Examples.StdHttp10.Prints as Prints10
use io_http.Examples.StdHttp10.Run.{http10_round}
use io_http.Tests.Sample.{sample_io, sample_url, sample_parser, sample_transport, arriving}
use io_http.Tests.Stream.{sample_laws}
use io_http.Tests.Runtime.{sample_runtime}
use io_http.Tests.Whole.{head, is_head}
use io_http.Tests.Clients.{connect}
use io_http.Tests.Moved.{
  moved_head, to_b, moving_parser, is_moved, is_found, moving_connect, one_host, asking,
}

carries10 :
    Payloads10.Payload
      (Head10.framing (Head10.no_content (some 200)) (Head10.response_of (some 200) []))
      (codes "hi")
      (codes "hi")
unfolding Head10.framing Head10.response_of Head10.no_content get_header push_headers
carries10 = Payloads10.to_eof (codes "hi")

http10_round_example :
    (enough : ℕ) × ((calls rounds hops : ℕ)
      → enough ≤ calls
      → enough ≤ rounds
      → ((Head10.framing (Head10.no_content (some 200)) (Head10.response_of (some 200) [])
              ≡ Head10.no_body)
            ⊎ ((v : Bytes)
                → ¬ RedirectsTo sample_url
                    (http10_request sample_io sample_url sample_parser sample_transport connect
                      (codes "a")
                      (codes "a"))
                    (build (Head10.response_of (some 200) []) (codes "hi"))
                    v)
          → outer
              (http10_visit sample_io sample_url sample_parser sample_transport connect calls
                rounds)
              (suc hops)
              (4, codes "a")
            ≡ finished (build (Head10.response_of (some 200) []) (codes "hi")))
        × ((v : Bytes)
            → Head10.framing (Head10.no_content (some 200)) (Head10.response_of (some 200) [])
              ≢ Head10.no_body
            → RedirectsTo sample_url
                (http10_request sample_io sample_url sample_parser sample_transport connect
                  (codes "a")
                  (codes "a"))
                (build (Head10.response_of (some 200) []) (codes "hi"))
                v
            → outer
                (http10_visit sample_io sample_url sample_parser sample_transport connect calls
                  rounds)
                (suc hops)
                (4, codes "a")
              ≡ outer
                  (http10_visit sample_io sample_url sample_parser sample_transport connect calls
                    rounds)
                  hops
                  (5, v)))
http10_round_example =
    http10_round sample_io sample_url sample_parser sample_transport connect sample_laws
      sample_runtime 4 (codes "a") (codes "a") (arriving (head ++ codes "hi")) head (codes "hi")
      (codes "hi") (some 1) (some 200) [] refl refl (is_head []) refl carries10

moved_carries10 :
    Payloads10.Payload
      (Head10.framing (Head10.no_content (some 301)) (Head10.response_of (some 301) to_b))
      (codes "at b")
      (codes "at b")
unfolding Head10.framing Head10.response_of Head10.no_content get_header push_headers push_header
    eq_ignore_ascii_case to_lowercase
moved_carries10 = Payloads10.to_eof (codes "at b")

has_body10 :
    (Head10.framing (Head10.no_content (some 301)) (Head10.response_of (some 301) to_b))
    ≢ Head10.no_body
unfolding Head10.framing Head10.response_of Head10.no_content get_header push_headers push_header
    eq_ignore_ascii_case to_lowercase
has_body10 e = absurd (cc)

moves10 :
    RedirectsTo one_host
      (asking (codes "a"))
      (build (Head10.response_of (some 301) to_b) (codes "at b"))
      (codes "b")
unfolding build Head10.response_of push_headers status_or_200 header push_header
    eq_ignore_ascii_case to_lowercase from_utf8_lossy
moves10 = ((omega arith, omega arith), (codes "b", refl, refl))

stays10 :
    (v : Bytes)
    → ¬ RedirectsTo one_host
        (asking (codes "b"))
        (build (Head10.response_of (some 200) []) (codes "hi"))
        v
unfolding build Head10.response_of push_headers status_or_200
stays10 v ((low, high), located) = absurd (omega arith)

abbrev moved_page10 :
    Prints10.Page sample_io one_host moving_parser sample_transport moving_connect 0 (codes "a")
moved_page10 = record {
  host = codes "h";
  stream = arriving (moved_head ++ codes "at b");
  head = moved_head;
  payload = codes "at b";
  body = codes "at b";
  version = some 1;
  code = some 301;
  lines = to_b;
  at_host = refl;
  connected = refl;
  is_head = is_moved;
  arrives = refl;
  carries = moved_carries10;
}

abbrev page10 :
    Prints10.Page sample_io one_host moving_parser sample_transport moving_connect 1 (codes "b")
page10 = record {
  host = codes "h";
  stream = arriving (head ++ codes "hi");
  head = head;
  payload = codes "hi";
  body = codes "hi";
  version = some 1;
  code = some 200;
  lines = [];
  at_host = refl;
  connected = refl;
  is_head = is_found;
  arrives = refl;
  carries = carries10;
}

-- One redirect.
abbrev way10 :
    Prints10.Trail sample_io one_host moving_parser sample_transport moving_connect
      (build (Head10.response_of (some 200) []) (codes "hi"))
      1
      0
      (codes "a")
way10 =
    Prints10.hop moved_page10 has_body10 moves10 (Prints10.last page10 (inr stays10) refl refl) refl

-- The page behind one redirect, on the same host.
http10_prints_example :
    Prints10.AllSend sample_io one_host moving_parser sample_transport moving_connect way10
    × (enough : ℕ) × ((calls rounds more : ℕ)
        → enough ≤ calls
        → enough ≤ rounds
        → http10_main sample_io one_host moving_parser sample_transport moving_connect calls rounds
            (suc (1 + more))
            (some (codes "a"))
          ≡ finished (page_text (build (Head10.response_of (some 200) []) (codes "hi"))))
http10_prints_example =
    Prints10.http10_prints sample_io one_host moving_parser sample_transport moving_connect
      sample_laws sample_runtime (some (codes "a")) (codes "a")
      (build (Head10.response_of (some 200) []) (codes "hi")) 1 (inr (codes "a", refl, refl)) way10
