-- ===== src/Tests/Clients.antt =====
-- The loop over redirects of the example programs, what they print, and a prepared discovery.
use io_http.Prelude.{ℕ, [], ◌∷◌, ◌++◌, ◌≡◌, refl, ◌⊎◌, ◌↔◌, inl, inr, some, Option}
use io_http.Text.{Bytes, codes}
use io_http.Text.Radix.{to_decimal}
use io_http.Text.Utf8.{from_utf8_lossy}
use io_http.External.Url.{UrlLaws}
use io_http.Coroutine.Drive.{Outcome, finished, unfinished}
use io_http.Rfc9110.Request.{HttpRequest}
use io_http.Rfc9110.Response.{HttpResponse}
use io_http.Rfc9110.Wire.{http_11, query_part, serialize}
use io_http.Rfc8615.WellKnown.{invalid_base_url, prepare_request}
use io_http.Rfc8615.WellKnown.Prepared.{prepare_request-serialize}
use io_http.Examples.Redirects.{Ended, moved, outer, printed}
use io_http.Examples.Redirects.Laws.{LeadsTo, outer_iff, outer_endless}
use io_http.Examples.StdHttp10.{http10_visit}
use io_http.Tests.Sample.{sample_io, sample_url, sample_parser, sample_transport, arriving, Wire}
use io_http.Tests.Whole.{head}

-- Every connection delivers the same response.
abbrev pub connect : ℕ → Bytes → ℕ → Option Wire
connect round host port = some (arriving (head ++ codes "hi"))

abbrev greeting : HttpResponse
greeting = record {
  status = record { code = 200 };
  version = codes "HTTP/1.1";
  headers = (codes "a", codes "b") ∷ [];
  body = codes "hi";
}

greeting_text :
    printed greeting
    ≡ codes
        "-------------------------\n-------- HEADERS --------\n-------------------------\nHTTP/1.1 200\na: b\n-------------------------\n--------- BODY ----------\n-------------------------\nhi"
unfolding printed to_decimal from_utf8_lossy
greeting_text = refl

outer_iff_example :
    ((hops : ℕ) × (outer
          (http10_visit sample_io sample_url sample_parser sample_transport connect 9 60)
          hops
          (0, codes "a")
        ≡ finished greeting))
    ↔ LeadsTo
        (http10_visit sample_io sample_url sample_parser sample_transport connect 9 60)
        greeting
        (0, codes "a")
outer_iff_example =
    outer_iff (http10_visit sample_io sample_url sample_parser sample_transport connect 9 60)
      (0, codes "a") greeting

-- Two URLs that redirect to each other.
abbrev back_and_forth : Bytes → Outcome (Ended Bytes)
back_and_forth [] = finished (moved (codes "a"))
back_and_forth (c ∷ s) = finished (moved [])

abbrev InCycle : Bytes → Type 0
InCycle u = (u ≡ []) ⊎ (u ≡ codes "a")

next : (u : Bytes) → InCycle u → (v : Bytes) × InCycle v × (back_and_forth u ≡ finished (moved v))
next u (inl e) = (codes "a", inr refl, rw e)
next u (inr e) = ([], inl refl, rw e)

outer_endless_example : outer back_and_forth 7 [] ≡ unfinished
outer_endless_example = outer_endless back_and_forth InCycle next 7 [] (inl refl)

sample_urls : UrlLaws sample_url
sample_urls = record {
  Based = λ u. u ≡ [];
  Plain = λ p. Unit {0};
  path-set_path = λ u p e plain. rw e;
  scheme-set_path = λ u p. refl;
  host-set_path = λ u p. refl;
  port-set_path = λ u p. refl;
  query-set_path = λ u p. refl;
}

prepare_request-serialize_example :
    ((u : Bytes)
      → sample_url.parse [] ≡ inr u
      → sample_urls.Based u
      → sample_urls.Plain (codes "/.well-known/" ++ codes "caldav")
      → (q : HttpRequest Bytes) × (prepare_request sample_io sample_url sample_parser []
            (codes "caldav")
          ≡ inr q)
        × (sample_url.scheme q.url ≡ sample_url.scheme u)
        × (sample_url.host q.url ≡ sample_url.host u)
        × (sample_url.port q.url ≡ sample_url.port u)
        × (serialize q.method
              (sample_url.path q.url)
              (sample_url.query q.url)
              http_11
              q.headers
              q.body
            ≡ codes "GET /.well-known/"
              ++ (codes "caldav"
                  ++ (query_part (sample_url.query u)
                      ++ codes " HTTP/1.1\r\ncontent-length: 0\r\n\r\n"))))
    × ((e : Unit {0})
        → sample_url.parse [] ≡ inl e
        → prepare_request sample_io sample_url sample_parser [] (codes "caldav")
          ≡ inl (invalid_base_url e []))
prepare_request-serialize_example =
    prepare_request-serialize sample_io sample_url sample_parser sample_urls [] (codes "caldav")
