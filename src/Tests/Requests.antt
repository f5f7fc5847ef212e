-- ===== src/Tests/Requests.antt =====
-- A small request on the wire, and what the debug output shows of two messages.
use io_http.Prelude.{[], ◌∷◌, ◌++◌, ◌≡◌, refl, inl, some, arith}
use io_http.Text.{Bytes, codes}
use io_http.Text.Radix.{to_decimal, from_str_radix}
use io_http.Text.Ascii.{eq_ignore_ascii_case}
use io_http.Text.Trim.{trim}
use io_http.Rfc9110.Headers.{Headers, content_length, is_sensitive}
use io_http.Rfc9110.Request.{HttpRequest, debug_request}
use io_http.Rfc9110.Response.{HttpResponse, debug_response}
use io_http.Rfc9110.Response.Redaction.{debug_response_redacts, debug_request_redacts}
use io_http.Rfc9110.Wire.{query_part, request_line, serialize}
use io_http.Rfc9110.Wire.Head.{read_head, kept_lines, read_head-serialize}

abbrev host_lines : Headers
host_lines = (codes "Host", codes "a") ∷ (codes "content-length", codes "9") ∷ []

read_head-serialize_example :
    (read_head (
        serialize
          (codes "PUT")
          (codes "/a")
          (some (codes "q"))
          (codes "HTTP/1.1")
          host_lines
          (codes "xy"))
      ≡ some (
        request_line (codes "PUT") (codes "/a") (some (codes "q")) (codes "HTTP/1.1")
            ∷ (kept_lines host_lines ++ (content_length ++ (codes ": " ++ to_decimal 2)) ∷ []),
        codes "xy",
      ))
    × (from_str_radix (trim (to_decimal 2)) 10 ≡ some 2)
unfolding query_part
read_head-serialize_example =
    read_head-serialize (codes "PUT") (codes "/a") (some (codes "q")) (codes "HTTP/1.1") host_lines
      (codes "xy") (omega arith) (omega arith) (omega arith) (omega arith) (omega arith)
      (omega arith)

abbrev answer : Bytes → HttpResponse
answer secret = record {
  status = record { code = 200 };
  version = codes "HTTP/1.1";
  headers = (codes "set-cookie", secret) ∷ [];
  body = secret;
}

debug_response_redacts_example :
    debug_response (answer (codes "ab")) ≡ debug_response (answer (codes "cd"))
unfolding is_sensitive eq_ignore_ascii_case
debug_response_redacts_example =
    debug_response_redacts (answer (codes "ab")) (answer (codes "cd")) refl refl
      (refl, inl refl, tt) refl

abbrev question : Bytes → HttpRequest Bytes
question secret = record {
  method = codes "GET";
  url = codes "/a";
  headers = (codes "Cookie", secret) ∷ [];
  body = secret;
}

debug_request_redacts_example :
    debug_request (λ u. u) (question (codes "ab")) ≡ debug_request (λ u. u) (question (codes "cd"))
unfolding is_sensitive eq_ignore_ascii_case
debug_request_redacts_example =
    debug_request_redacts (λ u. u) (question (codes "ab")) (question (codes "cd")) refl refl
      (refl, inl refl, tt) refl
