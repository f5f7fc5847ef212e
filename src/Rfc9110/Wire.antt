-- ===== src/Rfc9110/Wire.antt =====
-- The serialized request, which src/rfc9112/send.rs and src/rfc1945/send.rs write alike but for the
-- version token, and their version tokens.
pub mod Head
use io_http.Prelude.{[], ◌∷◌, ◌++◌, Option, none, some, length, if◌then◌else◌}
use io_http.Text.{Bytes, codes}
use io_http.Text.Ascii.{eq_ignore_ascii_case}
use io_http.Text.Radix.{to_decimal}
use io_http.Text.Search.{crlf, crlf_crlf}
use io_http.Rfc9110.Headers.{Headers, content_length}

abbrev pub http_11 : Bytes
http_11 = codes "HTTP/1.1"

abbrev pub http_10 : Bytes
http_10 = codes "HTTP/1.0"

unfoldable pub query_part : Option Bytes → Bytes
query_part none = []
query_part (some q) = b'?' ∷ q

unfoldable pub request_line : Bytes → Bytes → Option Bytes → Bytes → Bytes
unfolding query_part
request_line method path query version =
    method ++ (b' ' ∷ (path ++ (query_part query ++ (b' ' ∷ version))))

unfoldable pub header_line : Bytes → Bytes → Bytes
header_line key val = key ++ (codes ": " ++ val)

-- The loop over `req.headers`, which skips every Content-Length.
unfoldable pub header_lines : Headers → Bytes
unfolding header_line
header_lines [] = []
header_lines ((key, val) ∷ hs) =
    if eq_ignore_ascii_case key content_length
    then header_lines hs
    else header_line key val ++ (crlf ++ header_lines hs)

unfoldable pub length_line : Bytes → Bytes
unfolding header_line
length_line body = header_line content_length (to_decimal (length body))

unfoldable pub serialize : Bytes → Bytes → Option Bytes → Bytes → Headers → Bytes → Bytes
unfolding request_line header_lines length_line
serialize method path query version headers body =
    request_line method path query version
    ++ (crlf ++ (header_lines headers ++ (length_line body ++ (crlf_crlf ++ body))))
