-- ===== src/Rfc9110/Headers.antt =====
-- Header name constants and the first-match lookup by name (src/rfc9110/headers.rs, and the two
-- `header` lookups of src/rfc9110/response.rs).
use io_http.Prelude.{List, [], ◌∷◌, Bool, false, ◌||◌, Option, none, some, if◌then◌else◌}
use io_http.Text.{Bytes, codes}
use io_http.Text.Ascii.{eq_ignore_ascii_case}

abbrev pub authorization : Bytes
authorization = codes "authorization"

abbrev pub connection : Bytes
connection = codes "connection"

abbrev pub content_length : Bytes
content_length = codes "content-length"

abbrev pub cookie : Bytes
cookie = codes "cookie"

abbrev pub location : Bytes
location = codes "location"

abbrev pub proxy_authenticate : Bytes
proxy_authenticate = codes "proxy-authenticate"

abbrev pub proxy_authorization : Bytes
proxy_authorization = codes "proxy-authorization"

abbrev pub set_cookie : Bytes
set_cookie = codes "set-cookie"

abbrev pub transfer_encoding : Bytes
transfer_encoding = codes "transfer-encoding"

abbrev pub www_authenticate : Bytes
www_authenticate = codes "www-authenticate"

abbrev pub sensitive_headers : List Bytes
sensitive_headers =
    authorization ∷ proxy_authorization ∷ cookie ∷ set_cookie ∷ www_authenticate
    ∷ proxy_authenticate ∷ []

abbrev pub Headers : Type 0
Headers = List (Bytes × Bytes)

-- `headers.iter().find(|(k, _)| k.eq_ignore_ascii_case(name)).map(|(_, v)| v)`.
unfoldable pub find_header : Bytes → Headers → Option Bytes
find_header name [] = none
find_header name ((k, v) ∷ hs) = if eq_ignore_ascii_case k name then some v else find_header name hs

any_equal : Bytes → List Bytes → Bool
any_equal k [] = false
any_equal k (s ∷ ss) = eq_ignore_ascii_case k s || any_equal k ss

-- `SENSITIVE_HEADERS.iter().any(|s| k.eq_ignore_ascii_case(s))`.
unfoldable pub is_sensitive : Bytes → Bool
unfolding any_equal
is_sensitive k = any_equal k sensitive_headers

redact : Bytes × Bytes → Bytes × Bytes
redact (k, v) = if is_sensitive k then (k, codes "[REDACTED]") else (k, v)

-- The headers as the two `fmt::Debug` implementations show them.
unfoldable pub redacted : Headers → Headers
unfolding redact
redacted [] = []
redacted (h ∷ hs) = redact h ∷ redacted hs
