-- ===== src/Rfc9112/Send/Head.antt =====
-- What the parsed head of a response decides (src/rfc9112/send.rs): the builder, whether the
-- connection closes, and how the body is read.
pub mod HeaderLines
pub mod Decisions
use io_http.Prelude.{ℕ, Bool, false, not, ◌&&◌, ◌||◌, Option, none, some, ◌==◌, if◌then◌else◌}
use io_http.Text.{codes}
use io_http.Text.Ascii.{eq_ignore_ascii_case}
use io_http.Text.Radix.{from_str_radix}
use io_http.Text.Trim.{trim}
use io_http.Rfc9110.Headers.{Headers, connection, content_length, transfer_encoding}
use io_http.Rfc9110.Status.{StatusCode}
use io_http.Rfc9110.Response.{ResponseBuilder, default_builder, push_headers, get_header}
use io_http.Rfc9110.Wire.{http_10, http_11}

-- `matches!(parsed.version, Some(0))`.
unfoldable pub is_http10 : Option ℕ → Bool
is_http10 none = false
is_http10 (some minor) = minor == 0

status_of : Option ℕ → Option StatusCode
status_of none = none
status_of (some c) = some (record { code = c })

-- `code == 204 || code == 304`, false without a code.
unfoldable pub no_content : Option ℕ → Bool
no_content none = false
no_content (some code) = code == 204 || code == 304

-- The builder of the response, from the version, the code and the header lines.
unfoldable pub response_of : Option ℕ → Option ℕ → Headers → ResponseBuilder
unfolding status_of is_http10
response_of version code lines =
    push_headers
      (record default_builder {
        version = if is_http10 version then http_10 else http_11;
        status = status_of code;
      })
      lines

-- The value of `is_conn_closed`.
unfoldable pub closes : Bool → ResponseBuilder → Bool
closes http10 response = elim (get_header response connection) [
  | some conn ↦ eq_ignore_ascii_case conn (codes "close")
  | none ↦ http10
]

pub data Framing : Type 0 where
  no_body chunked until_eof : Framing
  lengthed : ℕ → Framing

-- `Content-Length` where it is present and valid, else until EOF.
pub by_length : ResponseBuilder → Framing
by_length response = elim (get_header response content_length) [
  | none ↦ until_eof
  | some len ↦ elim (from_str_radix (trim len) 10) [ none ↦ until_eof | some n ↦ lengthed n ]
]

pub says_chunked : ResponseBuilder → Bool
says_chunked response = elim (get_header response transfer_encoding) [
  | none ↦ false
  | some enc ↦ eq_ignore_ascii_case enc (codes "chunked")
]

-- Which of the four ways of reading the body is taken, in the order of the tests.
unfoldable pub framing : Bool → Bool → ResponseBuilder → Framing
unfolding by_length says_chunked
framing http10 empty response =
    if empty
    then no_body
    else if not http10 && says_chunked response
    then chunked
    else by_length response
