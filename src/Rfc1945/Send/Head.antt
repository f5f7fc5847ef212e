-- ===== src/Rfc1945/Send/Head.antt =====
-- What the parsed head of a response decides (src/rfc1945/send.rs): the builder, whether the
-- connection is kept, and how the body is read.
pub mod Decisions
use io_http.Prelude.{ℕ, Bool, false, ◌||◌, Option, none, some, ◌==◌, if◌then◌else◌}
use io_http.Text.{codes}
use io_http.Text.Ascii.{eq_ignore_ascii_case}
use io_http.Text.Radix.{from_str_radix}
use io_http.Text.Trim.{trim}
use io_http.Rfc9110.Headers.{Headers, connection, content_length}
use io_http.Rfc9110.Status.{StatusCode}
use io_http.Rfc9110.Response.{ResponseBuilder, default_builder, push_headers, get_header}
use io_http.Rfc9110.Wire.{http_10}

status_of : Option ℕ → Option StatusCode
status_of none = none
status_of (some c) = some (record { code = c })

-- `code == 204 || code == 304`, false without a code.
unfoldable pub no_content : Option ℕ → Bool
no_content none = false
no_content (some code) = code == 204 || code == 304

-- The builder of the response, whose version is fixed, from the code and the header lines.
unfoldable pub response_of : Option ℕ → Headers → ResponseBuilder
unfolding status_of
response_of code lines =
    push_headers (record default_builder { version = http_10; status = status_of code }) lines

-- The new value of `keep_alive`, which stays as it is without a Connection header.
unfoldable pub persists : Bool → ResponseBuilder → Bool
persists before response = elim (get_header response connection) [
  | some conn ↦ eq_ignore_ascii_case conn (codes "keep-alive")
  | none ↦ before
]

pub data Framing : Type 0 where
  no_body until_eof : Framing
  lengthed : ℕ → Framing

-- `Content-Length` where it is present and valid, else until EOF.
by_length : ResponseBuilder → Framing
by_length response = elim (get_header response content_length) [
  | none ↦ until_eof
  | some len ↦ elim (from_str_radix (trim len) 10) [ none ↦ until_eof | some n ↦ lengthed n ]
]

-- Which of the three ways of reading the body is taken.
unfoldable pub framing : Bool → ResponseBuilder → Framing
unfolding by_length
framing empty response = if empty then no_body else by_length response
