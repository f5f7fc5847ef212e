-- ===== src/Rfc9110/Response.antt =====
-- Responses and their builder (src/rfc9110/response.rs).
pub mod Lookup
pub mod Redaction
use io_http.Prelude.{[], ◌∷◌, ◌++◌, Option, none, some}
use io_http.Text.{Bytes, codes}
use io_http.Text.Ascii.{to_lowercase}
use io_http.Text.Utf8.{from_utf8_lossy}
use io_http.Rfc9110.Headers.{Headers, find_header, redacted}
use io_http.Rfc9110.Status.{StatusCode}
use io_http.Rfc9110.Debug.{DebugStruct, text, number, pairs, arguments}
use io_http.Rfc9110.Request.{bytes_note}

pub record HttpResponse : Type 0 where
  pub status : StatusCode
  pub version : Bytes
  pub headers : Headers
  pub body : Bytes

-- `HttpResponse::header`.
unfoldable pub header : HttpResponse → Bytes → Option Bytes
unfolding find_header
header r name = find_header name r.headers

pub record ResponseBuilder : Type 0 where
  pub status : Option StatusCode
  pub version : Bytes
  pub headers : Headers

-- `ResponseBuilder::default`.
abbrev pub default_builder : ResponseBuilder
default_builder = record { status = none; version = codes "HTTP/1.1"; headers = [] }

-- `ResponseBuilder::header`.
unfoldable pub push_header : ResponseBuilder → Bytes → Bytes → ResponseBuilder
push_header b name value = record b {
  headers = b.headers ++ (to_lowercase name, from_utf8_lossy value) ∷ [];
}

-- `for header in parsed.headers { response.header(header.name, header.value) }`.
unfoldable pub push_headers : ResponseBuilder → Headers → ResponseBuilder
push_headers b [] = b
push_headers b ((name, value) ∷ hs) = push_headers (push_header b name value) hs

-- `ResponseBuilder::get_header`.
unfoldable pub get_header : ResponseBuilder → Bytes → Option Bytes
unfolding find_header
get_header b name = find_header name b.headers

-- `self.status.unwrap_or(StatusCode(200))`.
unfoldable pub status_or_200 : Option StatusCode → StatusCode
status_or_200 none = record { code = 200 }
status_or_200 (some s) = s

unfoldable pub build : ResponseBuilder → Bytes → HttpResponse
build b body = record {
  status = status_or_200 b.status;
  version = b.version;
  headers = b.headers;
  body = body;
}

-- `fmt::Debug`.
unfoldable pub debug_response : HttpResponse → DebugStruct
debug_response r = record {
  name = codes "HttpRequest";
  fields =
      (codes "status", number r.status.code)
      ∷ (codes "version", text r.version)
      ∷ (codes "headers", pairs (redacted r.headers))
      ∷ (codes "body", arguments (bytes_note r.body))
      ∷ [];
}
