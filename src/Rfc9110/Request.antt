-- ===== src/Rfc9110/Request.antt =====
-- Outgoing requests (src/rfc9110/request.rs). `Url` is the type of the url crate.
use io_http.Prelude.{[], ◌∷◌, ◌++◌}
use io_http.Text.{Bytes, codes}
use io_http.Text.Radix.{to_decimal}
use io_http.Prelude.{length}
use io_http.Rfc9110.Headers.{Headers, redacted}
use io_http.Rfc9110.Debug.{DebugStruct, text, pairs, arguments}

pub record HttpRequest (Url : Type 0) : Type 0 where
  pub method : Bytes
  pub url : Url
  pub headers : Headers
  pub body : Bytes

-- `format_args!("[{} bytes]", body.len())`.
unfoldable pub bytes_note : Bytes → Bytes
bytes_note body = codes "[" ++ (to_decimal (length body) ++ codes " bytes]")

module _ {Url : Type 0} where
  unfoldable pub get : Url → HttpRequest Url
  get url = record { method = codes "GET"; url = url; headers = []; body = [] }

  unfoldable pub with_header : HttpRequest Url → Bytes → Bytes → HttpRequest Url
  with_header r name value = record r { headers = r.headers ++ (name, value) ∷ [] }

  unfoldable pub with_body : HttpRequest Url → Bytes → HttpRequest Url
  with_body r body = record r { body = body }

  -- `fmt::Debug`; `as_str` is `Url::as_str`.
  unfoldable pub debug_request : (Url → Bytes) → HttpRequest Url → DebugStruct
  debug_request as_str r = record {
    name = codes "HttpRequest";
    fields =
        (codes "method", text r.method)
        ∷ (codes "url", text (as_str r.url))
        ∷ (codes "headers", pairs (redacted r.headers))
        ∷ (codes "body", arguments (bytes_note r.body))
        ∷ [];
  }
