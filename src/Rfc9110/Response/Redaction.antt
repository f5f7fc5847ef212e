-- ===== src/Rfc9110/Response/Redaction.antt =====
-- What the debug output of requests and responses can show of secrets.
use io_http.Prelude.{[], ◌∷◌, ◌≡◌, ◌⊎◌, refl, true, arith, length}
use io_http.Text.{Bytes}
use io_http.Rfc9110.Headers.{Headers, is_sensitive, redacted}
use io_http.Rfc9110.Request.{HttpRequest, bytes_note, debug_request}
use io_http.Rfc9110.Response.{HttpResponse, debug_response}

-- The same header names in the same order, and the same value wherever the name is not sensitive.
abbrev pub SamePublic : Headers → Headers → Type 0
SamePublic [] [] = Unit
SamePublic ((k, v) ∷ hs) ((k', v') ∷ hs') =
    (k ≡ k') × ((is_sensitive k ≡ true) ⊎ (v ≡ v')) × SamePublic hs hs'
SamePublic _ _ = ⊥

redacted-SamePublic : (hs hs' : Headers) → SamePublic hs hs' → redacted hs ≡ redacted hs'
unfolding redacted
redacted-SamePublic [] [] h = refl
redacted-SamePublic ((k, v) ∷ hs) ((k', v') ∷ hs') (same, values, h) =
    ground (arith, redacted-SamePublic hs hs' h)
redacted-SamePublic [] (x ∷ hs') h = absurd h
redacted-SamePublic (x ∷ hs) [] h = absurd h

bytes_note-length : (a b : Bytes) → length a ≡ length b → bytes_note a ≡ bytes_note b
unfolding bytes_note
bytes_note-length a b h = rw h

-- Two responses that differ only in the values of sensitive headers, whatever the case of the
-- names, and in bodies of one length, have the same debug output.
pub debug_response_redacts :
    (r r' : HttpResponse)
    → r.status ≡ r'.status
    → r.version ≡ r'.version
    → SamePublic r.headers r'.headers
    → length r.body ≡ length r'.body
    → debug_response r ≡ debug_response r'
unfolding debug_response
debug_response_redacts r r' s v h b =
    cc (redacted-SamePublic r.headers r'.headers h, bytes_note-length r.body r'.body b)

-- Two requests of one method and one URL that differ only in the values of sensitive headers,
-- whatever the case of the names, and in bodies of one length, have the same debug output.
pub debug_request_redacts :
    {Url : Type 0} (as_str : Url → Bytes) (r r' : HttpRequest Url)
    → r.method ≡ r'.method
    → r.url ≡ r'.url
    → SamePublic r.headers r'.headers
    → length r.body ≡ length r'.body
    → debug_request as_str r ≡ debug_request as_str r'
unfolding debug_request
debug_request_redacts as_str r r' m u h b =
    cc (redacted-SamePublic r.headers r'.headers h, bytes_note-length r.body r'.body b)
