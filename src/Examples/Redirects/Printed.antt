-- ===== src/Examples/Redirects/Printed.antt =====
-- What the example programs print, as one text, and the URL that they start at.
use io_http.Prelude.{[], ◌∷◌, ◌++◌, ◌≡◌, refl, ◌⊎◌, inl, inr, Option, none, some, append_assoc}
use io_http.Text.{Bytes, codes}
use io_http.Text.Radix.{to_decimal}
use io_http.Text.Utf8.{from_utf8_lossy}
use io_http.External.Url.{UrlApi}
use io_http.Rfc9110.Headers.{Headers}
use io_http.Rfc9110.Response.{HttpResponse}
use io_http.Examples.Redirects.{line, shown_headers, printed, parsed_start, start_url}

-- One line for each header, in order.
abbrev pub headers_text : Headers → Bytes
headers_text [] = []
headers_text ((key, val) ∷ hs) = key ++ (codes ": " ++ (val ++ (codes "\n" ++ headers_text hs)))

abbrev pub page_text : HttpResponse → Bytes
page_text r =
    codes "-------------------------\n-------- HEADERS --------\n-------------------------\n"
    ++ (r.version
        ++ (codes " "
            ++ (to_decimal r.status.code
                ++ (codes "\n"
                    ++ (headers_text r.headers
                        ++ (codes
                              "-------------------------\n--------- BODY ----------\n-------------------------\n"
                            ++ from_utf8_lossy r.body))))))

shown_headers-text : (hs : Headers) → shown_headers hs ≡ headers_text hs
unfolding shown_headers line
shown_headers-text [] = refl
shown_headers-text ((key, val) ∷ hs) = simp (append_assoc, shown_headers-text hs)

pub printed-page_text : (r : HttpResponse) → printed r ≡ page_text r
unfolding printed line
printed-page_text r = simp (shown_headers-text r.headers, append_assoc)

-- The URL of the environment, if there is one, parses to `u`, and else the default one does.
abbrev pub StartsAt : (url : UrlApi) → Bytes → Option Bytes → url.Url → Type 0
StartsAt url default env u =
    ((env ≡ none) × (url.parse default ≡ inr u))
    ⊎ ((text : Bytes) × (env ≡ some text) × (url.parse text ≡ inr u))

pub start_url-StartsAt :
    (url : UrlApi) (default : Bytes) (env : Option Bytes) (u : url.Url)
    → StartsAt url default env u
    → start_url url default env ≡ some u
unfolding start_url parsed_start
start_url-StartsAt url default env u (inl (e, f)) = rw (e, f)
start_url-StartsAt url default env u (inr (text, e, f)) = rw (e, f)
