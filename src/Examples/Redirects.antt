-- ===== src/Examples/Redirects.antt =====
-- The outer loop of the example programs: a request is sent to a URL, and again to the URL that a
-- redirect names, until a response comes.
pub mod Laws
pub mod Printed
use io_http.Prelude.{ℕ, zero, suc, [], ◌∷◌, ◌++◌, Option, none, some, ◌⊎◌, inl, inr}
use io_http.Text.{Bytes, codes}
use io_http.Text.Radix.{to_decimal}
use io_http.Text.Utf8.{from_utf8_lossy}
use io_http.External.Url.{UrlApi}
use io_http.Coroutine.Drive.{Outcome, finished, crashed, unfinished}
use io_http.Rfc9110.Headers.{Headers}
use io_http.Rfc9110.Response.{HttpResponse}

-- What the inner loop makes of the result of an exchange; `panic!` on an error.
pub data Ended (Url : Type 0) : Type 0 where
  answered : HttpResponse → Ended Url
  moved : Url → Ended Url
  gave_up : Ended Url

-- The outer loop goes on with the next connection.
unfoldable pub counted : {Url : Type 0} → ℕ → Ended Url → Ended (ℕ × Url)
counted n (answered response) = answered response
counted n (moved url) = moved (suc n, url)
counted n gave_up = gave_up

module _ {Url : Type 0} where
  unfoldable pub followed :
      Outcome (Ended Url) → (Url → Outcome HttpResponse) → Outcome HttpResponse
  followed (finished (answered response)) rest = finished response
  followed (finished (moved url)) rest = rest url
  followed (finished gave_up) rest = crashed
  followed crashed rest = crashed
  followed unfinished rest = unfinished

  -- `'outer: loop`, with the requests that it may send as fuel.
  unfoldable pub outer : (Url → Outcome (Ended Url)) → ℕ → Url → Outcome HttpResponse
  unfolding followed
  outer visit zero url = unfinished
  outer visit (suc hops) url = followed (visit url) (outer visit hops)

pub parsed_start : (url : UrlApi) → url.ParseError ⊎ url.Url → Option url.Url
parsed_start url (inl e) = none
parsed_start url (inr u) = some u

-- The URL of the environment, or a default one; none where `unwrap` panics.
unfoldable pub start_url : (url : UrlApi) → Bytes → Option Bytes → Option url.Url
unfolding parsed_start
start_url url default none = parsed_start url (url.parse default)
start_url url default (some u) = parsed_start url (url.parse u)

unfoldable pub line : Bytes → Bytes
line s = s ++ codes "\n"

unfoldable pub shown_headers : Headers → Bytes
unfolding line
shown_headers [] = []
shown_headers ((key, val) ∷ headers) = line (key ++ (codes ": " ++ val)) ++ shown_headers headers

-- What is printed of a response.
unfoldable pub printed : HttpResponse → Bytes
unfolding line shown_headers
printed response =
    line (codes "-------------------------")
    ++ (line (codes "-------- HEADERS --------")
        ++ (line (codes "-------------------------")
            ++ (line (response.version ++ (codes " " ++ to_decimal response.status.code))
                ++ (shown_headers response.headers
                    ++ (line (codes "-------------------------")
                        ++ (line (codes "--------- BODY ----------")
                            ++ (line (codes "-------------------------")
                                ++ from_utf8_lossy response.body)))))))

unfoldable pub shown : Outcome HttpResponse → Outcome Bytes
unfolding printed
shown (finished response) = finished (printed response)
shown crashed = crashed
shown unfinished = unfinished
