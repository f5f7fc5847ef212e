-- ===== src/Examples/TokioHttp11.antt =====
-- examples/tokio_http11_rustls.rs: HTTP/1.1 over TLS.
pub mod Run
pub mod Asks
pub mod Prints
use mathlib.Core.Option.{get_or}
use io_http.Prelude.{ℕ, [], ◌∷◌, ◌≡◌, Option, none, some}
use io_http.Text.{Bytes, codes}
use io_http.External.Memchr.{Memchr}
use io_http.External.Url.{UrlApi}
use io_http.External.Httparse.{Httparse}
use io_http.External.Socket.{IoSocket}
use io_http.External.Socket.Transport.{Transport}
use io_http.Coroutine.Drive.{Outcome, finished, crashed, unfinished, drive}
use io_http.Rfc9110.Request.{HttpRequest, get, with_header}
use io_http.Rfc9110.Response.{HttpResponse}
use io_http.Rfc9112.Send.Types.{Http11SendResult, ok, redirect, io_request, err}
use io_http.Rfc9112.Send.Step.{new, step, input_of}
use io_http.Examples.Redirects.{Ended, answered, moved, gave_up, counted, outer, start_url, shown}

module _ (io : IoSocket) (url : UrlApi) (parser : Httparse) (mem : Memchr) (t : Transport io)
    -- `TcpStream::connect`, the TLS configuration and `TlsConnector::connect`, none where one fails.
    -- Each round connects anew, and the first argument counts the rounds: the streams of two rounds
    -- are unrelated.
    (connect : ℕ → Bytes → ℕ → Option t.Stream) where
  -- `HttpRequest::get(url.clone()).header("Host", &domain).header("Connection", "close")`.
  unfoldable pub http11_request : url.Url → Bytes → HttpRequest url.Url
  http11_request u host =
      with_header (with_header (get u) (codes "Host") host) (codes "Connection") (codes "close")

  unfoldable pub http11_ended : Http11SendResult io url parser → Ended url.Url
  http11_ended (ok request response keep_alive) = answered response
  http11_ended (err e) = gave_up
  http11_ended (redirect target request response keep_alive same_origin) = moved target
  -- The inner loop answers it and goes on.
  http11_ended (io_request input) = gave_up

  pub http11_outcome : ℕ → Outcome (Http11SendResult io url parser) → Outcome (Ended (ℕ × url.Url))
  unfolding http11_ended counted
  http11_outcome n (finished r) = finished (counted n (http11_ended r))
  http11_outcome n crashed = crashed
  http11_outcome n unfinished = unfinished

  module _ (fuel calls rounds : ℕ) where
    -- The inner loop, on a stream that is connected or not.
    pub http11_inner : ℕ → url.Url → Bytes → Option t.Stream → Outcome (Ended (ℕ × url.Url))
    unfolding http11_outcome http11_request
    http11_inner n u host none = crashed
    http11_inner n u host (some stream) = http11_outcome n (
        drive (step io url parser mem fuel) (input_of io url parser) t.handle calls rounds
          (new io url parser (http11_request u host)) none stream)

    pub http11_host : ℕ → url.Url → Option Bytes → Outcome (Ended (ℕ × url.Url))
    unfolding http11_inner
    http11_host n u none = crashed
    http11_host n u (some host) =
        http11_inner n u host (connect n host (get_or (url.port_or_known_default u) 443))

    -- One round of the outer loop, its number in front of the URL.
    unfoldable pub http11_visit : ℕ × url.Url → Outcome (Ended (ℕ × url.Url))
    unfolding http11_host
    http11_visit (n, u) = http11_host n u (url.domain u)

    http11_main_from : ℕ → Option url.Url → Outcome HttpResponse
    http11_main_from hops none = crashed
    http11_main_from hops (some u) = outer http11_visit hops (0, u)

    -- What `main` prints, from the variable URL of the environment; no more than `hops` requests.
    unfoldable pub http11_main : ℕ → Option Bytes → Outcome Bytes
    unfolding http11_main_from
    http11_main hops env =
        shown (http11_main_from hops (start_url url (codes "https://example.com/") env))
