-- ===== src/Examples/StdHttp10.antt =====
-- examples/std_http10.rs: HTTP/1.0 over a plain TCP connection.
pub mod Run
pub mod Asks
pub mod Prints
use mathlib.Core.Option.{get_or}
use io_http.Prelude.{ℕ, [], ◌∷◌, ◌≡◌, Option, none, some}
use io_http.Text.{Bytes, codes}
use io_http.External.Url.{UrlApi}
use io_http.External.Httparse.{Httparse}
use io_http.External.Socket.{IoSocket}
use io_http.External.Socket.Transport.{Transport}
use io_http.Coroutine.Drive.{Outcome, finished, crashed, unfinished, drive}
use io_http.Rfc9110.Request.{HttpRequest, get, with_header}
use io_http.Rfc9110.Response.{HttpResponse}
use io_http.Rfc1945.Send.Types.{Http10SendResult, ok, redirect, io_request, err}
use io_http.Rfc1945.Send.Step.{new, step, input_of}
use io_http.Examples.Redirects.{Ended, answered, moved, gave_up, counted, outer, start_url, shown}

module _ (io : IoSocket) (url : UrlApi) (parser : Httparse) (t : Transport io)
    -- `TcpStream::connect`, none where it fails. Each round connects
    -- anew, and the first argument counts the rounds: the streams of two rounds are unrelated.
    (connect : ℕ → Bytes → ℕ → Option t.Stream) where
  -- `HttpRequest::get(url.clone()).header("Host", &host)`.
  unfoldable pub http10_request : url.Url → Bytes → HttpRequest url.Url
  http10_request u host = with_header (get u) (codes "Host") host

  unfoldable pub http10_ended : Http10SendResult io url parser → Ended url.Url
  http10_ended (ok request response keep_alive) = answered response
  http10_ended (err e) = gave_up
  http10_ended (redirect target request response keep_alive same_origin) = moved target
  -- The inner loop answers it and goes on.
  http10_ended (io_request input) = gave_up

  pub http10_outcome : ℕ → Outcome (Http10SendResult io url parser) → Outcome (Ended (ℕ × url.Url))
  unfolding http10_ended counted
  http10_outcome n (finished r) = finished (counted n (http10_ended r))
  http10_outcome n crashed = crashed
  http10_outcome n unfinished = unfinished

  module _ (calls rounds : ℕ) where
    -- The inner loop, on a stream that is connected or not.
    pub http10_inner : ℕ → url.Url → Bytes → Option t.Stream → Outcome (Ended (ℕ × url.Url))
    unfolding http10_outcome http10_request
    http10_inner n u host none = crashed
    http10_inner n u host (some stream) = http10_outcome n (
        drive (step io url parser) (input_of io url parser) t.handle calls rounds
          (new io url parser (http10_request u host)) none stream)

    pub http10_host : ℕ → url.Url → Option Bytes → Outcome (Ended (ℕ × url.Url))
    unfolding http10_inner
    http10_host n u none = crashed
    http10_host n u (some host) =
        http10_inner n u host (connect n host (get_or (url.port_or_known_default u) 80))

    -- One round of the outer loop, its number in front of the URL.
    unfoldable pub http10_visit : ℕ × url.Url → Outcome (Ended (ℕ × url.Url))
    unfolding http10_host
    http10_visit (n, u) = http10_host n u (url.host_str u)

    http10_main_from : ℕ → Option url.Url → Outcome HttpResponse
    http10_main_from hops none = crashed
    http10_main_from hops (some u) = outer http10_visit hops (0, u)

    -- What `main` prints, from the variable URL of the environment; no more than `hops` requests.
    unfoldable pub http10_main : ℕ → Option Bytes → Outcome Bytes
    unfolding http10_main_from
    http10_main hops env =
        shown (http10_main_from hops (start_url url (codes "http://example.com/") env))
