-- ===== src/Rfc8615/WellKnown.antt =====
-- The `.well-known` discovery (src/rfc8615/well_known.rs), which wraps the HTTP/1.1 exchange.
pub mod Laws
pub mod Whole
pub mod Prepared
use io_http.Prelude.{
  ℕ, ◌++◌, ◌≡◌, ◌≢◌, refl, ap, Bool, true, ◌⊎◌, inl, inr, Option, none, some, arith,
}
use io_http.Text.{Bytes, codes}
use io_http.External.Memchr.{Memchr}
use io_http.External.Url.{UrlApi}
use io_http.External.Httparse.{Httparse}
use io_http.External.Socket.{IoSocket}
use io_http.Coroutine.{Resumed, returned, panicked, out_of_fuel}
use io_http.Rfc9110.Request.{HttpRequest, get}
use io_http.Rfc9110.Response.{HttpResponse}
use io_http.Rfc9112.Send.Types.{Http11SendError, Http11SendResult, Http11Send}
use io_http.Rfc9112.Send.Step

pub data WellKnownError (io : IoSocket) (url : UrlApi) (parser : Httparse) : Type 0 where
  invalid_base_url : url.ParseError → Bytes → WellKnownError io url parser
  send : Http11SendError io parser → WellKnownError io url parser

-- `ok request response keep_alive same_origin redirect_url`.
pub data WellKnownResult (io : IoSocket) (url : UrlApi) (parser : Httparse) : Type 0 where
  io_request : io.SocketInput → WellKnownResult io url parser
  ok :
      HttpRequest url.Url
      → HttpResponse
      → Bool
      → Bool
      → Option url.Url
      → WellKnownResult io url parser
  err : WellKnownError io url parser → WellKnownResult io url parser

pub record WellKnown (io : IoSocket) (url : UrlApi) : Type 0 where
  pub inner : Http11Send io url

module _ (io : IoSocket) (url : UrlApi) (parser : Httparse) where
  well_known_request :
      Bytes → Bytes → url.ParseError ⊎ url.Url → WellKnownError io url parser ⊎ HttpRequest url.Url
  well_known_request base service (inl e) = inl (invalid_base_url e base)
  well_known_request base service (inr u) =
      inr (get (url.set_path u (codes "/.well-known/" ++ service)))

  -- `WellKnown::prepare_request`.
  unfoldable pub prepare_request :
      Bytes → Bytes → WellKnownError io url parser ⊎ HttpRequest url.Url
  unfolding well_known_request
  prepare_request base service = well_known_request base service (url.parse base)

  -- `WellKnown::new`.
  unfoldable pub new : HttpRequest url.Url → WellKnown io url
  new request = record { inner = Step.new io url parser request }

  -- The result of the exchange, as `WellKnown::resume` passes it on.
  unfoldable pub discovered : Http11SendResult io url parser → WellKnownResult io url parser
  discovered (Http11SendResult.io_request input) = io_request input
  discovered (Http11SendResult.ok request response keep_alive) =
      ok request response keep_alive true none
  discovered (Http11SendResult.redirect target request response keep_alive same_origin) =
      ok request response keep_alive same_origin (some target)
  discovered (Http11SendResult.err e) = err (send e)

  passed_on :
      Resumed (Http11Send io url) (Http11SendResult io url parser)
      → Resumed (WellKnown io url) (WellKnownResult io url parser)
  passed_on (returned inner result) = returned (record { inner = inner }) (discovered result)
  passed_on panicked = panicked
  passed_on out_of_fuel = out_of_fuel

  unfoldable pub resume :
      Memchr
      → ℕ
      → WellKnown io url
      → Option io.SocketOutput
      → Resumed (WellKnown io url) (WellKnownResult io url parser)
  unfolding passed_on
  resume mem fuel m arg = passed_on (Step.resume io url parser mem fuel m.inner arg)

  -- The socket input that a result asks for.
  abbrev pub input_of : WellKnownResult io url parser → Option io.SocketInput
  input_of (io_request input) = some input
  input_of (ok request response keep_alive same_origin target) = none
  input_of (err e) = none
