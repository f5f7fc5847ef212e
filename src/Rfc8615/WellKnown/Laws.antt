-- ===== src/Rfc8615/WellKnown/Laws.antt =====
-- What the discovery makes of a base URL, and of the end of the HTTP/1.1 exchange.
use io_http.Prelude.{◌≡◌, ap, Bool, true, none, some}
use io_http.External.Url.{UrlApi}
use io_http.External.Httparse.{Httparse}
use io_http.External.Socket.{IoSocket}
use io_http.Rfc9110.Request.{HttpRequest}
use io_http.Rfc9110.Response.{HttpResponse}
use io_http.Rfc9110.Redirect.{same_origin}
use io_http.Rfc9110.Redirect.Laws.{RedirectsTo}
use io_http.Rfc9112.Send.Step.{finish}
use io_http.Rfc9112.Send.Step.Finish.{finish_cases}
use io_http.Rfc8615.WellKnown.{ok, discovered}

module _ (io : IoSocket) (url : UrlApi) (parser : Httparse) where
  -- A response that redirects is reported with its target and whether that is of the request's
  -- origin; any other response is reported with no target and as of the same origin.
  pub discovered-finish :
      (request : HttpRequest url.Url) (response : HttpResponse) (keep_alive : Bool)
      → ((target : url.Url)
          → RedirectsTo url request response target
          → discovered io url parser (finish io url parser request response keep_alive)
            ≡ ok request response keep_alive (same_origin url request.url target) (some target))
        × (((target : url.Url) → ¬ RedirectsTo url request response target)
            → discovered io url parser (finish io url parser request response keep_alive)
              ≡ ok request response keep_alive true none)
  unfolding discovered
  discovered-finish request response keep_alive =
      let (to, stay) = finish_cases io url parser request response keep_alive in
      (
        λ target r. ap (discovered io url parser) (to target r),
        λ h. ap (discovered io url parser) (stay h),
      )
