-- ===== src/Rfc1945/Send/Step/Finish.antt =====
-- How an exchange ends: `finish` of src/rfc1945/send.rs.
use io_http.Prelude.{◌≡◌, Bool}
use io_http.External.Url.{UrlApi}
use io_http.External.Httparse.{Httparse}
use io_http.External.Socket.{IoSocket}
use io_http.Rfc9110.Request.{HttpRequest}
use io_http.Rfc9110.Response.{HttpResponse}
use io_http.Rfc9110.Redirect.{same_origin}
use io_http.Rfc9110.Redirect.Laws.{RedirectsTo, redirect_target-RedirectsTo, redirect_target-none}
use io_http.Rfc1945.Send.Types.{ok, redirect}
use io_http.Rfc1945.Send.Step.{finish}

module _ (io : IoSocket) (url : UrlApi) (parser : Httparse) where
  -- A response that redirects to a target ends the exchange as a redirect there, with whether the
  -- target is of the request's origin; any other response ends it as the response itself. The
  -- request, the response and the fate of the connection are passed on as they are.
  pub finish_http10_cases :
      (request : HttpRequest url.Url) (response : HttpResponse) (keep_alive : Bool)
      → ((target : url.Url)
          → RedirectsTo url request response target
          → finish io url parser request response keep_alive
            ≡ redirect target request response keep_alive (same_origin url request.url target))
        × (((target : url.Url) → ¬ RedirectsTo url request response target)
            → finish io url parser request response keep_alive ≡ ok request response keep_alive)
  finish_http10_cases request response keep_alive = (
    λ target r.
        unfold finish in rw (redirect_target-RedirectsTo url request response target r, finish),
    λ h. unfold finish in rw (redirect_target-none url request response h, finish),
  )
