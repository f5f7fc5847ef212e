-- ===== src/Rfc9112/Send/Step/Finish.antt =====
-- How an exchange ends: `finish` of src/rfc9112/send.rs.
use io_http.Prelude.{◌≡◌, refl, sym, ◌∙◌, ◌↔◌, Bool, true, Option, none, some}
use io_http.External.Url.{UrlApi}
use io_http.External.Httparse.{Httparse}
use io_http.External.Socket.{IoSocket}
use io_http.Rfc9110.Request.{HttpRequest}
use io_http.Rfc9110.Response.{HttpResponse}
use io_http.Rfc9110.Redirect.{same_origin, redirect_target}
use io_http.Rfc9110.Redirect.Origin.{SameOrigin, same_origin_iff}
use io_http.Rfc9110.Redirect.Laws.{
  RedirectsTo, redirect_target-RedirectsTo, redirect_target-none, RedirectsTo-redirect_target,
}
use io_http.Rfc9112.Send.Types.{ok, redirect}
use io_http.Rfc9112.Send.Step.{finish}

module _ (io : IoSocket) (url : UrlApi) (parser : Httparse) where
  -- A response that redirects to a target ends the exchange as a redirect there, with whether the
  -- target is of the request's origin; any other response ends it as the response itself. The
  -- request, the response and the fate of the connection are passed on as they are.
  pub finish_cases :
      (request : HttpRequest url.Url) (response : HttpResponse) (keep_alive : Bool)
      → ((target : url.Url)
          → RedirectsTo url request response target
          → finish io url parser request response keep_alive
            ≡ redirect target request response keep_alive (same_origin url request.url target))
        × (((target : url.Url) → ¬ RedirectsTo url request response target)
            → finish io url parser request response keep_alive ≡ ok request response keep_alive)
  finish_cases request response keep_alive = (
    λ target r.
        unfold finish in rw (redirect_target-RedirectsTo url request response target r, finish),
    λ h. unfold finish in rw (redirect_target-none url request response h, finish),
  )

  finished_with :
      (o : Option url.Url) (q q' : HttpRequest url.Url) (response response' : HttpResponse)
      (keep keep' : Bool) (target : url.Url) (origin : Bool)
      → redirect_target url q response ≡ o
      → finish io url parser q response keep ≡ redirect target q' response' keep' origin
      → (o ≡ some target)
        × (q' ≡ q)
        × (response' ≡ response)
        × (keep' ≡ keep)
        × (origin ≡ same_origin url q.url target)
  finished_with none q q' response response' keep keep' target origin e h =
      let stays : finish io url parser q response keep ≡ ok q response keep =
        unfold finish in rw (e, finish) in
      cc
  finished_with (some v) q q' response response' keep keep' target origin e h =
      let moves : finish io url parser q response keep
          ≡ redirect v q response keep (same_origin url q.url v) =
        unfold finish in rw (e, finish) in
      (cc, cc, cc, cc, cc)

  module _ (host_eq_iff : (a b : url.Host) → (url.host_eq a b ≡ true) ↔ (a ≡ b)) where
    -- Where an HTTP/1.1 exchange ends with a redirect, it carries the request, the response and the
    -- fate of the connection as they are, the response redirects to the target, and the flag of the
    -- same origin is set exactly if the scheme, the host and the port of the target are those of the
    -- request's URL; `==` on hosts is taken to be equality.
    pub finish_origin :
        (q q' : HttpRequest url.Url) (response response' : HttpResponse) (keep keep' : Bool)
        (target : url.Url) (origin : Bool)
        → finish io url parser q response keep ≡ redirect target q' response' keep' origin
        → (q' ≡ q)
          × (response' ≡ response)
          × (keep' ≡ keep)
          × RedirectsTo url q response target
          × ((origin ≡ true) ↔ SameOrigin url host_eq_iff q.url target)
    finish_origin q q' response response' keep keep' target origin h =
        let (moves, same_q, same_response, same_keep, flag) =
          finished_with (redirect_target url q response) q q' response response' keep keep' target
            origin refl h in
        let (there, back) = same_origin_iff url host_eq_iff q.url target in
        (
          same_q,
          same_response,
          same_keep,
          RedirectsTo-redirect_target url q response target moves,
          (λ o. there (sym flag ∙ o), λ s. flag ∙ back s),
        )
