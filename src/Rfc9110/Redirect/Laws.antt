-- ===== src/Rfc9110/Redirect/Laws.antt =====
-- When a response is a redirect, and where to.
use io_http.Prelude.{
  ◌≤◌, ◌<◌, ◌≡◌, ◌∙◌, sym, ◌⊎◌, inl, inr, true, Option, none, some, Option-cases, Bool-cases,
}
use io_http.Text.{Bytes}
use io_http.External.Url.{UrlApi}
use io_http.Rfc9110.Headers.{location}
use io_http.Rfc9110.Status.{is_redirection, status_classes}
use io_http.Rfc9110.Request.{HttpRequest}
use io_http.Rfc9110.Response.{HttpResponse, header}
use io_http.Rfc9110.Redirect.{redirect_target, parsed_target}

module _ (url : UrlApi) where
  -- A code from 300 to 399 and a Location that the request's URL can be joined with.
  abbrev pub RedirectsTo : HttpRequest url.Url → HttpResponse → url.Url → Type 0
  RedirectsTo request response target =
      ((300 ≤ response.status.code) × (response.status.code < 400))
      × ((l : Bytes) × (header response location ≡ some l) × (url.join request.url l ≡ inr target))

  redirect_target-located :
      (request : HttpRequest url.Url) (response : HttpResponse) (o : Option Bytes)
      → is_redirection response.status ≡ true
      → header response location ≡ o
      → redirect_target url request response
        ≡ (elim o [ none ↦ none | some l ↦ parsed_target url (url.join request.url l) ])
  redirect_target-located request response o e f =
      unfold redirect_target in rw (e, f, redirect_target)

  pub redirect_target-RedirectsTo :
      (request : HttpRequest url.Url) (response : HttpResponse) (target : url.Url)
      → RedirectsTo request response target
      → redirect_target url request response ≡ some target
  unfolding parsed_target
  redirect_target-RedirectsTo request response target (range, (l, e, f)) =
      redirect_target-located request response (some l) ((status_classes response.status).1.1 range)
        e
      ∙ (rw (f, parsed_target))

  parsed_target-some :
      (p : url.ParseError ⊎ url.Url) (target : url.Url)
      → parsed_target url p ≡ some target
      → p ≡ inr target
  unfolding parsed_target
  parsed_target-some (inl x) target h = cc
  parsed_target-some (inr u) target h = cc

  pub RedirectsTo-redirect_target :
      (request : HttpRequest url.Url) (response : HttpResponse) (target : url.Url)
      → redirect_target url request response ≡ some target
      → RedirectsTo request response target
  RedirectsTo-redirect_target request response target h =
      elim (Bool-cases (is_redirection response.status)) [
        | inr e ↦
            let nowhere : redirect_target url request response ≡ none =
              unfold redirect_target in rw (e, redirect_target) in
            cc
        | inl e ↦ elim (Option-cases (header response location)) [
          | inl f ↦ let nowhere = redirect_target-located request response none e f in cc
          | inr (l, f) ↦
              let located = redirect_target-located request response (some l) e f in
              (
                (status_classes response.status).1.0 e,
                (l, f, parsed_target-some (url.join request.url l) target (sym located ∙ h)),
              )
        ]
      ]

  pub redirect_target-none :
      (request : HttpRequest url.Url) (response : HttpResponse)
      → ((target : url.Url) → ¬ RedirectsTo request response target)
      → redirect_target url request response ≡ none
  redirect_target-none request response h =
      elim (Option-cases (redirect_target url request response)) [
        | inl e ↦ e
        | inr (u, e) ↦ absurd (h u (RedirectsTo-redirect_target request response u e))
      ]
