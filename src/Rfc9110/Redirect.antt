-- ===== src/Rfc9110/Redirect.antt =====
-- The target and the origin of a redirect, as `finish` of src/rfc9112/send.rs and of
-- src/rfc1945/send.rs find them.
pub mod Laws
pub mod Origin
use io_http.Prelude.{
  ℕ, Bool, true, false, ◌&&◌, ◌⊎◌, inl, inr, Option, none, some, ◌==◌, if◌then◌else◌,
}
use io_http.Text.{bytes_eq}
use io_http.External.Url.{UrlApi}
use io_http.Rfc9110.Headers.{location}
use io_http.Rfc9110.Status.{is_redirection}
use io_http.Rfc9110.Request.{HttpRequest}
use io_http.Rfc9110.Response.{HttpResponse, header}

ports_eq : Option ℕ → Option ℕ → Bool
ports_eq none none = true
ports_eq (some a) (some b) = a == b
ports_eq _ _ = false

module _ (url : UrlApi) where
  hosts_eq : Option url.Host → Option url.Host → Bool
  hosts_eq none none = true
  hosts_eq (some a) (some b) = url.host_eq a b
  hosts_eq _ _ = false

  -- Same scheme, same host and same port.
  unfoldable pub same_origin : url.Url → url.Url → Bool
  unfolding hosts_eq ports_eq
  same_origin a b =
      bytes_eq (url.scheme a) (url.scheme b)
      && (hosts_eq (url.host a) (url.host b) && ports_eq (url.port a) (url.port b))

  parsed_target : url.ParseError ⊎ url.Url → Option url.Url
  parsed_target (inl e) = none
  parsed_target (inr u) = some u

  -- The joined Location of a 3xx response, if it has one that can be parsed.
  unfoldable pub redirect_target : HttpRequest url.Url → HttpResponse → Option url.Url
  unfolding parsed_target
  redirect_target request response =
      if is_redirection response.status
      then (elim (header response location) [
        | none ↦ none
        | some l ↦ parsed_target (url.join request.url l)
      ])
      else none
