-- ===== src/Examples/TokioHttp11/Run.antt =====
-- One round of the outer loop of examples/tokio_http11_rustls.rs, from the bytes of the stream to the response
-- or the next URL.
use mathlib.Core.Option.{get_or}
use io_http.Prelude.{
  ℕ, suc, ◌≤◌, ◌++◌, ◌≡◌, ◌≢◌, refl, ◌∙◌, ap, not, Bool, ◌⊎◌, inl, inr, Option, some,
}
use io_http.Text.{Bytes}
use io_http.External.Memchr.{Memchr, MemchrLaws}
use io_http.External.Url.{UrlApi}
use io_http.External.Httparse.{Httparse, IsHead}
use io_http.External.Socket.{IoSocket}
use io_http.External.Socket.Transport.{Transport, SocketLaws}
use io_http.External.Socket.Runtime.{RuntimeLaws}
use io_http.Coroutine.Drive.{finished}
use io_http.Rfc9110.Headers.{Headers}
use io_http.Rfc9110.Request.{HttpRequest}
use io_http.Rfc9110.Response.{ResponseBuilder, build}
use io_http.Rfc9110.Redirect.Laws.{RedirectsTo}
use io_http.Rfc9112.Send.Head.{
  Framing, no_body, chunked, until_eof, lengthed, is_http10, no_content, response_of, closes,
  framing,
}
use io_http.Rfc9112.Send.Step.Finish.{finish_cases}
use io_http.Rfc9112.Send.Step.Payloads.{Payload, received}
use io_http.Rfc9112.Send.Step.Received.{exchange_complete}
use io_http.Examples.Redirects.{answered, moved, outer, followed, counted}
use io_http.Examples.TokioHttp11.{
  http11_request, http11_ended, http11_outcome, http11_host, http11_inner, http11_visit,
}

module _ (io : IoSocket) (url : UrlApi) (parser : Httparse) (mem : Memchr) (t : Transport io)
    (connect : ℕ → Bytes → ℕ → Option t.Stream) where
  received-stays :
      (how : Framing) (q : HttpRequest url.Url) (b : ResponseBuilder) (body : Bytes) (keep : Bool)
      → (how ≡ no_body) ⊎ ((v : url.Url) → ¬ RedirectsTo url q (build b body) v)
      → http11_ended io url parser mem t connect (received io url parser how q b body keep)
        ≡ answered (build b body)
  unfolding http11_ended
  received-stays no_body q b body keep h = refl
  received-stays until_eof q b body keep (inl h) = cc
  received-stays until_eof q b body keep (inr h) =
      ap (http11_ended io url parser mem t connect)
        ((finish_cases io url parser q (build b body) keep).1 h)
  received-stays chunked q b body keep (inl h) = cc
  received-stays chunked q b body keep (inr h) =
      ap (http11_ended io url parser mem t connect)
        ((finish_cases io url parser q (build b body) keep).1 h)
  received-stays (lengthed n) q b body keep (inl h) = cc
  received-stays (lengthed n) q b body keep (inr h) =
      ap (http11_ended io url parser mem t connect)
        ((finish_cases io url parser q (build b body) keep).1 h)

  received-moves :
      (how : Framing) (q : HttpRequest url.Url) (b : ResponseBuilder) (body : Bytes) (keep : Bool)
      (v : url.Url)
      → how ≢ no_body
      → RedirectsTo url q (build b body) v
      → http11_ended io url parser mem t connect (received io url parser how q b body keep)
        ≡ moved v
  unfolding http11_ended
  received-moves no_body q b body keep v ne h = absurd (ne refl)
  received-moves until_eof q b body keep v ne h =
      ap (http11_ended io url parser mem t connect)
        ((finish_cases io url parser q (build b body) keep).0 v h)
  received-moves chunked q b body keep v ne h =
      ap (http11_ended io url parser mem t connect)
        ((finish_cases io url parser q (build b body) keep).0 v h)
  received-moves (lengthed n) q b body keep v ne h =
      ap (http11_ended io url parser mem t connect)
        ((finish_cases io url parser q (build b body) keep).0 v h)

  module _ (first : MemchrLaws mem) (laws : SocketLaws io t) (runtime : RuntimeLaws io t) where
    -- One round of the outer loop of the HTTP/1.1 example, at a URL with a domain that can be
    -- connected to, over a stream that delivers a head that the parser knows and a body in the
    -- framing that it announces, in pieces of any size: with enough fuel for the inner loop, a
    -- response that is no redirect, or that is a 204 or a 304, is what the outer loop returns, and
    -- after any other that redirects the outer loop goes on at its target with one request less,
    -- over the next connection.
    pub http11_round :
        (n : ℕ) (u : url.Url) (host : Bytes) (s : t.Stream) (head payload body : Bytes)
        (version code : Option ℕ) (lines : Headers)
        → url.domain u ≡ some host
        → connect n host (get_or (url.port_or_known_default u) 443) ≡ some s
        → IsHead parser head version code lines
        → t.pending s ≡ head ++ payload
        → Payload
            (framing (is_http10 version) (no_content code) (response_of version code lines))
            payload
            body
        → (enough : ℕ) × ((fuel calls rounds hops : ℕ)
            → enough ≤ fuel
            → enough ≤ calls
            → enough ≤ rounds
            → ((framing (is_http10 version) (no_content code) (response_of version code lines)
                    ≡ no_body)
                  ⊎ ((v : url.Url)
                      → ¬ RedirectsTo url
                          (http11_request io url parser mem t connect u host)
                          (build (response_of version code lines) body)
                          v)
                → outer
                    (http11_visit io url parser mem t connect fuel calls rounds)
                    (suc hops)
                    (n, u)
                  ≡ finished (build (response_of version code lines) body))
              × ((v : url.Url)
                  → framing (is_http10 version) (no_content code) (response_of version code lines)
                    ≢ no_body
                  → RedirectsTo url
                      (http11_request io url parser mem t connect u host)
                      (build (response_of version code lines) body)
                      v
                  → outer
                      (http11_visit io url parser mem t connect fuel calls rounds)
                      (suc hops)
                      (n, u)
                    ≡ outer
                        (http11_visit io url parser mem t connect fuel calls rounds)
                        hops
                        (suc n, v)))
    unfolding outer followed counted http11_visit http11_host http11_inner http11_outcome
    http11_round n u host s head payload body version code lines at_host connected is_head arrives
          carries =
        let q = http11_request io url parser mem t connect u host in
        let how = framing (is_http10 version) (no_content code) (response_of version code lines) in
        let keep = not (closes (is_http10 version) (response_of version code lines)) in
        let (enough, h) =
          exchange_complete io url parser mem t first laws runtime q head payload body version code
            lines is_head carries s arrives in
        (
          enough,
          λ fuel calls rounds hops f p l.
              let visited : http11_visit io url parser mem t connect fuel calls rounds (n, u)
                  ≡ finished (
                      counted n (
                        http11_ended io url parser mem t connect (
                          received io url parser how q (response_of version code lines) body
                            keep))) =
                ap (http11_host io url parser mem t connect fuel calls rounds n u) at_host
                ∙ ap (http11_inner io url parser mem t connect fuel calls rounds n u host) connected
                ∙ ap (http11_outcome io url parser mem t connect n) (h fuel calls rounds f p l) in
              let go = λ (o : _).
                followed o
                  (outer (http11_visit io url parser mem t connect fuel calls rounds) hops) in
              (
                λ stays.
                    ap go visited
                    ∙ ap (λ x. go (finished (counted n x)))
                        (received-stays how q (response_of version code lines) body keep stays),
                λ v ne moves.
                    ap go visited
                    ∙ ap (λ x. go (finished (counted n x)))
                        (received-moves how q (response_of version code lines) body keep v ne
                          moves),
              ),
        )
