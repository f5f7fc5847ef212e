-- ===== src/Examples/StdHttp10/Run.antt =====
-- One round of the outer loop of examples/std_http10.rs, from the bytes of the stream to the response
-- or the next URL.
use mathlib.Core.Option.{get_or}
use io_http.Prelude.{
  ℕ, suc, ◌≤◌, ◌++◌, ◌≡◌, ◌≢◌, refl, ◌∙◌, ap, Bool, ◌⊎◌, inl, inr, false, Option, some,
}
use io_http.Text.{Bytes}
use io_http.External.Url.{UrlApi}
use io_http.External.Httparse.{Httparse, IsHead}
use io_http.External.Socket.{IoSocket}
use io_http.External.Socket.Transport.{Transport, SocketLaws}
use io_http.External.Socket.Runtime.{RuntimeLaws}
use io_http.Coroutine.Drive.{finished}
use io_http.Rfc9110.Headers.{Headers}
use io_http.Rfc9110.Request.{HttpRequest}
use io_http.Rfc9110.Response.{ResponseBuilder, build}
use io_http.Rfc9110.Redirect.Laws.{RedirectsTo}
use io_http.Rfc1945.Send.Head.{
  Framing, no_body, until_eof, lengthed, no_content, response_of, persists, framing,
}
use io_http.Rfc1945.Send.Step.Finish.{finish_http10_cases}
use io_http.Rfc1945.Send.Step.Payloads.{Payload, received}
use io_http.Rfc1945.Send.Step.Received.{http10_complete}
use io_http.Examples.Redirects.{answered, moved, outer, followed, counted}
use io_http.Examples.StdHttp10.{
  http10_request, http10_ended, http10_outcome, http10_host, http10_inner, http10_visit,
}

module _ (io : IoSocket) (url : UrlApi) (parser : Httparse) (t : Transport io)
    (connect : ℕ → Bytes → ℕ → Option t.Stream) where
  received-stays :
      (how : Framing) (q : HttpRequest url.Url) (b : ResponseBuilder) (body : Bytes) (keep : Bool)
      → (how ≡ no_body) ⊎ ((v : url.Url) → ¬ RedirectsTo url q (build b body) v)
      → http10_ended io url parser t connect (received io url parser how q b body keep)
        ≡ answered (build b body)
  unfolding http10_ended
  received-stays no_body q b body keep h = refl
  received-stays until_eof q b body keep (inl h) = cc
  received-stays until_eof q b body keep (inr h) =
      ap (http10_ended io url parser t connect)
        ((finish_http10_cases io url parser q (build b body) keep).1 h)
  received-stays (lengthed n) q b body keep (inl h) = cc
  received-stays (lengthed n) q b body keep (inr h) =
      ap (http10_ended io url parser t connect)
        ((finish_http10_cases io url parser q (build b body) keep).1 h)

  received-moves :
      (how : Framing) (q : HttpRequest url.Url) (b : ResponseBuilder) (body : Bytes) (keep : Bool)
      (v : url.Url)
      → how ≢ no_body
      → RedirectsTo url q (build b body) v
      → http10_ended io url parser t connect (received io url parser how q b body keep) ≡ moved v
  unfolding http10_ended
  received-moves no_body q b body keep v ne h = absurd (ne refl)
  received-moves until_eof q b body keep v ne h =
      ap (http10_ended io url parser t connect)
        ((finish_http10_cases io url parser q (build b body) keep).0 v h)
  received-moves (lengthed n) q b body keep v ne h =
      ap (http10_ended io url parser t connect)
        ((finish_http10_cases io url parser q (build b body) keep).0 v h)

  module _ (laws : SocketLaws io t) (runtime : RuntimeLaws io t) where
    -- One round of the outer loop of the HTTP/1.0 example, at a URL with a host that can be
    -- connected to, over a stream that delivers a head that the parser knows and a body in the
    -- framing that it announces, in pieces of any size: with enough fuel for the inner loop, a
    -- response that is no redirect, or that is a 204 or a 304, is what the outer loop returns, and
    -- after any other that redirects the outer loop goes on at its target with one request less,
    -- over the next connection.
    pub http10_round :
        (n : ℕ) (u : url.Url) (host : Bytes) (s : t.Stream) (head payload body : Bytes)
        (version code : Option ℕ) (lines : Headers)
        → url.host_str u ≡ some host
        → connect n host (get_or (url.port_or_known_default u) 80) ≡ some s
        → IsHead parser head version code lines
        → t.pending s ≡ head ++ payload
        → Payload (framing (no_content code) (response_of code lines)) payload body
        → (enough : ℕ) × ((calls rounds hops : ℕ)
            → enough ≤ calls
            → enough ≤ rounds
            → ((framing (no_content code) (response_of code lines) ≡ no_body)
                  ⊎ ((v : url.Url)
                      → ¬ RedirectsTo url
                          (http10_request io url parser t connect u host)
                          (build (response_of code lines) body)
                          v)
                → outer (http10_visit io url parser t connect calls rounds) (suc hops) (n, u)
                  ≡ finished (build (response_of code lines) body))
              × ((v : url.Url)
                  → framing (no_content code) (response_of code lines) ≢ no_body
                  → RedirectsTo url
                      (http10_request io url parser t connect u host)
                      (build (response_of code lines) body)
                      v
                  → outer (http10_visit io url parser t connect calls rounds) (suc hops) (n, u)
                    ≡ outer (http10_visit io url parser t connect calls rounds) hops (suc n, v)))
    unfolding outer followed counted http10_visit http10_host http10_inner http10_outcome
    http10_round n u host s head payload body version code lines at_host connected is_head arrives
          carries =
        let q = http10_request io url parser t connect u host in
        let how = framing (no_content code) (response_of code lines) in
        let keep = persists false (response_of code lines) in
        let (enough, h) =
          http10_complete io url parser t laws runtime q head payload version code lines is_head s
            arrives body carries in
        (
          enough,
          λ calls rounds hops p l.
              let visited : http10_visit io url parser t connect calls rounds (n, u)
                  ≡ finished (
                      counted n (
                        http10_ended io url parser t connect
                          (received io url parser how q (response_of code lines) body keep))) =
                ap (http10_host io url parser t connect calls rounds n u) at_host
                ∙ ap (http10_inner io url parser t connect calls rounds n u host) connected
                ∙ ap (http10_outcome io url parser t connect n) (h calls rounds p l) in
              let go = λ (o : _).
                followed o (outer (http10_visit io url parser t connect calls rounds) hops) in
              (
                λ stays.
                    ap go visited
                    ∙ ap (λ x. go (finished (counted n x)))
                        (received-stays how q (response_of code lines) body keep stays),
                λ v ne moves.
                    ap go visited
                    ∙ ap (λ x. go (finished (counted n x)))
                        (received-moves how q (response_of code lines) body keep v ne moves),
              ),
        )
