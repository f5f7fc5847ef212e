-- ===== src/Examples/TokioHttp11/Prints.antt =====
-- The whole of examples/tokio_http11_rustls.rs: from the environment to what is printed.
use mathlib.Core.Option.{get_or}
use io_http.Prelude.{ℕ, suc, ◌+◌, ◌≤◌, ◌++◌, ◌≡◌, ◌≢◌, sym, ◌∙◌, ap, ◌⊎◌, Option, some, arith}
use io_http.Text.{Bytes, codes}
use io_http.External.Memchr.{Memchr, MemchrLaws}
use io_http.External.Url.{UrlApi}
use io_http.External.Httparse.{Httparse, IsHead}
use io_http.External.Socket.{IoSocket}
use io_http.External.Socket.Transport.{Transport, SocketLaws}
use io_http.External.Socket.Runtime.{RuntimeLaws}
use io_http.Coroutine.Drive.{finished}
use io_http.Rfc9110.Headers.{Headers}
use io_http.Rfc9110.Request.{HttpRequest, with_header, get}
use io_http.Rfc9110.Response.{HttpResponse, build}
use io_http.Rfc9110.Redirect.Laws.{RedirectsTo}
use io_http.Rfc9112.Send.Head.{Framing, no_body, is_http10, no_content, response_of, framing}
use io_http.Rfc9112.Send.Step.Payloads.{Payload}
use io_http.Examples.Redirects.{outer, shown}
use io_http.Examples.Redirects.Printed.{page_text, printed-page_text, StartsAt, start_url-StartsAt}
use io_http.Examples.TokioHttp11.{http11_request, http11_visit, http11_main, http11_main_from}
use io_http.Examples.TokioHttp11.Asks.{asking, Sends, round-sends}
use io_http.Examples.TokioHttp11.Run.{http11_round}

module _ (io : IoSocket) (url : UrlApi) (parser : Httparse) (mem : Memchr) (t : Transport io)
    (connect : ℕ → Bytes → ℕ → Option t.Stream) where
  -- What the connection of one round, to the host of a URL, delivers: a head that the parser knows,
  -- and a body in the framing that it announces.
  pub record Page (round : ℕ) (u : url.Url) : Type 0 where
    pub host : Bytes
    pub stream : t.Stream
    pub head : Bytes
    pub payload : Bytes
    pub body : Bytes
    pub version : Option ℕ
    pub code : Option ℕ
    pub lines : Headers
    pub at_host : url.domain u ≡ some host
    pub connected : connect round host (get_or (url.port_or_known_default u) 443) ≡ some stream
    pub is_head : IsHead parser head version code lines
    pub arrives : t.pending stream ≡ head ++ payload
    pub carries :
        Payload
          (framing (is_http10 version) (no_content code) (response_of version code lines))
          payload
          body

  module _ {round : ℕ} {u : url.Url} (p : Page round u) where
    abbrev pub asked : HttpRequest url.Url
    asked = asking io url parser mem t connect round u p.host p.stream

    abbrev pub how : Framing
    how = framing (is_http10 p.version) (no_content p.code) (response_of p.version p.code p.lines)

    abbrev pub reply : HttpResponse
    reply = build (response_of p.version p.code p.lines) p.body

  -- From a round at a URL, pages that redirect lead, each over the next connection, to one that does
  -- not, whose response is `r`, after so many redirects. The pages of two rounds are unrelated, also
  -- on one host.
  pub data Trail (r : HttpResponse) : ℕ → ℕ → url.Url → Type 0 where
    last :
        {n round : ℕ} {u : url.Url} (p : Page round u)
        → (how p ≡ no_body) ⊎ ((v : url.Url) → ¬ RedirectsTo url (asked p) (reply p) v)
        → r ≡ reply p
        → n ≡ 0
        → Trail r n round u
    hop :
        {n k round : ℕ} {u v : url.Url} (p : Page round u)
        → how p ≢ no_body
        → RedirectsTo url (asked p) (reply p) v
        → Trail r k (suc round) v
        → n ≡ suc k
        → Trail r n round u

  -- Each page of a trail is asked for.
  abbrev pub AllSend : {r : HttpResponse} {n round : ℕ} {u : url.Url} → Trail r n round u → Type 0
  AllSend (last {n} {round} {u} p stays same none_before) =
      Sends io url parser mem t connect round u p.host p.stream
  AllSend (hop {n} {k} {round} {u} {v} p has_body moves trail one_more) =
      Sends io url parser mem t connect round u p.host p.stream × AllSend trail

  module _ (first : MemchrLaws mem) (laws : SocketLaws io t) (runtime : RuntimeLaws io t) where
    Trail-outer :
        {r : HttpResponse} {n round : ℕ} {u : url.Url}
        → Trail r n round u
        → (enough : ℕ) × ((fuel calls rounds more : ℕ)
            → enough ≤ fuel
            → enough ≤ calls
            → enough ≤ rounds
            → outer
                (http11_visit io url parser mem t connect fuel calls rounds)
                (suc (n + more))
                (round, u)
              ≡ finished r)
    unfolding http11_request with_header get
    Trail-outer (last {n} {round} {u} p stays same none_before) =
        let (enough, h) =
          http11_round io url parser mem t connect first laws runtime round u p.host p.stream p.head
            p.payload p.body p.version p.code p.lines p.at_host p.connected p.is_head p.arrives
            p.carries in
        (
          enough,
          λ fuel calls rounds more b c d.
              (h fuel calls rounds (n + more) b c d).0 stays ∙ ap finished (sym same),
        )
    Trail-outer (hop {n} {k} {round} {u} {v} p has_body moves trail one_more) =
        let (enough, h) =
          http11_round io url parser mem t connect first laws runtime round u p.host p.stream p.head
            p.payload p.body p.version p.code p.lines p.at_host p.connected p.is_head p.arrives
            p.carries in
        let (later, g) = Trail-outer trail in
        (
          enough + later,
          λ fuel calls rounds more b c d.
              let count : n + more ≡ suc (k + more) = omega arith in
              (h fuel calls rounds (n + more) (omega arith) (omega arith) (omega arith)).1 v
                has_body moves
              ∙ ap
                  (λ x.
                    outer (http11_visit io url parser mem t connect fuel calls rounds) x
                      (suc round, v))
                  count
              ∙ g fuel calls rounds more (omega arith) (omega arith) (omega arith),
        )

    Trail-AllSend :
        {r : HttpResponse} {n round : ℕ} {u : url.Url} (trail : Trail r n round u) → AllSend trail
    Trail-AllSend (last {n} {round} {u} p stays same none_before) =
        round-sends io url parser mem t connect round u p.host p.stream runtime p.at_host
          p.connected
    Trail-AllSend (hop {n} {k} {round} {u} {v} p has_body moves trail one_more) = (
      round-sends io url parser mem t connect round u p.host p.stream runtime p.at_host p.connected,
      Trail-AllSend trail,
    )

    -- The HTTP/1.1 example as a whole: where the URL of the environment, or the default one, parses,
    -- and pages that redirect, each over a connection of its own, also on one host, lead from it to one
    -- that does not, the program prints the response of that last page (its version, code and headers,
    -- then its body, read as lossy UTF-8), with enough fuel and as soon as it may send one request more
    -- than there are redirects. Each page on the way is asked for with a GET of its path and query, with
    -- its Host and Connection lines, written before anything is read from its connection.
    pub http11_prints :
        (env : Option Bytes) (u : url.Url) (r : HttpResponse) (n : ℕ)
        → StartsAt url (codes "https://example.com/") env u
        → (trail : Trail r n 0 u)
        → AllSend trail
          × (enough : ℕ) × ((fuel calls rounds more : ℕ)
              → enough ≤ fuel
              → enough ≤ calls
              → enough ≤ rounds
              → http11_main io url parser mem t connect fuel calls rounds (suc (n + more)) env
                ≡ finished (page_text r))
    unfolding http11_main http11_main_from shown
    http11_prints env u r n starts trail =
        let (enough, h) = Trail-outer trail in
        (
          Trail-AllSend trail,
          enough,
          λ fuel calls rounds more b c d.
              ap
                (λ x. shown (
                  http11_main_from io url parser mem t connect fuel calls rounds (suc (n + more))
                    x))
                (start_url-StartsAt url _ env u starts)
              ∙ ap shown (h fuel calls rounds more b c d)
              ∙ ap finished (printed-page_text r),
        )
