-- ===== src/Examples/TokioHttp11/Asks.antt =====
-- What a round of examples/tokio_http11_rustls.rs sends.
use mathlib.Core.Option.{get_or}
use io_http.Prelude.{ℕ, ◌+◌, ◌≤◌, [], ◌∷◌, ◌++◌, ◌≡◌, ◌∙◌, ap, Option, some}
use io_http.Text.{Bytes, codes}
use io_http.External.Memchr.{Memchr}
use io_http.External.Url.{UrlApi}
use io_http.External.Httparse.{Httparse}
use io_http.External.Socket.{IoSocket}
use io_http.External.Socket.Transport.{Transport}
use io_http.External.Socket.Runtime.{RuntimeLaws}
use io_http.Coroutine.Drive.{drive}
use io_http.Rfc9110.Request.{HttpRequest, get, with_header}
use io_http.Rfc9110.Wire.{http_11, serialize}
use io_http.Rfc9112.Send.Types.{sending}
use io_http.Rfc9112.Send.Step.{new, step, input_of}
use io_http.Rfc9112.Send.Step.Written.{request_written}
use io_http.Examples.TokioHttp11.{
  http11_request, http11_visit, http11_host, http11_inner, http11_outcome,
}

module _ (io : IoSocket) (url : UrlApi) (parser : Httparse) (mem : Memchr) (t : Transport io)
    (connect : ℕ → Bytes → ℕ → Option t.Stream) (round : ℕ) (u : url.Url) (host : Bytes)
    (s : t.Stream) where
  abbrev pub asking : HttpRequest url.Url
  asking = record {
    method = codes "GET";
    url = u;
    headers = (codes "Host", host) ∷ (codes "Connection", codes "close") ∷ [];
    body = [];
  }

  -- Before it reads anything, the round sends a GET of the URL's path and query with its header lines
  -- over the connection, and nothing else; then the exchange goes on from the end of the last write.
  abbrev pub Sends : Type 0
  Sends =
      (before : ℕ) × (w : io.SocketWrite) × (answer : io.SocketOutput) × (s' : t.Stream) × (t.sent
          s'
        ≡ t.sent s ++ serialize (codes "GET") (url.path u) (url.query u) http_11 asking.headers [])
      × (t.pending s' ≡ t.pending s)
      × ((fuel calls rounds : ℕ)
          → 2 ≤ calls
          → http11_visit io url parser mem t connect fuel calls (before + rounds) (round, u)
            ≡ http11_outcome io url parser mem t connect round (
                drive (step io url parser mem fuel) (input_of io url parser) t.handle calls rounds
                  (record (new io url parser asking) { state = sending w }) (some answer) s'))

  pub round-sends :
      RuntimeLaws io t
      → url.domain u ≡ some host
      → connect round host (get_or (url.port_or_known_default u) 443) ≡ some s
      → Sends
  unfolding http11_visit http11_host http11_inner http11_request with_header get
  round-sends runtime at_host connected =
      let (before, w, answer, s', taken, unread, goes_on, runs) =
        request_written io url parser mem t runtime asking s in
      (
        before,
        w,
        answer,
        s',
        taken,
        unread,
        λ fuel calls rounds h.
            ap (http11_host io url parser mem t connect fuel calls (before + rounds) round u)
              at_host
            ∙ ap
                (http11_inner io url parser mem t connect fuel calls (before + rounds) round u host)
                connected
            ∙ ap (http11_outcome io url parser mem t connect round) (runs fuel calls rounds h),
      )
