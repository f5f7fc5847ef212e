-- ===== src/Examples/StdHttp10/Asks.antt =====
-- What a round of examples/std_http10.rs sends.
use mathlib.Core.Option.{get_or}
use io_http.Prelude.{ℕ, ◌+◌, ◌≤◌, [], ◌∷◌, ◌++◌, ◌≡◌, ◌∙◌, ap, Option, some}
use io_http.Text.{Bytes, codes}
use io_http.External.Url.{UrlApi}
use io_http.External.Httparse.{Httparse}
use io_http.External.Socket.{IoSocket}
use io_http.External.Socket.Transport.{Transport}
use io_http.External.Socket.Runtime.{RuntimeLaws}
use io_http.Rfc9110.Request.{HttpRequest, get, with_header}
use io_http.Rfc9110.Wire.{http_10, serialize}
use io_http.Rfc1945.Send.Types.{sending}
use io_http.Rfc1945.Send.Step.{new}
use io_http.Rfc1945.Send.Step.Written.{drive_http10, http10_written}
use io_http.Examples.StdHttp10.{
  http10_request, http10_visit, http10_host, http10_inner, http10_outcome,
}

module _ (io : IoSocket) (url : UrlApi) (parser : Httparse) (t : Transport io)
    (connect : ℕ → Bytes → ℕ → Option t.Stream) (round : ℕ) (u : url.Url) (host : Bytes)
    (s : t.Stream) where
  abbrev pub asking : HttpRequest url.Url
  asking = record { method = codes "GET"; url = u; headers = (codes "Host", host) ∷ []; body = [] }

  -- Before it reads anything, the round sends a GET of the URL's path and query with its header lines
  -- over the connection, and nothing else; then the exchange goes on from the end of the last write.
  abbrev pub Sends : Type 0
  Sends =
      (before : ℕ) × (w : io.SocketWrite) × (answer : io.SocketOutput) × (s' : t.Stream) × (t.sent
          s'
        ≡ t.sent s ++ serialize (codes "GET") (url.path u) (url.query u) http_10 asking.headers [])
      × (t.pending s' ≡ t.pending s)
      × ((calls rounds : ℕ)
          → 2 ≤ calls
          → http10_visit io url parser t connect calls (before + rounds) (round, u)
            ≡ http10_outcome io url parser t connect round (
                drive_http10 io url parser t calls rounds
                  (record (new io url parser asking) { state = sending w }) (some answer) s'))

  pub round-sends :
      RuntimeLaws io t
      → url.host_str u ≡ some host
      → connect round host (get_or (url.port_or_known_default u) 80) ≡ some s
      → Sends
  unfolding http10_visit http10_host http10_inner http10_request with_header get
  round-sends runtime at_host connected =
      let (before, w, answer, s', taken, unread, goes_on, runs) =
        http10_written io url parser t runtime asking s in
      (
        before,
        w,
        answer,
        s',
        taken,
        unread,
        λ calls rounds h.
            ap (http10_host io url parser t connect calls (before + rounds) round u) at_host
            ∙ ap (http10_inner io url parser t connect calls (before + rounds) round u host)
                connected
            ∙ ap (http10_outcome io url parser t connect round) (runs calls rounds h),
      )
