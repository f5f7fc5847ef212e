-- ===== src/Rfc8615/WellKnown/Whole.antt =====
-- A whole discovery under the caller's loop.
use io_http.Prelude.{ℕ, ◌≡◌, refl, ◌∙◌, ap, none}
use io_http.External.Memchr.{Memchr}
use io_http.External.Url.{UrlApi}
use io_http.External.Httparse.{Httparse}
use io_http.External.Socket.{IoSocket}
use io_http.Coroutine.{Resumed, returned, panicked, out_of_fuel}
use io_http.Coroutine.Drive.{drive}
use io_http.Coroutine.Converse.{converse, converse-drive}
use io_http.Coroutine.Converse.Wrapped.{viewed, wrapped, converse-view}
use io_http.Rfc9110.Request.{HttpRequest}
use io_http.Rfc9112.Send.Types.{Http11SendResult, Http11Send}
use io_http.Rfc9112.Send.Step
use io_http.Rfc8615.WellKnown.{new, discovered, passed_on, resume, input_of}

module _ (io : IoSocket) (url : UrlApi) (parser : Httparse) where
  passed_on-wrapped :
      (t : Resumed (Http11Send io url) (Http11SendResult io url parser))
      → passed_on io url parser t
        ≡ wrapped (discovered io url parser) (λ inner. record { inner = inner }) t
  unfolding passed_on wrapped
  passed_on-wrapped (returned s r) = refl
  passed_on-wrapped panicked = refl
  passed_on-wrapped out_of_fuel = refl

  same_input :
      (r : Http11SendResult io url parser)
      → input_of io url parser (discovered io url parser r) ≡ Step.input_of io url parser r
  unfolding discovered
  same_input (Http11SendResult.ok request response keep_alive) = refl
  same_input (Http11SendResult.io_request input) = refl
  same_input (Http11SendResult.redirect target request response keep_alive same_origin) = refl
  same_input (Http11SendResult.err e) = refl

  -- A whole discovery under a caller's loop is the whole HTTP/1.1 exchange of its request under the
  -- same loop, over any stream and with any fuel and number of rounds, with the result of the
  -- exchange translated; it crashes or runs out of fuel exactly where the exchange does.
  pub converse-discovered :
      {Stream : Type 0} (mem : Memchr) (handle : Stream → io.SocketInput → Stream × io.SocketOutput)
      (q : HttpRequest url.Url) (fuel rounds : ℕ) (s : Stream)
      → converse
          (resume io url parser mem fuel)
          (input_of io url parser)
          handle
          rounds
          (new io url parser q)
          none
          s
        ≡ viewed (discovered io url parser) (
            drive
              (Step.step io url parser mem fuel)
              (Step.input_of io url parser)
              handle
              fuel
              rounds
              (Step.new io url parser q)
              none
              s)
  unfolding new
  converse-discovered mem handle q fuel rounds s =
      converse-view (discovered io url parser) (λ inner. record { inner = inner })
        (Step.resume io url parser mem fuel) (resume io url parser mem fuel)
        (Step.input_of io url parser) (input_of io url parser) handle
        (λ inner arg.
          unfold resume in passed_on-wrapped (Step.resume io url parser mem fuel inner arg))
        same_input rounds (Step.new io url parser q) none s
      ∙ ap (viewed (discovered io url parser)) (
          unfold Step.resume in
          converse-drive (Step.step io url parser mem fuel) (Step.input_of io url parser) handle
            fuel rounds (Step.new io url parser q) none s)
