-- ===== src/Rfc1945/Send/Step/BodyPasses.antt =====
-- The single passes of an HTTP/1.0 exchange that read the body, as equations.
use io_http.Prelude.{◌≡◌, ◌∙◌, Option, none, some}
use io_http.Text.{Bytes}
use io_http.External.Url.{UrlApi}
use io_http.External.Httparse.{Httparse}
use io_http.External.Socket.{IoSocket, SocketReadExactResult, SocketReadToEndResult}
use io_http.Coroutine.{yield}
use io_http.Rfc9110.Request.{HttpRequest}
use io_http.Rfc9110.Response.{ResponseBuilder, default_builder, build}
use io_http.Rfc1945.Send.Types.{
  socket_read_exact, err, io_request, State, receive_lengthed_body, receive_body, Http10Send,
}
use io_http.Rfc1945.Send.Step.{finish, SendTurn, ends, got_exact, got_to_end, in_state, step}
use io_http.Rfc1945.Send.Step.Passes.{step_at}

module _ (io : IoSocket) (url : UrlApi) (parser : Httparse) (m : Http10Send io url) where
  pub step-lengthed_asks :
      (arg : Option io.SocketOutput) (read next : io.SocketReadExact) (response : ResponseBuilder)
      (input : io.SocketInput)
      → m.state ≡ receive_lengthed_body read response
      → io.exact_resume read arg ≡ (next, SocketReadExactResult.io input)
      → step io url parser m arg
        ≡ yield (record m { state = receive_lengthed_body next response }) (io_request input)
  unfolding in_state got_exact
  step-lengthed_asks arg read next response input e f = step_at io url parser m arg _ e ∙ (rw f)

  pub step-to_end_asks :
      (arg : Option io.SocketOutput) (read next : io.SocketReadToEnd) (response : ResponseBuilder)
      (input : io.SocketInput)
      → m.state ≡ receive_body read response
      → io.to_end_resume read arg ≡ (next, SocketReadToEndResult.io input)
      → step io url parser m arg
        ≡ yield (record m { state = receive_body next response }) (io_request input)
  unfolding in_state got_to_end
  step-to_end_asks arg read next response input e f = step_at io url parser m arg _ e ∙ (rw f)

  pub step-lengthed_err :
      (arg : Option io.SocketOutput) (read next : io.SocketReadExact) (response : ResponseBuilder)
      (e : io.SocketReadExactError)
      → m.state ≡ receive_lengthed_body read response
      → io.exact_resume read arg ≡ (next, SocketReadExactResult.err e)
      → step io url parser m arg
        ≡ yield
            (record m { state = receive_lengthed_body next response })
            (err (socket_read_exact e))
  unfolding in_state got_exact
  step-lengthed_err arg read next response err_e e f = step_at io url parser m arg _ e ∙ (rw f)

  -- The passes that end the exchange.
  module _ (req : HttpRequest url.Url) (held : m.request ≡ some req) (body : Bytes)
      (response : ResponseBuilder) where
    abbrev pub ended : State io → SendTurn io url parser
    ended left =
        yield (record m { request = none; state = left })
          (finish io url parser req (build response body) m.keep_alive)

    ends-held : (left : State io) → ends io url parser m left response body ≡ ended left
    ends-held left = unfold ends in rw (held, ends)

    pub step-lengthed_ends :
        (arg : Option io.SocketOutput) (read next : io.SocketReadExact)
        → m.state ≡ receive_lengthed_body read response
        → io.exact_resume read arg ≡ (next, SocketReadExactResult.ok body)
        → step io url parser m arg ≡ ended (receive_lengthed_body next default_builder)
    unfolding in_state got_exact
    step-lengthed_ends arg read next e f = step_at io url parser m arg _ e ∙ (rw f (ends-held _))

    pub step-to_end_ends :
        (arg : Option io.SocketOutput) (read next : io.SocketReadToEnd)
        → m.state ≡ receive_body read response
        → io.to_end_resume read arg ≡ (next, SocketReadToEndResult.ok body)
        → step io url parser m arg ≡ ended (receive_body next default_builder)
    unfolding in_state got_to_end
    step-to_end_ends arg read next e f = step_at io url parser m arg _ e ∙ (rw f (ends-held _))
