-- ===== src/Rfc1945/Send/Step/Payloads.antt =====
-- The pass of an HTTP/1.0 exchange that follows the last byte of the head: the body that each
-- framing reads, and one that is cut.
use io_http.Prelude.{ℕ, ◌<◌, [], ◌++◌, ◌≡◌, refl, ap, Bool, Option, length, arith}
use io_http.Text.{Bytes}
use io_http.External.Url.{UrlApi}
use io_http.External.Httparse.{Httparse}
use io_http.External.Socket.{IoSocket}
use io_http.External.Socket.Transport.{Transport, SocketLaws}
use io_http.External.Socket.Runtime.{RuntimeLaws}
use io_http.Exchange.Machine.{Finishes, stops_now, passes}
use io_http.Exchange.Filling.{fills, starves}
use io_http.Exchange.Draining.{drains}
use io_http.Rfc9110.Request.{HttpRequest}
use io_http.Rfc9110.Response.{ResponseBuilder, build}
use io_http.Rfc1945.Send.Types.{Http10SendResult, ok, socket_read_exact, err, State}
use io_http.Rfc1945.Send.Head.{Framing, no_body, until_eof, lengthed}
use io_http.Rfc1945.Send.Step.{finish, start_body, step}
use io_http.Rfc1945.Send.Step.Phases.{machine, exchanging, filler, drainer}

-- The bytes behind a head, and the body that they carry under each framing.
pub data Payload : Framing → Bytes → Bytes → Type 0 where
  nothing : (behind : Bytes) → Payload no_body behind []
  counted : (body : Bytes) → Payload (lengthed (length body)) body body
  to_eof : (body : Bytes) → Payload until_eof body body

module _ (io : IoSocket) (url : UrlApi) (parser : Httparse) where
  -- What the exchange returns: a 204 or a 304 is never a redirect.
  abbrev pub received :
      Framing
      → HttpRequest url.Url
      → ResponseBuilder
      → Bytes
      → Bool
      → Http10SendResult io url parser
  received no_body q response body keep = ok q (build response body) keep
  received until_eof q response body keep = finish io url parser q (build response body) keep
  received (lengthed n) q response body keep = finish io url parser q (build response body) keep

  abbrev pub ReadFails : Http10SendResult io url parser → Type 0
  ReadFails r = (e : io.SocketReadExactError) × (r ≡ err (socket_read_exact e))

module _ (io : IoSocket) (url : UrlApi) (parser : Httparse) (t : Transport io)
    (laws : SocketLaws io t) (q : HttpRequest url.Url) (st : State io)
    (arg : Option io.SocketOutput) (before keep : Bool) (read : io.SocketRead) (head seed : Bytes)
    (response : ResponseBuilder) (s : t.Stream) where
  abbrev pub Starts : Framing → Type 0
  Starts how =
      step io url parser (exchanging io url parser q before st) arg
      ≡ start_body io url parser (exchanging io url parser q keep st) read head seed response how

  -- The pass that follows the head, with `seed` behind the head in the buffer.
  pub body_runs :
      (runtime : RuntimeLaws io t) (how : Framing) (payload body : Bytes)
      → Payload how payload body
      → seed ++ t.pending s ≡ payload
      → Starts how
      → Finishes
          (machine io url parser)
          t
          (λ r. r ≡ received io url parser how q response body keep)
          (exchanging io url parser q before st)
          arg
          s
  unfolding start_body
  body_runs runtime _ _ _ (nothing behind) e h =
      stops_now (machine io url parser) t 0 (λ fuel k. h) refl refl
  body_runs runtime _ _ _ (counted body) e h =
      passes (machine io url parser) t (λ fuel. h)
        (fills (machine io url parser) t laws (filler io url parser q keep response) body seed s e)
  body_runs runtime _ _ _ (to_eof body) e h =
      passes (machine io url parser) t (λ fuel. h)
        (drains (machine io url parser) t runtime (drainer io url parser q keep response) body seed
          s e)

  pub body_starves :
      (n : ℕ) (payload : Bytes)
      → length payload < n
      → seed ++ t.pending s ≡ payload
      → Starts (lengthed n)
      → Finishes
          (machine io url parser)
          t
          (ReadFails io url parser)
          (exchanging io url parser q before st)
          arg
          s
  unfolding start_body
  body_starves n payload lt e h =
      let same = ap length e in
      passes (machine io url parser) t (λ fuel. h)
        (starves (machine io url parser) t laws (filler io url parser q keep response) n seed s
          (omega arith))
