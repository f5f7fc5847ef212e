-- ===== src/Rfc9112/Send/Step/Payloads.antt =====
-- The pass of an HTTP/1.1 exchange that follows the last byte of the head: the body that each
-- framing reads.
use io_http.Prelude.{ℕ, [], ◌++◌, ◌≡◌, refl, not, Bool, Option, length}
use io_http.Text.{Bytes}
use io_http.External.Memchr.{Memchr, MemchrLaws}
use io_http.External.Url.{UrlApi}
use io_http.External.Httparse.{Httparse}
use io_http.External.Socket.{IoSocket, Buffer}
use io_http.External.Socket.Transport.{Transport, SocketLaws}
use io_http.External.Socket.Runtime.{RuntimeLaws}
use io_http.Rfc9110.Request.{HttpRequest}
use io_http.Rfc9110.Response.{ResponseBuilder, build}
use io_http.Rfc9112.Chunk.Grammar.{Chunked}
use io_http.Rfc9112.Chunk.Complete.{decode_goes}
use io_http.Rfc9112.Send.Types.{Http11SendResult, ok, State}
use io_http.Rfc9112.Send.Head.{Framing, no_body, chunked, until_eof, lengthed}
use io_http.Rfc9112.Send.Step.{finish, start_body, step}
use io_http.Exchange.Machine.{Finishes, stops_now, passes}
use io_http.Exchange.Filling.{fills}
use io_http.Exchange.Draining.{drains}
use io_http.Rfc9112.Send.Step.Phases.{machine, exchanging, filler, drainer}
use io_http.Rfc9112.Send.Step.ChunkedBody.{chunks_end}

-- The bytes behind a head, and the body that they carry under each framing.
pub data Payload : Framing → Bytes → Bytes → Type 0 where
  nothing : (behind : Bytes) → Payload no_body behind []
  chunks : {wire body : Bytes} → Chunked wire body → Payload chunked wire body
  counted : (body : Bytes) → Payload (lengthed (length body)) body body
  to_eof : (body : Bytes) → Payload until_eof body body

module _ (io : IoSocket) (url : UrlApi) (parser : Httparse) where
  -- What the exchange returns: a 204 or a 304 is never a redirect.
  abbrev pub received :
      Framing
      → HttpRequest url.Url
      → ResponseBuilder
      → Bytes
      → Bool
      → Http11SendResult io url parser
  received no_body q response body keep = ok q (build response body) keep
  received chunked q response body keep = finish io url parser q (build response body) keep
  received until_eof q response body keep = finish io url parser q (build response body) keep
  received (lengthed n) q response body keep = finish io url parser q (build response body) keep

module _ (io : IoSocket) (url : UrlApi) (parser : Httparse) (mem : Memchr) (t : Transport io)
    (first : MemchrLaws mem) (laws : SocketLaws io t) (runtime : RuntimeLaws io t)
    (q : HttpRequest url.Url) where
  -- The pass that follows the head, with `seed` behind the head in the buffer.
  pub body_runs :
      (st : State io) (arg : Option io.SocketOutput) (before closed : Bool) (buf : Buffer)
      (read : io.SocketRead) (head seed : Bytes) (response : ResponseBuilder) (how : Framing)
      (payload body : Bytes) (s : t.Stream)
      → laws.Ready (io.read_replace read buf)
      → Payload how payload body
      → seed ++ t.pending s ≡ payload
      → ((fuel : ℕ)
          → step io url parser mem fuel (exchanging io url parser mem q before st) arg
            ≡ start_body io url parser
                (exchanging io url parser mem q closed st)
                buf
                read
                head
                seed
                response
                how)
      → Finishes
          (machine io url parser mem)
          t
          (λ r. r ≡ received io url parser how q response body (not closed))
          (exchanging io url parser mem q before st)
          arg
          s
  unfolding start_body
  body_runs st arg before closed buf read head seed response _ _ _ s ready (nothing behind) e h =
      stops_now (machine io url parser mem) t 0 (λ fuel k. h fuel) refl refl
  body_runs st arg before closed buf read head seed response _ _ _ s ready (chunks {wire} {body} c)
        e h =
      passes (machine io url parser mem) t h (
        chunks_end io url parser mem t q closed response body (
          decode_goes io mem t first laws (io.read_replace (io.read_with_capacity buf.capacity) buf)
            seed s (laws.capacity_ready read buf ready) c e))
  body_runs st arg before closed buf read head seed response _ _ _ s ready (counted body) e h =
      passes (machine io url parser mem) t h (
        fills (machine io url parser mem) t laws (filler io url parser mem q closed response) body
          seed s e)
  body_runs st arg before closed buf read head seed response _ _ _ s ready (to_eof body) e h =
      passes (machine io url parser mem) t h (
        drains (machine io url parser mem) t runtime (drainer io url parser mem q closed response)
          body seed s e)
