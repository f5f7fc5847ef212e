-- ===== src/Rfc9112/Send/Step/Failed.antt =====
-- A whole HTTP/1.1 exchange whose body is cut, or is no body in the framing that the head announces.
use io_http.Prelude.{ℕ, ◌≤◌, ◌++◌, ◌≡◌, sym, ◌∙◌, ap, Bool, false, Option, none, length, arith}
use io_http.Text.{Bytes}
use io_http.External.Memchr.{Memchr, MemchrLaws}
use io_http.External.Url.{UrlApi}
use io_http.External.Httparse.{Httparse, IsHead}
use io_http.External.Socket.{IoSocket, Buffer}
use io_http.External.Socket.Transport.{Transport, SocketLaws}
use io_http.External.Socket.Runtime.{RuntimeLaws}
use io_http.Coroutine.Drive.{finished}
use io_http.Rfc9110.Headers.{Headers}
use io_http.Rfc9110.Request.{HttpRequest}
use io_http.Rfc9110.Response.{ResponseBuilder}
use io_http.Rfc9112.Chunk.Reference.{decode}
use io_http.Rfc9112.Chunk.Reference.Equivalence.{decode_goes_new}
use io_http.Rfc9112.Send.Types.{Http11SendResult, State}
use io_http.Rfc9112.Send.Head.{is_http10, no_content, response_of, closes, Framing, framing}
use io_http.Rfc9112.Send.Step.{new, start_body, step}
use io_http.Exchange.Machine.{Finishes, passes}
use io_http.Exchange.Filling.{starves}
use io_http.Rfc9112.Send.Step.Phases.{machine, exchanging, filler}
use io_http.Rfc9112.Send.Step.Broken.{Broken, Fails, short, no_chunks, chunks_break}
use io_http.Rfc9112.Send.Step.HeadRead.{head_runs_on}
use io_http.Rfc9112.Send.Step.Written.{send_drive, after_request}

module _ (io : IoSocket) (url : UrlApi) (parser : Httparse) (mem : Memchr) (t : Transport io)
    (first : MemchrLaws mem) (laws : SocketLaws io t) (runtime : RuntimeLaws io t)
    (q : HttpRequest url.Url) where
  body_errors :
      (st : State io) (arg : Option io.SocketOutput) (before closed : Bool) (buf : Buffer)
      (read : io.SocketRead) (head seed : Bytes) (response : ResponseBuilder) (how : Framing)
      (payload : Bytes) (s : t.Stream)
      → laws.Ready (io.read_replace read buf)
      → Broken how payload
      → seed ++ t.pending s ≡ payload
      → ((fuel : ℕ)
          → step io url parser mem fuel (exchanging io url parser mem q before st) arg
            ≡ start_body io url parser
                (exchanging io url parser mem q closed st)
                buf
                read
                head
                seed
                response
                how)
      → Finishes
          (machine io url parser mem)
          t
          (Fails io url parser how)
          (exchanging io url parser mem q before st)
          arg
          s
  unfolding start_body
  body_errors st arg before closed buf read head seed response _ _ s ready (short {n} {payload} lt)
        e h =
      let same = ap length e in
      passes (machine io url parser mem) t h (
        starves (machine io url parser mem) t laws (filler io url parser mem q closed response) n
          seed s (omega arith))
  body_errors st arg before closed buf read head seed response _ _ s ready
        (no_chunks {payload} none_whole fine) e h =
      passes (machine io url parser mem) t h (
        chunks_break io url parser mem t q closed response
          (λ body whole_body. none_whole body (ap decode (sym e) ∙ whole_body))
          (λ large. fine (ap decode (sym e) ∙ large))
          (decode_goes_new io mem t first laws
            (io.read_replace (io.read_with_capacity buf.capacity) buf) seed s
            (laws.capacity_ready read buf ready)))

  -- An exchange under the caller's loop whose stream delivers a head that the parser knows and then
  -- ends, in pieces of any size, with fewer bytes behind the head than the length that it announces,
  -- or with chunks that the reference decoder does not decode to a body (their sizes fitting a
  -- `usize` with the CRLF behind the chunk): the loop ends, from some fuel on, with an error, that of
  -- the exact read or of the chunk decoder.
  pub exchange_errors :
      (head payload : Bytes) (version code : Option ℕ) (lines : Headers) (s : t.Stream)
      → IsHead parser head version code lines
      → Broken
          (framing (is_http10 version) (no_content code) (response_of version code lines))
          payload
      → t.pending s ≡ head ++ payload
      → (r : Http11SendResult io url parser) × Fails io url parser
          (framing (is_http10 version) (no_content code) (response_of version code lines))
          r
        × (enough : ℕ) × ((fuel calls rounds : ℕ)
            → enough ≤ fuel
            → enough ≤ calls
            → enough ≤ rounds
            → send_drive io url parser mem t runtime fuel calls rounds (new io url parser q) none s
              ≡ finished r)
  unfolding new
  exchange_errors head payload version code lines s is_head broken e =
      after_request io url parser mem t runtime q s (λ s' unread.
        head_runs_on io url parser mem t laws q head payload version code lines _ is_head
          (λ st arg buf read seed s₁ ready left h.
            body_errors st arg false (closes (is_http10 version) (response_of version code lines))
              buf read head seed (response_of version code lines) _ payload s₁ ready broken left h)
          s' (unread ∙ e))
