-- ===== src/Rfc9112/Send/Step/Received.antt =====
-- A whole HTTP/1.1 exchange under the caller's loop: the request is written, the head and the body
-- are read.
use io_http.Prelude.{ℕ, ◌≤◌, ◌++◌, ◌≡◌, ◌∙◌, ap, not, false, Option, none}
use io_http.Text.{Bytes}
use io_http.External.Memchr.{Memchr, MemchrLaws}
use io_http.External.Url.{UrlApi}
use io_http.External.Httparse.{Httparse, IsHead}
use io_http.External.Socket.{IoSocket}
use io_http.External.Socket.Transport.{Transport, SocketLaws}
use io_http.External.Socket.Runtime.{RuntimeLaws}
use io_http.Coroutine.Drive.{finished}
use io_http.Rfc9110.Headers.{Headers}
use io_http.Rfc9110.Request.{HttpRequest}
use io_http.Rfc9112.Send.Head.{is_http10, no_content, response_of, closes, framing}
use io_http.Rfc9112.Send.Step.{new}
use io_http.Rfc9112.Send.Step.HeadRead.{head_runs_on}
use io_http.Rfc9112.Send.Step.Payloads.{Payload, received, body_runs}
use io_http.Rfc9112.Send.Step.Written.{send_drive, after_request}

module _ (io : IoSocket) (url : UrlApi) (parser : Httparse) (mem : Memchr) (t : Transport io)
    (first : MemchrLaws mem) (laws : SocketLaws io t) (runtime : RuntimeLaws io t)
    (q : HttpRequest url.Url) (head payload body : Bytes) (version code : Option ℕ)
    (lines : Headers) (is_head : IsHead parser head version code lines)
    (carries : Payload
      (framing (is_http10 version) (no_content code) (response_of version code lines))
      payload
      body) where
  -- A whole exchange under the caller's loop. The stream has a head to deliver, which the parser
  -- knows as such, and behind it a payload that carries a body in the framing that the head
  -- announces (no body, chunked, so many bytes, or all up to the end of the stream), and takes and
  -- delivers bytes in pieces of any size: from some fuel on of the inner loop, of the calls and of
  -- the rounds, the loop ends, and returns this body in the response that the head describes, with
  -- keep_alive as the head decides; a redirect where `finish` finds one, except for a 204 or a 304.
  pub exchange_complete :
      (s : t.Stream)
      → t.pending s ≡ head ++ payload
      → (enough : ℕ) × ((fuel calls rounds : ℕ)
          → enough ≤ fuel
          → enough ≤ calls
          → enough ≤ rounds
          → send_drive io url parser mem t runtime fuel calls rounds (new io url parser q) none s
            ≡ finished (
                received io url parser
                  (framing (is_http10 version) (no_content code) (response_of version code lines))
                  q
                  (response_of version code lines)
                  body
                  (not (closes (is_http10 version) (response_of version code lines)))))
  unfolding new
  exchange_complete s e =
      let (r, same, enough, h) = after_request io url parser mem t runtime q s (λ s' unread.
        head_runs_on io url parser mem t laws q head payload version code lines _ is_head
          (λ st arg buf read seed s₁ ready left h.
            body_runs io url parser mem t first laws runtime q st arg false
              (closes (is_http10 version) (response_of version code lines)) buf read head seed
              (response_of version code lines) _ payload body s₁ ready carries left h)
          s' (unread ∙ e)) in
      (enough, λ fuel calls rounds p o l. h fuel calls rounds p o l ∙ ap finished same)
