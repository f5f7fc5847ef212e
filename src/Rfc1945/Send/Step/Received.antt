-- ===== src/Rfc1945/Send/Step/Received.antt =====
-- A whole HTTP/1.0 exchange under the caller's loop: the request is written, the head and the body
-- are read.
use io_http.Prelude.{ℕ, ◌≤◌, ◌<◌, ◌++◌, ◌≡◌, ◌∙◌, subst, ap, false, Option, none, length}
use io_http.Text.{Bytes}
use io_http.External.Url.{UrlApi}
use io_http.External.Httparse.{Httparse, IsHead}
use io_http.External.Socket.{IoSocket}
use io_http.External.Socket.Transport.{Transport, SocketLaws}
use io_http.External.Socket.Runtime.{RuntimeLaws}
use io_http.Coroutine.Drive.{finished}
use io_http.Rfc9110.Headers.{Headers}
use io_http.Rfc9110.Request.{HttpRequest}
use io_http.Rfc1945.Send.Types.{socket_read_exact, err}
use io_http.Rfc1945.Send.Head.{lengthed, no_content, response_of, persists, framing}
use io_http.Rfc1945.Send.Step.{new}
use io_http.Rfc1945.Send.Step.HeadRead.{head_runs_on}
use io_http.Rfc1945.Send.Step.Payloads.{
  Payload, ReadFails, Starts, received, body_runs, body_starves,
}
use io_http.Rfc1945.Send.Step.Written.{drive_http10, after_request}

module _ (io : IoSocket) (url : UrlApi) (parser : Httparse) (t : Transport io)
    (laws : SocketLaws io t) (runtime : RuntimeLaws io t) (q : HttpRequest url.Url)
    (head payload : Bytes) (version code : Option ℕ) (lines : Headers)
    (is_head : IsHead parser head version code lines) (s : t.Stream)
    (arrives : t.pending s ≡ head ++ payload) where
  -- A whole HTTP/1.0 exchange under the caller's loop. The stream has a head to deliver, which the
  -- parser knows as such, and behind it a payload that carries a body in the framing that the head
  -- announces (no body, so many bytes, or all up to the end of the stream), and takes and delivers
  -- bytes in pieces of any size: from some number on of the calls and of the rounds, the loop ends,
  -- and returns this body in the response that the head describes, with keep_alive as the head
  -- decides; a redirect where `finish` finds one, except for a 204 or a 304.
  pub http10_complete :
      (body : Bytes)
      → Payload (framing (no_content code) (response_of code lines)) payload body
      → (enough : ℕ) × ((calls rounds : ℕ)
          → enough ≤ calls
          → enough ≤ rounds
          → drive_http10 io url parser t calls rounds (new io url parser q) none s
            ≡ finished (
                received io url parser
                  (framing (no_content code) (response_of code lines))
                  q
                  (response_of code lines)
                  body
                  (persists false (response_of code lines))))
  unfolding new
  http10_complete body carries =
      let (r, same, enough, h) = after_request io url parser t runtime q s (λ s' unread.
        head_runs_on io url parser t laws q head payload version code lines _ is_head
          (λ st arg read seed s₁ left h.
            body_runs io url parser t laws q st arg false (persists false (response_of code lines))
              read head seed (response_of code lines) s₁ runtime _ payload body carries left h)
          s' (unread ∙ arrives)) in
      (enough, λ calls rounds p l. h calls rounds p l ∙ ap finished same)

  -- An HTTP/1.0 exchange under the caller's loop whose stream delivers a head that the parser knows
  -- and then ends, in pieces of any size, with fewer bytes behind the head than the length that it
  -- announces: the loop ends, from some fuel on, with the error of the exact read.
  pub http10_short :
      (n : ℕ)
      → framing (no_content code) (response_of code lines) ≡ lengthed n
      → length payload < n
      → (e : io.SocketReadExactError) × (enough : ℕ) × ((calls rounds : ℕ)
          → enough ≤ calls
          → enough ≤ rounds
          → drive_http10 io url parser t calls rounds (new io url parser q) none s
            ≡ finished (err (socket_read_exact e)))
  unfolding new
  http10_short n how lt =
      let (r, (e, same), enough, h) = after_request io url parser t runtime q s (λ s' unread.
        head_runs_on io url parser t laws q head payload version code lines
          (ReadFails io url parser) is_head
          (λ st arg read seed s₁ left h.
            body_starves io url parser t laws q st arg false
              (persists false (response_of code lines)) read head seed (response_of code lines) s₁ n
              payload lt left
              (subst
                (Starts io url parser t laws q st arg false
                  (persists false (response_of code lines)) read head seed (response_of code lines)
                  s₁)
                how h))
          s' (unread ∙ arrives)) in
      (e, enough, λ calls rounds p l. h calls rounds p l ∙ ap finished same)
