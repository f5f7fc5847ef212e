-- ===== src/Rfc9112/Send/Step/Cut.antt =====
-- An HTTP/1.1 exchange whose stream breaks off in the head.
use io_http.Prelude.{ℕ, suc, ◌≤◌, [], ◌++◌, ◌≡◌, ◌≢◌, ◌∙◌, ap, Option, none, length, arith}
use io_http.Text.{Bytes}
use io_http.External.Memchr.{Memchr}
use io_http.External.Url.{UrlApi}
use io_http.External.Httparse.{Httparse, IsHead}
use io_http.External.Socket.{IoSocket}
use io_http.External.Socket.Transport.{Transport, SocketLaws}
use io_http.External.Socket.Runtime.{RuntimeLaws}
use io_http.Coroutine.Drive.{finished}
use io_http.Rfc9110.Headers.{Headers}
use io_http.Rfc9110.Request.{HttpRequest}
use io_http.Rfc9112.Send.Types.{unexpected_eof, err}
use io_http.Rfc9112.Send.Step.{new}
use io_http.Exchange.Heading.{cut_runs}
use io_http.Rfc9112.Send.Step.Phases.{machine, head_reader}
use io_http.Rfc9112.Send.Step.Written.{send_drive, after_request}

module _ (io : IoSocket) (url : UrlApi) (parser : Httparse) (mem : Memchr) (t : Transport io)
    (laws : SocketLaws io t) (runtime : RuntimeLaws io t) (q : HttpRequest url.Url)
    (head missing : Bytes) (version code : Option ℕ) (lines : Headers)
    (is_head : IsHead parser head version code lines) (some_missing : missing ≢ []) where
  -- An exchange under the caller's loop whose stream ends before the head does, with nothing
  -- delivered or any proper beginning of a head that the parser knows, in pieces of any size: the
  -- loop ends, from some fuel on, with the error of an unexpected end of file.
  pub exchange_cut :
      (s : t.Stream)
      → t.pending s ++ missing ≡ head
      → (enough : ℕ) × ((fuel calls rounds : ℕ)
          → enough ≤ fuel
          → enough ≤ calls
          → enough ≤ rounds
          → send_drive io url parser mem t runtime fuel calls rounds (new io url parser q) none s
            ≡ finished (err unexpected_eof))
  unfolding new
  exchange_cut s e =
      let (r, same, enough, h) = after_request io url parser mem t runtime q s (λ s' unread.
        cut_runs (machine io url parser mem) t laws (head_reader io url parser mem q) head is_head
          missing some_missing (suc (length (t.pending s'))) io.read_default [] s' (omega arith)
          laws.default_ready (ap (λ x. x ++ missing) unread ∙ e)) in
      (enough, λ fuel calls rounds p o l. h fuel calls rounds p o l ∙ ap finished same)
