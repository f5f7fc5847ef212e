-- ===== src/Tests/Exchange.antt =====
-- The ends of exchanges whose request is for a small URL.
use io_http.Prelude.{◌↔◌, ℕ, [], ◌∷◌, ◌≡◌, ◌≤◌, refl, none, some, true, Option, arith, length}
use io_http.Text.{Bytes, codes}
use io_http.External.Socket.{SocketReadResult, Buffer}
use io_http.Rfc9110.Request.{HttpRequest}
use io_http.Rfc9110.Response.{HttpResponse, header}
use io_http.Rfc9110.Redirect.{same_origin}
use io_http.Rfc9110.Redirect.Origin.{SameOrigin}
use io_http.Text.{bytes_eq_iff}
use io_http.Text.Ascii.{eq_ignore_ascii_case, to_lowercase}
use io_http.Rfc9110.Headers.{find_header}
use io_http.Rfc9110.Redirect.Laws.{RedirectsTo}
use io_http.Rfc9112.Send.Types.{Http11SendResult}
use io_http.Rfc9112.Send.Step
use io_http.Rfc9112.Send.Step.Finish.{finish_cases, finish_origin}
use io_http.Rfc9112.Send.Step.Request.{ResumedOwned, resume-Owned}
use io_http.Rfc1945.Send.Types.{Http10SendResult}
use io_http.Rfc1945.Send.Step as Step10
use io_http.Rfc1945.Send.Step.Finish.{finish_http10_cases}
use io_http.Rfc1945.Send.Step.Request as Request10
use io_http.Rfc1945.Send.Step.Request.{resume_http10-Owned}
use io_http.Rfc8615.WellKnown.{discovered, WellKnownResult}
use io_http.Rfc8615.WellKnown.Laws.{discovered-finish}
use io_http.Tests.Sample.{
  sample_io, sample_url, sample_parser, sample_memchr, Answer, delivered, wrote,
}

abbrev request : HttpRequest Bytes
request = record { method = codes "GET"; url = codes "a"; headers = []; body = [] }

abbrev moved : HttpResponse
moved = record {
  status = record { code = 301 };
  version = codes "HTTP/1.1";
  headers = (codes "location", codes "b") ∷ [];
  body = [];
}

finish_cases_example :
    ((target : Bytes)
      → RedirectsTo sample_url request moved target
      → Step.finish sample_io sample_url sample_parser request moved true
        ≡ Http11SendResult.redirect target request moved true
            (same_origin sample_url (codes "a") target))
    × (((target : Bytes) → ¬ RedirectsTo sample_url request moved target)
        → Step.finish sample_io sample_url sample_parser request moved true
          ≡ Http11SendResult.ok request moved true)
finish_cases_example = finish_cases sample_io sample_url sample_parser request moved true

finish_http10_cases_example :
    ((target : Bytes)
      → RedirectsTo sample_url request moved target
      → Step10.finish sample_io sample_url sample_parser request moved true
        ≡ Http10SendResult.redirect target request moved true
            (same_origin sample_url (codes "a") target))
    × (((target : Bytes) → ¬ RedirectsTo sample_url request moved target)
        → Step10.finish sample_io sample_url sample_parser request moved true
          ≡ Http10SendResult.ok request moved true)
finish_http10_cases_example =
    finish_http10_cases sample_io sample_url sample_parser request moved true

discovered-finish_example :
    ((target : Bytes)
      → RedirectsTo sample_url request moved target
      → discovered sample_io sample_url sample_parser
          (Step.finish sample_io sample_url sample_parser request moved true)
        ≡ WellKnownResult.ok request moved true
            (same_origin sample_url (codes "a") target)
            (some target))
    × (((target : Bytes) → ¬ RedirectsTo sample_url request moved target)
        → discovered sample_io sample_url sample_parser
            (Step.finish sample_io sample_url sample_parser request moved true)
          ≡ WellKnownResult.ok request moved true true none)
discovered-finish_example = discovered-finish sample_io sample_url sample_parser request moved true

count_in_buffer :
    (r r' : Unit {0}) (a : Option Answer) (buf : Buffer) (n : ℕ)
    → sample_io.read_resume r a ≡ (r', SocketReadResult.ok buf n)
    → n ≤ length buf.bytes
count_in_buffer r r' none buf n e = cc
count_in_buffer r r' (some (wrote k)) buf n e = cc
count_in_buffer r r' (some (delivered [])) buf n e = cc
count_in_buffer r r' (some (delivered (c ∷ s))) buf n e =
    let same_count : n ≡ length (c ∷ s) = cc in
    let same_buf : buf ≡ record { bytes = c ∷ s; capacity = 1 } = cc in
    rw (same_count, same_buf) (omega arith)

resume-Owned_example :
    ResumedOwned sample_io sample_url sample_parser request sample_memchr 5
      (Step.new sample_io sample_url sample_parser request)
      none
      (Step.resume sample_io sample_url sample_parser sample_memchr 5
        (Step.new sample_io sample_url sample_parser request)
        none)
unfolding Step.new
resume-Owned_example =
    resume-Owned sample_io sample_url sample_parser request sample_memchr 5 count_in_buffer
      (Step.new sample_io sample_url sample_parser request) none refl

resume_http10-Owned_example : Request10.ResumedOwned sample_io sample_url sample_parser request (
    Step10.resume sample_io sample_url sample_parser 5
      (Step10.new sample_io sample_url sample_parser request)
      none)
unfolding Step10.new
resume_http10-Owned_example =
    resume_http10-Owned sample_io sample_url sample_parser request count_in_buffer 5
      (Step10.new sample_io sample_url sample_parser request) none refl

moved_to_b : RedirectsTo sample_url request moved (codes "b")
unfolding header find_header eq_ignore_ascii_case to_lowercase
moved_to_b = ((omega arith, omega arith), (codes "b", refl, refl))

finish_origin_example :
    (request ≡ request)
    × (moved ≡ moved)
    × (true ≡ true)
    × RedirectsTo sample_url request moved (codes "b")
    × ((same_origin sample_url (codes "a") (codes "b") ≡ true)
        ↔ SameOrigin sample_url bytes_eq_iff (codes "a") (codes "b"))
finish_origin_example =
    finish_origin sample_io sample_url sample_parser bytes_eq_iff request request moved moved true
      true (codes "b") (same_origin sample_url (codes "a") (codes "b"))
      ((finish_cases sample_io sample_url sample_parser request moved true).0 (codes "b")
        moved_to_b)
