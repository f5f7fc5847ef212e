-- ===== src/Tests/Moved.antt =====
-- A parser that tells two heads apart by their length, and connections to one host of which the
-- first redirects.
use io_http.Prelude.{
  ℕ, zero, suc, ◌+◌, [], ◌∷◌, ◌++◌, ◌≡◌, ◌≢◌, refl, sym, ◌∙◌, ap, Option, none, some, inl, inr,
  Option-cases, arith, length, length-append, length-pos, ◌==◌, if◌then◌else◌,
}
use io_http.Text.{Bytes, codes}
use io_http.External.Url.{UrlApi}
use io_http.Text.Search.{index_of, crlf_crlf}
use io_http.Text.Search.Found.{index_of-split, index_of-extend}
use io_http.External.Httparse.{Httparse, Parsed, IsHead, partial, complete}
use io_http.Rfc9110.Headers.{Headers}
use io_http.Rfc9110.Request.{HttpRequest}
use io_http.Tests.Sample.{arriving, Wire, sample_url}
use io_http.Tests.Whole.{head}

abbrev by_end : (ℕ → Parsed Unit) → Option ℕ → Parsed Unit
by_end f none = partial
by_end f (some i) = f i

abbrev reads_by : (ℕ → Parsed Unit) → Httparse
reads_by f = record { Error = Unit; parse = λ n s. by_end f (index_of crlf_crlf s) }

module _ (f : ℕ → Parsed Unit) (start : Bytes) (at : ℕ) (code : Option ℕ) (lines : Headers)
    (ends : index_of crlf_crlf start ≡ some at) (long : length start ≡ at + 4)
    (reads : f at ≡ complete (length start) (some 1) code lines) where
  asks_more : (s rest : Bytes) → s ++ rest ≡ start → rest ≢ [] → (reads_by f).parse 64 s ≡ partial
  asks_more s rest e ne = elim (Option-cases (index_of crlf_crlf s)) [
    | inl none_yet ↦ rw none_yet
    | inr (i, found) ↦
        let (split, fits) = index_of-split crlf_crlf s i found in
        let same_end : some i ≡ some at =
          sym (index_of-extend crlf_crlf s rest i found) ∙ ap (index_of crlf_crlf) e ∙ ends in
        let same_at : i ≡ at = cc in
        let pos = length-pos rest ne in
        let sum = length-append s rest in
        let same : length (s ++ rest) ≡ length start = ap length e in absurd (omega arith)
  ]

  reads_by-IsHead : IsHead (reads_by f) start (some 1) code lines
  reads_by-IsHead = record {
    some_bytes = λ none_left. let empty = ap length none_left in absurd (omega arith);
    asks_more = asks_more;
    finds_end = λ rest. ap (by_end f) (index_of-extend crlf_crlf start rest at ends) ∙ reads;
  }

abbrev pub moved_head : Bytes
moved_head = codes "HTTP/1.1 301 Moved\r\n\r\n"

abbrev pub to_b : Headers
to_b = (codes "location", codes "b") ∷ []

abbrev moved_or_ok : ℕ → Parsed Unit
moved_or_ok i =
    if i == 18
    then complete (i + 4) (some 1) (some 301) to_b
    else complete (i + 4) (some 1) (some 200) []

abbrev pub moving_parser : Httparse
moving_parser = reads_by moved_or_ok

pub is_moved : IsHead moving_parser moved_head (some 1) (some 301) to_b
unfolding index_of
is_moved = reads_by-IsHead moved_or_ok moved_head 18 (some 301) to_b refl refl refl

pub is_found : IsHead moving_parser head (some 1) (some 200) []
unfolding index_of
is_found = reads_by-IsHead moved_or_ok head 15 (some 200) [] refl refl refl

-- Every URL is on one host.
abbrev pub one_host : UrlApi
one_host = record sample_url { host_str = λ u. some (codes "h"); domain = λ u. some (codes "h") }

-- The first connection redirects to `b`, and the later ones do not.
abbrev pub moving_connect : ℕ → Bytes → ℕ → Option Wire
moving_connect zero host port = some (arriving (moved_head ++ codes "at b"))
moving_connect (suc round) host port = some (arriving (head ++ codes "hi"))

abbrev pub asking : Bytes → HttpRequest Bytes
asking u = record { method = codes "GET"; url = u; headers = []; body = [] }
