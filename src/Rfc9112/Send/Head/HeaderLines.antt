-- ===== src/Rfc9112/Send/Head/HeaderLines.antt =====
-- What the header lines of a response say of its body.
use mathlib.Core.Option
use io_http.Prelude.{
  Bool-cases, ℕ, ◌≡◌, ◌≢◌, ap, sym, ◌∙◌, inl, inr, ◌↔◌, true, false, Option, none, some, arith,
  Option-cases,
}
use io_http.Text.{Bytes, codes}
use io_http.Text.Ascii.{eq_ignore_ascii_case}
use io_http.Text.Radix.{from_str_radix}
use io_http.Text.Trim.{trim}
use io_http.Text.Utf8.{from_utf8_lossy}
use io_http.Rfc9110.Headers.{Headers, find_header, content_length, transfer_encoding}
use io_http.Rfc9110.Response.{get_header}
use io_http.Rfc9110.Response.Lookup.{get_header-push_headers}
use io_http.Rfc9112.Send.Head.{
  response_of, by_length, says_chunked, Framing, no_body, chunked, until_eof, lengthed,
}

pub get_header-response_of :
    (version code : Option ℕ) (lines : Headers) (name : Bytes)
    → get_header (response_of version code lines) name
      ≡ Option.map from_utf8_lossy (find_header name lines)
unfolding response_of get_header
get_header-response_of version code lines name = get_header-push_headers _ name lines

-- The first line of that name has a value that equals the word, up to case.
abbrev pub FirstIs : Bytes → Bytes → Headers → Type 0
FirstIs name word lines =
    (v : Bytes) × (find_header name lines ≡ some v)
    × (eq_ignore_ascii_case (from_utf8_lossy v) word ≡ true)

-- The first Content-Length line, trimmed, is a decimal `usize`.
abbrev pub LengthIs : ℕ → Headers → Type 0
LengthIs n lines =
    (v : Bytes) × (find_header content_length lines ≡ some v)
    × (from_str_radix (trim (from_utf8_lossy v)) 10 ≡ some n)

says_chunked-get_header :
    (version code : Option ℕ) (lines : Headers) (o : Option Bytes)
    → find_header transfer_encoding lines ≡ o
    → says_chunked (response_of version code lines) ≡ (elim (Option.map from_utf8_lossy o) [
      | none ↦ false
      | some enc ↦ eq_ignore_ascii_case enc (codes "chunked")
    ])
unfolding says_chunked
says_chunked-get_header version code lines o e = rw (
  get_header-response_of version code lines transfer_encoding ∙ ap (Option.map from_utf8_lossy) e,
  says_chunked,
)

pub says_chunked_iff :
    (version code : Option ℕ) (lines : Headers)
    → (says_chunked (response_of version code lines) ≡ true)
      ↔ FirstIs transfer_encoding (codes "chunked") lines
says_chunked_iff version code lines = elim (Option-cases (find_header transfer_encoding lines)) [
  | inl e ↦ let c = says_chunked-get_header version code lines none e in (λ h. cc, λ (v, f, g). cc)
  | inr (v, e) ↦
      let c = says_chunked-get_header version code lines (some v) e in
      (λ h. (v, e, sym c ∙ h), λ (w, f, g). let same : w ≡ v = cc in c ∙ (rw same at g))
]

abbrev length_framing : Option Bytes → Framing
length_framing none = until_eof
length_framing (some v) = elim (from_str_radix (trim (from_utf8_lossy v)) 10) [
  | none ↦ until_eof
  | some n ↦ lengthed n
]

by_length-find :
    (version code : Option ℕ) (lines : Headers) (o : Option Bytes)
    → find_header content_length lines ≡ o
    → by_length (response_of version code lines) ≡ length_framing o
unfolding by_length
by_length-find version code lines none e = rw (
  get_header-response_of version code lines content_length ∙ ap (Option.map from_utf8_lossy) e,
  by_length,
)
by_length-find version code lines (some v) e = rw (
  get_header-response_of version code lines content_length ∙ ap (Option.map from_utf8_lossy) e,
  by_length,
)

length_framing-lengthed :
    (v : Bytes) (n : ℕ)
    → (length_framing (some v) ≡ lengthed n)
      ↔ (from_str_radix (trim (from_utf8_lossy v)) 10 ≡ some n)
length_framing-lengthed v n = ground arith

pub by_length_iff :
    (version code : Option ℕ) (lines : Headers) (n : ℕ)
    → (by_length (response_of version code lines) ≡ lengthed n) ↔ LengthIs n lines
by_length_iff version code lines n = elim (Option-cases (find_header content_length lines)) [
  | inl e ↦ let c = by_length-find version code lines none e in (λ h. cc, λ (v, f, g). cc)
  | inr (v, e) ↦
      let c = by_length-find version code lines (some v) e in
      let reads = length_framing-lengthed v n in
      (
        λ h. (v, e, reads.0 (sym c ∙ h)),
        λ (w, f, g). let same : w ≡ v = cc in c ∙ reads.1 (rw same at g),
      )
]

pub by_length-ne :
    (version code : Option ℕ) (lines : Headers)
    → (by_length (response_of version code lines) ≢ no_body)
      × (by_length (response_of version code lines) ≢ chunked)
unfolding by_length
by_length-ne version code lines = ground arith

pub says_chunked-false_iff :
    (version code : Option ℕ) (lines : Headers)
    → (says_chunked (response_of version code lines) ≡ false)
      ↔ (¬ FirstIs transfer_encoding (codes "chunked") lines)
says_chunked-false_iff version code lines =
    let (to, from) = says_chunked_iff version code lines in
    (
      λ h first. cc (from first),
      λ no_first. elim (Bool-cases (says_chunked (response_of version code lines))) [
        | inl e ↦ absurd (no_first (to e))
        | inr e ↦ e
      ],
    )
