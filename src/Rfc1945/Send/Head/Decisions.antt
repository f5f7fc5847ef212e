-- ===== src/Rfc1945/Send/Head/Decisions.antt =====
-- How the header lines of an HTTP/1.0 response decide the fate of the connection and the reading of
-- the body.
use mathlib.Core.Option
use io_http.Prelude.{
  ℕ, ◌≡◌, ap, sym, ◌∙◌, inl, inr, ◌↔◌, ◌⊎◌, ◌≢◌, refl, arith, Bool, true, false, Option, none, some,
  Option-cases,
}
use io_http.Text.{Bytes, codes}
use io_http.Text.Ascii.{eq_ignore_ascii_case}
use io_http.Text.Radix.{from_str_radix}
use io_http.Text.Trim.{trim}
use io_http.Text.Utf8.{from_utf8_lossy}
use io_http.Rfc9110.Headers.{Headers, find_header, connection, content_length}
use io_http.Rfc9110.Response.{get_header}
use io_http.Rfc9110.Response.Lookup.{get_header-push_headers}
use io_http.Rfc1945.Send.Head.{
  response_of, persists, no_content, by_length, framing, no_body, until_eof, lengthed,
}
use io_http.Rfc9112.Send.Head.HeaderLines.{FirstIs, LengthIs}

get_header-response_of :
    (code : Option ℕ) (lines : Headers) (name : Bytes)
    → get_header (response_of code lines) name ≡ Option.map from_utf8_lossy (find_header name lines)
unfolding response_of get_header
get_header-response_of code lines name = get_header-push_headers _ name lines

persists-get_header :
    (before : Bool) (code : Option ℕ) (lines : Headers) (o : Option Bytes)
    → find_header connection lines ≡ o
    → persists before (response_of code lines) ≡ (elim (Option.map from_utf8_lossy o) [
      | some conn ↦ eq_ignore_ascii_case conn (codes "keep-alive")
      | none ↦ before
    ])
unfolding persists
persists-get_header before code lines o e =
    rw (get_header-response_of code lines connection ∙ ap (Option.map from_utf8_lossy) e, persists)

-- A connection that is not known to persist does so exactly if the first Connection line says
-- `keep-alive`, in any case.
pub persists_iff :
    (code : Option ℕ) (lines : Headers)
    → (persists false (response_of code lines) ≡ true)
      ↔ FirstIs connection (codes "keep-alive") lines
persists_iff code lines = elim (Option-cases (find_header connection lines)) [
  | inl e ↦ let c = persists-get_header false code lines none e in (λ h. cc, λ (v, f, g). cc)
  | inr (v, e) ↦
      let c = persists-get_header false code lines (some v) e in
      (λ h. (v, e, sym c ∙ h), λ (w, f, g). let same : w ≡ v = cc in c ∙ (rw same at g))
]

reads :
    (v : Bytes) (n : ℕ)
    → ((elim (from_str_radix (trim (from_utf8_lossy v)) 10) [
      | none ↦ until_eof
      | some k ↦ lengthed k
    ])
        ≡ lengthed n)
      ↔ (from_str_radix (trim (from_utf8_lossy v)) 10 ≡ some n)
reads v n = ground arith

by_length-ne : (code : Option ℕ) (lines : Headers) → by_length (response_of code lines) ≢ no_body
unfolding by_length
by_length-ne code lines = ground arith

framing-cases :
    (empty : Bool) (code : Option ℕ) (lines : Headers) (n : ℕ)
    → ((framing empty (response_of code lines) ≡ no_body) ↔ (empty ≡ true))
      × ((framing empty (response_of code lines) ≡ lengthed n)
          ↔ ((empty ≡ false) × (by_length (response_of code lines) ≡ lengthed n)))
unfolding framing
framing-cases empty code lines n = ground (arith, by_length-ne code lines)

no_content_iff :
    (code : Option ℕ) → (no_content code ≡ true) ↔ ((code ≡ some 204) ⊎ (code ≡ some 304))
unfolding no_content
no_content_iff code = ground arith

no_content-false_iff :
    (code : Option ℕ) → (no_content code ≡ false) ↔ ((code ≢ some 204) × (code ≢ some 304))
unfolding no_content
no_content-false_iff code = ground arith

by_length_iff :
    (code : Option ℕ) (lines : Headers) (n : ℕ) (o : Option Bytes)
    → find_header content_length lines ≡ o
    → (by_length (response_of code lines) ≡ lengthed n) ↔ LengthIs n lines
unfolding by_length
by_length_iff code lines n none e =
    let c : by_length (response_of code lines) ≡ until_eof = rw (
      get_header-response_of code lines content_length ∙ ap (Option.map from_utf8_lossy) e,
      by_length,
    ) in
    (λ h. cc, λ (v, f, g). cc)
by_length_iff code lines n (some v) e =
    let c : by_length (response_of code lines)
        ≡ (elim (from_str_radix (trim (from_utf8_lossy v)) 10) [
          | none ↦ until_eof
          | some k ↦ lengthed k
        ]) =
      rw (
        get_header-response_of code lines content_length ∙ ap (Option.map from_utf8_lossy) e,
        by_length,
      ) in
    (
      λ h. (v, e, (reads v n).0 (sym c ∙ h)),
      λ (w, f, g). let same : w ≡ v = cc in c ∙ (reads v n).1 (rw same at g),
    )

-- How the body of an HTTP/1.0 response is read, whatever its other header lines. There is none
-- exactly with the codes 204 and 304, and it is read to a length exactly with another code, if the
-- first Content-Length line is that number.
pub framing_http10_iff :
    (code : Option ℕ) (lines : Headers) (n : ℕ)
    → ((framing (no_content code) (response_of code lines) ≡ no_body)
        ↔ ((code ≡ some 204) ⊎ (code ≡ some 304)))
      × ((framing (no_content code) (response_of code lines) ≡ lengthed n)
          ↔ (((code ≢ some 204) × (code ≢ some 304)) × LengthIs n lines))
framing_http10_iff code lines n =
    let (bodyless, by_size) = framing-cases (no_content code) code lines n in
    let empty = no_content_iff code in
    let not_empty = no_content-false_iff code in
    let size = by_length_iff code lines n (find_header content_length lines) refl in
    (
      (λ h. empty.0 (bodyless.0 h), λ h. bodyless.1 (empty.1 h)),
      (
        λ h. let (a, b) = by_size.0 h in (not_empty.0 a, size.0 b),
        λ (a, b). by_size.1 (not_empty.1 a, size.1 b),
      ),
    )
