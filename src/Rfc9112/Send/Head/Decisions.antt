-- ===== src/Rfc9112/Send/Head/Decisions.antt =====
-- How the header lines of a response decide the fate of the connection and the reading of the body.
use mathlib.Core.Option
use io_http.Prelude.{
  ℕ, ◌≡◌, ◌≢◌, ap, sym, ◌∙◌, ◌⊎◌, inl, inr, ◌↔◌, Bool, true, false, Option, none, some, arith,
  Option-cases,
}
use io_http.Text.{Bytes, codes}
use io_http.Text.Ascii.{eq_ignore_ascii_case}
use io_http.Text.Utf8.{from_utf8_lossy}
use io_http.Rfc9110.Headers.{Headers, find_header, connection, transfer_encoding}
use io_http.Rfc9112.Send.Head.HeaderLines.{
  get_header-response_of, FirstIs, LengthIs, says_chunked_iff, by_length_iff, by_length-ne,
  says_chunked-false_iff,
}
use io_http.Rfc9112.Send.Head.{
  is_http10, no_content, response_of, closes, framing, by_length, says_chunked, no_body, chunked,
  lengthed,
}

is_http10_iff : (version : Option ℕ) → (is_http10 version ≡ true) ↔ (version ≡ some 0)
unfolding is_http10
is_http10_iff version = ground arith

no_content_iff :
    (code : Option ℕ) → (no_content code ≡ true) ↔ ((code ≡ some 204) ⊎ (code ≡ some 304))
unfolding no_content
no_content_iff code = ground arith

closes-get_header :
    (http10 : Bool) (version code : Option ℕ) (lines : Headers) (o : Option Bytes)
    → find_header connection lines ≡ o
    → closes http10 (response_of version code lines) ≡ (elim (Option.map from_utf8_lossy o) [
      | some conn ↦ eq_ignore_ascii_case conn (codes "close")
      | none ↦ http10
    ])
unfolding closes
closes-get_header http10 version code lines o e = rw (
  get_header-response_of version code lines connection ∙ ap (Option.map from_utf8_lossy) e,
  closes,
)

-- The connection is closed exactly if the first Connection line says `close`, in any case, or if
-- there is no Connection line and the response is of version 1.0.
pub closes_iff :
    (version code : Option ℕ) (lines : Headers)
    → (closes (is_http10 version) (response_of version code lines) ≡ true) ↔ (
        FirstIs connection (codes "close") lines
        ⊎ ((find_header connection lines ≡ none) × (version ≡ some 0)))
closes_iff version code lines = elim (Option-cases (find_header connection lines)) [
  | inl e ↦
      let c = closes-get_header (is_http10 version) version code lines none e in
      (
        λ h. inr (e, (is_http10_iff version).0 (sym c ∙ h)),
        λ d. elim d [ inl (v, f, g) ↦ cc | inr (f, g) ↦ c ∙ (is_http10_iff version).1 g ],
      )
  | inr (v, e) ↦
      let c = closes-get_header (is_http10 version) version code lines (some v) e in
      (
        λ h. inl (v, e, sym c ∙ h),
        λ d. elim d [
          | inl (w, f, g) ↦ let same : w ≡ v = cc in c ∙ (rw same at g)
          | inr (f, g) ↦ cc
        ],
      )
]

framing-cases :
    (http10 empty : Bool) (version code : Option ℕ) (lines : Headers) (n : ℕ)
    → let response = response_of version code lines in
      ((framing http10 empty response ≡ no_body) ↔ (empty ≡ true))
      × ((framing http10 empty response ≡ chunked)
          ↔ ((empty ≡ false) × (http10 ≡ false) × (says_chunked response ≡ true)))
      × ((framing http10 empty response ≡ lengthed n) ↔ (
          (empty ≡ false)
          × ((http10 ≡ true) ⊎ (says_chunked response ≡ false))
          × (by_length response ≡ lengthed n)))
unfolding framing
framing-cases http10 empty version code lines n = ground (arith, by_length-ne version code lines)

no_content-false_iff :
    (code : Option ℕ) → (no_content code ≡ false) ↔ ((code ≢ some 204) × (code ≢ some 304))
unfolding no_content
no_content-false_iff code = ground arith

is_http10-false_iff : (version : Option ℕ) → (is_http10 version ≡ false) ↔ (version ≢ some 0)
unfolding is_http10
is_http10-false_iff version = ground arith

-- How the body of a response is read. There is none exactly with the codes 204 and 304. It is
-- chunked exactly with another code, a version other than 1.0, and a first Transfer-Encoding line
-- `chunked` in any case; Content-Length then plays no part. It is read to a length exactly with
-- another code, where it is not chunked, if the first Content-Length line is that number.
pub framing_iff :
    (version code : Option ℕ) (lines : Headers) (n : ℕ)
    → ((framing (is_http10 version) (no_content code) (response_of version code lines) ≡ no_body)
        ↔ ((code ≡ some 204) ⊎ (code ≡ some 304)))
      × ((framing (is_http10 version) (no_content code) (response_of version code lines) ≡ chunked)
          ↔ (((code ≢ some 204) × (code ≢ some 304))
              × (version ≢ some 0)
              × FirstIs transfer_encoding (codes "chunked") lines))
      × ((framing (is_http10 version) (no_content code) (response_of version code lines)
            ≡ lengthed n)
          ↔ (((code ≢ some 204) × (code ≢ some 304))
              × ((version ≡ some 0) ⊎ (¬ FirstIs transfer_encoding (codes "chunked") lines))
              × LengthIs n lines))
framing_iff version code lines n =
    let (bodyless, in_chunks, by_size) =
      framing-cases (is_http10 version) (no_content code) version code lines n in
    let empty = no_content_iff code in
    let not_empty = no_content-false_iff code in
    let http10 = is_http10_iff version in
    let not_http10 = is_http10-false_iff version in
    let says = says_chunked_iff version code lines in
    let says_not = says_chunked-false_iff version code lines in
    let size = by_length_iff version code lines n in
    (
      (λ h. empty.0 (bodyless.0 h), λ h. bodyless.1 (empty.1 h)),
      (
        λ h. let (a, b, c) = in_chunks.0 h in (not_empty.0 a, not_http10.0 b, says.0 c),
        λ (a, b, c). in_chunks.1 (not_empty.1 a, not_http10.1 b, says.1 c),
      ),
      (
        λ h.
            let (a, b, c) = by_size.0 h in
            (
              not_empty.0 a,
              elim b [ inl x ↦ inl (http10.0 x) | inr x ↦ inr (says_not.0 x) ],
              size.0 c,
            ),
        λ (a, b, c). by_size.1 (
          not_empty.1 a,
          elim b [ inl x ↦ inl (http10.1 x) | inr x ↦ inr (says_not.1 x) ],
          size.1 c,
        ),
      ),
    )
