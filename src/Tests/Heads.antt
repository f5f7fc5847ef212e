-- ===== src/Tests/Heads.antt =====
-- What the head of a small response decides.
use io_http.Prelude.{ℕ, [], ◌∷◌, ◌≡◌, ◌≢◌, ◌⊎◌, ◌↔◌, none, some, true, false, Option}
use io_http.Text.{Bytes, codes}
use io_http.Text.Utf8.{from_utf8_lossy}
use io_http.Rfc9110.Headers.{Headers, connection, transfer_encoding, find_header}
use io_http.Rfc9110.Response.{header, build, default_builder, push_headers, get_header}
use io_http.Rfc9110.Response.Lookup.{FirstLine, Unnamed, header-build}
use io_http.Rfc9112.Send.Head.{
  no_body, chunked, lengthed, is_http10, no_content, response_of, closes, framing,
}
use io_http.Rfc9112.Send.Head.Decisions.{closes_iff, framing_iff}
use io_http.Rfc9112.Send.Head.HeaderLines.{FirstIs, LengthIs}
use io_http.Rfc1945.Send.Head
use io_http.Rfc1945.Send.Head.Decisions.{persists_iff, framing_http10_iff}

abbrev lines : Headers
lines = (codes "Connection", codes "Close") ∷ (codes "Content-Length", codes " 12") ∷ []

abbrev minor : Option ℕ
minor = some 1

abbrev ok_code : Option ℕ
ok_code = some 200

closes_iff_example : (closes (is_http10 minor) (response_of minor ok_code lines) ≡ true) ↔ (
    FirstIs connection (codes "close") lines
    ⊎ ((find_header connection lines ≡ none) × (minor ≡ some 0)))
closes_iff_example = closes_iff minor ok_code lines

framing_iff_example :
    ((framing (is_http10 minor) (no_content ok_code) (response_of minor ok_code lines) ≡ no_body)
      ↔ ((ok_code ≡ some 204) ⊎ (ok_code ≡ some 304)))
    × ((framing (is_http10 minor) (no_content ok_code) (response_of minor ok_code lines) ≡ chunked)
        ↔ (((ok_code ≢ some 204) × (ok_code ≢ some 304))
            × (minor ≢ some 0)
            × FirstIs transfer_encoding (codes "chunked") lines))
    × ((framing (is_http10 minor) (no_content ok_code) (response_of minor ok_code lines)
          ≡ lengthed 12)
        ↔ (((ok_code ≢ some 204) × (ok_code ≢ some 304))
            × ((minor ≡ some 0) ⊎ (¬ FirstIs transfer_encoding (codes "chunked") lines))
            × LengthIs 12 lines))
framing_iff_example = framing_iff minor ok_code lines 12

persists_iff_example :
    (Head.persists false (Head.response_of ok_code lines) ≡ true)
    ↔ FirstIs connection (codes "keep-alive") lines
persists_iff_example = persists_iff ok_code lines

header-build_example :
    ((v : Bytes)
      → (header (build (push_headers default_builder lines) []) (codes "CONNECTION") ≡ some v) ↔ (
          (value : Bytes) × FirstLine (codes "CONNECTION") lines value
          × (v ≡ from_utf8_lossy value)))
    × ((header (build (push_headers default_builder lines) []) (codes "CONNECTION") ≡ none)
        ↔ Unnamed (codes "CONNECTION") lines)
    × (get_header (push_headers default_builder lines) (codes "CONNECTION")
        ≡ header (build (push_headers default_builder lines) []) (codes "CONNECTION"))
header-build_example = header-build lines (codes "CONNECTION") []

framing_http10_iff_example :
    ((Head.framing (Head.no_content ok_code) (Head.response_of ok_code lines) ≡ Head.no_body)
      ↔ ((ok_code ≡ some 204) ⊎ (ok_code ≡ some 304)))
    × ((Head.framing (Head.no_content ok_code) (Head.response_of ok_code lines) ≡ Head.lengthed 12)
        ↔ (((ok_code ≢ some 204) × (ok_code ≢ some 304)) × LengthIs 12 lines))
framing_http10_iff_example = framing_http10_iff ok_code lines 12
