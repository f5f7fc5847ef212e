-- ===== src/Rfc9110/Wire/Head.antt =====
-- How a reader of RFC 9112, section 2.1, takes a serialized request apart: lines that end in CRLF up
-- to an empty one, then the body.
use mathlib.Core.List.{cons-ne-nil}
use io_http.Prelude.{
  ◌<◌, List, [], ◌∷◌, ◌++◌, ◌≡◌, ◌≢◌, refl, ◌∙◌, Option, none, some, ◌&&◌, ◌==◌, if◌then◌else◌,
  arith, All, All-append, append_assoc, append-nil, length, Bool-cases, inl, inr,
}
use io_http.Text.{Bytes, codes}
use io_http.Text.Ascii.{eq_ignore_ascii_case}
use io_http.Text.Trim.{trim, trim-digits}
use io_http.Text.Radix.{
  IsDigit, usize_mod, from_str_radix, from_str_radix-to_decimal, to_decimal, to_decimal-IsDigit,
}
use io_http.Text.Search.{Lacks, crlf, crlf_crlf}
use io_http.Rfc9110.Headers.{Headers, content_length}
use io_http.Rfc9110.Wire.{
  query_part, request_line, header_line, header_lines, length_line, serialize,
}

close_line : Bytes → Bytes → Option (List Bytes × Bytes) → Option (List Bytes × Bytes)
close_line [] rest found = some ([], rest)
close_line (c ∷ line) rest none = none
close_line (c ∷ line) rest (some (lines, body)) = some ((c ∷ line) ∷ lines, body)

read_lines : Bytes → Bytes → Option (List Bytes × Bytes)
read_lines line [] = none
read_lines line (c ∷ []) = none
read_lines line (c ∷ d ∷ s) =
    let closed = close_line line s (read_lines [] s) in
    let longer = read_lines (line ++ c ∷ []) (d ∷ s) in
    if c == 13 && d == 10 then closed else longer

-- The lines of a head, and what follows the empty line.
pub read_head : Bytes → Option (List Bytes × Bytes)
unfolding read_lines close_line
read_head = read_lines []

abbrev pub kept_lines : Headers → List Bytes
kept_lines [] = []
kept_lines ((key, val) ∷ hs) =
    if eq_ignore_ascii_case key content_length
    then kept_lines hs
    else (key ++ (codes ": " ++ val)) ∷ kept_lines hs

read_lines-line :
    (line p rest : Bytes)
    → Lacks 13 p
    → read_lines line (p ++ (crlf ++ rest)) ≡ close_line (line ++ p) rest (read_lines [] rest)
unfolding read_lines
read_lines-line line [] rest h = rw append-nil
read_lines-line line (c ∷ []) rest (h, _) = ground arith
read_lines-line line (c ∷ d ∷ p) rest (h, hs) =
    ground
      (arith, read_lines-line (line ++ c ∷ []) (d ∷ p) rest hs, append_assoc line (c ∷ []) (d ∷ p))

-- A line that is not empty is one more line of the head.
read_head-line :
    (p rest body : Bytes) (lines : List Bytes)
    → Lacks 13 p
    → p ≢ []
    → read_head rest ≡ some (lines, body)
    → read_head (p ++ (crlf ++ rest)) ≡ some (p ∷ lines, body)
unfolding read_head
read_head-line [] rest body lines h ne e = absurd (ne refl)
read_head-line (c ∷ p) rest body lines h ne e =
    read_lines-line [] (c ∷ p) rest h ∙ rw (e, close_line)

-- No CR in any name or value.
abbrev pub CleanHeaders : Headers → Type 0
CleanHeaders = All (λ h. Lacks 13 h.0 × Lacks 13 h.1)

header_line-Lacks : (key val : Bytes) → Lacks 13 key → Lacks 13 val → Lacks 13 (header_line key val)
unfolding header_line
header_line-Lacks key val k v =
    All-append _ key (codes ": " ++ val) k (All-append _ (codes ": ") val (omega arith) v)

header_line-ne-nil : (key val : Bytes) → header_line key val ≢ []
unfolding header_line
header_line-ne-nil [] val = cons-ne-nil _ _
header_line-ne-nil (c ∷ key) val = cons-ne-nil _ _

digits-Lacks : (s : Bytes) → All IsDigit s → Lacks 13 s
digits-Lacks [] h = tt
digits-Lacks (c ∷ s) (h, hs) = (omega arith, digits-Lacks s hs)

read_head-headers :
    (hs : Headers) (rest body : Bytes) (lines : List Bytes)
    → CleanHeaders hs
    → read_head rest ≡ some (lines, body)
    → read_head (header_lines hs ++ rest) ≡ some (kept_lines hs ++ lines, body)
unfolding header_lines
read_head-headers [] rest body lines clean e = e
read_head-headers ((key, val) ∷ hs) rest body lines ((k, v), clean) e =
    elim (Bool-cases (eq_ignore_ascii_case key content_length)) [
      | inl same ↦ rw same (read_head-headers hs rest body lines clean e)
      | inr other ↦
          rw (other, append_assoc (header_line key val) (crlf ++ header_lines hs) rest)
            (read_head-line (header_line key val) (header_lines hs ++ rest) body
              (kept_lines hs ++ lines) (header_line-Lacks key val k v) (header_line-ne-nil key val)
              (read_head-headers hs rest body lines clean e))
    ]

request_line-Lacks :
    (method path : Bytes) (query : Option Bytes) (version : Bytes)
    → Lacks 13 method
    → Lacks 13 path
    → Lacks 13 (query_part query)
    → Lacks 13 version
    → Lacks 13 (request_line method path query version)
unfolding request_line
request_line-Lacks method path query version m p q v =
    All-append _ method (b' ' ∷ (path ++ (query_part query ++ (b' ' ∷ version)))) m (
      omega arith,
      All-append _ path (query_part query ++ (b' ' ∷ version)) p
          (All-append _ (query_part query) (b' ' ∷ version) q (omega arith, v)),
    )

request_line-ne-nil :
    (method path : Bytes) (query : Option Bytes) (version : Bytes)
    → request_line method path query version ≢ []
unfolding request_line
request_line-ne-nil [] path query version = cons-ne-nil _ _
request_line-ne-nil (c ∷ method) path query version = cons-ne-nil _ _

pub serialize-ne-nil :
    (method path : Bytes) (query : Option Bytes) (version : Bytes) (headers : Headers)
    (body : Bytes)
    → serialize method path query version headers body ≢ []
unfolding serialize request_line
serialize-ne-nil [] path query version headers body = cons-ne-nil _ _
serialize-ne-nil (c ∷ method) path query version headers body = cons-ne-nil _ _

read_head-end :
    (body : Bytes)
    → read_head (length_line body ++ (crlf_crlf ++ body)) ≡ some (length_line body ∷ [], body)
unfolding length_line
read_head-end body =
    read_head-line (header_line content_length (to_decimal (length body))) (crlf ++ body) body []
      (header_line-Lacks content_length (to_decimal (length body)) (omega arith)
        (digits-Lacks _ (to_decimal-IsDigit (length body))))
      (header_line-ne-nil content_length _) (unfold read_head in refl)

-- A serialized request without CR in its method, target, version and headers is taken apart into the
-- request line, the header lines in order without any Content-Length, one line that gives the length
-- of the body, and the body; and if the length fits a `usize`, that line's value is read as it.
pub read_head-serialize :
    (method path : Bytes) (query : Option Bytes) (version : Bytes) (headers : Headers)
    (body : Bytes)
    → Lacks 13 method
    → Lacks 13 path
    → Lacks 13 (query_part query)
    → Lacks 13 version
    → CleanHeaders headers
    → length body < usize_mod
    → (read_head (serialize method path query version headers body)
        ≡ some (
          request_line method path query version
              ∷ (kept_lines headers
                  ++ (content_length ++ (codes ": " ++ to_decimal (length body))) ∷ []),
          body,
        ))
      × (from_str_radix (trim (to_decimal (length body))) 10 ≡ some (length body))
read_head-serialize method path query version headers body m p q v clean small = (
  unfold serialize in
      read_head-line (request_line method path query version)
        (header_lines headers ++ (length_line body ++ (crlf_crlf ++ body))) body _
        (request_line-Lacks method path query version m p q v)
        (request_line-ne-nil method path query version)
        (read_head-headers headers _ body _ clean (read_head-end body)),
  rw (trim-digits _ (to_decimal-IsDigit (length body)))
      (from_str_radix-to_decimal (length body) small),
)
