-- ===== src/Rfc9112/Chunk/Grammar.antt =====
-- The chunked transfer coding of RFC 9112, section 7.1, as a relation between the bytes on the wire
-- and the body, with what the decoder's text functions make of a chunk-size line.
use io_http.Prelude.{
  lt→ltb, sym, ℕ, ◌+◌, ◌-◌, ◌*◌, ◌≤◌, ◌<◌, List, [], ◌∷◌, ◌++◌, ◌≡◌, ◌≢◌, refl, ◌∙◌, sym, ap, ◌⊎◌,
  inl, inr, some, arith, leb, if◌then◌else◌, All, All-append, append_assoc, append-nil, length,
  take, take-length_append, lt→ltb,
}
use mathlib.Core.Option.{get_or}
use io_http.Text.{Bytes}
use io_http.Text.Radix.{usize_mod, to_digit, digits_from, from_str_radix}
use io_http.Text.Search.{Lacks, crlf, crlf_crlf, index_of, index_of-byte, index_of-Lacks}
use io_http.Text.Utf8.{from_utf8_lossy, is_utf8-ascii, from_utf8_lossy_of_valid}

abbrev pub IsHexDigit : ℕ → Type 0
IsHexDigit c = ((b'0' ≤ c) × (c ≤ b'9')) ⊎ (((b'A' ≤ c) × (c ≤ b'F')) ⊎ ((b'a' ≤ c) × (c ≤ b'f')))

abbrev pub hex_digit : ℕ → ℕ
hex_digit c = if leb c b'9' then c - b'0' else if leb c b'F' then c - 55 else c - 87

-- The number that hexadecimal digits spell behind `n`, with no bound.
abbrev pub hex_value : ℕ → Bytes → ℕ
hex_value n [] = n
hex_value n (c ∷ s) = hex_value (n * 16 + hex_digit c) s

-- chunk-size [ chunk-ext ], an extension being a semicolon and bytes without CR.
pub record SizeLine (line : Bytes) (size : ℕ) : Type 0 where
  pub digits : Bytes
  pub ext : Bytes
  pub line_split : line ≡ digits ++ ext
  pub has_digit : digits ≢ []
  pub all_hex : All IsHexDigit digits
  pub size_value : hex_value 0 digits ≡ size
  pub ext_form : (ext ≡ []) ⊎ ((e : Bytes) × (ext ≡ b';' ∷ e))
  pub ext_no_cr : Lacks 13 ext

-- *( field-line CRLF )
abbrev pub trailer_section : List Bytes → Bytes
trailer_section [] = []
trailer_section (f ∷ fs) = f ++ (crlf ++ trailer_section fs)

-- `Chunked wire body`: `wire` is a chunked body that decodes to `body`, and whatever follows it. The
-- chunk sizes, with the CRLF behind the chunk, fit a `usize`.
pub data Chunked : Bytes → Bytes → Type 0 where
  last_chunk :
      {wire body : Bytes} (line : Bytes) (fields : List Bytes) (behind : Bytes)
      → SizeLine line 0
      → wire ≡ line ++ (crlf ++ (trailer_section fields ++ (crlf ++ behind)))
      → body ≡ []
      → Chunked wire body
  chunk :
      {wire body : Bytes} (line chunk_data rest rest_body : Bytes)
      → SizeLine line (length chunk_data)
      → chunk_data ≢ []
      → length chunk_data + 2 < usize_mod
      → Chunked rest rest_body
      → wire ≡ line ++ (crlf ++ (chunk_data ++ (crlf ++ rest)))
      → body ≡ chunk_data ++ rest_body
      → Chunked wire body

-- Behind the CRLF of the last chunk's line stands the double CRLF that ends the trailer.
pub trailer_end :
    (fields : List Bytes) (behind : Bytes)
    → (a : Bytes) × (crlf ++ (trailer_section fields ++ (crlf ++ behind))
        ≡ a ++ (crlf_crlf ++ behind))
trailer_end [] behind = ([], refl)
trailer_end (f ∷ fs) behind =
    let (a, e) = trailer_end fs behind in
    (
      crlf ++ (f ++ a),
      ap (λ z. crlf ++ z)
          (append_assoc f (crlf ++ trailer_section fs) (crlf ++ behind)
            ∙ ap (λ z. f ++ z) e
            ∙ sym (append_assoc f a (crlf_crlf ++ behind))),
    )

hex_value-ge : (s : Bytes) (n : ℕ) → n ≤ hex_value n s
hex_value-ge [] n = omega arith
hex_value-ge (c ∷ s) n = omega (arith, hex_value-ge s _)

hex-ascii : (s : Bytes) → All IsHexDigit s → All (λ b. b < 128) s
hex-ascii [] h = tt
hex-ascii (c ∷ s) (h, hs) = (omega arith, hex-ascii s hs)

hex-Lacks : (s : Bytes) → All IsHexDigit s → Lacks b';' s
hex-Lacks [] h = tt
hex-Lacks (c ∷ s) (h, hs) = (omega arith, hex-Lacks s hs)

hex-Lacks_cr : (s : Bytes) → All IsHexDigit s → Lacks 13 s
hex-Lacks_cr [] h = tt
hex-Lacks_cr (c ∷ s) (h, hs) = (omega arith, hex-Lacks_cr s hs)

to_digit-hex : (c : ℕ) → IsHexDigit c → to_digit 16 c ≡ some (hex_digit c)
unfolding to_digit
to_digit-hex c h = ground arith

digits_from-hex :
    (s : Bytes) (n : ℕ)
    → All IsHexDigit s
    → hex_value n s < usize_mod
    → digits_from 16 n s ≡ some (hex_value n s)
unfolding digits_from
digits_from-hex [] n h lt = refl
digits_from-hex (c ∷ s) n (h, hs) lt =
    let m = n * 16 + hex_digit c in
    let small : m < usize_mod = omega (arith, hex_value-ge s m) in
    rw (to_digit-hex c h, digits_from, lt→ltb m usize_mod small) (digits_from-hex s m hs lt)

-- Hexadecimal digits are read as the number that they spell, if it fits a `usize`.
pub from_str_radix-hex :
    (s : Bytes)
    → s ≢ []
    → All IsHexDigit s
    → hex_value 0 s < usize_mod
    → from_str_radix s 16 ≡ some (hex_value 0 s)
unfolding from_str_radix
from_str_radix-hex [] ne h lt = absurd (ne refl)
from_str_radix-hex (c ∷ []) ne h lt = digits_from-hex (c ∷ []) 0 h lt
from_str_radix-hex (c ∷ d ∷ s) ne h lt = ground (arith, digits_from-hex (c ∷ d ∷ s) 0 h lt)

module _ {line : Bytes} {size : ℕ} (l : SizeLine line size) where
  pub SizeLine-Lacks : Lacks 13 line
  SizeLine-Lacks =
      rw l.line_split (All-append _ l.digits l.ext (hex-Lacks_cr l.digits l.all_hex) l.ext_no_cr)

  -- The size ends at the semicolon, or with the line.
  pub SizeLine-ext : get_or (index_of (b';' ∷ []) line) (length line) ≡ length l.digits
  SizeLine-ext = elim l.ext_form [
    | inl e ↦
        let whole : line ≡ l.digits = l.line_split ∙ rw e (append-nil l.digits) in
        rw (whole, index_of-Lacks b';' l.digits (hex-Lacks l.digits l.all_hex))
    | inr (x, e) ↦
        let split : line ≡ l.digits ++ b';' ∷ x = l.line_split ∙ rw e in
        rw (split, index_of-byte b';' l.digits x (hex-Lacks l.digits l.all_hex))
  ]

  pub SizeLine-size :
      (rest : Bytes)
      → size < usize_mod
      → from_str_radix (from_utf8_lossy (take (length l.digits) (line ++ rest))) 16 ≡ some size
  SizeLine-size rest lt =
      rw
        (
          l.line_split,
          append_assoc,
          take-length_append,
          from_utf8_lossy_of_valid l.digits (is_utf8-ascii l.digits (hex-ascii l.digits l.all_hex)),
          from_str_radix-hex l.digits l.has_digit l.all_hex (rw l.size_value lt),
        )
        (ap some l.size_value)
