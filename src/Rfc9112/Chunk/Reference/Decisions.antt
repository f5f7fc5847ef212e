-- ===== src/Rfc9112/Chunk/Reference/Decisions.antt =====
-- The decisions of the reference, first line by first line.
use io_http.Prelude.{
  ℕ, suc, ◌+◌, ◌++◌, ◌≡◌, refl, ◌∙◌, ap, none, some, length, take, drop, arith, leb, ◌==◌,
  take-length_append, drop-length_append, Option, true, false,
}
use io_http.Text.{Bytes}
use io_http.Text.Radix.{from_str_radix, usize_mod}
use io_http.Text.Search.{crlf, crlf_crlf, index_of}
use io_http.Rfc9112.Chunk.Reference.{
  Decoded, cut_line, cut_chunk, too_large, bad_size, size_text, size_of, line_at, first_line,
  trailer_ends, after_line, decode_from,
}

pub decode_from-line :
    (fuel : ℕ) (body wire line behind : Bytes) (o : Option ℕ)
    → index_of crlf wire ≡ some (length line)
    → wire ≡ line ++ (crlf ++ behind)
    → from_str_radix (size_text line) 16 ≡ o
    → decode_from (suc fuel) body wire
      ≡ after_line (decode_from fuel) body (size_of line (crlf ++ behind) o)
unfolding decode_from first_line line_at
decode_from-line fuel body wire line behind o first e f =
    let front : take (length line) wire ≡ line =
      ap (take (length line)) e ∙ take-length_append line (crlf ++ behind) in
    let back : drop (length line) wire ≡ crlf ++ behind =
      ap (drop (length line)) e ∙ drop-length_append line (crlf ++ behind) in
    rw (first, front, back, f)

pub decode_from-open :
    (fuel : ℕ) (body wire : Bytes)
    → index_of crlf wire ≡ none
    → decode_from (suc fuel) body wire ≡ cut_line
unfolding decode_from first_line line_at after_line
decode_from-open fuel body wire e = rw e

-- The decision behind a line, by the size that the line has.
module _ (fuel : ℕ) (sofar line behind : Bytes) where
  abbrev pub behind_line : Option ℕ → Decoded
  behind_line o = after_line (decode_from fuel) sofar (size_of line (crlf ++ behind) o)

  pub behind_line-none : behind_line none ≡ bad_size (size_text line)
  unfolding after_line size_of
  behind_line-none = refl

  module _ (n : ℕ) where
    pub behind_line-zero :
        (n == 0) ≡ true
        → behind_line (some n) ≡ trailer_ends sofar (index_of crlf_crlf (crlf ++ behind))
    unfolding after_line size_of
    behind_line-zero h = ground arith

    pub behind_line-large :
        (n == 0) ≡ false
        → leb usize_mod (n + 2) ≡ true
        → leb (n + 2) (usize_mod + length behind) ≡ true
        → behind_line (some n) ≡ too_large
    unfolding after_line size_of
    behind_line-large h k l = ground arith

    pub behind_line-large_cut :
        (n == 0) ≡ false
        → leb usize_mod (n + 2) ≡ true
        → leb (n + 2) (usize_mod + length behind) ≡ false
        → behind_line (some n) ≡ cut_chunk
    unfolding after_line size_of
    behind_line-large_cut h k l = ground arith

    pub behind_line-cut :
        (n == 0) ≡ false
        → leb usize_mod (n + 2) ≡ false
        → leb (n + 2) (length behind) ≡ false
        → behind_line (some n) ≡ cut_chunk
    unfolding after_line size_of
    behind_line-cut h k l = ground arith

    pub behind_line-chunk :
        (n == 0) ≡ false
        → leb usize_mod (n + 2) ≡ false
        → leb (n + 2) (length behind) ≡ true
        → behind_line (some n) ≡ decode_from fuel (sofar ++ take n behind) (drop (n + 2) behind)
    unfolding after_line size_of
    behind_line-chunk h k l = ground arith
