-- ===== src/Rfc9112/Chunk/Reference.antt =====
-- A reference for the chunked body decoder: the same decision on the whole wire at once, with no
-- state, no reads and no buffer.
pub mod Decisions
pub mod Pieces
pub mod Large
pub mod Equivalence
pub mod Bodies
pub mod Sound
use io_http.Prelude.{
  ℕ, zero, suc, ◌+◌, [], ◌++◌, Option, none, some, true, false, ◌==◌, leb, if◌then◌else◌, length,
  take, drop,
}
use io_http.Text.{Bytes}
use io_http.Text.Radix.{from_str_radix, usize_mod}
use io_http.Text.Search.{crlf, crlf_crlf, index_of}
use io_http.Text.Search.Found.{before}
use io_http.Text.Utf8.{from_utf8_lossy}

-- What a wire is: a body, or one that breaks off in a line or in the data of a chunk, or has a size
-- that is no number, or one that does not fit a `usize` with the CRLF of its chunk: such a size
-- wraps round to a read of no byte or one, which is cut where that byte is not there.
pub data Decoded : Type 0 where
  whole : Bytes → Decoded
  cut_line cut_chunk too_large : Decoded
  bad_size : Bytes → Decoded

-- The first line of a wire, and what stands behind it; behind the last one from its CRLF on.
pub data FirstLine : Type 0 where
  open_line : FirstLine
  huge : ℕ → Bytes → FirstLine
  no_number : Bytes → FirstLine
  last : Bytes → FirstLine
  sized : ℕ → Bytes → FirstLine

-- The text of a size, in front of any extension.
unfoldable pub size_text : Bytes → Bytes
unfolding before
size_text line = from_utf8_lossy (before b';' line)

pub size_of : Bytes → Bytes → Option ℕ → FirstLine
size_of line from_crlf none = no_number (size_text line)
size_of line from_crlf (some n) =
    if n == 0
    then last from_crlf
    else if leb usize_mod (n + 2)
    then huge n (drop 2 from_crlf)
    else sized n (drop 2 from_crlf)

pub line_at : Bytes → Option ℕ → FirstLine
line_at wire none = open_line
line_at wire (some at) =
    size_of (take at wire) (drop at wire) (from_str_radix (size_text (take at wire)) 16)

pub first_line : Bytes → FirstLine
first_line wire = line_at wire (index_of crlf wire)

pub trailer_ends : Bytes → Option ℕ → Decoded
trailer_ends body none = cut_line
trailer_ends body (some at) = whole body

-- What a first line leads to, `rest` being the reading of what stands behind a chunk.
pub after_line : (Bytes → Bytes → Decoded) → Bytes → FirstLine → Decoded
unfolding trailer_ends
after_line rest body open_line = cut_line
after_line rest body (huge n behind) =
    if leb (n + 2) (usize_mod + length behind) then too_large else cut_chunk
after_line rest body (no_number text) = bad_size text
after_line rest body (last from_crlf) = trailer_ends body (index_of crlf_crlf from_crlf)
after_line rest body (sized n behind) = elim (leb (n + 2) (length behind)) [
  | true ↦ rest (body ++ take n behind) (drop (n + 2) behind)
  | false ↦ cut_chunk
]

-- The fuel counts the chunks.
pub decode_from : ℕ → Bytes → Bytes → Decoded
unfolding first_line line_at size_of size_text after_line
decode_from zero body wire = cut_line
decode_from (suc fuel) body wire = after_line (decode_from fuel) body (first_line wire)

-- A chunk takes more than two bytes, so the length of the wire is enough.
unfoldable pub decode : Bytes → Decoded
unfolding decode_from
decode wire = decode_from (suc (length wire)) [] wire
