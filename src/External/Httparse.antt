-- ===== src/External/Httparse.antt =====
-- The httparse crate: `Response::parse` with a table of so many headers. What it finds is the length
-- of the head, the minor version, the code, and the header lines in order.
use io_http.Prelude.{ℕ, Option, [], ◌++◌, ◌≡◌, ◌≢◌, length}
use io_http.Text.{Bytes}
use io_http.Rfc9110.Headers.{Headers}

pub data Parsed (Error : Type 0) : Type 0 where
  complete : ℕ → Option ℕ → Option ℕ → Headers → Parsed Error
  partial : Parsed Error
  failed : Error → Parsed Error

pub record Httparse : Type 1 where
  pub Error : Type 0
  pub parse : ℕ → Bytes → Parsed Error

-- `head` is the whole head of a response with this version, code and header lines: the parser asks
-- for more on each of its proper beginnings, and finds its end whatever stands behind it.
pub record IsHead (parser : Httparse) (head : Bytes) (version code : Option ℕ) (lines : Headers)
    : Type 0 where
  pub some_bytes : head ≢ []
  pub asks_more : (s rest : Bytes) → s ++ rest ≡ head → rest ≢ [] → parser.parse 64 s ≡ partial
  pub finds_end :
      (rest : Bytes) → parser.parse 64 (head ++ rest) ≡ complete (length head) version code lines
