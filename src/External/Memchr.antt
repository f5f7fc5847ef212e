-- ===== src/External/Memchr.antt =====
-- The memchr crate: `memmem::find` and `memchr`.
use io_http.Prelude.{ℕ, [], ◌∷◌, ◌≡◌, Option}
use io_http.Text.{Bytes}
use io_http.Text.Search.{index_of}

pub record Memchr : Type 0 where
  pub find : Bytes → Bytes → Option ℕ
  pub memchr : ℕ → Bytes → Option ℕ

-- Both return the index of the first occurrence.
pub record MemchrLaws (mem : Memchr) : Type 0 where
  pub find_first : (haystack needle : Bytes) → mem.find haystack needle ≡ index_of needle haystack
  pub memchr_first : (c : ℕ) (haystack : Bytes) → mem.memchr c haystack ≡ index_of (c ∷ []) haystack
