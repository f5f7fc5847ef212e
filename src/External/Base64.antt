-- ===== src/External/Base64.antt =====
-- The `BASE64_STANDARD` engine of the base64 crate.
use io_http.Prelude.{◌≡◌, ◌⊎◌, inr}
use io_http.Text.{Bytes}

pub record Base64 : Type 1 where
  pub DecodeError : Type 0
  pub encode : Bytes → Bytes
  pub decode : Bytes → DecodeError ⊎ Bytes

-- Decoding an encoded byte string gives it back.
pub record Base64Laws (base64 : Base64) : Type 0 where
  pub decode-encode : (s : Bytes) → base64.decode (base64.encode s) ≡ inr s
