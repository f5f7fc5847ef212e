-- ===== src/Tests/Auth.antt =====
-- The two authorization schemes on short credentials.
use io_http.Prelude.{◌++◌, ◌≡◌, ◌≢◌, ◌↔◌, refl, inl, inr, arith}
use io_http.Text.{Bytes, codes}
use io_http.Text.Utf8.{is_utf8}
use io_http.Rfc7617.Basic
use io_http.Rfc7617.Basic.Laws.{
  Reads, from_authorization-Reads, from-to_authorization, from-to_authorization_colon,
}
use io_http.Rfc6750.Bearer
use io_http.Rfc6750.Bearer.{bearer_prefix}
use io_http.Rfc6750.Bearer.Laws.{from_authorization_iff, from-to_authorization_bearer}
use io_http.Tests.Sample.{sample_secrecy, sample_secrets, sample_base64, sample_codec}

from_authorization-Reads_example :
    Reads sample_secrecy sample_base64
      (codes "Basic joe:a:b")
      (Basic.from_authorization sample_secrecy sample_base64 (codes "Basic joe:a:b"))
from_authorization-Reads_example =
    from_authorization-Reads sample_secrecy sample_base64 (codes "Basic joe:a:b")

from-to_authorization_example :
    Basic.from_authorization sample_secrecy sample_base64 (
      Basic.to_authorization sample_secrecy sample_base64
        (Basic.new sample_secrecy sample_base64 (codes "joe") (codes "a:b")))
    ≡ inr (Basic.new sample_secrecy sample_base64 (codes "joe") (codes "a:b"))
unfolding is_utf8
from-to_authorization_example =
    from-to_authorization sample_secrecy sample_base64 sample_secrets sample_codec (codes "joe")
      (codes "a:b") (omega arith) refl refl

from-to_authorization_colon_example :
    Basic.from_authorization sample_secrecy sample_base64 (
      Basic.to_authorization sample_secrecy sample_base64
        (Basic.new sample_secrecy sample_base64 (codes "a:b") (codes "c")))
    ≡ inr (Basic.new sample_secrecy sample_base64 (codes "a") (codes "b:c"))
unfolding is_utf8
from-to_authorization_colon_example =
    from-to_authorization_colon sample_secrecy sample_base64 sample_secrets sample_codec (codes "a")
      (codes "b") (codes "c") (omega arith) refl refl

from_authorization_iff_example :
    ((Bearer.from_authorization sample_secrecy (codes "Bearer xyz")
        ≡ inr (Bearer.new sample_secrecy (codes "xyz")))
      ↔ (codes "Bearer xyz" ≡ bearer_prefix ++ codes "xyz"))
    × ((Bearer.from_authorization sample_secrecy (codes "Bearer xyz") ≡ inl Bearer.missing_prefix)
        ↔ ((s : Bytes) → codes "Bearer xyz" ≢ bearer_prefix ++ s))
from_authorization_iff_example =
    from_authorization_iff sample_secrecy sample_secrets (codes "Bearer xyz") (codes "xyz")

from-to_authorization_bearer_example :
    Bearer.from_authorization sample_secrecy
      (Bearer.to_authorization sample_secrecy (Bearer.new sample_secrecy (codes "xyz")))
    ≡ inr (Bearer.new sample_secrecy (codes "xyz"))
from-to_authorization_bearer_example =
    from-to_authorization_bearer sample_secrecy sample_secrets (codes "xyz")
