-- ===== src/Rfc6750/Bearer.antt =====
-- Bearer tokens (src/rfc6750/bearer.rs).
pub mod Laws
use io_http.Prelude.{[], ◌∷◌, ◌++◌, ◌⊎◌, inl, inr, Option, none, some, Bool}
use io_http.Text.{Bytes, codes, bytes_eq, strip_prefix}
use io_http.External.Secrecy.{Secrecy}
use io_http.Rfc9110.Debug.{DebugStruct, text}

pub data BearerError : Type 0 where
  missing_prefix : BearerError

pub record BearerToken (SecretString : Type 0) : Type 0 where
  pub secret : SecretString

abbrev pub bearer_prefix : Bytes
bearer_prefix = codes "Bearer "

module _ (secrecy : Secrecy) where
  abbrev pub Token : Type 0
  Token = BearerToken secrecy.SecretString

  -- `BearerToken::new`.
  unfoldable pub new : Bytes → Token
  new token = record { secret = secrecy.from token }

  -- `ExposeSecret::expose_secret`.
  unfoldable pub expose_secret : Token → Bytes
  expose_secret t = secrecy.expose_secret t.secret

  unfoldable pub to_authorization : Token → Bytes
  to_authorization t = bearer_prefix ++ secrecy.expose_secret t.secret

  token_of : Option Bytes → BearerError ⊎ Token
  token_of none = inl missing_prefix
  token_of (some token) = inr (record { secret = secrecy.from token })

  unfoldable pub from_authorization : Bytes → BearerError ⊎ Token
  unfolding token_of
  from_authorization value = token_of (strip_prefix bearer_prefix value)

  -- `fmt::Debug`, a tuple struct with one field, and `fmt::Display`.
  unfoldable pub debug_token : Token → DebugStruct
  debug_token t = record {
    name = codes "BearerToken";
    fields = ([], text (codes "[REDACTED]")) ∷ [];
  }

  unfoldable pub display_token : Token → Bytes
  display_token t = secrecy.expose_secret t.secret

  -- `PartialEq::eq`.
  unfoldable pub token_eq : Token → Token → Bool
  token_eq a b = bytes_eq (secrecy.expose_secret a.secret) (secrecy.expose_secret b.secret)
