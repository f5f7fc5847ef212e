-- ===== src/Rfc7617/Basic.antt =====
-- Basic credentials (src/rfc7617/basic.rs).
pub mod Laws
use io_http.Prelude.{[], ◌∷◌, ◌++◌, ◌⊎◌, inl, inr, Option, none, some, Bool, ◌&&◌}
use io_http.Text.{Bytes, codes, bytes_eq, strip_prefix, split_once}
use io_http.Text.Utf8.{from_utf8}
use io_http.External.Secrecy.{Secrecy}
use io_http.External.Base64.{Base64}
use io_http.Rfc9110.Debug.{DebugStruct, text}

pub data BasicError (DecodeError : Type 0) : Type 0 where
  missing_prefix invalid_utf8 missing_colon : BasicError DecodeError
  invalid_base64 : DecodeError → BasicError DecodeError

pub record BasicCredentials (SecretString : Type 0) : Type 0 where
  pub username : Bytes
  pub password : SecretString

abbrev pub basic_prefix : Bytes
basic_prefix = codes "Basic "

module _ (secrecy : Secrecy) (base64 : Base64) where
  abbrev pub Credentials : Type 0
  Credentials = BasicCredentials secrecy.SecretString

  -- `BasicCredentials::new`.
  unfoldable pub new : Bytes → Bytes → Credentials
  new username password = record { username = username; password = secrecy.from password }

  unfoldable pub to_authorization : Credentials → Bytes
  to_authorization c =
      basic_prefix ++ base64.encode (c.username ++ b':' ∷ secrecy.expose_secret c.password)

  -- The four steps of `from_authorization`, each ended by `?`.
  take_colon : Bytes → BasicError base64.DecodeError ⊎ Credentials
  take_colon s = elim (split_once b':' s) [
    | none ↦ inl missing_colon
    | some (username, password) ↦
        inr (record { username = username; password = secrecy.from password })
  ]

  take_utf8 : Bytes → BasicError base64.DecodeError ⊎ Credentials
  take_utf8 decoded = elim (from_utf8 decoded) [ none ↦ inl invalid_utf8 | some s ↦ take_colon s ]

  take_base64 : Bytes → BasicError base64.DecodeError ⊎ Credentials
  take_base64 encoded = elim (base64.decode encoded) [
    | inl e ↦ inl (invalid_base64 e)
    | inr decoded ↦ take_utf8 decoded
  ]

  unfoldable pub from_authorization : Bytes → BasicError base64.DecodeError ⊎ Credentials
  unfolding take_base64 take_utf8 take_colon
  from_authorization value = elim (strip_prefix basic_prefix value) [
    | none ↦ inl missing_prefix
    | some encoded ↦ take_base64 encoded
  ]

  -- `fmt::Debug`.
  unfoldable pub debug_credentials : Credentials → DebugStruct
  debug_credentials c = record {
    name = codes "BasicCredentials";
    fields =
        (codes "username", text c.username) ∷ (codes "password", text (codes "[REDACTED]")) ∷ [];
  }

  -- `PartialEq::eq`.
  unfoldable pub credentials_eq : Credentials → Credentials → Bool
  credentials_eq a b =
      bytes_eq a.username b.username
      && bytes_eq (secrecy.expose_secret a.password) (secrecy.expose_secret b.password)
