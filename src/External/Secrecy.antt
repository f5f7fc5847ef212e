-- ===== src/External/Secrecy.antt =====
-- The secrecy crate.
use io_http.Prelude.{◌≡◌}
use io_http.Text.{Bytes}

pub record Secrecy : Type 1 where
  pub SecretString : Type 0
  pub from : Bytes → SecretString
  pub expose_secret : SecretString → Bytes

-- A secret that was made from a string exposes that string.
pub record SecrecyLaws (secrecy : Secrecy) : Type 0 where
  pub expose-from : (s : Bytes) → secrecy.expose_secret (secrecy.from s) ≡ s
