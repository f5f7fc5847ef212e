-- ===== src/Rfc9110/Debug.antt =====
-- What the `fmt::Debug` implementations hand to the formatter: a name and named fields. How the
-- standard library lays such a tree out as text is left to it.
use io_http.Prelude.{ℕ, List}
use io_http.Text.{Bytes}
use io_http.Rfc9110.Headers.{Headers}

pub data DebugValue : Type 0 where
  text : Bytes → DebugValue
  number : ℕ → DebugValue
  pairs : Headers → DebugValue
  arguments : Bytes → DebugValue

pub record DebugStruct : Type 0 where
  pub name : Bytes
  pub fields : List (Bytes × DebugValue)
