-- ===== src/External/Url.antt =====
-- The url crate, as far as the program uses it.
use io_http.Prelude.{ℕ, Bool, Option, ◌⊎◌, ◌≡◌}
use io_http.Text.{Bytes}

pub record UrlApi : Type 1 where
  pub Url : Type 0
  pub Host : Type 0
  pub ParseError : Type 0
  pub parse : Bytes → ParseError ⊎ Url
  pub join : Url → Bytes → ParseError ⊎ Url
  pub set_path : Url → Bytes → Url
  pub path : Url → Bytes
  pub query : Url → Option Bytes
  pub scheme : Url → Bytes
  pub host : Url → Option Host
  pub port : Url → Option ℕ
  pub host_str : Url → Option Bytes
  pub domain : Url → Option Bytes
  pub port_or_known_default : Url → Option ℕ
  -- `==` on `Host`.
  pub host_eq : Host → Host → Bool

-- What the url crate documents of `set_path`: on a URL that has a path at all (`Based`, as
-- those of http and https have), it sets a path that needs no encoding (`Plain`) as it is, and
-- leaves the other parts alone.
pub record UrlLaws (url : UrlApi) : Type 1 where
  pub Based : url.Url → Type 0
  pub Plain : Bytes → Type 0
  pub path-set_path :
      (u : url.Url) (p : Bytes) → Based u → Plain p → url.path (url.set_path u p) ≡ p
  pub scheme-set_path : (u : url.Url) (p : Bytes) → url.scheme (url.set_path u p) ≡ url.scheme u
  pub host-set_path : (u : url.Url) (p : Bytes) → url.host (url.set_path u p) ≡ url.host u
  pub port-set_path : (u : url.Url) (p : Bytes) → url.port (url.set_path u p) ≡ url.port u
  pub query-set_path : (u : url.Url) (p : Bytes) → url.query (url.set_path u p) ≡ url.query u
