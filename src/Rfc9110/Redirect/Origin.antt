-- ===== src/Rfc9110/Redirect/Origin.antt =====
-- When two URLs have the same origin, as `finish` computes it.
use io_http.Prelude.{ℕ, Bool, true, false, ◌&&◌, ◌≡◌, refl, ap, ◌↔◌, Option, none, some, ==_iff}
use io_http.Text.{bytes_eq, bytes_eq_iff}
use io_http.External.Url.{UrlApi}
use io_http.Rfc9110.Redirect.{ports_eq, hosts_eq, same_origin}

ports_eq_iff : (a b : Option ℕ) → (ports_eq a b ≡ true) ↔ (a ≡ b)
unfolding ports_eq
ports_eq_iff none none = (λ h. refl, λ h. refl)
ports_eq_iff (some a) (some b) = (λ h. ap some ((==_iff a b).0 h), λ h. (==_iff a b).1 (cc))
ports_eq_iff none (some b) = (λ h. cc, λ h. cc)
ports_eq_iff (some a) none = (λ h. cc, λ h. cc)

and_true : (a b : Bool) → ((a && b) ≡ true) ↔ ((a ≡ true) × (b ≡ true))
and_true true b = (λ h. (refl, h), λ (p, q). q)
and_true false b = (λ h. cc, λ (p, q). cc)

module _ (url : UrlApi) (host_eq_iff : (a b : url.Host) → (url.host_eq a b ≡ true) ↔ (a ≡ b)) where
  hosts_eq_iff : (a b : Option url.Host) → (hosts_eq url a b ≡ true) ↔ (a ≡ b)
  unfolding hosts_eq
  hosts_eq_iff none none = (λ h. refl, λ h. refl)
  hosts_eq_iff (some a) (some b) =
      (λ h. ap some ((host_eq_iff a b).0 h), λ h. (host_eq_iff a b).1 (cc))
  hosts_eq_iff none (some b) = (λ h. cc, λ h. cc)
  hosts_eq_iff (some a) none = (λ h. cc, λ h. cc)

  abbrev pub SameOrigin : url.Url → url.Url → Type 0
  SameOrigin a b =
      (url.scheme a ≡ url.scheme b) × (url.host a ≡ url.host b) × (url.port a ≡ url.port b)

  pub same_origin_iff : (a b : url.Url) → (same_origin url a b ≡ true) ↔ SameOrigin a b
  unfolding same_origin
  same_origin_iff a b =
      let scheme = bytes_eq (url.scheme a) (url.scheme b) in
      let host = hosts_eq url (url.host a) (url.host b) in
      let port = ports_eq (url.port a) (url.port b) in
      (
        λ h.
            let (s, hp) = (and_true scheme (host && port)).0 h in
            let (eh, ep) = (and_true host port).0 hp in
            (
              (bytes_eq_iff (url.scheme a) (url.scheme b)).0 s,
              (hosts_eq_iff (url.host a) (url.host b)).0 eh,
              (ports_eq_iff (url.port a) (url.port b)).0 ep,
            ),
        λ (s, eh, ep). (and_true scheme (host && port)).1 (
          (bytes_eq_iff (url.scheme a) (url.scheme b)).1 s,
          (and_true host port).1 (
            (hosts_eq_iff (url.host a) (url.host b)).1 eh,
            (ports_eq_iff (url.port a) (url.port b)).1 ep,
          ),
        ),
      )
