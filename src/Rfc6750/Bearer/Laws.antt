-- ===== src/Rfc6750/Bearer/Laws.antt =====
-- Writing and reading an `Authorization` value of the Bearer scheme.
use io_http.Prelude.{◌++◌, ◌≡◌, ◌≢◌, refl, sym, none, ap, ◌∙◌, inl, inr, ◌↔◌, Option-cases}
use io_http.Text.{Bytes, strip_prefix, strip_prefix-eq-some, strip_prefix-eq-none}
use io_http.External.Secrecy.{Secrecy, SecrecyLaws}
use io_http.External.Base64.{Base64}
use io_http.Rfc6750.Bearer.{
  missing_prefix, Token, bearer_prefix, new, to_authorization, from_authorization,
}
use io_http.Rfc7617.Basic
use io_http.Rfc7617.Basic.{basic_prefix, Credentials}

module _ (secrecy : Secrecy) (secrets : SecrecyLaws secrecy) where
  new_injective : (s token : Bytes) → new secrecy s ≡ new secrecy token → s ≡ token
  unfolding new
  new_injective s token e =
      sym (secrets.expose-from s)
      ∙ ap (λ (t : Token secrecy). secrecy.expose_secret t.secret) e
      ∙ secrets.expose-from token

  from_authorization-prefixed :
      (s : Bytes) → from_authorization secrecy (bearer_prefix ++ s) ≡ inr (new secrecy s)
  unfolding from_authorization new strip_prefix
  from_authorization-prefixed s = refl

  from_authorization-unprefixed :
      (value : Bytes)
      → strip_prefix bearer_prefix value ≡ none
      → from_authorization secrecy value ≡ inl missing_prefix
  unfolding from_authorization
  from_authorization-unprefixed value e = rw e

  -- A value is read as a token exactly if it is the prefix followed by that token, and it is refused
  -- exactly if it does not begin with the prefix.
  pub from_authorization_iff :
      (value token : Bytes)
      → ((from_authorization secrecy value ≡ inr (new secrecy token))
          ↔ (value ≡ bearer_prefix ++ token))
        × ((from_authorization secrecy value ≡ inl missing_prefix)
            ↔ ((s : Bytes) → value ≢ bearer_prefix ++ s))
  from_authorization_iff value token = elim (Option-cases (strip_prefix bearer_prefix value)) [
    | inl e ↦
        let unread = from_authorization-unprefixed value e in
        let other = λ (s : Bytes). strip_prefix-eq-none bearer_prefix value s e in
        ((λ h. cc, λ v. absurd (other token v)), (λ _. other, λ _. unread))
    | inr (s, e) ↦
        let split = strip_prefix-eq-some bearer_prefix value s e in
        let read = ap (from_authorization secrecy) split ∙ from_authorization-prefixed s in
        (
          (
            λ h.
                let same : new secrecy s ≡ new secrecy token = cc in
                split ∙ ap (λ x. bearer_prefix ++ x) (new_injective s token same),
            λ v. ap (from_authorization secrecy) v ∙ from_authorization-prefixed token,
          ),
          (λ h. cc, λ no_prefix. absurd (no_prefix s split)),
        )
  ]

  -- A token that is written and read back exposes the same string, whatever its bytes.
  pub from-to_authorization_bearer :
      (token : Bytes)
      → from_authorization secrecy (to_authorization secrecy (new secrecy token))
        ≡ inr (new secrecy token)
  unfolding from_authorization to_authorization new strip_prefix
  from-to_authorization_bearer token = rw secrets.expose-from

  -- Neither scheme reads what the other one wrote.
  pub schemes_apart :
      (base64 : Base64) (token username password : Bytes)
      → (Basic.from_authorization secrecy base64 (to_authorization secrecy (new secrecy token))
          ≡ inl Basic.missing_prefix)
        × (from_authorization secrecy
              (Basic.to_authorization secrecy base64 (Basic.new secrecy base64 username password))
            ≡ inl missing_prefix)
  unfolding from_authorization to_authorization Basic.from_authorization Basic.to_authorization
      strip_prefix
  schemes_apart base64 token username password = (refl, refl)
