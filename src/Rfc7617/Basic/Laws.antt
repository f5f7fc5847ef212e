-- ===== src/Rfc7617/Basic/Laws.antt =====
-- Writing and reading an `Authorization` value of the Basic scheme.
use io_http.Prelude.{
  [], ◌∷◌, ◌++◌, ◌≡◌, ◌≢◌, refl, ◌∙◌, ap, ◌⊎◌, inl, inr, true, append_assoc, arith, Option-cases,
}
use io_http.Text.{
  Bytes, strip_prefix, strip_prefix-eq-some, strip_prefix-eq-none, split_once, split_once-append,
  split_once-eq-some, split_once-eq-none,
}
use io_http.Text.Search.{Lacks}
use io_http.Text.Utf8.{
  is_utf8, is_utf8-append, is_utf8-ascii, from_utf8, from_utf8-eq-some, from_utf8-eq-none,
  from_utf8_of_valid,
}
use io_http.External.Secrecy.{Secrecy, SecrecyLaws}
use io_http.External.Base64.{Base64, Base64Laws}
use io_http.Rfc7617.Basic.{
  BasicError, missing_prefix, invalid_base64, invalid_utf8, missing_colon, basic_prefix,
  Credentials, new, to_authorization, take_colon, take_utf8, take_base64, from_authorization,
}

module _ (secrecy : Secrecy) (base64 : Base64) where
  -- What an `Authorization` value stands for, without reference to the order of the tests.
  pub data Reads (value : Bytes)
      : BasicError base64.DecodeError ⊎ Credentials secrecy base64 → Type 0 where
    no_prefix : ((s : Bytes) → value ≢ basic_prefix ++ s) → Reads value (inl missing_prefix)
    no_base64 :
        (s : Bytes) (e : base64.DecodeError)
        → value ≡ basic_prefix ++ s
        → base64.decode s ≡ inl e
        → Reads value (inl (invalid_base64 e))
    no_utf8 :
        (s payload : Bytes)
        → value ≡ basic_prefix ++ s
        → base64.decode s ≡ inr payload
        → is_utf8 payload ≢ true
        → Reads value (inl invalid_utf8)
    no_colon :
        (s payload : Bytes)
        → value ≡ basic_prefix ++ s
        → base64.decode s ≡ inr payload
        → is_utf8 payload ≡ true
        → Lacks b':' payload
        → Reads value (inl missing_colon)
    credentials :
        (s username password : Bytes)
        → value ≡ basic_prefix ++ s
        → base64.decode s ≡ inr (username ++ b':' ∷ password)
        → is_utf8 (username ++ b':' ∷ password) ≡ true
        → Lacks b':' username
        → Reads value (inr (new secrecy base64 username password))

  module _ (value s : Bytes) (prefixed : value ≡ basic_prefix ++ s) where
    take_colon-Reads :
        (payload : Bytes)
        → base64.decode s ≡ inr payload
        → is_utf8 payload ≡ true
        → Reads value (take_colon secrecy base64 payload)
    unfolding new
    take_colon-Reads payload d u = elim (Option-cases (split_once b':' payload)) [
      | inl e ↦
          unfold take_colon in
          rw (e, take_colon) (no_colon s payload prefixed d u (split_once-eq-none b':' payload e))
      | inr ((a, b), e) ↦
          let (split, lacks) = split_once-eq-some b':' payload a b e in
          unfold take_colon in
          rw (e, take_colon) (credentials s a b prefixed (d ∙ ap inr split) (rw split at u) lacks)
    ]

    take_utf8-Reads :
        (payload : Bytes)
        → base64.decode s ≡ inr payload
        → Reads value (take_utf8 secrecy base64 payload)
    take_utf8-Reads payload d = elim (Option-cases (from_utf8 payload)) [
      | inl e ↦
          unfold take_utf8 in
          rw (e, take_utf8) (no_utf8 s payload prefixed d (from_utf8-eq-none payload e))
      | inr (t, e) ↦
          let (same, u) = from_utf8-eq-some payload t e in
          unfold take_utf8 in rw (e, take_utf8, same) (take_colon-Reads payload d u)
    ]

    take_base64-Reads : Reads value (take_base64 secrecy base64 s)
    take_base64-Reads = go (base64.decode s) refl
      where
        go :
            (o : base64.DecodeError ⊎ Bytes)
            → base64.decode s ≡ o
            → Reads value (take_base64 secrecy base64 s)
        go (inl x) e = unfold take_base64 in rw (e, take_base64) (no_base64 s x prefixed e)
        go (inr payload) e = unfold take_base64 in rw (e, take_base64) (take_utf8-Reads payload e)

  -- Every `Authorization` value is read as the specification says: as credentials that are split at
  -- the first colon of the decoded payload, or as the error of the first step that fails.
  pub from_authorization-Reads :
      (value : Bytes) → Reads value (from_authorization secrecy base64 value)
  from_authorization-Reads value = elim (Option-cases (strip_prefix basic_prefix value)) [
    | inl e ↦
        unfold from_authorization in
        rw (e, from_authorization) (no_prefix (λ s. strip_prefix-eq-none basic_prefix value s e))
    | inr (s, e) ↦
        let prefixed = strip_prefix-eq-some basic_prefix value s e in
        unfold from_authorization in rw (e, from_authorization) (take_base64-Reads value s prefixed)
  ]

  take_base64-payload :
      (s payload : Bytes)
      → base64.decode s ≡ inr payload
      → is_utf8 payload ≡ true
      → (a b : Bytes) → payload ≡ a ++ b':' ∷ b
      → Lacks b':' a
      → take_base64 secrecy base64 s ≡ inr (new secrecy base64 a b)
  unfolding take_base64 take_utf8 take_colon new
  take_base64-payload s payload d u a b e lacks = rw (
    d,
    take_base64,
    from_utf8_of_valid payload u,
    take_utf8,
    e,
    split_once-append b':' a b lacks,
    take_colon,
  )

  module _ (secrets : SecrecyLaws secrecy) (codec : Base64Laws base64) where
    from-to_authorization_split :
        (name password a b : Bytes)
        → is_utf8 name ≡ true
        → is_utf8 password ≡ true
        → name ++ b':' ∷ password ≡ a ++ b':' ∷ b
        → Lacks b':' a
        → from_authorization secrecy base64
            (to_authorization secrecy base64 (new secrecy base64 name password))
          ≡ inr (new secrecy base64 a b)
    from-to_authorization_split name password a b u p e lacks =
        let colon : is_utf8 (b':' ∷ password) ≡ true =
          is_utf8-append (b':' ∷ []) password (is_utf8-ascii (b':' ∷ []) (omega arith)) p in
        unfold from_authorization to_authorization new strip_prefix in
        rw secrets.expose-from (
          take_base64-payload _ _ (codec.decode-encode _) (is_utf8-append name _ u colon) a b e
            lacks)

    -- Credentials whose user name is `a` and, behind a first colon, `b` are read back with the user
    -- name `a`: what stood behind the colon becomes a part of the password.
    pub from-to_authorization_colon :
        (a b password : Bytes)
        → Lacks b':' a
        → is_utf8 (a ++ b':' ∷ b) ≡ true
        → is_utf8 password ≡ true
        → from_authorization secrecy base64
            (to_authorization secrecy base64 (new secrecy base64 (a ++ b':' ∷ b) password))
          ≡ inr (new secrecy base64 a (b ++ b':' ∷ password))
    from-to_authorization_colon a b password lacks u p =
        from-to_authorization_split (a ++ b':' ∷ b) password a (b ++ b':' ∷ password) u p
          (append_assoc a (b':' ∷ b) (b':' ∷ password)) lacks

    -- Credentials whose user name has no colon are read back from their `Authorization` value.
    pub from-to_authorization :
        (username password : Bytes)
        → Lacks b':' username
        → is_utf8 username ≡ true
        → is_utf8 password ≡ true
        → from_authorization secrecy base64
            (to_authorization secrecy base64 (new secrecy base64 username password))
          ≡ inr (new secrecy base64 username password)
    from-to_authorization username password lacks u p =
        from-to_authorization_split username password username password u p refl lacks
