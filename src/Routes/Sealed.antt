-- ===== src/Routes/Sealed.antt =====
-- The form in which tokens leave the routes (src/routes.rs).
use rowdy.Prelude.{
  Bool, true, false, none, ok, ◌≡◌, ◌∙◌, sym, arith, >>=-eq-ok, map_err-eq-ok, unwrap, Option-cases,
  inl, inr, subst, is_some,
}
use rowdy.Crates.Jwt.{DateTime}
use rowdy.Crates.Jwt.Laws.{Seals}
use rowdy.Auth.Header.{Basic, Bearer}
use rowdy.Auth.Authenticator.{AuthenticationResult}
use rowdy.Token.Access.{with_configuration_and_time, Token}
use rowdy.Token.Access.Shape.{with_configuration_and_time-IsRefreshFor}
use rowdy.Token.Access.Sealed.{IsSealed, IsSigned, encode-IsSigned, encrypt_refresh_token-IsSealed}
use rowdy.Routes.{
  Server, AuthParam, issue, reissue, redeem, token_getter, refresh_token, encrypt_if_enabled,
}
use rowdy.Routes.Flow.{encode-refresh_token, enabled}
use rowdy.Routes.Redeemed.{refresh_token-IsRedeemed}
use rowdy.Routes.Redeem.{token_getter-eq-ok}

module _ (s : Server) (seals : Seals s.jwt) (now : DateTime) where
  encrypt_if_enabled-IsSealed :
      (t t' : Token) (b : Bool)
      → IsSigned t.token
      → (is_some t.refresh_token ≡ true → b ≡ true)
      → encrypt_if_enabled s now t b ≡ ok t'
      → IsSealed t'
  unfolding encrypt_if_enabled
  encrypt_if_enabled-IsSealed t t' true signed on h =
      let (key, unlocked, h1) = >>=-eq-ok (unwrap s.keys.encryption) _ h in
      encrypt_refresh_token-IsSealed s.jwt seals t t' s.keys.signing key signed
        (map_err-eq-ok _ _ h1)
  encrypt_if_enabled-IsSealed t t' false signed on h = elim (Option-cases t.refresh_token) [
    | inl without ↦
        let same : t ≡ t' = ground arith in
        subst IsSealed same (record { signed = signed; closed = rw without tt })
    | inr (r, has) ↦ absurd (ground arith)
  ]

  issue-IsSealed :
      (param : AuthParam) (result : AuthenticationResult) (t : Token)
      → issue s now param result ≡ ok t
      → IsSealed t
  unfolding issue
  issue-IsSealed param result t h =
      let (t0, made, h1) = >>=-eq-ok _ _ h in
      let (t1, coded, h2) = >>=-eq-ok _ _ h1 in
      let coded' = map_err-eq-ok _ _ (map_err-eq-ok _ _ coded) in
      let keep = encode-refresh_token s.jwt t0 t1 s.keys.signing coded' in
      encrypt_if_enabled-IsSealed t1 t _ (encode-IsSigned s.jwt seals t0 t1 s.keys.signing coded')
        (enabled s.configuration t1 (λ r had.
          let (p, given, f) =
            with_configuration_and_time-IsRefreshFor s.jwt s.world s.configuration result.subject
              param.service result.private_claims result.refresh_payload now t0 r made
              (sym keep ∙ had) in
          (f.refresh, f.refresh_is)))
        h2

  -- Where the token crate signs to an encoded value and encrypts to a closed one, a token that the
  -- first route gives out is encoded, and its refresh token, if it has one, is encrypted.
  pub token_getter-IsSealed :
      (user : Basic) (param : AuthParam) (t : Token)
      → token_getter s now user param ≡ ok t
      → IsSealed t
  token_getter-IsSealed user param t h =
      let (result, prepared, made) = token_getter-eq-ok s now user param t h in
      issue-IsSealed param result t made

  reissue-IsSealed :
      (param : AuthParam) (result : AuthenticationResult) (t : Token)
      → reissue s now param result ≡ ok t
      → IsSigned t.token × (t.refresh_token ≡ none)
  unfolding reissue
  reissue-IsSealed param result t h =
      let (t0, made, coded) =
        >>=-eq-ok
          (with_configuration_and_time s.jwt s.world s.configuration result.subject param.service
            result.private_claims none now)
          _ h in
      let coded' = map_err-eq-ok _ _ (map_err-eq-ok _ _ coded) in
      let keep = encode-refresh_token s.jwt t0 t s.keys.signing coded' in
      (
        encode-IsSigned s.jwt seals t0 t s.keys.signing coded',
        elim (Option-cases t0.refresh_token) [
          | inl without ↦ keep ∙ without
          | inr (r, had) ↦
              let (p, given, f) =
                with_configuration_and_time-IsRefreshFor s.jwt s.world s.configuration
                  result.subject param.service result.private_claims none now t0 r made had in
              absurd (ground arith)
        ],
      )

  -- Where the token crate signs to an encoded value, a token that the second route gives out is
  -- encoded and has no refresh token.
  pub refresh_token-IsSigned :
      (bearer : Bearer) (param : AuthParam) (t : Token)
      → refresh_token s now bearer param ≡ ok t
      → IsSigned t.token × (t.refresh_token ≡ none)
  unfolding refresh_token redeem
  refresh_token-IsSigned bearer param t h =
      let redeemed = refresh_token-IsRedeemed s now bearer.token param t h in
      reissue-IsSealed param redeemed.result t redeemed.made
