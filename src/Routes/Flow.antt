-- ===== src/Routes/Flow.antt =====
-- Where the refresh token of an issued token comes from (src/routes.rs, `token_getter`).
use rowdy.Prelude.{
  Bool, true, false, ◌&&◌, some, ok, ◌≡◌, sym, arith, >>=-eq-ok, map_err-eq-ok, is_some,
  Option-cases, inl, inr, unwrap, ok_or-eq-ok, ◌∙◌,
}
use rowdy.Crates.{JsonValue}
use rowdy.Crates.Jwt.{Jwt, DateTime, Jwk, JwsSecret}
use rowdy.Auth.Authenticator.{AuthenticationResult}
use rowdy.Token.Config.{Configuration, RefreshTokenConfiguration, refresh_token_enabled}
use rowdy.Token.Verify.{verify_service}
use rowdy.Token.Refresh.{RefreshToken, encrypt}
use rowdy.Token.Access.{Token, encode, encrypt_refresh_token, has_refresh_token}
use rowdy.Token.Access.Shape.{IsRefreshFor, with_configuration_and_time_shape}
use rowdy.Routes.{Server, AuthParam, issue, encrypt_if_enabled}

pub encode-refresh_token :
    (j : Jwt) (t t' : Token) (k : JwsSecret)
    → encode j t k ≡ ok t'
    → t'.refresh_token ≡ t.refresh_token
unfolding encode
encode-refresh_token j t t' k h = ground arith

-- Refresh tokens are enabled where a token has one.
pub enabled :
    (config : Configuration) (t : Token)
    → ((r : RefreshToken)
        → t.refresh_token ≡ some r
        → (x : RefreshTokenConfiguration) × (config.refresh_token ≡ some x))
    → is_some t.refresh_token ≡ true
    → (refresh_token_enabled config && has_refresh_token t) ≡ true
unfolding has_refresh_token refresh_token_enabled
enabled config t made h = elim (Option-cases t.refresh_token) [
  | inl without ↦ absurd (ground arith)
  | inr (r, has) ↦ let (x, is_x) = made r has in ground arith
]

module _ (s : Server) (now : DateTime) where
  encrypt_if_enabled-some :
      (t t' : Token) (b : Bool) (lock : Jwk) (r : RefreshToken)
      → s.keys.encryption ≡ some lock
      → (is_some t.refresh_token ≡ true → b ≡ true)
      → encrypt_if_enabled s now t b ≡ ok t'
      → t'.refresh_token ≡ some r
      → (r' : RefreshToken) × (t.refresh_token ≡ some r')
        × (encrypt s.jwt r' s.keys.signing lock ≡ ok r)
  unfolding encrypt_if_enabled encrypt_refresh_token
  encrypt_if_enabled-some t t' true lock r key on h has =
      let (lock', locked, h1) = >>=-eq-ok (unwrap s.keys.encryption) _ h in
      let (r', had, h2) = >>=-eq-ok _ _ (map_err-eq-ok _ _ h1) in
      let (x, done, h3) = >>=-eq-ok (encrypt s.jwt r' s.keys.signing lock') _ h2 in
      (r', ok_or-eq-ok _ _ (map_err-eq-ok _ _ had), ground arith)
  encrypt_if_enabled-some t t' false lock r key on h has =
      let same : t'.refresh_token ≡ t.refresh_token = ground arith in absurd (ground arith)

  -- A refresh token in an issued token is the encryption of one for the result's payload.
  pub issue_refresh :
      (param : AuthParam) (result : AuthenticationResult) (t : Token) (r : RefreshToken)
      (lock : Jwk)
      → s.keys.encryption ≡ some lock
      → issue s now param result ≡ ok t
      → t.refresh_token ≡ some r
      → (p : JsonValue) × (result.refresh_payload ≡ some p)
        × (verify_service s.jwt s.configuration param.service ≡ ok tt)
        × (r' : RefreshToken) × (encrypt s.jwt r' s.keys.signing lock ≡ ok r)
        × IsRefreshFor s.jwt s.world s.configuration result.subject now p r'
  unfolding issue
  issue_refresh param result t r lock key h has =
      let (t0, made, h1) = >>=-eq-ok _ _ h in
      let (t1, coded, h2) = >>=-eq-ok _ _ h1 in
      let keep =
        encode-refresh_token s.jwt t0 t1 s.keys.signing
          (map_err-eq-ok _ _ (map_err-eq-ok _ _ coded)) in
      let (is_made, refreshes) =
        with_configuration_and_time_shape s.jwt s.world s.configuration result.subject param.service
          result.private_claims result.refresh_payload now t0 made in
      let on =
        enabled s.configuration t1
          (λ r' had. let f = (refreshes r' (sym keep ∙ had)).2 in (f.refresh, f.refresh_is)) in
      let (r', had, sealed) = encrypt_if_enabled-some t1 t _ lock r key on h2 has in
      let (p, given, for_payload) = refreshes r' (sym keep ∙ had) in
      (p, given, is_made.served, r', sealed, for_payload)
