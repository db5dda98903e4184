-- ===== src/Routes/Calm.antt =====
-- Panics of the handlers (src/routes.rs).
use rowdy.Prelude.{
  panic, refl, Bool, true, false, Option, none, some, ok, err, ◌≡◌, ◌≢◌, ◌&&◌, arith, lift, unwrap,
  within, map_err, unwrap_or, inl, inr, Option-cases, not, NeverPanics-if, NeverPanics,
  NeverPanics-ok, NeverPanics-bind, NeverPanics-lift, NeverPanics-within, NeverPanics-unwrap,
  NeverPanics-raise,
}
use rowdy.Crates.Jwt.{DateTime, Jwk}
use rowdy.Crates.Jwt.Laws.{OpensJwe}
use rowdy.Error.Top.{Error}
use rowdy.Auth.Header
use rowdy.Auth.Header.{Basic, Bearer}
use rowdy.Auth.Authenticator.{
  AuthenticationResult, prepare_authentication_response, prepare_refresh_response,
}
use rowdy.Auth.Calm.{
  IsCalm, NeverPanics-prepare_authentication_response, NeverPanics-prepare_refresh_response,
}
use rowdy.Token.Config
use rowdy.Token.Config.{Configuration, RefreshTokenConfiguration, refresh_token_enabled}
use rowdy.Token.Keys.{keys}
use rowdy.Token.Keys.Laws.{keys-HasOneKey}
use rowdy.Token.Refresh.{new_encrypted, decrypt, validate, payload}
use rowdy.Token.Refresh.Calm.{NeverPanics-decrypt}
use rowdy.Token.Access.{
  Token, with_configuration_and_time, encode, has_refresh_token, encrypt_refresh_token,
}
use rowdy.Token.Access.Calm.{
  HasRoom, NeverPanics-with_configuration_and_time, NeverPanics-encrypt_refresh_token,
}
use rowdy.Routes.{
  Server, AuthParam, issue, reissue, redeem, token_getter, refresh_token, verify,
  encrypt_if_enabled,
}

is_configured :
    (config : Configuration)
    → not (refresh_token_enabled config) ≡ false
    → (x : RefreshTokenConfiguration) × (config.refresh_token ≡ some x)
unfolding refresh_token_enabled
is_configured config on = elim (Option-cases config.refresh_token) [
  | inl off ↦ absurd (ground arith)
  | inr found ↦ found
]

NeverPanics-Config :
    (config : Configuration) (x : RefreshTokenConfiguration)
    → config.refresh_token ≡ some x
    → NeverPanics (Config.refresh_token {E = Error} config)
unfolding Config.refresh_token
NeverPanics-Config config x on = NeverPanics-unwrap config.refresh_token on

module _ (s : Server) (calm : IsCalm s.authenticator)
    (made : keys s.world s.configuration ≡ ok s.keys) (now : DateTime)
    (room : HasRoom s.world s.configuration now) where
  NeverPanics-encrypt_if_enabled :
      (t : Token) (b : Bool) (refresh : Option RefreshTokenConfiguration)
      → s.configuration.refresh_token ≡ refresh
      → (b ≡ true → refresh_token_enabled s.configuration ≡ true)
      → NeverPanics (encrypt_if_enabled s now t b)
  unfolding encrypt_if_enabled refresh_token_enabled
  NeverPanics-encrypt_if_enabled t false refresh is on = NeverPanics-ok t
  NeverPanics-encrypt_if_enabled t true none is on = absurd (ground arith)
  NeverPanics-encrypt_if_enabled t true (some refresh) is on =
      let (key, lock, unlock) = keys-HasOneKey s.world s.configuration refresh s.keys is made in
      NeverPanics-bind (unwrap s.keys.encryption) _ (NeverPanics-unwrap s.keys.encryption lock)
        (λ k _.
          NeverPanics-within Error.token (encrypt_refresh_token s.jwt t s.keys.signing k)
            (NeverPanics-encrypt_refresh_token s.jwt s.world t s.keys.signing k))

  and_left : (a b : Bool) → (a && b) ≡ true → a ≡ true
  and_left a b h = ground arith

  NeverPanics-issue :
      (param : AuthParam) (result : AuthenticationResult) → NeverPanics (issue s now param result)
  unfolding issue
  NeverPanics-issue param result =
      NeverPanics-bind
        (with_configuration_and_time s.jwt s.world s.configuration result.subject param.service
          result.private_claims result.refresh_payload now)
        _
        (NeverPanics-with_configuration_and_time s.jwt s.world s.configuration result.subject
          param.service result.private_claims result.refresh_payload now room)
        (λ t _.
          NeverPanics-bind (lift (map_err Error.token (encode s.jwt t s.keys.signing))) _
            (NeverPanics-lift _)
            (λ t' _.
              NeverPanics-encrypt_if_enabled t' _ s.configuration.refresh_token refl
                (and_left _ (has_refresh_token t'))))

  -- Over an authenticator that never panics, with the keys of the configuration and no expiry past
  -- the last date, the first route never panics.
  pub token_getter-ne-panic :
      (user : Basic) (param : AuthParam) → token_getter s now user param ≢ err panic
  unfolding token_getter
  token_getter-ne-panic user param =
      (NeverPanics-bind (lift (verify s.basic param)) _ (NeverPanics-lift _) (λ _ _.
        NeverPanics-bind
          (prepare_authentication_response s.authenticator user
            (unwrap_or param.offline_token false))
          _
          (NeverPanics-prepare_authentication_response s.authenticator calm user
            (unwrap_or param.offline_token false))
          (λ result _. NeverPanics-issue param result))).calm

  NeverPanics-reissue :
      (param : AuthParam) (result : AuthenticationResult) → NeverPanics (reissue s now param result)
  unfolding reissue
  NeverPanics-reissue param result =
      NeverPanics-bind
        (with_configuration_and_time s.jwt s.world s.configuration result.subject param.service
          result.private_claims none now)
        _
        (NeverPanics-with_configuration_and_time s.jwt s.world s.configuration result.subject
          param.service result.private_claims none now room)
        (λ t _. NeverPanics-lift _)

  -- The route from the decryption on.
  NeverPanics-redeem :
      OpensJwe s.jwt
      → (bearer : Bearer) (param : AuthParam) (refresh : RefreshTokenConfiguration) (k : Jwk)
      → NeverPanics (redeem s now bearer param refresh k)
  unfolding redeem
  NeverPanics-redeem opens bearer param refresh k =
      NeverPanics-bind
        (within Error.token (
          decrypt s.jwt (new_encrypted (Header.token bearer)) s.keys.signature_verification k
            (unwrap_or s.configuration.signature_algorithm s.jwt.default_algorithm)
            refresh.cek_algorithm refresh.enc_algorithm))
        _
        (NeverPanics-within Error.token _ (
          NeverPanics-decrypt s.jwt opens (new_encrypted (Header.token bearer))
            s.keys.signature_verification k
            (unwrap_or s.configuration.signature_algorithm s.jwt.default_algorithm)
            refresh.cek_algorithm refresh.enc_algorithm))
        (λ token _.
          NeverPanics-bind
            (lift
              (map_err Error.token (validate s.jwt token param.service s.configuration none now)))
            _ (NeverPanics-lift _)
            (λ _ _.
              NeverPanics-bind (lift (map_err Error.token (payload s.jwt token))) _
                (NeverPanics-lift _)
                (λ p _.
                  NeverPanics-bind (prepare_refresh_response s.authenticator p) _
                    (NeverPanics-prepare_refresh_response s.authenticator calm p)
                    (λ result _. NeverPanics-reissue param result))))

  -- Over an authenticator that never panics, with the keys of the configuration, no expiry past
  -- the last date, and a token crate whose decrypted values are open, the second route never
  -- panics, whatever text it is given.
  pub refresh_token-ne-panic :
      OpensJwe s.jwt
      → (bearer : Bearer) (param : AuthParam) → refresh_token s now bearer param ≢ err panic
  unfolding refresh_token redeem
  refresh_token-ne-panic opens bearer param =
      (NeverPanics-if _ _ _
        (λ _. NeverPanics-raise (Error.bad_request_error "Refresh token is not enabled"))
        (λ on.
          let (refresh, configured) = is_configured s.configuration on in
          let (key, lock, unlock) =
            keys-HasOneKey s.world s.configuration refresh s.keys configured made in
          NeverPanics-bind (Config.refresh_token s.configuration) _
            (NeverPanics-Config s.configuration refresh configured)
            (λ refresh' _.
              NeverPanics-bind (lift (verify s.bearer param)) _ (NeverPanics-lift _) (λ _ _.
                NeverPanics-bind (unwrap s.keys.decryption) _
                  (NeverPanics-unwrap s.keys.decryption unlock)
                  (λ k _. NeverPanics-redeem opens bearer param refresh' k))))).calm
