-- ===== src/Routes/Offline.antt =====
-- The `offline_token` parameter on the two routes.
use rowdy.Prelude.{
  Bool, true, false, none, some, ok, err, ◌≡◌, refl, arith, unwrap_or, raise, inl, inr,
  Option-cases, is_some, >>=-eq-ok, map_err-eq-ok, ◌∙◌, ◌&&◌,
}
use rowdy.Crates.{Status}
use rowdy.Crates.Jwt.{DateTime}
use rowdy.Error.Top
use rowdy.Error.Top.{Error}
use rowdy.Auth.Header.{Basic, Bearer, is_bearer}
use rowdy.Auth.Authenticator.{prepare_authentication_response_iff, AuthenticationResult}
use rowdy.Token.Access.{Token, has_refresh_token}
use rowdy.Token.Access.Shape.{with_configuration_and_time_shape}
use rowdy.Token.Config
use rowdy.Token.Config.{refresh_token_enabled}
use rowdy.Routes.{Server, AuthParam, token_getter, refresh_token, verify, issue, encrypt_if_enabled}
use rowdy.Routes.Flow.{encode-refresh_token}
use rowdy.Routes.Redeem.{token_getter-eq-ok}

-- Any value of `offline_token`, `false` too, is a bad request on the refresh route, where refresh
-- tokens are enabled and the scheme is `Bearer`, and is answered 400.
pub refresh_token-offline :
    (s : Server) (now : DateTime) (a : Bearer) (param : AuthParam) (b : Bool)
    → is_bearer s.bearer ≡ true
    → refresh_token_enabled s.configuration ≡ true
    → param.offline_token ≡ some b
    → (e : Error) × (refresh_token s now a param ≡ err (raise e))
      × (Top.respond_to e ≡ err Status.bad_request)
unfolding refresh_token verify refresh_token_enabled Config.refresh_token Top.respond_to
refresh_token-offline s now a param b bearer on given = (
  Error.bad_request_error
      "Offline token cannot be requested for when authenticating with a refresh token",
  ground arith,
  refl,
)

-- Where refresh tokens are not enabled the route answers 400 to every request.
pub refresh_token-disabled :
    (s : Server) (now : DateTime) (a : Bearer) (param : AuthParam)
    → s.configuration.refresh_token ≡ none
    → (e : Error) × (refresh_token s now a param ≡ err (raise e))
      × (Top.respond_to e ≡ err Status.bad_request)
unfolding refresh_token refresh_token_enabled Top.respond_to
refresh_token-disabled s now a param off =
    (Error.bad_request_error "Refresh token is not enabled", ground arith, refl)

encrypt_if_enabled-none :
    (s : Server) (now : DateTime) (t t' : Token) (b : Bool)
    → t.refresh_token ≡ none
    → (b ≡ true → is_some t.refresh_token ≡ true)
    → encrypt_if_enabled s now t b ≡ ok t'
    → t'.refresh_token ≡ none
unfolding encrypt_if_enabled
encrypt_if_enabled-none s now t t' true without on h = absurd (ground arith)
encrypt_if_enabled-none s now t t' false without on h = ground arith

has_of_and :
    (b : Bool) (t : Token) → (b && has_refresh_token t) ≡ true → is_some t.refresh_token ≡ true
unfolding has_refresh_token
has_of_and b t h = ground arith

-- With no refresh payload there is no refresh token.
issue_none :
    (s : Server) (now : DateTime) (param : AuthParam) (result : AuthenticationResult) (t : Token)
    → result.refresh_payload ≡ none
    → issue s now param result ≡ ok t
    → t.refresh_token ≡ none
unfolding issue
issue_none s now param result t quiet h =
    let (t0, made, h1) = >>=-eq-ok _ _ h in
    let (t1, coded, h2) = >>=-eq-ok _ _ h1 in
    let keep =
      encode-refresh_token s.jwt t0 t1 s.keys.signing
        (map_err-eq-ok _ _ (map_err-eq-ok _ _ coded)) in
    let (is_made, refreshes) =
      with_configuration_and_time_shape s.jwt s.world s.configuration result.subject param.service
        result.private_claims result.refresh_payload now t0 made in
    elim (Option-cases t0.refresh_token) [
      | inl without ↦ encrypt_if_enabled-none s now t1 t _ (keep ∙ without) (has_of_and _ t1) h2
      | inr (r, has) ↦ let (p, given, f) = refreshes r has in absurd (ground arith)
    ]

-- Whatever the authenticator, the first route gives out a refresh token only if the request asked
-- for an offline token.
pub token_getter-unasked :
    (s : Server) (now : DateTime) (user : Basic) (param : AuthParam) (t : Token)
    → unwrap_or param.offline_token false ≡ false
    → token_getter s now user param ≡ ok t
    → t.refresh_token ≡ none
token_getter-unasked s now user param t unasked h =
    let (result, prepared, made) = token_getter-eq-ok s now user param t h in
    let checked = (prepare_authentication_response_iff s.authenticator user _ result).0 prepared in
    let quiet : result.refresh_payload ≡ none = ground arith in
    issue_none s now param result t quiet made
