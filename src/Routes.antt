-- ===== src/Routes.antt =====
-- src/routes.rs: the query parameters and the handlers, over the managed state.
pub mod Flow
pub mod Redeem
pub mod Offline
pub mod Algorithm
pub mod Calm
pub mod Redeemed
pub mod History
pub mod Sealed
pub mod Granted
pub mod Answers
pub mod Session
pub mod Endpoint
use rowdy.Prelude.{
  String, Bool, true, false, not, ◌&&◌, Option, none, Result, ok, err, ◌>>=◌, ◌>>◌, map_err,
  Partial, lift, within, unwrap, unwrap_or, is_some, if◌then◌else◌,
}
use rowdy.Crates.{JsonValue}
use rowdy.Crates.Jwt.{Jwt, Jwk, DateTime}
use rowdy.Crates.World.{World}
use rowdy.Error.Top.{Error}
use rowdy.Auth.Header
use rowdy.Auth.Header.{Basic, Bearer, Scheme, is_bearer}
use rowdy.Auth.Authenticator.{
  Authenticator, AuthenticationResult, prepare_authentication_response, prepare_refresh_response,
  missing,
}
use rowdy.Token.Config.{Configuration, RefreshTokenConfiguration, refresh_token_enabled}
use rowdy.Token.Config
use rowdy.Token.Keys.{Keys}
use rowdy.Token.Refresh.{new_encrypted, decrypt, validate, payload}
use rowdy.Token.Access.{
  Token, with_configuration_and_time, encode, encrypt_refresh_token, has_refresh_token,
}

pub record AuthParam : Type 0 where
  pub service : String
  pub scope : String
  pub offline_token : Option Bool

unfoldable pub verify : {S : Type 0} → Scheme S → AuthParam → Result Error (Unit {0})
verify scheme param =
    if is_bearer scheme && is_some param.offline_token
    then err (
        Error.bad_request_error
          "Offline token cannot be requested for when authenticating with a refresh token")
    else ok tt

-- Rocket's managed state, with the two schemes of the routes and what a request reads besides.
pub record Server : Type 0 where
  pub jwt : Jwt
  pub world : World
  pub basic : Scheme Basic
  pub bearer : Scheme Bearer
  pub configuration : Configuration
  pub keys : Keys
  pub authenticator : Authenticator Basic

module _ (s : Server) (now : DateTime) where
  -- `Token::with_configuration` reads the clock.
  abbrev with_configuration : String → String → JsonValue → Option JsonValue → Partial Error Token
  with_configuration subject service private_claims payload =
      with_configuration_and_time s.jwt s.world s.configuration subject service private_claims
        payload now

  encrypt_if_enabled : Token → Bool → Partial Error Token
  encrypt_if_enabled token true = do
    refresh_token_key ← unwrap s.keys.encryption
    within Error.token (encrypt_refresh_token s.jwt token s.keys.signing refresh_token_key)
  encrypt_if_enabled token false = ok token

  -- The closure of `token_getter`, on the authentication result.
  unfoldable pub issue : AuthParam → AuthenticationResult → Partial Error Token
  unfolding encrypt_if_enabled
  issue auth_param result = do
    token ←
        with_configuration result.subject auth_param.service result.private_claims
          result.refresh_payload
    token ← lift (map_err Error.token (encode s.jwt token s.keys.signing))
    encrypt_if_enabled token (refresh_token_enabled s.configuration && has_refresh_token token)

  unfoldable pub token_getter : Basic → AuthParam → Partial Error Token
  token_getter authorization auth_param = do
    lift (verify s.basic auth_param)
    result ←
        prepare_authentication_response s.authenticator authorization
          (unwrap_or auth_param.offline_token false)
    issue auth_param result

  -- The closure of `refresh_token`: no further refresh token is made.
  unfoldable pub reissue : AuthParam → AuthenticationResult → Partial Error Token
  reissue auth_param result = do
    token ← with_configuration result.subject auth_param.service result.private_claims none
    lift (map_err Error.token (encode s.jwt token s.keys.signing))

  -- The refresh route once it has the configuration and the key.
  unfoldable pub redeem : Bearer → AuthParam → RefreshTokenConfiguration → Jwk → Partial Error Token
  redeem authorization auth_param refresh_token_configuration decryption_key = do
    refresh_token ← within Error.token (
        decrypt s.jwt (new_encrypted (Header.token authorization)) s.keys.signature_verification
          decryption_key (unwrap_or s.configuration.signature_algorithm s.jwt.default_algorithm)
          refresh_token_configuration.cek_algorithm refresh_token_configuration.enc_algorithm)
    lift (
        map_err Error.token
          (validate s.jwt refresh_token auth_param.service s.configuration none now))
    refresh_payload ← lift (map_err Error.token (payload s.jwt refresh_token))
    result ← prepare_refresh_response s.authenticator refresh_payload
    reissue auth_param result

  unfoldable pub refresh_token : Bearer → AuthParam → Partial Error Token
  unfolding redeem
  refresh_token authorization auth_param =
      if not (refresh_token_enabled s.configuration)
      then lift (err (Error.bad_request_error "Refresh token is not enabled"))
      else do
        refresh_token_configuration ← Config.refresh_token s.configuration
        lift (verify s.bearer auth_param)
        decryption_key ← unwrap s.keys.decryption
        redeem authorization auth_param refresh_token_configuration decryption_key

  unfoldable pub bad_request : AuthParam → Partial Error (Unit {0})
  unfolding missing
  bad_request auth_param = lift (missing s.configuration.issuer)

unfoldable pub ping : String
ping = "Pong"
