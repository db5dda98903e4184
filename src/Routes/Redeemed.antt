-- ===== src/Routes/Redeemed.antt =====
-- What a request to the refresh route went through when it was answered with a token
-- (src/routes.rs, `refresh_token`).
use rowdy.Prelude.{
  String, Bool, ok, err, none, some, ◌≡◌, arith, >>=-eq-ok, map_err-eq-ok, lift, within, unwrap,
  unwrap_or, map_err, if◌then◌else◌, Partial, unwrap-eq-ok,
}
use rowdy.Crates.{JsonValue}
use rowdy.Crates.Jwt.{DateTime, Jwk, encrypted}
use rowdy.Error.Top.{Error}
use rowdy.Auth.Header
use rowdy.Auth.Header.{Bearer}
use rowdy.Auth.Authenticator.{AuthenticationResult, prepare_refresh_response}
use rowdy.Token.Config
use rowdy.Token.Config.{Configuration, RefreshTokenConfiguration, refresh_token_enabled}
use rowdy.Token.Refresh.{RefreshToken, new_encrypted, decrypt, validate, payload}
use rowdy.Token.Access.{Token}
use rowdy.Routes.{Server, AuthParam, verify, reissue, redeem, refresh_token}

pub record IsRedeemed (s : Server) (now : DateTime) (text : String) (param : AuthParam) (t : Token)
    : Type 0 where
  pub configuration : RefreshTokenConfiguration
  pub configured : s.configuration.refresh_token ≡ some configuration
  pub verified : verify s.bearer param ≡ ok tt
  pub key : Jwk
  pub key_is : s.keys.decryption ≡ some key
  pub token : RefreshToken
  pub decrypts :
      decrypt s.jwt
        (encrypted text)
        s.keys.signature_verification
        key
        (unwrap_or s.configuration.signature_algorithm s.jwt.default_algorithm)
        configuration.cek_algorithm
        configuration.enc_algorithm
      ≡ ok token
  pub validated : validate s.jwt token param.service s.configuration none now ≡ ok tt
  pub contents : JsonValue
  pub pays : payload s.jwt token ≡ ok contents
  pub result : AuthenticationResult
  pub answered : prepare_refresh_response s.authenticator contents ≡ ok result
  pub made : reissue s now param result ≡ ok t

module _ (s : Server) (now : DateTime) where
  redeem-IsRedeemed :
      (text : String) (param : AuthParam) (x : RefreshTokenConfiguration) (k : Jwk) (t : Token)
      → s.configuration.refresh_token ≡ some x
      → verify s.bearer param ≡ ok tt
      → s.keys.decryption ≡ some k
      → redeem s now (record { token = text }) param x k ≡ ok t
      → IsRedeemed s now text param t
  unfolding redeem Header.token
  redeem-IsRedeemed text param x k t configured verified key_is h =
      let (d, opened, h1) =
        >>=-eq-ok
          (within Error.token (
            decrypt s.jwt (new_encrypted text) s.keys.signature_verification k
              (unwrap_or s.configuration.signature_algorithm s.jwt.default_algorithm)
              x.cek_algorithm x.enc_algorithm))
          _ h in
      let (_, valid, h2) =
        >>=-eq-ok
          (lift (map_err Error.token (validate s.jwt d param.service s.configuration none now))) _
          h1 in
      let (p, paid, h3) = >>=-eq-ok (lift (map_err Error.token (payload s.jwt d))) _ h2 in
      let (result, answered, made) = >>=-eq-ok (prepare_refresh_response s.authenticator p) _ h3 in
      record {
        configuration = x;
        configured = configured;
        verified = verified;
        key = k;
        key_is = key_is;
        token = d;
        decrypts = map_err-eq-ok _ _ opened;
        validated = map_err-eq-ok _ _ (map_err-eq-ok _ _ valid);
        contents = p;
        pays = map_err-eq-ok _ _ (map_err-eq-ok _ _ paid);
        result = result;
        answered = answered;
        made = made;
      }

  otherwise :
      (b : Bool) (e : Error) (m : Partial Error Token) (t : Token)
      → (if b then lift (err e) else m) ≡ ok t
      → m ≡ ok t
  otherwise b e m t h = ground arith

  configured_as :
      (config : Configuration) (x : RefreshTokenConfiguration)
      → Config.refresh_token {E = Error} config ≡ ok x
      → config.refresh_token ≡ some x
  unfolding Config.refresh_token
  configured_as config x h = unwrap-eq-ok config.refresh_token h

  -- A refresh token that is answered with a token was decrypted with the configured algorithms
  -- and keys and validated for the service, and the authenticator took its payload.
  pub refresh_token-IsRedeemed :
      (text : String) (param : AuthParam) (t : Token)
      → refresh_token s now (record { token = text }) param ≡ ok t
      → IsRedeemed s now text param t
  unfolding refresh_token
  refresh_token-IsRedeemed text param t h =
      let (x, configured, h1) =
        >>=-eq-ok (Config.refresh_token s.configuration) _
          (otherwise _ (Error.bad_request_error "Refresh token is not enabled") _ t h) in
      let (_, verified, h2) = >>=-eq-ok (lift (verify s.bearer param)) _ h1 in
      let (k, unlocked, h3) = >>=-eq-ok (unwrap s.keys.decryption) _ h2 in
      redeem-IsRedeemed text param x k t (configured_as s.configuration x configured)
        (map_err-eq-ok _ _ verified) (unwrap-eq-ok s.keys.decryption unlocked) h3
