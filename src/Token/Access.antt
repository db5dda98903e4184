-- ===== src/Token/Access.antt =====
-- src/token.rs: `Token<T>` at `T = PrivateClaim`, a JSON value, as the routes use it.
pub mod Shape
pub mod Encoded
pub mod Calm
pub mod Sealed
pub mod Steps
pub mod Answers
use rowdy.Prelude.{
  String, Bool, true, false, not, Option, none, some, Result, ok, err, ◌>>=◌, map_err, ok_or,
  Partial, lift, unwrap, is_some, [], ◌∷◌, if◌then◌else◌,
}
use rowdy.Crates.{JsonValue, ForeignError, Response, ok_status, Status}
use rowdy.Crates.Jwt.{
  Jwt, SignatureAlgorithm, KeyManagementAlgorithm, ContentEncryptionAlgorithm, RegisteredClaims,
  JwsHeader, Jws, decoded, encoded, JwsSecret, Jwk, DateTime,
}
use rowdy.Crates.World.{World, Duration}
use rowdy.Error.Token.{respond_to as error_response}
use rowdy.Error.Token.{
  TokenError, jwt_error, token_already_encoded, token_already_decoded, token_not_encoded,
  token_not_decoded, no_refresh_token, token_serialization_error,
}
use rowdy.Error.Top.{Error}
use rowdy.Token.Config.{Configuration, RefreshTokenConfiguration}
use rowdy.Token.Make.{make_token}
use rowdy.Token.Verify.{verify_service}
use rowdy.Token.Refresh.{RefreshToken, new_decrypted, encrypt, decrypt}

pub record Token : Type 0 where
  pub token : Jws
  pub expires_in : Duration
  pub issued_at : DateTime
  pub refresh_token : Option RefreshToken

module _ (j : Jwt) (w : World) where
  -- The refresh token of a new token: the second draw of the request.
  new_refresh_token :
      Configuration
      → String
      → Option RefreshTokenConfiguration
      → Option JsonValue
      → DateTime
      → Partial Error (Option RefreshToken)
  new_refresh_token config subject none refresh_token_payload now = ok none
  new_refresh_token config subject (some refresh) none now = ok none
  new_refresh_token config subject (some refresh) (some payload) now = do
    token ←
        new_decrypted j w subject config.issuer config.audience refresh.expiry_duration payload
          config.signature_algorithm refresh.cek_algorithm refresh.enc_algorithm now 1
    ok (some token)

  -- `access_token.payload().unwrap().registered.issued_at.unwrap()`.
  issued_at_of : Jws → Partial Error DateTime
  issued_at_of (decoded _ claims) = unwrap claims.registered.issued_at
  issued_at_of (encoded _) = unwrap none

  unfoldable pub with_configuration_and_time :
      Configuration
      → String
      → String
      → JsonValue
      → Option JsonValue
      → DateTime
      → Partial Error Token
  unfolding new_refresh_token issued_at_of
  with_configuration_and_time config subject service private_claims refresh_token_payload now = do
    _ ← lift (map_err Error.token (verify_service j config service))
    access_token ←
        make_token j w subject config.issuer config.audience config.expiry_duration private_claims
          config.signature_algorithm now 0
    refresh_token ← new_refresh_token config subject config.refresh_token refresh_token_payload now
    issued_at ← issued_at_of access_token
    ok (record {
      token = access_token;
      expires_in = config.expiry_duration;
      issued_at = issued_at;
      refresh_token = refresh_token;
    })

unfoldable pub is_decoded : Token → Bool
is_decoded t = elim t.token [ encoded _ ↦ false | decoded _ _ ↦ true ]

unfoldable pub is_encoded : Token → Bool
unfolding is_decoded
is_encoded t = not (is_decoded t)

unfoldable pub has_refresh_token : Token → Bool
has_refresh_token t = is_some t.refresh_token

unfoldable pub refresh_token : Token → Option RefreshToken
refresh_token t = t.refresh_token

module _ (j : Jwt) where
  encode_jws : Jws → JwsSecret → Result TokenError Jws
  encode_jws (encoded _) _ = err token_already_encoded
  encode_jws (decoded h c) secret = map_err jwt_error (j.into_encoded (decoded h c) secret)

  unfoldable pub encode : Token → JwsSecret → Result TokenError Token
  unfolding encode_jws
  encode t secret = do token ← encode_jws t.token secret; ok (record t { token = token })

  decode_jws : Jws → JwsSecret → SignatureAlgorithm → Result TokenError Jws
  decode_jws (encoded s) secret algorithm =
      map_err jwt_error (j.into_decoded (encoded s) secret algorithm)
  decode_jws (decoded _ _) _ algorithm = err token_already_decoded

  unfoldable pub decode : Token → JwsSecret → SignatureAlgorithm → Result TokenError Token
  unfolding decode_jws
  decode t secret algorithm = do
    token ← decode_jws t.token secret algorithm
    ok (record t { token = token })

  unfoldable pub encrypt_refresh_token : Token → JwsSecret → Jwk → Partial TokenError Token
  encrypt_refresh_token t secret key = do
    refresh ← lift (ok_or no_refresh_token t.refresh_token)
    refresh' ← encrypt j refresh secret key
    ok (record t { refresh_token = some refresh' })

  unfoldable pub decrypt_refresh_token :
      Token
      → JwsSecret
      → Jwk
      → SignatureAlgorithm
      → KeyManagementAlgorithm
      → ContentEncryptionAlgorithm
      → Partial TokenError Token
  decrypt_refresh_token t secret key signing_algorithm cek_algorithm enc_algorithm = do
    refresh ← lift (ok_or no_refresh_token t.refresh_token)
    refresh' ← decrypt j refresh secret key signing_algorithm cek_algorithm enc_algorithm
    ok (record t { refresh_token = some refresh' })

  -- `Compact::encoded` of the crate.
  unfoldable pub encoded_token : Token → Result Error String
  encoded_token t = elim t.token [
    | encoded s ↦ ok s
    | decoded _ _ ↦ err (Error.token (jwt_error j.unsupported))
  ]

unfoldable pub registered_claims : Token → Result Error RegisteredClaims
registered_claims t = elim t.token [
  | encoded _ ↦ err (Error.token token_not_decoded)
  | decoded _ claims ↦ ok claims.registered
]

unfoldable pub private_claims : Token → Result Error JsonValue
private_claims t = elim t.token [
  | encoded _ ↦ err (Error.token token_not_decoded)
  | decoded _ claims ↦ ok claims.private_claims
]

unfoldable pub header : Token → Result Error JwsHeader
header t = elim t.token [ encoded _ ↦ err (Error.token token_not_decoded) | decoded h _ ↦ ok h ]

-- `serde_json::to_string` of a token is a parameter.
module _ (to_json : Token → Result ForeignError String) where
  unfoldable pub serialize : Token → Result TokenError String
  unfolding is_decoded
  serialize t =
      if is_decoded t then err token_not_encoded else map_err token_serialization_error (to_json t)

  unfoldable pub respond : Token → Result TokenError Response
  unfolding serialize
  respond t = do
    serialized ← serialize t
    ok (record {
      status = ok_status;
      headers = ("Content-Type", "application/json") ∷ [];
      body = some serialized;
    })

  abbrev respond_or_status : Result TokenError Response → Result Status Response
  respond_or_status (ok r) = ok r
  respond_or_status (err e) = error_response e

  unfoldable pub respond_to : Token → Result Status Response
  unfolding respond error_response
  respond_to t = respond_or_status (respond t)
