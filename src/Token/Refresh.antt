-- ===== src/Token/Refresh.antt =====
-- src/token.rs: `RefreshToken`, which is its JWE.
pub mod Opens
pub mod Valid
pub mod Calm
pub mod Closed
use rowdy.Prelude.{
  String, ℕ, Bool, true, false, not, Option, none, some, Result, ok, err, ◌>>=◌, ◌>>◌, map_err,
  ok_or, Partial, lift, panic, contains, if◌then◌else◌,
}
use rowdy.Crates.{JsonValue, JwtError, validation_error}
use rowdy.Crates.Jwt.{
  Jwt, StringOrUri, SingleOrMultiple, iter, SignatureAlgorithm, KeyManagementAlgorithm,
  ContentEncryptionAlgorithm, ClaimsSet, Jws, decoded, encoded, Jwe, JweHeader, decrypted,
  encrypted, JwsSecret, Jwk, DateTime, TemporalValidationOptions,
}
use rowdy.Crates.World.{World, Duration}
use rowdy.Error.Token.{
  TokenError, jwt_error, invalid_issuer, invalid_audience, refresh_token_already_encrypted,
  refresh_token_already_decrypted, refresh_token_not_decrypted, refresh_token_not_encrypted,
}
use rowdy.Error.Top.{Error}
use rowdy.Token.Config.{Configuration}
use rowdy.Token.Make.{make_token}
use rowdy.Token.Verify.{verify_service, verify_issuer, verify_audience}

abbrev pub RefreshToken : Type 0
RefreshToken = Jwe

unfoldable pub new_decrypted :
    Jwt
    → World
    → String
    → StringOrUri
    → SingleOrMultiple
    → Duration
    → JsonValue
    → Option SignatureAlgorithm
    → KeyManagementAlgorithm
    → ContentEncryptionAlgorithm
    → DateTime
    → ℕ
    → Partial Error RefreshToken
new_decrypted j w subject issuer audience expiry_duration payload signature_algorithm cek_algorithm
      enc_algorithm now draw =
    do
      token ←
          make_token j w subject issuer audience expiry_duration payload signature_algorithm now
            draw
      ok (
          decrypted
            (record {
              cek_algorithm = cek_algorithm;
              enc_algorithm = enc_algorithm;
              media_type = some "JOSE";
              content_type = some "JOSE";
            })
            token)

abbrev pub new_encrypted : String → RefreshToken
new_encrypted token = encrypted token

unfoldable pub is_encrypted : RefreshToken → Bool
is_encrypted (decrypted _ _) = false
is_encrypted (encrypted _) = true

unfoldable pub is_decrypted : RefreshToken → Bool
unfolding is_encrypted
is_decrypted token = not (is_encrypted token)

-- `Compact::unwrap_decrypted` panics on an encrypted value.
unwrap_decrypted : Jwe → Partial TokenError (JweHeader × Jws)
unwrap_decrypted (decrypted header jws) = ok (header, jws)
unwrap_decrypted (encrypted _) = err panic

module _ (j : Jwt) where
  from_jwt {ℓ} : {A : Type ℓ} → Result JwtError A → Partial TokenError A
  from_jwt r = lift (map_err jwt_error r)

  unfoldable pub encrypt : RefreshToken → JwsSecret → Jwk → Partial TokenError RefreshToken
  unfolding is_encrypted unwrap_decrypted from_jwt
  encrypt token secret key =
      if is_encrypted token then lift (err refresh_token_already_encrypted) else do
        parts ← unwrap_decrypted token
        jws ← from_jwt (j.into_encoded parts.1 secret)
        from_jwt (j.into_encrypted (decrypted parts.0 jws) key)

  unfoldable pub decrypt :
      RefreshToken
      → JwsSecret
      → Jwk
      → SignatureAlgorithm
      → KeyManagementAlgorithm
      → ContentEncryptionAlgorithm
      → Partial TokenError RefreshToken
  unfolding is_encrypted is_decrypted unwrap_decrypted from_jwt
  decrypt token secret key signing_algorithm cek_algorithm enc_algorithm =
      if is_decrypted token then lift (err refresh_token_already_decrypted) else do
        jwe ← from_jwt (j.into_decrypted token key cek_algorithm enc_algorithm)
        parts ← unwrap_decrypted jwe
        jws ← from_jwt (j.into_decoded parts.1 secret signing_algorithm)
        ok (decrypted parts.0 jws)

  -- The `payload` accessors of the crate: the part of a value that is open, or an error.
  jwe_payload : Jwe → Result JwtError Jws
  jwe_payload (decrypted _ jws) = ok jws
  jwe_payload (encrypted _) = err j.unsupported

  jws_payload : Jws → Result JwtError ClaimsSet
  jws_payload (decoded _ claims) = ok claims
  jws_payload (encoded _) = err j.unsupported

  unfoldable pub claims_set : RefreshToken → Result TokenError ClaimsSet
  unfolding is_encrypted is_decrypted jwe_payload jws_payload
  claims_set token =
      if not (is_decrypted token)
      then err refresh_token_not_decrypted
      else do jws ← map_err jwt_error (jwe_payload token); map_err jwt_error (jws_payload jws)

  unfoldable pub payload : RefreshToken → Result TokenError JsonValue
  unfolding claims_set
  payload token = do claims ← claims_set token; ok claims.private_claims

  abbrev pub default_options : TemporalValidationOptions
  default_options = record {
    issued_at_required = true;
    not_before_required = true;
    expiry_required = true;
  }

  abbrev pub or_default : Option TemporalValidationOptions → Option TemporalValidationOptions
  or_default none = some default_options
  or_default (some o) = some o

  audience_contains : SingleOrMultiple → String → Result TokenError (Unit {0})
  audience_contains audience service = do
    parsed ← map_err jwt_error (j.parse service)
    if contains (iter audience) parsed then ok tt else err invalid_audience

  unfoldable pub validate :
      RefreshToken
      → String
      → Configuration
      → Option TemporalValidationOptions
      → DateTime
      → Result TokenError (Unit {0})
  unfolding audience_contains
  validate token service config options now = do
    claims ← claims_set token
    issuer ← ok_or invalid_issuer claims.registered.issuer
    audience ← ok_or invalid_audience claims.registered.audience
    verify_service j config service
    audience_contains audience service
    verify_audience config audience
    verify_issuer config issuer
    map_err (λ e. jwt_error (record { variant = validation_error; error = e }))
        (j.validate_times claims.registered (or_default options) now)

  unfoldable pub to_string : RefreshToken → Result TokenError String
  to_string (decrypted _ _) = err refresh_token_not_encrypted
  to_string (encrypted token) = ok token
