-- ===== src/Conformance/Tokens.antt =====
-- The tests of encoding, encryption and keys in src/token.rs.
use rowdy.Prelude.{
  String, Bool, true, false, not, Option, none, some, Result, ok, err, raise, ◌>>=◌, ◌>>◌, ◌≡◌,
  refl, arith, [], ◌∷◌, ap, ◌∙◌, ◌==◌,
}
use rowdy.Crates.{
  JsonValue, object, entry, end, string, json_get, json_insert, as_str, null, boolean, number,
  array,
}
use rowdy.Crates.Jwt.{
  Jwt, DateTime, RegisteredClaims, SignatureAlgorithm, decoded, encoded, decrypted, encrypted, Jws,
  JwsSecret, Jwk, octet_key, JwsHeader, JweHeader, ClaimsSet,
}
use rowdy.Crates.Jwt.Laws.{Verifies, Decrypts}
use rowdy.Crates.World.{World}
use rowdy.Error.Token.{
  token_already_encoded, token_already_decoded, refresh_token_already_encrypted,
  refresh_token_already_decrypted,
}
use rowdy.Token.Config.{Secret, no_secret, byte_sequence, rsa_key_pair, into_bytes}
use rowdy.Token.Keys.{for_signing, for_verification}
use rowdy.Token.Refresh.{
  RefreshToken, encrypt, decrypt, is_encrypted, is_decrypted, payload, claims_set,
}
use rowdy.Token.Refresh.Opens.{decrypt-encrypt}
use rowdy.Token.Access.{Token, encode, decode, encrypt_refresh_token, decrypt_refresh_token}
use rowdy.Conformance.Harness.{
  Test, on_token_error, on_assertion, unwrap_token, unwrap_partial, assert,
}
use rowdy.Conformance.Fixtures.{
  make_refresh_token, Normalises, Serves, two_minutes, key_bytes, claims_value, refresh_value,
  refresh_header, make_refresh_token-value, refresh_token_payload,
}
use rowdy.Conformance.Creation.{default_claims, unwrap_some}
mod Laws

-- `Secret::bytes_from_str("secret")`, and the octet key of 32 zeros.
abbrev signing_secret : JwsSecret
signing_secret = JwsSecret.bytes (into_bytes "secret")

abbrev key : Jwk
key = octet_key key_bytes

abbrev no_claims : RegisteredClaims
no_claims = record {
  issuer = none;
  subject = none;
  audience = none;
  issued_at = none;
  not_before = none;
  expiry = none;
  id = none;
}

-- `as_object().unwrap()`, `get("test").unwrap()` and `as_str().unwrap()`, which is `foobar`.
asserts_foobar : JsonValue → Test (Unit {0})
asserts_foobar (object map) = do
  value ← unwrap_some (json_get "test" map)
  actual ← unwrap_some (as_str value)
  assert (actual == "foobar")
asserts_foobar _ = err on_assertion

module _ (j : Jwt) (w : World) (issued : DateTime) where
  token_with : Option RefreshToken → Token
  token_with refresh_token = record {
    token =
        decoded (record { algorithm = j.default_algorithm })
          (record { registered = no_claims; private_claims = default_claims });
    expires_in = two_minutes;
    issued_at = issued;
    refresh_token = refresh_token;
  }

  make_token : Bool → Test Token
  unfolding token_with
  make_token true = do
    refresh_token ← make_refresh_token j w issued
    ok (token_with (some refresh_token))
  make_token false = ok (token_with none)

  refresh_token_encryption_round_trip : Test (Unit {0})
  unfolding asserts_foobar
  refresh_token_encryption_round_trip = do
    refresh_token ← make_refresh_token j w issued
    assert (is_decrypted refresh_token)
    closed ← unwrap_partial (encrypt j refresh_token signing_secret key)
    assert (is_encrypted closed)
    opened ←
        unwrap_partial
          (decrypt j closed signing_secret key j.default_algorithm "A256GCMKW" "A256GCM")
    assert (is_decrypted opened)
    actual ← unwrap_token (payload j opened)
    asserts_foobar actual

  panics_when_encoding_encoded : Test (Unit {0})
  unfolding make_token
  panics_when_encoding_encoded = do
    made ← make_token false
    token ← unwrap_token (encode j made signing_secret)
    _ ← unwrap_token (encode j token signing_secret)
    ok tt

  panics_when_decoding_decoded : Test (Unit {0})
  unfolding make_token
  panics_when_decoding_decoded = do
    token ← make_token false
    _ ← unwrap_token (decode j token signing_secret j.default_algorithm)
    ok tt

  panics_when_encrypting_encrypted : Test (Unit {0})
  unfolding make_token
  panics_when_encrypting_encrypted = do
    made ← make_token true
    token ← unwrap_partial (encrypt_refresh_token j made signing_secret key)
    _ ← unwrap_partial (encrypt_refresh_token j token signing_secret key)
    ok tt

  panics_when_decrypting_decrypted : Test (Unit {0})
  unfolding make_token
  panics_when_decrypting_decrypted = do
    token ← make_token true
    _ ←
        unwrap_partial (
          decrypt_refresh_token j token signing_secret key j.default_algorithm "A256GCMKW"
            "A256GCM")
    ok tt

-- Under the default algorithm the token crate signs with the secret whatever is decoded, and under
-- the header of the fixtures it encrypts with the key whatever is encoded.
record Works (j : Jwt) : Type 0 where
  signs :
      (c : ClaimsSet)
      → (r : Jws) × (j.into_encoded
            (decoded (record { algorithm = j.default_algorithm }) c)
            signing_secret
          ≡ ok r)
  locks :
      (t : String)
      → (r : RefreshToken) × (j.into_encrypted (decrypted refresh_header (encoded t)) key ≡ ok r)
