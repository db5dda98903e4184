-- ===== src/Tests/Routes.antt =====
-- The theorems of the routes and of the tokens, at the sample server.
use rowdy.Prelude.{
  true, false, some, none, ok, err, ◌≡◌, ◌≢◌, refl, arith, raise, ◌↔◌, String, contains,
}
use rowdy.Crates.{Status, null}
use rowdy.Crates.Jwt.{SignatureAlgorithm, encrypted, decrypted, decoded, JweHeader}
use rowdy.Crates.Jwt.Laws.{wire}
use rowdy.Error.Top
use rowdy.Error.Top.{Error}
use rowdy.Auth.Authenticator.{AuthenticationResult}
use rowdy.Routes.{refresh_token, reissue}
use rowdy.Routes.Redeem.{token_getter-refresh_token}
use rowdy.Routes.Algorithm.{refresh_token-unsigned}
use rowdy.Routes.Offline.{token_getter-unasked, refresh_token-offline}
use rowdy.Tests.Wire.{
  jwt, seal, sign_sample, sample_claims, sample_header, sample_jwe_header, jwt-Verifies,
  jwt-ChecksAlgorithm, jwt-Decrypts, jwt-ChecksTimes,
}
use rowdy.Auth.Header.{is_bearer}
use rowdy.Token.Config.{refresh_token_enabled}
use rowdy.Token.Verify.{verify_service}
use rowdy.Token.Make.{make_token, make_header}
use rowdy.Crates.Jwt.{encoded}
use rowdy.Token.Access.{Token, encode, with_configuration_and_time}
use rowdy.Token.Access.Shape.{IsMade, with_configuration_and_time-IsMade}
use rowdy.Token.Refresh.{
  RefreshToken, validate, or_default, encrypt, decrypt, is_encrypted, new_decrypted,
}
use rowdy.Token.Refresh.Valid.{validate_iff, IsAcceptable}
use rowdy.Token.Refresh.Opens.{decrypt-encrypt}
use rowdy.Tests.Sample.{
  world, configuration, bearer_scheme, plain_token, token_getter_plain, made_token, server, user,
  asking, anyone, anyone-IsWellBehaved, lock, signing_key, issued_token, token_getter_signed,
  token_getter_unsigned, refresh_configuration,
}

token_getter-refresh_token_example :
    (result : AuthenticationResult) × (anyone.authenticate user true ≡ ok result)
    × (refresh_token
          (server SignatureAlgorithm.hs256 (some SignatureAlgorithm.hs256))
          1800000000000
          (record { token = "sealed" })
          (asking none)
        ≡ reissue
            (server SignatureAlgorithm.hs256 (some SignatureAlgorithm.hs256))
            1800000000000
            (asking none)
            (record result { refresh_payload = none }))
token_getter-refresh_token_example =
    token_getter-refresh_token (server SignatureAlgorithm.hs256 (some SignatureAlgorithm.hs256))
      anyone-IsWellBehaved (jwt-Verifies SignatureAlgorithm.hs256 signing_key signing_key) refl refl
      (jwt-Decrypts SignatureAlgorithm.hs256 lock lock) (jwt-ChecksTimes SignatureAlgorithm.hs256)
      SignatureAlgorithm.hs256 refl 0 1800000000000 user (asking (some true)) (asking none)
      issued_token "sealed" refresh_configuration 3600000000000 token_getter_signed refl refl refl
      refl refl (omega arith) (omega arith)

different : SignatureAlgorithm.hs256 ≢ SignatureAlgorithm.none
different h = cc

refresh_token-unsigned_example :
    refresh_token
      (server SignatureAlgorithm.none none)
      1800000000000
      (record { token = "sealed" })
      (asking none)
    ≢ ok issued_token
refresh_token-unsigned_example =
    refresh_token-unsigned (server SignatureAlgorithm.none none)
      (jwt-Verifies SignatureAlgorithm.none signing_key signing_key)
      (jwt-ChecksAlgorithm SignatureAlgorithm.none signing_key signing_key) refl refl
      (jwt-Decrypts SignatureAlgorithm.none lock lock) refl different 0 user (asking (some true))
      issued_token "sealed" 1800000000000 (asking none) issued_token token_getter_unsigned refl

token_getter-unasked_example : plain_token.refresh_token ≡ none
token_getter-unasked_example =
    token_getter-unasked (server SignatureAlgorithm.hs256 (some SignatureAlgorithm.hs256)) 0 user
      (asking none) plain_token refl token_getter_plain

bearer : is_bearer bearer_scheme ≡ true
unfolding is_bearer
bearer = refl

enabled : refresh_token_enabled (configuration (some SignatureAlgorithm.hs256)) ≡ true
unfolding refresh_token_enabled
enabled = refl

refresh_token-offline_example :
    (e : Error) × (refresh_token
        (server SignatureAlgorithm.hs256 (some SignatureAlgorithm.hs256))
        0
        (record { token = "sealed" })
        (asking (some false))
      ≡ err (raise e))
    × (Top.respond_to e ≡ err Status.bad_request)
refresh_token-offline_example =
    refresh_token-offline (server SignatureAlgorithm.hs256 (some SignatureAlgorithm.hs256)) 0
      (record { token = "sealed" }) (asking (some false)) false bearer enabled refl

validate_iff_example :
    (validate
        (jwt SignatureAlgorithm.hs256)
        (decrypted sample_jwe_header
          (decoded (sample_header SignatureAlgorithm.hs256) sample_claims))
        "https://service.example"
        (configuration (some SignatureAlgorithm.hs256))
        none
        1800000000000
      ≡ ok tt)
    ↔ IsAcceptable
        (jwt SignatureAlgorithm.hs256)
        (configuration (some SignatureAlgorithm.hs256))
        "https://service.example"
        (or_default (jwt SignatureAlgorithm.hs256) none)
        1800000000000
        sample_claims.registered
validate_iff_example =
    validate_iff (jwt SignatureAlgorithm.hs256) sample_jwe_header
      (sample_header SignatureAlgorithm.hs256) sample_claims "https://service.example"
      (configuration (some SignatureAlgorithm.hs256)) none 1800000000000

encrypted_sample :
    encrypt
      (jwt SignatureAlgorithm.hs256)
      (decrypted sample_jwe_header (decoded (sample_header SignatureAlgorithm.hs256) sample_claims))
      signing_key
      lock
    ≡ ok (encrypted "sealed")
unfolding encrypt is_encrypted seal
encrypted_sample = simp (sign_sample SignatureAlgorithm.hs256)

decrypt-encrypt_example :
    (text : String) × (◌≡◌ {A = RefreshToken} (encrypted "sealed") (encrypted text))
    × (h' : JweHeader) × (decrypt
          (jwt SignatureAlgorithm.hs256)
          (encrypted text)
          signing_key
          lock
          SignatureAlgorithm.hs256
          "A256GCMKW"
          "A256GCM"
        ≡ ok (decrypted h' (decoded (sample_header SignatureAlgorithm.hs256) (wire sample_claims))))
decrypt-encrypt_example =
    decrypt-encrypt (jwt SignatureAlgorithm.hs256)
      (jwt-Verifies SignatureAlgorithm.hs256 signing_key signing_key)
      (jwt-Decrypts SignatureAlgorithm.hs256 lock lock) sample_jwe_header
      (sample_header SignatureAlgorithm.hs256) sample_claims (encrypted "sealed") encrypted_sample

made :
    with_configuration_and_time
      (jwt SignatureAlgorithm.hs256)
      world
      (configuration (some SignatureAlgorithm.hs256))
      "alice"
      "https://service.example"
      null
      (some null)
      0
    ≡ ok made_token
unfolding with_configuration_and_time verify_service contains make_token make_header new_decrypted
made = refl

with_configuration_and_time-IsMade_example :
    IsMade
      (jwt SignatureAlgorithm.hs256)
      world
      (configuration (some SignatureAlgorithm.hs256))
      "alice"
      "https://service.example"
      null
      0
      made_token
with_configuration_and_time-IsMade_example =
    with_configuration_and_time-IsMade (jwt SignatureAlgorithm.hs256) world
      (configuration (some SignatureAlgorithm.hs256)) "alice" "https://service.example" null
      (some null) 0 made_token made

abbrev encoded_made : Token
encoded_made = record made_token { token = encoded "signed" }

made_encoded : encode (jwt SignatureAlgorithm.hs256) made_token signing_key ≡ ok encoded_made
unfolding encode
made_encoded = rw (sign_sample SignatureAlgorithm.hs256)
