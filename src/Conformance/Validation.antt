-- ===== src/Conformance/Validation.antt =====
-- The tests of `RefreshToken::validate` in src/token.rs.
use rowdy.Prelude.{
  String, Bool, true, Option, none, some, Result, ok, err, ◌>>=◌, ◌≡◌, ◌+◌, ◌≤◌, ◌<◌, [], ◌∷◌, refl,
  map_err, arith, contains,
}
use rowdy.Crates.{ForeignError, JwtError, validation_error}
use rowdy.Crates.Jwt.{
  Jwt, single, multiple, DateTime, TemporalValidationOptions, RegisteredClaims, decoded, encoded,
  decrypted, encrypted,
}
use rowdy.Crates.Jwt.Laws.{ChecksTimes}
use rowdy.Crates.World.{World}
use rowdy.Error.Token.{TokenError, jwt_error, invalid_issuer, invalid_audience, invalid_service}
use rowdy.Token.Config.{Configuration}
use rowdy.Token.Verify.{verify_service, verify_issuer, verify_audience}
use rowdy.Token.Refresh.{RefreshToken, validate, claims_set, default_options, or_default}
use rowdy.Conformance.Harness.{Test, on_token_error, elsewhere, unwrap_token}
use rowdy.Conformance.Fixtures.{
  make_config, make_refresh_token, from_str, Normalises, Serves, config_value, claims_value,
  refresh_value, make_config-value, make_refresh_token-value,
}
mod Laws

-- `payload_mut` twice, and an assignment to the registered claims.
edit_claims : (RegisteredClaims → RegisteredClaims) → RefreshToken → Test RefreshToken
edit_claims edit (decrypted h (decoded g c)) =
    ok (decrypted h (decoded g (record c { registered = edit c.registered })))
edit_claims edit (decrypted h (encoded t)) = err elsewhere
edit_claims edit (encrypted t) = err elsewhere

-- The fixtures are made at `issued`, and validation reads the clock at `now`.
module _ (j : Jwt) (w : World) (issued now : DateTime) where
  -- A token whose registered claims were edited is validated for a service.
  validates : Configuration → (RegisteredClaims → RegisteredClaims) → String → Test (Unit {0})
  unfolding edit_claims
  validates configuration edit service = do
    made ← make_refresh_token j w issued
    refresh_token ← edit_claims edit made
    unwrap_token (validate j refresh_token service configuration none now)

  validates_fixture : (RegisteredClaims → RegisteredClaims) → Test (Unit {0})
  unfolding validates
  validates_fixture edit = do
    configuration ← make_config j true
    validates configuration edit "https://www.example.com/"

  refresh_token_validates_correctly : Test (Unit {0})
  unfolding validates_fixture
  refresh_token_validates_correctly = validates_fixture (λ c. c)

  refresh_token_validates_missing_issuer : Test (Unit {0})
  unfolding validates_fixture
  refresh_token_validates_missing_issuer = validates_fixture (λ c. record c { issuer = none })

  refresh_token_validates_missing_audience : Test (Unit {0})
  unfolding validates_fixture
  refresh_token_validates_missing_audience = validates_fixture (λ c. record c { audience = none })

  refresh_token_validates_invalid_service : Test (Unit {0})
  unfolding validates
  refresh_token_validates_invalid_service = do
    configuration ← make_config j true
    validates configuration (λ c. c) "https://www.invalid.com/"

  refresh_token_validates_mismatch_service_and_audience : Test (Unit {0})
  unfolding validates
  refresh_token_validates_mismatch_service_and_audience = do
    configuration ← make_config j true
    invalid ← from_str j "https://www.invalid.com/"
    validates (record configuration { audience = single invalid }) (λ c. c)
        "https://www.invalid.com/"

  refresh_token_validates_invalid_audience : Test (Unit {0})
  unfolding validates_fixture
  refresh_token_validates_invalid_audience = do
    invalid ← from_str j "https://www.invalid.com/"
    example ← from_str j "https://www.example.com/"
    validates_fixture (λ c. record c { audience = some (multiple (invalid ∷ example ∷ [])) })

  refresh_token_validates_invalid_issuer : Test (Unit {0})
  unfolding validates_fixture
  refresh_token_validates_invalid_issuer = do
    invalid ← from_str j "https://www.invalid.com/"
    validates_fixture (λ c. record c { issuer = some invalid })

  refresh_token_validates_missing_issued_at : Test (Unit {0})
  unfolding validates_fixture
  refresh_token_validates_missing_issued_at = validates_fixture (λ c. record c { issued_at = none })

  refresh_token_validates_missing_not_before : Test (Unit {0})
  unfolding validates_fixture
  refresh_token_validates_missing_not_before =
      validates_fixture (λ c. record c { not_before = none })

  refresh_token_validates_missing_expiry : Test (Unit {0})
  unfolding validates_fixture
  refresh_token_validates_missing_expiry = validates_fixture (λ c. record c { expiry = none })

-- The token crate refuses a claims set in which the one required time that is missing is named.
record RequiresTimes (j : Jwt) : Type 0 where
  missing : String → ForeignError
  iat :
      (c : RegisteredClaims) (now : DateTime)
      → c.issued_at ≡ none
      → j.validate_times c (some (default_options j)) now ≡ err (missing "iat")
  nbf :
      (c : RegisteredClaims) (now n : DateTime)
      → c.issued_at ≡ some n
      → c.not_before ≡ none
      → j.validate_times c (some (default_options j)) now ≡ err (missing "nbf")
  exp :
      (c : RegisteredClaims) (now n m : DateTime)
      → c.issued_at ≡ some n
      → c.not_before ≡ some m
      → c.expiry ≡ none
      → j.validate_times c (some (default_options j)) now ≡ err (missing "exp")
