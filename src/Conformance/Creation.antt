-- ===== src/Conformance/Creation.antt =====
-- The tests of `Token::with_configuration_and_time` in src/token.rs.
use rowdy.Prelude.{
  ℕ, ◌+◌, String, Bool, true, false, not, Option, none, some, ok, err, ◌>>=◌, ◌>>◌, ◌≡◌, List, lift,
  is_some, leb, contains, map_err,
}
use rowdy.Crates.{JsonValue, object, entry, end, string}
use rowdy.Crates.Jwt.{Jwt, single, SignatureAlgorithm}
use rowdy.Crates.World.{World}
use rowdy.Error.Token.{invalid_service}
use rowdy.Error.Top.{Error}
use rowdy.Token.Make.{make_token, make_header}
use rowdy.Token.Verify.{verify_service}
use rowdy.Token.Refresh.{new_decrypted, payload, claims_set}
use rowdy.Token.Access.{
  Token, with_configuration_and_time, registered_claims, private_claims, header,
}
use rowdy.Token.Access
use rowdy.Conformance.Harness.{
  elsewhere, Test, on_error, on_assertion, unwrap_error, unwrap_token, assert, assert_eq,
  assert_eq-yes, claims_discrete, audience_discrete, uri_discrete, time_discrete,
  algorithm_discrete,
}
use rowdy.Conformance.Fixtures.{
  make_config, from_str, Normalises, two_minutes, refresh_token_payload, make_config-value,
}

-- `TestClaims::default()`, as JSON.
abbrev pub default_claims : JsonValue
default_claims =
    object (entry "company" (string "ACME") (entry "department" (string "Toilet Cleaning") end))

-- `refresh_token().unwrap()`.
abbrev pub unwrap_some : {A : Type 0} → Option A → Test A
unwrap_some none = err on_assertion
unwrap_some (some a) = ok a

module _ (j : Jwt) (w : World) where
  -- What the three tests assert of the claims and the header, at the time 0.
  asserts_claims : Token → Test (Unit {0})
  asserts_claims token = do
    lasts ← map_err (λ e. elsewhere) (w.chrono_from_std two_minutes)
    registered ← unwrap_error (lift (registered_claims token))
    issuer ← from_str j "https://www.acme.com"
    assert_eq (uri_discrete registered.issuer (some issuer))
    subject ← from_str j "Donald Trump"
    assert_eq (uri_discrete registered.subject (some subject))
    audience ← from_str j "https://www.example.com"
    assert_eq (audience_discrete registered.audience (some (single audience)))
    assert_eq (time_discrete registered.issued_at (some 0))
    assert_eq (time_discrete registered.not_before (some 0))
    assert_eq (time_discrete registered.expiry (some (0 + lasts)))
    private ← unwrap_error (lift (private_claims token))
    assert_eq (claims_discrete private default_claims)
    h ← unwrap_error (lift (header token))
    assert_eq (algorithm_discrete h.algorithm SignatureAlgorithm.hs512)

  -- The token that each of them makes.
  created : Bool → String → Option JsonValue → Test Token
  created refresh_token service payload = do
    configuration ← make_config j refresh_token
    unwrap_error (
        with_configuration_and_time j w configuration "Donald Trump" service default_claims payload
          0)

  token_created_with_refresh_token_disabled : Test (Unit {0})
  unfolding created asserts_claims
  token_created_with_refresh_token_disabled = do
    token ← created false "https://www.example.com/" (some refresh_token_payload)
    asserts_claims token
    assert (not (is_some (Access.refresh_token token)))

  token_created_with_no_refresh_token_payload : Test (Unit {0})
  unfolding created asserts_claims
  token_created_with_no_refresh_token_payload = do
    token ← created true "https://www.example.com/" none
    asserts_claims token
    assert (not (is_some (Access.refresh_token token)))

  token_created_with_refresh_token : Test (Unit {0})
  unfolding created asserts_claims
  token_created_with_refresh_token = do
    token ← created true "https://www.example.com/" (some refresh_token_payload)
    asserts_claims token
    refresh_token ← unwrap_some (Access.refresh_token token)
    actual ← unwrap_token (payload j refresh_token)
    assert_eq (claims_discrete actual refresh_token_payload)

  validates_service_correctly : Test (Unit {0})
  unfolding created
  validates_service_correctly = do _ ← created true "invalid" none; ok tt

-- A world in which both tokens can be made at the time 0, and the parser on the texts of these
-- tests.
record Makes (j : Jwt) (w : World) : Type 0 where
  subject : j.parse "Donald Trump" ≡ ok "Donald Trump"
  word : j.parse "invalid" ≡ ok "invalid"
  random : ℕ → List ℕ
  filled : (draw : ℕ) → w.fill draw 16 ≡ some (random draw)
  uuid : ℕ → List ℕ
  uuid_is : (draw : ℕ) → w.uuid_from_bytes (random draw) ≡ ok (uuid draw)
  lasts : w.chrono_from_std two_minutes ≡ ok 120000000000
  lasts_refresh : w.chrono_from_std (record { secs = 86400; nanos = 0 }) ≡ ok 86400000000000
  dated : leb 120000000000 w.last_date ≡ true
  dated_refresh : leb 86400000000000 w.last_date ≡ true

module _ (j : Jwt) (w : World) (urls : Normalises j) (made : Makes j w) where
  validates_service_correctly-panics :
      validates_service_correctly j w ≡ err (on_error (Error.token invalid_service))
  unfolding validates_service_correctly with_configuration_and_time verify_service contains
  validates_service_correctly-panics = simp (make_config-value j urls true, made.word)

  token_created_with_refresh_token_disabled-passes :
      token_created_with_refresh_token_disabled j w ≡ ok tt
  unfolding token_created_with_refresh_token_disabled with_configuration_and_time verify_service
      contains make_token make_header registered_claims private_claims header Access.refresh_token
  token_created_with_refresh_token_disabled-passes = simp (
    make_config-value j urls false,
    urls.example_path,
    urls.example,
    urls.acme,
    made.subject,
    made.lasts,
    made.filled,
    made.uuid_is,
    made.dated,
    assert_eq-yes,
  )

  token_created_with_no_refresh_token_payload-passes :
      token_created_with_no_refresh_token_payload j w ≡ ok tt
  unfolding token_created_with_no_refresh_token_payload with_configuration_and_time verify_service
      contains make_token make_header registered_claims private_claims header Access.refresh_token
  token_created_with_no_refresh_token_payload-passes = simp (
    make_config-value j urls true,
    urls.example_path,
    urls.example,
    urls.acme,
    made.subject,
    made.lasts,
    made.filled,
    made.uuid_is,
    made.dated,
    assert_eq-yes,
  )

  token_created_with_refresh_token-passes : token_created_with_refresh_token j w ≡ ok tt
  unfolding token_created_with_refresh_token with_configuration_and_time verify_service contains
      make_token make_header registered_claims private_claims header Access.refresh_token
      new_decrypted payload claims_set
  token_created_with_refresh_token-passes = simp (
    make_config-value j urls true,
    urls.example_path,
    urls.example,
    urls.acme,
    made.subject,
    made.lasts,
    made.lasts_refresh,
    made.dated_refresh,
    made.filled,
    made.uuid_is,
    made.dated,
    assert_eq-yes,
  )
