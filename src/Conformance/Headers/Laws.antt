-- ===== src/Conformance/Headers/Laws.antt =====
-- How the tests of src/auth/mod.rs end.
use rowdy.Prelude.{String, true, none, some, Result, ok, err, raise, [], ◌∷◌, ◌≡◌, refl, ap, ◌∙◌}
use rowdy.Crates.{Status, Response, ok_status, unauthorized}
use rowdy.Error.Top
use rowdy.Error.Top.{Error}
use rowdy.Error.Auth
use rowdy.Auth.Header
use rowdy.Auth.Header.{Basic, Bearer, Scheme, success, forward, from_request}
use rowdy.Auth.Authenticator.{
  Authenticator, AuthenticationResult, prepare_authentication_response, missing,
}
use rowdy.Auth.Noop.{RoundTrips, failure}
use rowdy.Auth.Mock
use rowdy.Auth.Mock.{mock_basic, mock_bearer, mock_string}
use rowdy.Conformance.Harness.{assert_eq-yes}
use rowdy.Conformance.Headers.{
  Client, get_test, parses_basic_auth_correctly, parses_bearer_auth_correctly,
  parses_string_auth_correctly, auth_handler, get, status_discrete, mock_basic_auth_get_test,
  mock_basic_auth_get_invalid_credentials, mock_basic_auth_get_missing_credentials,
  mock_bearer_auth_get_test, mock_bearer_auth_get_invalid_credentials, mock_string_auth_get_test,
  mock_string_auth_get_invalid_credentials, challenges,
}

-- The guard is the header that parses, if there is one; `Ok` is answered with the status 200, and
-- an error with what its responder gives, or with the page for its status.
pub record Dispatches (c : Client) : Type 1 where
  pub guarded : {S : Type 0} (a : S) → c.guard (success a) ≡ some a
  pub unguarded : {S : Type 0} → c.guard {S = S} forward ≡ none
  pub accepted : (show : Error → Result Status Response) → (c.reply show (ok tt)).status ≡ ok_status
  pub answered :
      (show : Error → Result Status Response) (e : Error) (r : Response)
      → show e ≡ ok r
      → c.reply show (err (raise e)) ≡ r
  pub caught :
      (show : Error → Result Status Response) (e : Error) (status : Status)
      → show e ≡ err status
      → (c.reply show (err (raise e))).status ≡ status

parses_basic_auth_correctly-passes :
    (s : Scheme Basic)
    → RoundTrips s (record { username = "Aladdin"; password = some "open sesame" })
    → parses_basic_auth_correctly s ≡ ok tt
unfolding parses_basic_auth_correctly Header.new
parses_basic_auth_correctly-passes s rt = simp (rt.parses, assert_eq-yes)

parses_bearer_auth_correctly-passes :
    (s : Scheme Bearer)
    → RoundTrips s (record { token = "token" })
    → parses_bearer_auth_correctly s ≡ ok tt
unfolding parses_bearer_auth_correctly Header.new
parses_bearer_auth_correctly-passes s rt = simp (rt.parses)

parses_string_auth_correctly-passes :
    (s : Scheme String) → RoundTrips s "hello" → parses_string_auth_correctly s ≡ ok tt
unfolding parses_string_auth_correctly Header.new
parses_string_auth_correctly-passes s rt = simp (rt.parses)

module _ (c : Client) (rocket : Dispatches c) where
  module _ {S : Type 0} (a : Authenticator S) (s : Scheme S) (credentials : S)
      (rt : RoundTrips s credentials) where
    from_request-format : from_request s (some (s.format credentials)) ≡ success credentials
    unfolding from_request Header.new
    from_request-format = rw rt.parses

    get_handles :
        get a c s (some (s.format credentials))
        ≡ c.reply Top.respond_to (auth_handler a (some credentials))
    unfolding get
    get_handles =
        ap (λ o. c.reply Top.respond_to (auth_handler a o))
          (ap c.guard from_request-format ∙ rocket.guarded credentials)

    -- Credentials for which the authenticator gives a response get the status 200.
    pub get_test-ok_status :
        (r : AuthenticationResult)
        → prepare_authentication_response a credentials true ≡ ok r
        → get_test a c s credentials ok_status ≡ ok tt
    unfolding get_test auth_handler
    get_test-ok_status r prepared =
        assert_eq-yes _ (rw get_handles (rw prepared (rocket.accepted Top.respond_to)))

    -- Credentials that the authenticator refuses get the status 401.
    get_test-unauthorized :
        prepare_authentication_response a credentials true ≡ err (raise failure)
        → get_test a c s credentials unauthorized ≡ ok tt
    unfolding get_test auth_handler Top.respond_to Auth.respond_to
    get_test-unauthorized refused =
        assert_eq-yes _
          (rw get_handles (rw refused (rocket.caught Top.respond_to failure unauthorized refl)))

  module _ (s : Scheme Basic) where
    mock_basic_auth_get_test-passes :
        RoundTrips s (record { username = "mei"; password = some "冻住，不许走!" })
        → mock_basic_auth_get_test c s ≡ ok tt
    unfolding mock_basic_auth_get_test prepare_authentication_response Mock.authenticate
        Header.username Header.password
    mock_basic_auth_get_test-passes rt = get_test-ok_status (mock_basic s) s _ rt _ refl

    mock_basic_auth_get_invalid_credentials-passes :
        RoundTrips s (record { username = "Aladin"; password = some "let me in" })
        → mock_basic_auth_get_invalid_credentials c s ≡ ok tt
    unfolding mock_basic_auth_get_invalid_credentials prepare_authentication_response
        Mock.authenticate Header.username Header.password
    mock_basic_auth_get_invalid_credentials-passes rt =
        get_test-unauthorized (mock_basic s) s _ rt refl

    challenged : get (mock_basic s) c s none ≡ record {
      status = unauthorized;
      headers = ("WWW-Authenticate", "Basic realm=https://www.acme.com") ∷ [];
      body = none;
    }
    unfolding get auth_handler from_request missing Top.respond_to Auth.respond_to
    challenged =
        ap (λ o. c.reply Top.respond_to (auth_handler (mock_basic s) o)) rocket.unguarded
        ∙ rocket.answered Top.respond_to _ _ refl

    mock_basic_auth_get_missing_credentials-passes :
        mock_basic_auth_get_missing_credentials c s ≡ ok tt
    unfolding mock_basic_auth_get_missing_credentials challenges
    mock_basic_auth_get_missing_credentials-passes =
        rw challenged (
          rw (assert_eq-yes (status_discrete unauthorized unauthorized) refl)
            (assert_eq-yes _ refl))

  module _ (s : Scheme Bearer) where
    mock_bearer_auth_get_test-passes :
        RoundTrips s (record { token = "这样可以挡住他们。" }) → mock_bearer_auth_get_test c s ≡ ok tt
    unfolding mock_bearer_auth_get_test prepare_authentication_response Mock.authenticate
        Header.token
    mock_bearer_auth_get_test-passes rt = get_test-ok_status (mock_bearer s) s _ rt _ refl

    mock_bearer_auth_get_invalid_credentials-passes :
        RoundTrips s (record { token = "bad" })
        → mock_bearer_auth_get_invalid_credentials c s ≡ ok tt
    unfolding mock_bearer_auth_get_invalid_credentials prepare_authentication_response
        Mock.authenticate Header.token
    mock_bearer_auth_get_invalid_credentials-passes rt =
        get_test-unauthorized (mock_bearer s) s _ rt refl

  module _ (s : Scheme String) where
    mock_string_auth_get_test-passes :
        RoundTrips s "哦，对不起啦。" → mock_string_auth_get_test c s ≡ ok tt
    unfolding mock_string_auth_get_test prepare_authentication_response Mock.authenticate
        Header.string
    mock_string_auth_get_test-passes rt = get_test-ok_status (mock_string s) s _ rt _ refl

    mock_string_auth_get_invalid_credentials-passes :
        RoundTrips s "bad" → mock_string_auth_get_invalid_credentials c s ≡ ok tt
    unfolding mock_string_auth_get_invalid_credentials prepare_authentication_response
        Mock.authenticate Header.string
    mock_string_auth_get_invalid_credentials-passes rt =
        get_test-unauthorized (mock_string s) s _ rt refl
