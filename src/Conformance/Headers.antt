-- ===== src/Conformance/Headers.antt =====
-- The tests of the authorization header and of the mock authenticator in src/auth/mod.rs. Rocket's
-- client is a parameter.
pub mod Laws
use rowdy.Prelude.{
  String, Bool, true, false, Option, none, some, Result, ok, err, ◌>>=◌, ◌>>◌, map_err, List, [],
  ◌∷◌, ◌==◌, Partial, lift, text_discrete, if◌then◌else◌,
}
use rowdy.Crates.{Status, Response, ok_status, unauthorized}
use rowdy.Error.Top
use rowdy.Error.Top.{Error}
use rowdy.Auth.Header
use rowdy.Auth.Header.{Basic, Bearer, Scheme, RequestOutcome, from_request}
use rowdy.Auth.Authenticator.{Authenticator, prepare_authentication_response, missing}
use rowdy.Auth.Mock.{mock_basic, mock_bearer, mock_string}
use rowdy.Conformance.Harness.{Test, elsewhere, assert, assert_eq, texts_discrete}

pub status_discrete : Discrete Status
status_discrete = hlevel

password_discrete : Discrete (Option String)
password_discrete = hlevel (text_discrete)

-- `Authorization::new` of the text that a scheme formats.
unfoldable parsed : {S : Type 0} → Scheme S → S → Test S
parsed s auth = map_err (λ e. elsewhere) (Header.new s (s.format auth))

unfoldable parses_basic_auth_correctly : Scheme Basic → Test (Unit {0})
unfolding parsed
parses_basic_auth_correctly s = do
  header ← parsed s (record { username = "Aladdin"; password = some "open sesame" })
  assert (header.username == "Aladdin")
  assert_eq (password_discrete header.password (some "open sesame"))

unfoldable parses_bearer_auth_correctly : Scheme Bearer → Test (Unit {0})
unfolding parsed
parses_bearer_auth_correctly s = do
  header ← parsed s (record { token = "token" })
  assert (header.token == "token")

unfoldable parses_string_auth_correctly : Scheme String → Test (Unit {0})
unfolding parsed
parses_string_auth_correctly s = do header ← parsed s "hello"; assert (header == "hello")

-- What the client of a Rocket with one handler gives: the guard `Option<Authorization<S>>`, and the
-- response to what the handler returns, with the responder of an error.
pub record Client : Type 1 where
  pub guard : {S : Type 0} → RequestOutcome S → Option S
  pub reply : (Error → Result Status Response) → Partial Error (Unit {0}) → Response

module _ {S : Type 0} (authenticator : Authenticator S) where
  -- The handlers `auth_basic`, `auth_bearer` and `auth_string`, which differ in their schemes.
  unfoldable auth_handler : Option S → Partial Error (Unit {0})
  auth_handler none = lift (missing "https://www.acme.com")
  auth_handler (some authorization) = do
    _ ← prepare_authentication_response authenticator authorization true
    ok tt

  module _ (c : Client) (s : Scheme S) where
    -- The response to a request with this `Authorization` header.
    unfoldable get : Option String → Response
    unfolding auth_handler
    get authorization =
        c.reply Top.respond_to (auth_handler (c.guard (from_request s authorization)))

    unfoldable pub get_test : S → Status → Test (Unit {0})
    unfolding get
    get_test auth_header expected =
        assert_eq (status_discrete (get (some (s.format auth_header))).status expected)

-- The values of the `WWW-Authenticate` headers.
unfoldable challenges : List (String × String) → List String
challenges [] = []
challenges ((name, value) ∷ headers) =
    let rest = challenges headers in if name == "WWW-Authenticate" then value ∷ rest else rest

module _ (c : Client) where
  module _ (s : Scheme Basic) where
    mock_basic_auth_get_test : Test (Unit {0})
    mock_basic_auth_get_test =
        get_test (mock_basic s) c s (record { username = "mei"; password = some "冻住，不许走!" })
          ok_status

    mock_basic_auth_get_invalid_credentials : Test (Unit {0})
    mock_basic_auth_get_invalid_credentials =
        get_test (mock_basic s) c s (record { username = "Aladin"; password = some "let me in" })
          unauthorized

    mock_basic_auth_get_missing_credentials : Test (Unit {0})
    unfolding challenges get
    mock_basic_auth_get_missing_credentials = do
      let response = get (mock_basic s) c s none
      assert_eq (status_discrete response.status unauthorized)
      assert_eq
          (texts_discrete (challenges response.headers) ("Basic realm=https://www.acme.com" ∷ []))

  module _ (s : Scheme Bearer) where
    mock_bearer_auth_get_test : Test (Unit {0})
    mock_bearer_auth_get_test =
        get_test (mock_bearer s) c s (record { token = "这样可以挡住他们。" }) ok_status

    mock_bearer_auth_get_invalid_credentials : Test (Unit {0})
    mock_bearer_auth_get_invalid_credentials =
        get_test (mock_bearer s) c s (record { token = "bad" }) unauthorized

  module _ (s : Scheme String) where
    mock_string_auth_get_test : Test (Unit {0})
    mock_string_auth_get_test = get_test (mock_string s) c s "哦，对不起啦。" ok_status

    mock_string_auth_get_invalid_credentials : Test (Unit {0})
    mock_string_auth_get_invalid_credentials = get_test (mock_string s) c s "bad" unauthorized
