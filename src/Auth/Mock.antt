-- ===== src/Auth/Mock.antt =====
-- src/auth/mod.rs, `tests`: the authenticator of the crate's tests, over the three schemes.
use rowdy.Prelude.{
  String, Bool, true, false, ◌&&◌, Option, none, some, ok, err, ◌>>=◌, ◌==◌, Partial, lift, unwrap,
  unwrap_or, panic, if◌then◌else◌, ◌≡◌, arith, refl,
}
use rowdy.Crates.{JsonValue, string, object, end, entry, as_str, json_get, json_insert}
use rowdy.Error.Top.{Error}
use rowdy.Auth.Header
use rowdy.Auth.Header.{Scheme, Basic, Bearer}
use rowdy.Auth.Authenticator.{Authenticator, AuthenticationResult}
use rowdy.Auth.Noop.{RoundTrips, failure}
use rowdy.Prelude.{Result}

abbrev ok_of {ℓ κ} : {E : Type ℓ} {A : Type κ} → Result E A → Option A
ok_of (ok a) = some a
ok_of (err _) = none

-- `accepts` is the test of the credentials, and `sub` gives the subject.
module _ {S : Type 0} (s : Scheme S) (accepts : S → Bool) (sub : S → String) where
  serialize_refresh_token_payload : S → JsonValue
  serialize_refresh_token_payload authorization =
      object (json_insert "header" (string (s.format authorization)) end)

  -- It panics on a payload of another shape, and on a header that does not parse.
  deserialize_refresh_token_payload : JsonValue → Partial Error S
  deserialize_refresh_token_payload (object map) = do
    value ← unwrap (json_get "header" map)
    header ← unwrap (as_str value)
    unwrap (ok_of (s.parse_header header))
  deserialize_refresh_token_payload _ = err panic

  unfoldable pub authenticate : S → Bool → Partial Error AuthenticationResult
  unfolding serialize_refresh_token_payload
  authenticate authorization include_refresh_payload =
      if accepts authorization
      then ok (record {
        subject = sub authorization;
        private_claims = object end;
        refresh_payload =
            if include_refresh_payload
            then some (serialize_refresh_token_payload authorization)
            else none;
      })
      else lift (err failure)

  unfoldable pub authenticate_refresh_token : JsonValue → Partial Error AuthenticationResult
  unfolding deserialize_refresh_token_payload authenticate
  authenticate_refresh_token refresh_payload = do
    header ← deserialize_refresh_token_payload refresh_payload
    authenticate header false

  abbrev pub mock : Authenticator S
  mock = record {
    authenticate = authenticate;
    authenticate_refresh_token = authenticate_refresh_token;
  }

  read_back :
      (a : S)
      → RoundTrips s a
      → deserialize_refresh_token_payload (object (entry "header" (string (s.format a)) end)) ≡ ok a
  unfolding deserialize_refresh_token_payload json_get as_str
  read_back a rt = rw rt.parses refl

  granted_again :
      (a : S) (r : AuthenticationResult) (p : JsonValue)
      → authenticate a true ≡ ok r
      → r.refresh_payload ≡ some p
      → (p ≡ object (entry "header" (string (s.format a)) end))
        × (authenticate a false ≡ ok (record r { refresh_payload = none }))
  unfolding authenticate serialize_refresh_token_payload json_insert
  granted_again a r p h has = (ground arith, ground arith)

  -- A refresh payload is good for the credentials that it was made of, where their header is
  -- parsed as they are formatted.
  pub mock-renews :
      (a : S)
      → RoundTrips s a
      → (r : AuthenticationResult) (p : JsonValue) → authenticate a true ≡ ok r
      → r.refresh_payload ≡ some p
      → authenticate_refresh_token p ≡ ok (record r { refresh_payload = none })
  unfolding authenticate_refresh_token
  mock-renews a rt r p h has =
      let (same, again) = granted_again a r p h has in rw same (rw (read_back a rt) again)

-- The three implementations of the trait.
abbrev pub mock_basic : Scheme Basic → Authenticator Basic
mock_basic s =
    mock s (λ a. Header.username a == "mei" && unwrap_or (Header.password a) "" == "冻住，不许走!")
      Header.username

abbrev pub mock_bearer : Scheme Bearer → Authenticator Bearer
mock_bearer s = mock s (λ a. Header.token a == "这样可以挡住他们。") (λ _. "这样可以挡住他们。")

abbrev pub mock_string : Scheme String → Authenticator String
mock_string s = mock s (λ a. Header.string a == "哦，对不起啦。") (λ _. "哦，对不起啦。")

-- `MockAuthenticatorConfiguration`, which configures nothing.
pub record MockAuthenticatorConfiguration : Type 0 where

unfoldable pub make_authenticator :
    {S : Type 0}
    → Scheme S
    → (S → Bool)
    → (S → String)
    → MockAuthenticatorConfiguration
    → Result Error (Authenticator S)
make_authenticator s accepts sub config = ok (mock s accepts sub)
