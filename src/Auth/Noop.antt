-- ===== src/Auth/Noop.antt =====
-- src/auth/noop.rs: the authenticator that lets everything through, over the three schemes.
use rowdy.Prelude.{
  String, Bool, true, false, none, some, Result, ok, err, ◌>>=◌, map_err, ok_or, lift,
  if◌then◌else◌, ◌≡◌, arith,
}
use rowdy.Crates.{JsonValue, string, object, end, entry, as_str, json_get, json_insert}
use rowdy.Error.Auth.{authentication_failure}
use rowdy.Error.Top.{Error, auth}
use rowdy.Auth.Header
use rowdy.Auth.Header.{Scheme, Basic, Bearer}
use rowdy.Auth.Authenticator.{Authenticator, AuthenticationResult}

abbrev pub failure : Error
failure = auth authentication_failure

-- `sub` is the accessor that gives the subject: `username`, `token` or `string`.
module _ {S : Type 0} (s : Scheme S) (sub : S → String) where
  serialize_refresh_token_payload : S → JsonValue
  serialize_refresh_token_payload authorization =
      object (json_insert "header" (string (s.format authorization)) end)

  deserialize_refresh_token_payload : JsonValue → Result Error S
  deserialize_refresh_token_payload (object map) = do
    value ← ok_or failure (json_get "header" map)
    header ← ok_or failure (as_str value)
    map_err (λ _. failure) (s.parse_header header)
  deserialize_refresh_token_payload _ = err failure

  unfoldable pub authenticate : S → Bool → Result Error AuthenticationResult
  unfolding serialize_refresh_token_payload
  authenticate authorization include_refresh_payload = ok (record {
    subject = sub authorization;
    private_claims = object end;
    refresh_payload =
        if include_refresh_payload
        then some (serialize_refresh_token_payload authorization)
        else none;
  })

  unfoldable pub authenticate_refresh_token : JsonValue → Result Error AuthenticationResult
  unfolding deserialize_refresh_token_payload authenticate
  authenticate_refresh_token refresh_payload = do
    header ← deserialize_refresh_token_payload refresh_payload
    authenticate header false

  abbrev pub noop : Authenticator S
  noop = record {
    authenticate = λ a b. lift (authenticate a b);
    authenticate_refresh_token = λ p. lift (authenticate_refresh_token p);
  }

-- The three implementations of the trait.
abbrev pub noop_basic : Scheme Basic → Authenticator Basic
noop_basic s = noop s Header.username

abbrev pub noop_bearer : Scheme Bearer → Authenticator Bearer
noop_bearer s = noop s Header.token

abbrev pub noop_string : Scheme String → Authenticator String
noop_string s = noop s Header.string

-- `NoOpConfiguration`, which configures nothing.
pub record NoOpConfiguration : Type 0 where

unfoldable pub make_authenticator :
    {S : Type 0} → Scheme S → (S → String) → NoOpConfiguration → Result Error (Authenticator S)
make_authenticator s sub config = ok (noop s sub)

-- The header of the credentials is parsed as they are formatted.
pub record RoundTrips {S : Type 0} (s : Scheme S) (a : S) : Type 0 where
  pub parses : s.parse_header (s.format a) ≡ ok a

-- A refresh payload is good for the credentials that it was made of, where their header is parsed
-- as they are formatted.
pub noop-renews :
    {S : Type 0} (s : Scheme S) (sub : S → String) (a : S)
    → RoundTrips s a
    → (r : AuthenticationResult) (p : JsonValue) → authenticate s sub a true ≡ ok r
    → r.refresh_payload ≡ some p
    → authenticate_refresh_token s sub p ≡ ok (record r { refresh_payload = none })
unfolding authenticate_refresh_token json_insert json_get as_str
noop-renews s sub a rt r p h has =
    let same : p ≡ object (entry "header" (string (s.format a)) end) = ground arith in
    rw same (rw rt.parses (ground arith))
