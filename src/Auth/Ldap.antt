-- ===== src/Auth/Ldap.antt =====
-- src/auth/ldap.rs: the authenticator over an LDAP directory.
pub mod Laws
pub mod Passwords
pub mod Attributes
pub mod Claims
use rowdy.Prelude.{
  ℕ, String, Bool, true, false, Option, none, some, Result, ok, err, ◌>>=◌, ◌>>◌, map_err, ok_or,
  lift, unwrap_or, if◌then◌else◌, is_some, List, [], ◌∷◌, ◌++◌, map, Dict, get, ◌==◌,
}
use rowdy.Prelude.Sort.{sort, dedup}
use rowdy.Crates.{
  JsonValue, JsonMap, string, object, null, boolean, number, array, end, entry, json_get,
  json_insert, json_collect, ForeignError,
}
use Prim.Native.String
use rowdy.Error.Auth.{authentication_failure}
use rowdy.Error.Top.{Error, auth, generic_error, io_error}
use rowdy.Auth.Header
use rowdy.Auth.Header.{Basic}
use rowdy.Auth.Authenticator.{Authenticator, AuthenticationResult}
use rowdy.Auth.Simple.{failure, ◌+s◌, partition, all_or_joined}

-- `User`, and the `SearchEntry` that it is made from.
pub record User : Type 0 where
  pub dn : String
  pub attributes : Dict (List String)

pub record SearchEntry : Type 0 where
  pub dn : String
  pub attrs : Dict (List String)

-- `From<SearchEntry> for User`.
unfoldable pub user_from : SearchEntry → User
user_from e = record { dn = e.dn; attributes = e.attrs }

pub record LdapAuthenticator : Type 0 where
  pub address : String
  pub bind_dn : String
  pub bind_password : String
  pub search_base : String
  pub search_filter : Option String
  pub include_attributes : List String
  pub attributes_namespace : Option String
  pub subject_attribute : Option String

-- A connection: which of the connections that a call opens it is, and the names and passwords that
-- were bound on it, the last one first.
pub record LdapConn : Type 0 where
  pub index : ℕ
  pub binds : List (String × String)

-- `ldap3`, `strfmt`, and the JSON form of the values that the code writes. Whether a connection
-- opens depends on its number. An operation on a connection fails, or is answered with a result
-- that is a success or not.
pub record Ldap : Type 0 where
  pub establish : ℕ → String → Result ForeignError (Unit {0})
  pub simple_bind :
      LdapConn → String → String → Result ForeignError (Result ForeignError (Unit {0}))
  pub search :
      LdapConn
      → String
      → String
      → List String
      → Result ForeignError (Result ForeignError (List SearchEntry))
  pub escape : String → String
  pub strfmt : String → Dict String → Result ForeignError String
  pub user_to_value : User → Result ForeignError JsonValue
  pub user_from_value : JsonValue → Result ForeignError User
  pub attribute_to_value : List String → Result ForeignError JsonValue

unfoldable pub get_subject_attribute : LdapAuthenticator → String
get_subject_attribute a = unwrap_or a.subject_attribute "dn"

-- The names that a search asks for.
unfoldable pub search_attributes : LdapAuthenticator → List String
unfolding get_subject_attribute sort dedup
search_attributes a =
    dedup (sort ("cn" ∷ "dn" ∷ (a.include_attributes ++ (get_subject_attribute a ∷ []))))

-- `From<FmtError> for Error`.
abbrev pub from_fmt : ForeignError → Error
from_fmt e = generic_error e.display

module _ (l : Ldap) where
  serialize_refresh_token_payload : User → Result Error JsonValue
  serialize_refresh_token_payload user = do
    value ← map_err (λ _. failure) (l.user_to_value user)
    ok (object (json_insert "user" value end))

  deserialize_refresh_token_payload : JsonValue → Result Error User
  deserialize_refresh_token_payload (object map) = do
    user ← ok_or failure (json_get "user" map)
    map_err (λ _. failure) (l.user_from_value user)
  deserialize_refresh_token_payload _ = err failure

  -- The included attributes that the user has, each with its value; the others are passed over.
  attribute_values : Dict (List String) → List String → List (Result String (String × JsonValue))
  attribute_values attributes [] = []
  attribute_values attributes (key ∷ keys) =
      let rest = attribute_values attributes keys in
      elim (get key attributes) [
        | none ↦ rest
        | some attribute ↦
            (do value ← map_err (λ e. e.display) (l.attribute_to_value attribute); ok (key, value))
            ∷ rest
      ]

  pub in_namespace : Option String → JsonMap → JsonValue
  in_namespace none map = object map
  in_namespace (some namespace) map = object (json_collect end ((namespace, object map) ∷ []))

  payload_if : Bool → User → Result Error (Option JsonValue)
  unfolding serialize_refresh_token_payload
  payload_if true user = do value ← serialize_refresh_token_payload user; ok (some value)
  payload_if false user = ok none

  unfoldable pub build_authentication_result :
      User → String → List String → Option String → Bool → Result Error AuthenticationResult
  unfolding attribute_values in_namespace payload_if
  build_authentication_result user subject include_attributes attributes_namespace
        include_refresh_payload =
      do
        pairs ← all_or_joined (partition (attribute_values user.attributes include_attributes))
        refresh_payload ← payload_if include_refresh_payload user
        ok (record {
          subject = subject;
          private_claims = in_namespace attributes_namespace (json_collect end pairs);
          refresh_payload = refresh_payload;
        })

  module _ (a : LdapAuthenticator) where
    -- The number says how many connections the call has opened before.
    unfoldable pub connect : ℕ → Result Error LdapConn
    connect index = do
      map_err io_error (l.establish index a.address)
      ok (record { index = index; binds = [] })

    -- The connection is bound from then on.
    unfoldable pub bind : LdapConn → String → String → Result Error LdapConn
    bind connection dn password = do
      answer ← map_err io_error (l.simple_bind connection dn password)
      map_err (λ e. generic_error ("Bind failed: " +s e.display)) answer
      ok (record connection { binds = (dn, password) ∷ connection.binds })

    unfoldable pub searcher_bind : LdapConn → Result Error LdapConn
    unfolding bind
    searcher_bind connection = bind connection a.bind_dn a.bind_password

    filter_for : Option String → Dict String → Result Error String
    filter_for none account = ok ""
    filter_for (some search_filter) account = map_err from_fmt (l.strfmt search_filter account)

    unfoldable pub search : LdapConn → String → Result Error (List SearchEntry)
    unfolding filter_for search_attributes
    search connection account = do
      let map = ("account", l.escape account) ∷ []
      search_base ← map_err from_fmt (l.strfmt a.search_base map)
      search_filter ← filter_for a.search_filter map
      answer ←
          map_err io_error (l.search connection search_base search_filter (search_attributes a))
      map_err (λ e. generic_error ("Search failed: " +s e.display)) answer

    first_of_values : String → Option (List String) → Result Error String
    first_of_values attribute none = err (
        generic_error
          (attribute +s " attribute was not returned and cannot be used as the subject"))
    first_of_values attribute (some []) = err (
        generic_error
          (attribute +s " attribute does not have any value and cannot be used as the subject"))
    first_of_values attribute (some (first_value ∷ _)) = ok first_value

    unfoldable pub get_user_subject : User → Result Error String
    unfolding first_of_values get_subject_attribute
    get_user_subject user =
        let attribute = get_subject_attribute a in
        if attribute == "dn"
        then ok user.dn
        else first_of_values attribute (get attribute user.attributes)

    -- `user.len() != 1` is a failure.
    the_one : List SearchEntry → Result Error SearchEntry
    the_one (user ∷ []) = ok user
    the_one _ = err failure

    -- The search for the user on a connection of its own.
    find_user : String → Result Error SearchEntry
    unfolding the_one connect searcher_bind search
    find_user username = do
      connection ← connect 0
      bound ← searcher_bind connection
      users ← map_err (λ _. failure) (search bound username)
      the_one users

    pub build : User → Bool → Result Error AuthenticationResult
    unfolding get_user_subject build_authentication_result
    build user include_refresh_payload = do
      subject ← get_user_subject user
      build_authentication_result user subject a.include_attributes a.attributes_namespace
          include_refresh_payload

    unfoldable pub verify : String → String → Bool → Result Error AuthenticationResult
    unfolding find_user build
    verify username password include_refresh_payload = do
      user ← find_user username
      connection ← connect 1
      _ ← map_err (λ _. failure) (bind connection user.dn password)
      build (user_from user) include_refresh_payload

    unfoldable pub authenticate : Basic → Bool → Result Error AuthenticationResult
    authenticate authorization include_refresh_payload =
        verify (Header.username authorization) (unwrap_or (Header.password authorization) "")
          include_refresh_payload

    unfoldable pub authenticate_refresh_token : JsonValue → Result Error AuthenticationResult
    unfolding build deserialize_refresh_token_payload
    authenticate_refresh_token refresh_payload = do
      user ← deserialize_refresh_token_payload refresh_payload
      build user false

    abbrev pub ldap : Authenticator Basic
    ldap = record {
      authenticate = λ s b. lift (authenticate s b);
      authenticate_refresh_token = λ p. lift (authenticate_refresh_token p);
    }

    unfoldable pub make_authenticator : Result Error (Authenticator Basic)
    unfolding connect searcher_bind
    make_authenticator = do connection ← connect 0; _ ← searcher_bind connection; ok ldap
