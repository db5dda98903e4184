-- ===== src/Diesel.antt =====
-- diesel/src: the authenticators over a database table (lib.rs, schema.rs, mysql.rs, sqlite.rs,
-- postgres.rs).
pub mod Mysql
pub mod Sqlite
pub mod Postgres
pub mod Laws
pub mod Port
pub mod Schema
use Prim.Native.String
use rowdy.Prelude.{
  ℕ, zero, suc, ◌/◌, ◌%◌, ltb, String, Bool, true, false, not, Option, none, some, Result, ok, err,
  ◌>>=◌, ◌>>◌, map_err, ok_or, Partial, lift, within, panic, is_ok, if◌then◌else◌, unwrap_or, List,
  [], ◌∷◌, ◌==◌,
}
use rowdy.Crates.{
  JsonValue, JsonMap, string, object, null, boolean, number, array, end, json_get, json_insert,
  ForeignError,
}
use rowdy.Error.Auth
use rowdy.Error.Auth.{AuthError}
use rowdy.Error.Top
use rowdy.Error.Top.{Error}
use rowdy.Auth.Header
use rowdy.Auth.Header.{Basic}
use rowdy.Auth.Authenticator.{Authenticator, AuthenticationResult}
use rowdy.Auth.Util.{Crypto, hash_password_digest, hex_dump, nibble}

pub data DieselError : Type 0 where
  connection_error : ForeignError → DieselError
  diesel_error : ForeignError → DieselError
  initialization_error : DieselError
  connection_timeout : DieselError
  authentication_failure : DieselError
  invalid_unicode_in_path : DieselError

-- `From<r2d2::Error>`: whatever went wrong.
unfoldable pub from_r2d2 : ForeignError → DieselError
from_r2d2 _ = initialization_error

-- `From<Error> for rowdy::Error`.
unfoldable pub to_rowdy : DieselError → Error
to_rowdy (connection_error e) = Error.auth (AuthError.generic_error e.display)
to_rowdy (diesel_error e) = Error.auth (AuthError.generic_error e.display)
to_rowdy connection_timeout =
    Error.auth (AuthError.generic_error "Timed out connecting to the database")
to_rowdy initialization_error =
    Error.auth (AuthError.generic_error "Error initializing a database connection pool")
to_rowdy invalid_unicode_in_path =
    Error.auth (AuthError.generic_error "Path contains invalid unicode characters")
to_rowdy authentication_failure = Error.auth AuthError.authentication_failure

pub record User : Type 0 where
  pub username : String
  pub hash : List ℕ
  pub salt : List ℕ

abbrev pub Connection : Type 0
Connection = ℕ

-- The pool and the database of an authenticator: `load` is the query for the rows of a name.
-- The JSON forms of a user are serde's.
pub record Database : Type 0 where
  pub pool_get : Result ForeignError Connection
  pub load : Connection → String → Result ForeignError (List User)
  pub batch_execute : Connection → String → Result ForeignError (Unit {0})
  pub user_to_value : User → Result ForeignError JsonValue
  pub user_from_value : JsonValue → Result ForeignError User

-- The client library of a backend: a test connection, and a pool of connections.
pub record Backend : Type 0 where
  pub establish : String → Result ForeignError Connection
  pub pool_new : String → Result ForeignError Database

-- The decimal text of a port; five digits are enough for 16 bits.
decimal_in : ℕ → ℕ → String
decimal_in zero n = ""
decimal_in (suc f) n =
    let rest = decimal_in f (n / 10) in
    let last = String.◌∷◌ (nibble (n % 10)) "" in if ltb n 10 then last else String.◌++◌ rest last

unfoldable pub decimal : ℕ → String
unfolding decimal_in
decimal n = decimal_in 5 n

module _ (c : Crypto) (db : Database) where
  unfoldable pub get_pooled_connection : Result DieselError Connection
  unfolding from_r2d2
  get_pooled_connection = map_err from_r2d2 db.pool_get

  unfoldable pub search : Connection → String → Result DieselError (List User)
  search connection search_user = map_err diesel_error (db.load connection search_user)

  unfoldable pub hash_password : String → List ℕ → Partial DieselError String
  hash_password password salt = do
    digest ← hash_password_digest c password salt
    ok (hex_dump digest)

  serialize_refresh_token_payload : User → Result DieselError JsonValue
  serialize_refresh_token_payload user = do
    value ← map_err (λ _. authentication_failure) (db.user_to_value user)
    ok (object (json_insert "user" value end))

  deserialize_refresh_token_payload : JsonValue → Result DieselError User
  deserialize_refresh_token_payload (object map) = do
    user ← ok_or authentication_failure (json_get "user" map)
    map_err (λ _. authentication_failure) (db.user_from_value user)
  deserialize_refresh_token_payload _ = err authentication_failure

  payload_if : Bool → User → Result DieselError (Option JsonValue)
  unfolding serialize_refresh_token_payload
  payload_if true user = do value ← serialize_refresh_token_payload user; ok (some value)
  payload_if false user = ok none

  unfoldable pub build_authentication_result : User → Bool → Result DieselError AuthenticationResult
  unfolding payload_if
  build_authentication_result user include_refresh_payload = do
    refresh_payload ← payload_if include_refresh_payload user
    ok (record {
      subject = user.username;
      private_claims = object end;
      refresh_payload = refresh_payload;
    })

  -- `user.len() != 1` is a failure.
  the_one : List User → Result DieselError User
  the_one (user ∷ []) = ok user
  the_one _ = err authentication_failure

  find_user : String → Result DieselError User
  unfolding the_one search get_pooled_connection
  find_user username = do
    connection ← get_pooled_connection
    users ← map_err (λ _. authentication_failure) (search connection username)
    the_one users

  check_password : User → String → Bool → Partial DieselError AuthenticationResult
  check_password user password include_refresh_payload = do
    actual_password_digest ← hash_password_digest c password user.salt
    if not (is_ok (c.verify_slices_are_equal actual_password_digest user.hash))
        then lift (err authentication_failure)
        else lift (build_authentication_result user include_refresh_payload)

  -- `assert_eq!(username, user.username)` panics where the names differ.
  unfoldable pub verify : String → String → Bool → Partial DieselError AuthenticationResult
  unfolding find_user check_password
  verify username password include_refresh_payload = do
    user ← lift (find_user username)
    if not (username == user.username)
        then err panic
        else check_password user password include_refresh_payload

  unfoldable pub authenticate : Basic → Bool → Partial Error AuthenticationResult
  authenticate authorization include_refresh_payload = within to_rowdy (
      verify (Header.username authorization) (unwrap_or (Header.password authorization) "")
        include_refresh_payload)

  unfoldable pub authenticate_refresh_token : JsonValue → Partial Error AuthenticationResult
  unfolding deserialize_refresh_token_payload
  authenticate_refresh_token refresh_payload = do
    user ← lift (map_err to_rowdy (deserialize_refresh_token_payload refresh_payload))
    lift (map_err to_rowdy (build_authentication_result user false))

  abbrev pub diesel : Authenticator Basic
  diesel = record {
    authenticate = authenticate;
    authenticate_refresh_token = authenticate_refresh_token;
  }

  -- `Migration::migrate`, with the query of the backend.
  unfoldable pub migrate : String → Result DieselError (Unit {0})
  unfolding get_pooled_connection
  migrate query = do
    connection ← get_pooled_connection
    map_err diesel_error (db.batch_execute connection query)
