-- ===== src/Auth/Simple.antt =====
-- src/auth/simple.rs: the authenticator over a user database in a CSV file.
pub mod Laws
pub mod Csv
pub mod Made
use Prim.Native.String
use rowdy.Prelude.{
  ℕ, suc, ◌%◌, String, Bool, true, false, not, Option, none, some, Result, ok, err, ◌>>=◌, map_err,
  ok_or, Partial, lift, is_ok, unwrap_or, if◌then◌else◌, List, [], ◌∷◌, ◌++◌, map, Dict, get,
  insert, collect, collect_into,
}
use rowdy.Crates.{
  JsonValue, JsonMap, string, object, null, boolean, number, array, end, as_str, json_get,
  json_insert, ForeignError,
}
use rowdy.Error.Auth.{authentication_failure}
use rowdy.Error.Top.{Error, auth, generic_error, io_error}
use rowdy.Auth.Header
use rowdy.Auth.Header.{Basic}
use rowdy.Auth.Authenticator.{Authenticator, AuthenticationResult}
use rowdy.Auth.Util.{Crypto, hash_password_digest, hex_dump, generate_salt}

abbrev pub failure : Error
failure = auth authentication_failure

-- The hash and the salt of each user.
abbrev pub Users : Type 0
Users = Dict (List ℕ × List ℕ)

infixr 65 ◌+s◌
abbrev pub ◌+s◌ : String → String → String
s +s t = String.◌++◌ s t

-- `[String]::join`.
unfoldable pub join : String → List String → String
join sep [] = ""
join sep (s ∷ []) = s
join sep (s ∷ t ∷ r) = s +s sep +s join sep (t ∷ r)

-- `partition(Result::is_ok)`, with the values taken out on either side.
unfoldable pub partition {ℓ κ} : {E : Type ℓ} {A : Type κ} → List (Result E A) → List A × List E
partition [] = ([], [])
partition (ok a ∷ rs) = let (values, errors) = partition rs in (a ∷ values, errors)
partition (err e ∷ rs) = let (values, errors) = partition rs in (values, e ∷ errors)

-- All the values, or the texts of all the errors joined.
unfoldable pub all_or_joined {ℓ} : {A : Type ℓ} → List A × List String → Result Error (List A)
all_or_joined (values, []) = ok values
all_or_joined (values, e ∷ errors) = err (generic_error (join "; " (e ∷ errors)))

abbrev pub CsvRecord : Type 0
CsvRecord = String × String × String

module _ (c : Crypto) where
  -- One record of the file, its hash and salt read from hexadecimal.
  unfoldable pub decode_record : CsvRecord → Result String (String × (List ℕ × List ℕ))
  decode_record (username, hash, salt) = do
    hash' ← c.from_hex hash
    salt' ← c.from_hex salt
    ok (username, (hash', salt'))

  -- The argument is what the CSV reader gives for each record.
  unfoldable pub users_from_csv : List (Result ForeignError CsvRecord) → Result Error Users
  unfolding partition all_or_joined decode_record
  users_from_csv csv = do
    records ← all_or_joined (partition (map (map_err (λ e. e.display)) csv))
    users ← all_or_joined (partition (map decode_record records))
    ok (collect users)

  unfoldable pub new : List (Result ForeignError CsvRecord) → Result Error Users
  unfolding users_from_csv
  new csv = users_from_csv csv

  unfoldable pub hash_password : String → List ℕ → Partial Error String
  hash_password password salt = do
    digest ← hash_password_digest c password salt
    ok (hex_dump digest)

  module _ (users : Users) where
    payload_for : String → String → JsonValue
    payload_for username password =
        object (json_insert "password" (string password) (json_insert "user" (string username) end))

    unfoldable pub check :
        String → String → Bool → Option (List ℕ × List ℕ) → Partial Error AuthenticationResult
    unfolding payload_for
    check username password include_refresh_payload none = lift (err failure)
    check username password include_refresh_payload (some (hash, salt)) = do
      actual_password_digest ← hash_password_digest c password salt
      if not (is_ok (c.verify_slices_are_equal actual_password_digest hash))
          then lift (err failure)
          else ok (record {
            subject = username;
            private_claims = object end;
            refresh_payload =
                if include_refresh_payload then some (payload_for username password) else none;
          })

    unfoldable pub verify : String → String → Bool → Partial Error AuthenticationResult
    unfolding check
    verify username password include_refresh_payload =
        check username password include_refresh_payload (get username users)

    unfoldable pub authenticate : Basic → Bool → Partial Error AuthenticationResult
    authenticate authorization include_refresh_payload =
        verify (Header.username authorization) (unwrap_or (Header.password authorization) "")
          include_refresh_payload

    unfoldable pub authenticate_refresh_token : JsonValue → Partial Error AuthenticationResult
    authenticate_refresh_token (object map) = do
      user_value ← lift (ok_or failure (json_get "user" map))
      user ← lift (ok_or failure (as_str user_value))
      password_value ← lift (ok_or failure (json_get "password" map))
      password ← lift (ok_or failure (as_str password_value))
      verify user password false
    authenticate_refresh_token _ = lift (err failure)

    abbrev pub simple : Authenticator Basic
    simple = record {
      authenticate = authenticate;
      authenticate_refresh_token = authenticate_refresh_token;
    }

  -- The salts are draws from the given number on; a failure stops the loop.
  unfoldable pub hash_passwords_into : ℕ → ℕ → Users → List (String × String) → Partial Error Users
  hash_passwords_into draw salt_len hashed [] = ok hashed
  hash_passwords_into draw salt_len hashed ((user, password) ∷ users) = do
    salt ← lift (map_err (λ _. generic_error "Unspecified error") (generate_salt c draw salt_len))
    hash ← hash_password_digest c password salt
    hash_passwords_into (suc draw) salt_len (insert user (hash, salt) hashed) users

  unfoldable pub hash_passwords : Dict String → ℕ → Partial Error Users
  unfolding hash_passwords_into
  hash_passwords users salt_len = hash_passwords_into 0 salt_len [] users

-- `SimpleAuthenticatorConfiguration`; the delimiter is a code point.
pub record SimpleAuthenticatorConfiguration : Type 0 where
  pub csv_path : String
  pub has_headers : Bool
  pub delimiter : ℕ

abbrev pub default_delimiter : ℕ
default_delimiter = b','

-- The CSV reader of a path, with its header flag and delimiter byte, is a parameter.
module _ (c : Crypto)
    (from_path : String
      → Bool
      → ℕ
      → Result ForeignError (List (Result ForeignError CsvRecord))) where
  unfoldable pub with_csv_file : String → Bool → ℕ → Result Error Users
  with_csv_file path has_headers delimiter = do
    reader ← map_err (λ e. generic_error e.display) (from_path path has_headers delimiter)
    new c reader

  -- `self.delimiter as u8` keeps the low byte.
  unfoldable pub make_authenticator :
      SimpleAuthenticatorConfiguration → Result Error (Authenticator Basic)
  unfolding with_csv_file
  make_authenticator config = do
    users ← with_csv_file config.csv_path config.has_headers (config.delimiter % 256)
    ok (simple c users)

-- `writer.write_all` either takes the text or fails; the writer's state is what it has taken.
module _ (write_all : String → String → Result ForeignError String) where
  unfoldable pub write_csv : Users → String → Result Error String
  write_csv [] written = ok written
  write_csv ((username, (hash, salt)) ∷ users) written = do
    written' ←
        map_err io_error
          (write_all written (join "," (username ∷ hex_dump hash ∷ hex_dump salt ∷ [])))
    written'' ← map_err io_error (write_all written' "\n")
    write_csv users written''
