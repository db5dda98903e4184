-- ===== src/Conformance/Simple.antt =====
-- The tests of src/auth/simple.rs that authenticate users. The CSV file, its reader and argon2 are
-- parameters.
mod Laws
use rowdy.Prelude.{
  ℕ, ◌<◌, String, Bool, true, false, not, some, Result, ok, err, List, [], ◌∷◌, ◌>>=◌, ◌>>◌, map,
  map_err, collect, is_some, All, lift, get, insert, ◌≡◌, refl, ap, ◌==◌,
}
use rowdy.Prelude.Sort.{sort}
use rowdy.Crates.{ForeignError}
use rowdy.Error.Top.{Error}
use rowdy.Auth.Authenticator.{Authenticator, AuthenticationResult}
use rowdy.Auth.Util.{Crypto, hash_password_digest, generate_salt, hex_dump}
use rowdy.Auth.Util.Hex.{ReadsHex}
use rowdy.Auth.Simple.{
  Users, CsvRecord, with_csv_file, verify, authenticate_refresh_token, hash_passwords, write_csv,
  new, ◌+s◌, simple,
}
use rowdy.Auth.Simple.Laws.{Compares, Matches, granted, verify_iff, simple-IsWellBehaved}
use rowdy.Auth.Simple.Csv.{csv_record, read_records, HasBytes, users_from_csv-csv_record}
use rowdy.Token.Config.{into_bytes}
use rowdy.Conformance.Harness.{Test, unwrap_error, assert, assert_eq, assert_eq-yes, texts_discrete}
use rowdy.Conformance.Creation.{unwrap_some}

abbrev pub secret_word : String
secret_word = "冻住，不许走!"

test_hex_dump : Test (Unit {0})
test_hex_dump = assert (hex_dump (into_bytes "foobar") == "666f6f626172")

module _ (c : Crypto) where
  -- What two of the tests expect of an authenticator.
  accepts_both : Users → Test (Unit {0})
  unfolding sort
  accepts_both users = do
    assert_eq (texts_discrete (sort (map (λ u. u.0) users)) ("foobar" ∷ "mei" ∷ []))
    _ ← unwrap_error (verify c users "foobar" "password" false)
    result ← unwrap_error (verify c users "mei" secret_word false)
    assert (not (is_some result.refresh_payload))

  module _
      (from_path : String
        → Bool
        → ℕ
        → Result ForeignError (List (Result ForeignError CsvRecord))) where
    make_authenticator : Test Users
    make_authenticator =
        unwrap_error (lift (with_csv_file c from_path "test/fixtures/users.csv" false b','))

    authentication_with_username_and_password : Test (Unit {0})
    unfolding make_authenticator accepts_both
    authentication_with_username_and_password = do users ← make_authenticator; accepts_both users

    authentication_with_refresh_payload : Test (Unit {0})
    unfolding make_authenticator
    authentication_with_refresh_payload = do
      users ← make_authenticator
      result ← unwrap_error (verify c users "foobar" "password" true)
      assert (is_some result.refresh_payload)
      payload ← unwrap_some result.refresh_payload
      result' ← unwrap_error (authenticate_refresh_token c users payload)
      assert (not (is_some result'.refresh_payload))

  -- The cursor takes every text, and the reader gives the records of what it has taken.
  module _ (from_reader : String → List (Result ForeignError CsvRecord)) where
    csv_generation_round_trip : Test (Unit {0})
    unfolding accepts_both
    csv_generation_round_trip = do
      users ←
          unwrap_error
            (hash_passwords c (collect (("foobar", "password") ∷ ("mei", secret_word) ∷ [])) 32)
      written ← unwrap_error (lift (write_csv (λ w t. ok (w +s t)) users ""))
      authenticator ← unwrap_error (lift (new c (from_reader written)))
      accepts_both authenticator
