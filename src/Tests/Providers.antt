-- ===== src/Tests/Providers.antt =====
-- The theorems of the identity providers, at small crates.
use rowdy.Auth.Simple.{Users}
use rowdy.Auth.Simple.Made.{HasDistinctKeys, verify-hash_passwords}
use rowdy.Auth.Util.{generate_salt}
use rowdy.Prelude.{Dict, insert}
use rowdy.Prelude.{
  String, true, false, some, none, ok, err, ◌≡◌, ◌≢◌, ◌↔◌, ◌⊎◌, refl, arith, [], ◌∷◌, get, panic,
}
use rowdy.Crates.{
  JsonValue, JsonMap, array, object, string, entry, end, null, json_insert, json_collect,
}
use rowdy.Auth.Header
use rowdy.Auth.Header.{Scheme, Basic}
use rowdy.Auth.Authenticator.{
  AuthenticationResult, prepare_authentication_response, prepare_refresh_response,
  prepare_authentication_response_iff,
}
use rowdy.Auth.Util.{hash_password_digest, hex_dump}
use rowdy.Auth.Util.Hex.{IsHexOf, hex_dump-IsHexOf}
use rowdy.Prelude.{inl}
use rowdy.Token.Config.{into_bytes}
use rowdy.Auth.Simple
use rowdy.Auth.Simple.{simple}
use rowdy.Auth.Simple.Laws.{verify_iff, simple-renews, Matches, granted}
use rowdy.Auth.Ldap
use rowdy.Auth.Ldap.Laws as LdapLaws
use rowdy.Auth.Ldap.Laws.{ldap-renews}
use rowdy.Diesel
use rowdy.Diesel.{diesel}
use rowdy.Diesel.Laws as DieselLaws
use rowdy.Diesel.Laws.{verify-IsRow_iff, verify_panics_iff, diesel-renews}
use rowdy.Tests.Sample.{anyone, alice, user}
use rowdy.Tests.Directory.{
  crypto, crypto-Compares, compare_same, users, salt_of_bob, bob, directory, directory-ReadsUsers,
  ldap_settings, items, table, table-ReadsUsers, row_of_bob, write_user_of_bob, write_row_of_bob,
}

prepare_authentication_response_iff_example :
    (prepare_authentication_response anyone user true ≡ ok (alice true)) ↔ (
      (anyone.authenticate user true ≡ ok (alice true))
      × ((true ≡ true) ⊎ ((alice true).refresh_payload ≡ none)))
prepare_authentication_response_iff_example =
    prepare_authentication_response_iff anyone user true (alice true)

verify_iff_example :
    (Simple.verify crypto users "bob" "pw" true ≡ ok (granted "bob" "pw" true))
    ↔ (Matches crypto "pw" (get "bob" users) × (granted "bob" "pw" true ≡ granted "bob" "pw" true))
verify_iff_example =
    verify_iff crypto crypto-Compares users "bob" "pw" true (granted "bob" "pw" true)

bob-Matches : Matches crypto "pw" (get "bob" users)
unfolding get hash_password_digest into_bytes
bob-Matches = (112 ∷ 119 ∷ salt_of_bob, salt_of_bob, refl, refl)

simple_prepared :
    prepare_authentication_response (simple crypto users) bob true ≡ ok (granted "bob" "pw" true)
unfolding prepare_authentication_response Simple.authenticate Header.username Header.password
simple_prepared = rw (
    (verify_iff crypto crypto-Compares users "bob" "pw" true (granted "bob" "pw" true)).1
      (bob-Matches, refl))

abbrev simple_payload : JsonValue
simple_payload = object (entry "user" (string "bob") (entry "password" (string "pw") end))

simple-renews_example :
    prepare_refresh_response (simple crypto users) simple_payload ≡ ok (granted "bob" "pw" false)
simple-renews_example =
    simple-renews crypto crypto-Compares users bob true (granted "bob" "pw" true) simple_payload
      simple_prepared refl

abbrev pub ldap_payload : JsonValue
ldap_payload = object (entry "user" null end)

abbrev pub mail_claim : JsonMap
mail_claim = entry "mail" (array (items ("bob@example" ∷ []))) end

abbrev pub ldap_result : AuthenticationResult
ldap_result = record {
  subject = "bob@example";
  private_claims = object (entry "ldap" (object mail_claim) end);
  refresh_payload = some ldap_payload;
}

pub ldap_verified : Ldap.verify directory ldap_settings "bob" "pw" true ≡ ok ldap_result
unfolding Ldap.verify get json_insert json_collect Ldap.user_from Simple.all_or_joined
    Simple.partition
ldap_verified = rw write_user_of_bob

ldap_prepared :
    prepare_authentication_response (Ldap.ldap directory ldap_settings) bob true ≡ ok ldap_result
unfolding prepare_authentication_response Ldap.authenticate Header.username Header.password
ldap_prepared = rw ldap_verified

ldap-renews_example :
    prepare_refresh_response (Ldap.ldap directory ldap_settings) ldap_payload
    ≡ ok (record ldap_result { refresh_payload = none })
ldap-renews_example =
    ldap-renews directory ldap_settings directory-ReadsUsers bob true ldap_result ldap_payload
      ldap_prepared refl

abbrev pub row_result : AuthenticationResult
row_result = record {
  subject = "bob";
  private_claims = object end;
  refresh_payload = some ldap_payload;
}

row_verified : Diesel.verify crypto table "bob" "pw" true ≡ ok row_result
unfolding Diesel.verify hash_password_digest into_bytes json_insert
    Diesel.build_authentication_result
row_verified = rw (compare_same (112 ∷ 119 ∷ salt_of_bob)) (rw write_row_of_bob)

verify-IsRow_iff_example : (Diesel.verify crypto table "bob" "pw" true ≡ ok row_result) ↔ (
    (u : Diesel.User) × DieselLaws.IsRow crypto table "bob" u
    × (◌≡◌ {A = String} "bob" u.username)
    × (crypto.argon2i (into_bytes "pw") u.salt ≡ some u.hash)
    × (Diesel.build_authentication_result crypto table u true ≡ ok row_result))
verify-IsRow_iff_example = verify-IsRow_iff crypto table crypto-Compares "bob" "pw" true row_result

bob-IsRow : DieselLaws.IsRow crypto table "Bob" row_of_bob
unfolding Diesel.get_pooled_connection Diesel.search
bob-IsRow = record { connection = 3; connected = refl; found = refl }

case_differs : ◌≢◌ {A = String} "Bob" "bob"
case_differs h = cc

verify_panics_iff_example : (Diesel.verify crypto table "Bob" "pw" true ≡ err panic) ↔ (
    (u : Diesel.User) × DieselLaws.IsRow crypto table "Bob" u
    × (("Bob" ≢ u.username) ⊎ (crypto.argon2i (into_bytes "pw") u.salt ≡ none)))
verify_panics_iff_example = verify_panics_iff crypto table "Bob" "pw" true

bob_panics : Diesel.verify crypto table "Bob" "pw" true ≡ err panic
bob_panics =
    (verify_panics_iff crypto table "Bob" "pw" true).1 (row_of_bob, bob-IsRow, inl case_differs)

pub diesel_prepared : prepare_authentication_response (diesel crypto table) bob true ≡ ok row_result
unfolding prepare_authentication_response Diesel.authenticate Header.username Header.password
diesel_prepared = rw row_verified

diesel-renews_example :
    prepare_refresh_response (diesel crypto table) ldap_payload
    ≡ ok (record row_result { refresh_payload = none })
diesel-renews_example =
    diesel-renews crypto table crypto-Compares table-ReadsUsers bob true row_result ldap_payload
      diesel_prepared refl

hex_dump-IsHexOf_example : IsHexOf (hex_dump (0 ∷ 171 ∷ [])) (0 ∷ 171 ∷ [])
hex_dump-IsHexOf_example = hex_dump-IsHexOf (0 ∷ 171 ∷ []) (omega arith, (omega arith, tt))

abbrev passwords : Dict String
passwords = ("ann", "one") ∷ ("bob", "pw") ∷ []

passwords-HasDistinctKeys : HasDistinctKeys passwords
unfolding get
passwords-HasDistinctKeys = (refl, (refl, tt))

bob_found : get "bob" passwords ≡ some "pw"
unfolding get
bob_found = refl

abbrev hashed_passwords : Users
hashed_passwords =
    ("ann", (111 ∷ 110 ∷ 101 ∷ salt_of_bob, salt_of_bob))
    ∷ ("bob", (112 ∷ 119 ∷ salt_of_bob, salt_of_bob))
    ∷ []

passwords_hashed : Simple.hash_passwords crypto passwords 8 ≡ ok hashed_passwords
unfolding Simple.hash_passwords generate_salt insert hash_password_digest into_bytes
passwords_hashed = refl

verify-hash_passwords_example :
    Simple.verify crypto hashed_passwords "bob" "pw" true ≡ ok (granted "bob" "pw" true)
verify-hash_passwords_example =
    verify-hash_passwords crypto 8 crypto-Compares passwords hashed_passwords "bob" "pw" true
      passwords-HasDistinctKeys bob_found passwords_hashed
