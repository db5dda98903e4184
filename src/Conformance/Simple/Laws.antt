-- ===== src/Conformance/Simple/Laws.antt =====
-- How the tests of src/auth/simple.rs end.
use rowdy.Prelude.{
  ℕ, ◌<◌, String, Bool, true, false, some, Result, ok, List, [], ◌∷◌, map, collect, All, get,
  insert, ◌≡◌, refl,
}
use rowdy.Prelude.Sort.{sort, leb_text}
use rowdy.Prelude.Sort
use rowdy.Crates.{json_get, as_str}
use rowdy.Auth.Simple.{join, hash_passwords_into}
use rowdy.Crates.{ForeignError}
use rowdy.Auth.Util.{Crypto, hash_password_digest, generate_salt, hex_dump}
use rowdy.Auth.Util.Hex.{ReadsHex}
use rowdy.Auth.Simple.{
  Users, CsvRecord, with_csv_file, verify, authenticate_refresh_token, hash_passwords, write_csv,
  new, ◌+s◌,
}
use rowdy.Auth.Simple.Laws.{Compares, Matches, granted, verify_iff}
use rowdy.Auth.Simple.Csv.{csv_record, read_records, HasBytes, users_from_csv-csv_record}
use rowdy.Auth.Simple.{users_from_csv, partition, all_or_joined, decode_record}
use rowdy.Prelude.{collect_into}
use rowdy.Token.Config.{into_bytes}
use rowdy.Conformance.Harness.{assert_eq-yes}
use rowdy.Conformance.Simple.{
  secret_word, test_hex_dump, accepts_both, make_authenticator,
  authentication_with_username_and_password, authentication_with_refresh_payload,
  csv_generation_round_trip,
}

test_hex_dump-passes : test_hex_dump ≡ ok tt
unfolding test_hex_dump hex_dump into_bytes
test_hex_dump-passes = refl

module _ (c : Crypto) (compares : Compares c) where
  module _ (users : Users) where
    -- Whoever has a hash of the password is let in.
    verify-Matches :
        (name password : String) (refresh : Bool)
        → Matches c password (get name users)
        → verify c users name password refresh ≡ ok (granted name password refresh)
    verify-Matches name password refresh m =
        (verify_iff c compares users name password refresh (granted name password refresh)).1
          (m, refl)

    -- Two users with these names and passwords are accepted.
    accepts_both-passes :
        sort (map (λ u. u.0) users) ≡ "foobar" ∷ "mei" ∷ []
        → Matches c "password" (get "foobar" users)
        → Matches c secret_word (get "mei" users)
        → accepts_both c users ≡ ok tt
    unfolding accepts_both
    accepts_both-passes keys foobar mei = simp (
      assert_eq-yes _ keys,
      verify-Matches "foobar" "password" false foobar,
      verify-Matches "mei" secret_word false mei,
    )

  -- The file has a record for each of the two users, in hexadecimal.
  record HasUsersFile
      (from_path : String → Bool → ℕ → Result ForeignError (List (Result ForeignError CsvRecord)))
      : Type 0 where
    mei_hash : String
    mei_salt : String
    foobar_hash : String
    foobar_salt : String
    file :
        from_path "test/fixtures/users.csv" false b','
        ≡ ok (ok ("mei", mei_hash, mei_salt) ∷ ok ("foobar", foobar_hash, foobar_salt) ∷ [])
    mei_salt_bytes : List ℕ
    foobar_salt_bytes : List ℕ
    mei_salted : c.from_hex mei_salt ≡ ok mei_salt_bytes
    foobar_salted : c.from_hex foobar_salt ≡ ok foobar_salt_bytes
    mei_hash_bytes : List ℕ
    foobar_hash_bytes : List ℕ
    mei_hashed : c.from_hex mei_hash ≡ ok mei_hash_bytes
    foobar_hashed : c.from_hex foobar_hash ≡ ok foobar_hash_bytes
    mei_digest : c.argon2i (into_bytes secret_word) mei_salt_bytes ≡ some mei_hash_bytes
    foobar_digest : c.argon2i (into_bytes "password") foobar_salt_bytes ≡ some foobar_hash_bytes

  module _
      (from_path : String → Bool → ℕ → Result ForeignError (List (Result ForeignError CsvRecord)))
      (f : HasUsersFile from_path) where
    abbrev stored : Users
    stored =
        ("mei", (f.mei_hash_bytes, f.mei_salt_bytes))
        ∷ ("foobar", (f.foobar_hash_bytes, f.foobar_salt_bytes))
        ∷ []

    make_authenticator-stored : make_authenticator c from_path ≡ ok stored
    unfolding make_authenticator with_csv_file new users_from_csv partition all_or_joined
        decode_record collect_into insert
    make_authenticator-stored =
        simp (f.file, f.mei_salted, f.foobar_salted, f.mei_hashed, f.foobar_hashed)

    stored_mei : Matches c secret_word (get "mei" stored)
    unfolding get
    stored_mei = (_, _, refl, f.mei_digest)

    stored_foobar : Matches c "password" (get "foobar" stored)
    unfolding get
    stored_foobar = (_, _, refl, f.foobar_digest)

    authentication_with_username_and_password-passes :
        authentication_with_username_and_password c from_path ≡ ok tt
    unfolding authentication_with_username_and_password sort Sort.insert leb_text
    authentication_with_username_and_password-passes =
        simp (make_authenticator-stored, accepts_both-passes stored refl stored_foobar stored_mei)

    authentication_with_refresh_payload-passes :
        authentication_with_refresh_payload c from_path ≡ ok tt
    unfolding authentication_with_refresh_payload authenticate_refresh_token json_get as_str
    authentication_with_refresh_payload-passes = simp (
      make_authenticator-stored,
      verify-Matches stored "foobar" "password" true stored_foobar,
      verify-Matches stored "foobar" "password" false stored_foobar,
    )

  -- The lines of two users with these hashes and salts.
  abbrev two_lines : String → String → String → String → String
  two_lines h s h' s' =
      ((("" +s join "," ("foobar" ∷ h ∷ s ∷ [])) +s "\n") +s join "," ("mei" ∷ h' ∷ s' ∷ []))
      +s "\n"

  -- Salts of bytes are drawn, argon2 has digests of bytes with them, hexadecimal is read back, and the reader gives
  -- the records that were written for two users.
  record WritesBack (from_reader : String → List (Result ForeignError CsvRecord)) : Type 0 where
    salt : ℕ → List ℕ
    salted : (draw : ℕ) → c.fill draw 32 ≡ some (salt draw)
    salt_bytes : (draw : ℕ) → All (λ b. b < 256) (salt draw)
    foobar_hash : List ℕ
    mei_hash : List ℕ
    foobar_digest : c.argon2i (into_bytes "password") (salt 0) ≡ some foobar_hash
    mei_digest : c.argon2i (into_bytes secret_word) (salt 1) ≡ some mei_hash
    foobar_bytes : All (λ b. b < 256) foobar_hash
    mei_bytes : All (λ b. b < 256) mei_hash
    hex : ReadsHex c
    reads :
        (h s h' s' : List ℕ)
        → from_reader (two_lines (hex_dump h) (hex_dump s) (hex_dump h') (hex_dump s'))
          ≡ read_records (map csv_record (("foobar", (h, s)) ∷ ("mei", (h', s')) ∷ []))

  module _ (from_reader : String → List (Result ForeignError CsvRecord))
      (w : WritesBack from_reader) where
    abbrev hashed : Users
    hashed = ("foobar", (w.foobar_hash, w.salt 0)) ∷ ("mei", (w.mei_hash, w.salt 1)) ∷ []

    hash_passwords-hashed :
        hash_passwords c (collect (("foobar", "password") ∷ ("mei", secret_word) ∷ [])) 32
        ≡ ok hashed
    unfolding hash_passwords hash_passwords_into generate_salt collect_into insert
        hash_password_digest
    hash_passwords-hashed = simp (w.salted, w.foobar_digest, w.mei_digest)

    write_csv-hashed :
        write_csv (λ w t. ok (w +s t)) hashed ""
        ≡ ok (
            two_lines
              (hex_dump w.foobar_hash)
              (hex_dump (w.salt 0))
              (hex_dump w.mei_hash)
              (hex_dump (w.salt 1)))
    unfolding write_csv
    write_csv-hashed = refl

    hashed-HasBytes : All HasBytes hashed
    hashed-HasBytes = ((w.foobar_bytes, w.salt_bytes 0), ((w.mei_bytes, w.salt_bytes 1), tt))

    csv_generation_round_trip-passes : csv_generation_round_trip c from_reader ≡ ok tt
    unfolding csv_generation_round_trip new collect_into insert get leb_text
    csv_generation_round_trip-passes = simp (
      hash_passwords-hashed,
      write_csv-hashed,
      w.reads,
      users_from_csv-csv_record c w.hex hashed hashed-HasBytes,
      accepts_both-passes hashed refl (_, _, refl, w.foobar_digest) (_, _, refl, w.mei_digest),
    )
