-- ===== src/Diesel/Laws.antt =====
-- What the database authenticator promises, and where it panics.
use rowdy.Token.Config.{into_bytes}
use rowdy.Prelude.{
  Partial, unwrap, unwrap-eq-ok, Bool-cases, Option-cases, ◌⊎◌, is_ok, ℕ, refl, String, Bool, true,
  false, not, Option, none, some, ok, err, lift, panic, map_err, List, [], ◌∷◌, ◌≡◌, ◌≢◌, arith,
  >>=-eq-ok, map_err-eq-ok, unwrap_or, ◌∙◌, ap, eq_iff, ◌==◌, if◌then◌else◌, Result-cases, inl, inr,
  ◌↔◌,
}
use rowdy.Crates.{JsonValue, object, entry, end, json_get, json_insert}
use rowdy.Auth.Header
use rowdy.Auth.Header.{Basic}
use rowdy.Auth.Header.{Basic}
use rowdy.Auth.Authenticator.{
  AuthenticationResult, IsWellBehaved, prepare_authentication_response, prepare_refresh_response,
  prepare_refresh_response-renews,
}
use rowdy.Auth.Util.{Crypto, hash_password_digest}
use rowdy.Auth.Simple.Laws.{Compares}
use rowdy.Diesel.{
  Database, DieselError, User, Connection, authentication_failure, get_pooled_connection, search,
  verify, find_user, the_one, check_password, build_authentication_result, payload_if,
  serialize_refresh_token_payload, deserialize_refresh_token_payload, authenticate,
  authenticate_refresh_token, diesel, to_rowdy,
}

pub record ReadsUsers (db : Database) : Type 0 where
  pub reads : (u : User) (v : JsonValue) → db.user_to_value u ≡ ok v → db.user_from_value v ≡ ok u

module _ (c : Crypto) (db : Database) where
  -- The database has exactly one row for the name.
  pub record IsRow (username : String) (u : User) : Type 0 where
    pub connection : Connection
    pub connected : get_pooled_connection c db ≡ ok connection
    pub found : search c db connection username ≡ ok (u ∷ [])

  the_one-eq-ok : (us : List User) (u : User) → the_one c db us ≡ ok u → us ≡ u ∷ []
  unfolding the_one
  the_one-eq-ok [] u h = absurd (ground arith)
  the_one-eq-ok (x ∷ []) u h = ground arith
  the_one-eq-ok (x ∷ y ∷ r) u h = absurd (ground arith)

  find_user-IsRow :
      (username : String) (u : User) → find_user c db username ≡ ok u → IsRow username u
  unfolding find_user
  find_user-IsRow username u h =
      let (k, connected, h1) = >>=-eq-ok (get_pooled_connection c db) _ h in
      let (us, found, one) =
        >>=-eq-ok (map_err (λ _. authentication_failure) (search c db k username)) _ h1 in
      record {
        connection = k;
        connected = connected;
        found = map_err-eq-ok _ _ found ∙ ap ok (the_one-eq-ok us u one);
      }

  find_of_row : (username : String) (u : User) → IsRow username u → find_user c db username ≡ ok u
  unfolding find_user the_one
  find_of_row username u row = rw row.connected (rw row.found)

  -- A row whose name is not the name that was asked for, as a case-insensitive collation gives,
  -- makes `verify` panic, whatever the password.
  verify_panics :
      (username password : String) (refresh : Bool) (u : User)
      → IsRow username u
      → username ≢ u.username
      → verify c db username password refresh ≡ err panic
  unfolding verify
  verify_panics username password refresh u row differs =
      rw (find_of_row username u row) (ground (arith, eq_iff username u.username))

  -- So does one with a salt that argon2 refuses.
  verify_refused :
      (username password : String) (refresh : Bool) (u : User)
      → IsRow username u
      → c.argon2i (into_bytes password) u.salt ≡ none
      → verify c db username password refresh ≡ err panic
  unfolding verify check_password hash_password_digest
  verify_refused username password refresh u row refused =
      rw (find_of_row username u row) (rw refused (ground arith))

  checked_calm :
      (u : User) (digest : List ℕ) (refresh : Bool)
      → (if not (is_ok (c.verify_slices_are_equal digest u.hash))
          then lift (err authentication_failure)
          else lift (build_authentication_result c db u refresh))
        ≢ err panic
  checked_calm u digest refresh h =
      elim (Result-cases (build_authentication_result c db u refresh)) [
        | inl (r, e) ↦ ground arith
        | inr (x, e) ↦ ground arith
      ]

  panics_at :
      (username : String) (u : User) (m : Partial DieselError AuthenticationResult)
      → (if not (username == u.username) then err panic else m) ≡ err panic
      → (username ≢ u.username) ⊎ (m ≡ err panic)
  panics_at username u m h = elim (Bool-cases (username == u.username)) [
    | inl same ↦ inr (ground arith)
    | inr differs ↦ inl (λ e. ground (arith, eq_iff username u.username))
  ]

  check_password_panics :
      (u : User) (password : String) (refresh : Bool)
      → check_password c db u password refresh ≡ err panic
      → c.argon2i (into_bytes password) u.salt ≡ none
  unfolding check_password hash_password_digest
  check_password_panics u password refresh h =
      elim (Option-cases (c.argon2i (into_bytes password) u.salt)) [
        | inl refused ↦ refused
        | inr (digest, hashed) ↦ absurd (checked_calm u digest refresh (rw hashed at h))
      ]

  -- The authenticator panics exactly where the one row for the name has not that very name, as a
  -- case-insensitive collation gives, whatever the password, or where argon2 panics on the
  -- password and the salt of the row.
  pub verify_panics_iff :
      (username password : String) (refresh : Bool)
      → (verify c db username password refresh ≡ err panic) ↔ (
          (u : User) × IsRow username u
          × ((username ≢ u.username) ⊎ (c.argon2i (into_bytes password) u.salt ≡ none)))
  unfolding verify
  verify_panics_iff username password refresh = (from, to)
    where
      from :
          verify c db username password refresh ≡ err panic
          → (u : User) × IsRow username u
            × ((username ≢ u.username) ⊎ (c.argon2i (into_bytes password) u.salt ≡ none))
      from h = elim (Result-cases (find_user c db username)) [
        | inl (u, found) ↦ (
          u,
          find_user-IsRow username u found,
          elim (panics_at username u (check_password c db u password refresh) (rw found at h)) [
            | inl differs ↦ inl differs
            | inr stopped ↦ inr (check_password_panics u password refresh stopped)
          ],
        )
        | inr (e, missing) ↦ absurd (ground arith)
      ]

      to :
          (u : User) × IsRow username u
            × ((username ≢ u.username) ⊎ (c.argon2i (into_bytes password) u.salt ≡ none))
          → verify c db username password refresh ≡ err panic
      to (u, row, inl differs) = verify_panics username password refresh u row differs
      to (u, row, inr refused) = verify_refused username password refresh u row refused

  named :
      (u : User) (username : String) (m : Partial DieselError AuthenticationResult)
      {r : AuthenticationResult}
      → (if not (username == u.username) then err panic else m) ≡ ok r
      → (username ≡ u.username) × (m ≡ ok r)
  named u username m h = ground (arith, eq_iff username u.username)

  accepted :
      (u : User) (digest : List ℕ) (refresh : Bool) (r : AuthenticationResult)
      → (if not (is_ok (c.verify_slices_are_equal digest u.hash))
          then lift (err authentication_failure)
          else lift (build_authentication_result c db u refresh))
        ≡ ok r
      → (is_ok (c.verify_slices_are_equal digest u.hash) ≡ true)
        × (lift (build_authentication_result c db u refresh) ≡ ok r)
  accepted u digest refresh r h = ground arith

  check_password-eq-ok :
      Compares c
      → (u : User) (password : String) (refresh : Bool) (r : AuthenticationResult)
      → check_password c db u password refresh ≡ ok r
      → (c.argon2i (into_bytes password) u.salt ≡ some u.hash)
        × (build_authentication_result c db u refresh ≡ ok r)
  unfolding check_password hash_password_digest
  check_password-eq-ok cmp u password refresh r h =
      let (digest, hashed, h1) = >>=-eq-ok (unwrap (c.argon2i (into_bytes password) u.salt)) _ h in
      let (same, built) = accepted u digest refresh r h1 in
      (
        unwrap-eq-ok _ hashed ∙ ap some ((cmp.equal_iff digest u.hash).0 same),
        map_err-eq-ok _ _ built,
      )

  pub verify-IsRow :
      Compares c
      → (username password : String) (refresh : Bool) (r : AuthenticationResult)
      → verify c db username password refresh ≡ ok r
      → (u : User) × IsRow username u
        × (username ≡ u.username)
        × (c.argon2i (into_bytes password) u.salt ≡ some u.hash)
        × (build_authentication_result c db u refresh ≡ ok r)
  unfolding verify
  verify-IsRow cmp username password refresh r h =
      let (u, found, h1) = >>=-eq-ok (lift (find_user c db username)) _ h in
      let (same, passed) = named u username _ h1 in
      let (hashed, built) = check_password-eq-ok cmp u password refresh r passed in
      (u, find_user-IsRow username u (map_err-eq-ok _ _ found), same, hashed, built)

  -- With a comparison that accepts equal bytes only, `verify` gives a result exactly if one row is
  -- found for the name, with the very name, its hash is the digest that argon2 has of the password with its salt,
  -- and the result is built from that row.
  pub verify-IsRow_iff :
      Compares c
      → (username password : String) (refresh : Bool) (r : AuthenticationResult)
      → (verify c db username password refresh ≡ ok r) ↔ (
          (u : User) × IsRow username u
          × (username ≡ u.username)
          × (c.argon2i (into_bytes password) u.salt ≡ some u.hash)
          × (build_authentication_result c db u refresh ≡ ok r))
  unfolding verify check_password hash_password_digest
  verify-IsRow_iff cmp username password refresh r =
      (verify-IsRow cmp username password refresh r, to)
    where
      to :
          (u : User) × IsRow username u
            × (username ≡ u.username)
            × (c.argon2i (into_bytes password) u.salt ≡ some u.hash)
            × (build_authentication_result c db u refresh ≡ ok r)
          → verify c db username password refresh ≡ ok r
      to (u, row, same, hashed, built) =
          let named = (eq_iff username u.username).1 same in
          let equal = (cmp.equal_iff u.hash u.hash).1 refl in
          rw (find_of_row username u row) (rw named (rw hashed (rw equal (rw built refl))))

  payload_if-some :
      (u : User) (o : Option JsonValue)
      → payload_if c db true u ≡ ok o
      → (v : JsonValue) × (db.user_to_value u ≡ ok v) × (o ≡ some (object (entry "user" v end)))
  unfolding payload_if json_insert
  payload_if-some u o h =
      let (x, serialized, h1) = >>=-eq-ok (serialize_refresh_token_payload c db u) _ h in
      let (v, written, h2) =
        >>=-eq-ok (map_err (λ _. authentication_failure) (db.user_to_value u)) _ serialized in
      (v, map_err-eq-ok _ _ written, ground arith)

  build_quiet :
      (u : User) (r : AuthenticationResult)
      → build_authentication_result c db u false ≡ ok r
      → r.refresh_payload ≡ none
  unfolding build_authentication_result
  build_quiet u r h = ground arith

  -- The result with a payload is the one without it, and the payload is the user's JSON value.
  build_with_payload :
      (u : User) (r : AuthenticationResult)
      → build_authentication_result c db u true ≡ ok r
      → (build_authentication_result c db u false ≡ ok (record r { refresh_payload = none }))
        × (v : JsonValue) × (db.user_to_value u ≡ ok v)
        × (r.refresh_payload ≡ some (object (entry "user" v end)))
  unfolding build_authentication_result
  build_with_payload u r h =
      let (o, paid, h1) = >>=-eq-ok (payload_if c db true u) _ h in
      let (v, written, is_object) = payload_if-some u o paid in
      (ground arith, v, written, ground arith)

  refresh_build :
      (u : User) (v : JsonValue)
      → ReadsUsers db
      → db.user_to_value u ≡ ok v
      → authenticate_refresh_token c db (object (entry "user" v end))
        ≡ lift (map_err to_rowdy (build_authentication_result c db u false))
  unfolding authenticate_refresh_token json_get
  refresh_build u v reads written = rw (reads.reads u v written)

  refresh_quiet :
      (p : JsonValue) (r : AuthenticationResult)
      → authenticate_refresh_token c db p ≡ ok r
      → r.refresh_payload ≡ none
  unfolding authenticate_refresh_token
  refresh_quiet p r h =
      let (u, read, built) =
        >>=-eq-ok (lift (map_err to_rowdy (deserialize_refresh_token_payload c db p))) _ h in
      build_quiet u r (map_err-eq-ok _ _ (map_err-eq-ok _ _ built))

  -- The database authenticator is well behaved, if users are read back from their JSON values.
  pub diesel-IsWellBehaved : Compares c → ReadsUsers db → IsWellBehaved (diesel c db)
  unfolding authenticate
  diesel-IsWellBehaved cmp reads = record {
    quiet = λ s r h.
        let (u, row, same, hashed, built) =
          verify-IsRow cmp (Header.username s) (unwrap_or (Header.password s) "") false r
            (map_err-eq-ok _ _ h) in
        build_quiet u r built;
    quiet_refresh = λ p r h. refresh_quiet p r h;
    renews = λ s r p h has.
        let (u, row, name, hashed, built) =
          verify-IsRow cmp (Header.username s) (unwrap_or (Header.password s) "") true r
            (map_err-eq-ok _ _ h) in
        let (plain, v, written, given) = build_with_payload u r built in
        let same : p ≡ object (entry "user" v end) = ground arith in
        rw same (rw (refresh_build u v reads written) (rw plain));
  }

  -- If users are read back from their JSON values, and with a comparison that accepts equal bytes
  -- only, a refresh payload in a prepared response of the database authenticator gives, when it is
  -- redeemed, that response without the payload.
  pub diesel-renews :
      Compares c
      → ReadsUsers db
      → (s : Basic) (refresh : Bool) (r : AuthenticationResult) (p : JsonValue)
      → prepare_authentication_response (diesel c db) s refresh ≡ ok r
      → r.refresh_payload ≡ some p
      → prepare_refresh_response (diesel c db) p ≡ ok (record r { refresh_payload = none })
  diesel-renews cmp reads =
      prepare_refresh_response-renews (diesel c db) (diesel-IsWellBehaved cmp reads)
