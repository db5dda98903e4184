-- ===== src/Auth/Simple/Laws.antt =====
-- What the simple authenticator promises.
use rowdy.Prelude.{
  lift, unwrap, unwrap-eq-ok, ap, ◌∙◌, ℕ, String, Bool, true, false, Option, none, some, ok, List,
  ◌≡◌, ◌↔◌, refl, arith, >>=-eq-ok, is_ok, ok_or, get, if◌then◌else◌, unwrap_or,
}
use rowdy.Crates.{JsonValue, object, string, entry, end, json_get, json_insert, as_str}
use rowdy.Token.Config.{into_bytes}
use rowdy.Auth.Header
use rowdy.Auth.Header.{Basic}
use rowdy.Auth.Authenticator.{
  AuthenticationResult, IsWellBehaved, prepare_authentication_response, prepare_refresh_response,
  prepare_refresh_response-renews,
}
use rowdy.Auth.Util.{Crypto, hash_password_digest}
use rowdy.Auth.Simple.{
  Users, verify, check, authenticate, authenticate_refresh_token, simple, failure,
}

-- The comparison accepts equal bytes and no others.
pub record Compares (c : Crypto) : Type 0 where
  pub equal_iff : (a b : List ℕ) → (is_ok (c.verify_slices_are_equal a b) ≡ true) ↔ (a ≡ b)

-- The result for a user and password that are right.
abbrev pub granted : String → String → Bool → AuthenticationResult
granted username password refresh = record {
  subject = username;
  private_claims = object end;
  refresh_payload =
      if refresh
      then some (object (entry "user" (string username) (entry "password" (string password) end)))
      else none;
}

-- The stored entry is there, and its hash is the password's.
abbrev pub Matches : Crypto → String → Option (List ℕ × List ℕ) → Type 0
Matches c password o =
    (hash salt : List ℕ) × (o ≡ some (hash, salt))
    × (c.argon2i (into_bytes password) salt ≡ some hash)

module _ (c : Crypto) (cmp : Compares c) (users : Users) where
  check_grants :
      (username password : String) (refresh : Bool) (o : Option (List ℕ × List ℕ))
      → Matches c password o
      → check c users username password refresh o ≡ ok (granted username password refresh)
  unfolding check json_insert hash_password_digest
  check_grants username password refresh o (hash, salt, found, same) =
      rw (found, same, (cmp.equal_iff hash hash).1 refl)

  check_granted :
      (username password : String) (refresh : Bool) (o : Option (List ℕ × List ℕ))
      (r : AuthenticationResult)
      → check c users username password refresh o ≡ ok r
      → Matches c password o
  unfolding check hash_password_digest
  check_granted username password refresh none r h = absurd (ground arith)
  check_granted username password refresh (some (hash, salt)) r h =
      let (digest, hashed, h1) = >>=-eq-ok (unwrap (c.argon2i (into_bytes password) salt)) _ h in
      let same : is_ok (c.verify_slices_are_equal digest hash) ≡ true = ground arith in
      let is_hash = (cmp.equal_iff digest hash).0 same in
      (hash, salt, refl, unwrap-eq-ok _ hashed ∙ ap some is_hash)

  -- With a comparison that accepts equal bytes only, `verify` succeeds exactly for a user of the
  -- database whose stored hash is the digest of the password with the stored salt, and then with
  -- the result for them: the name as subject, no private claims, and the name and password as
  -- payload if one was asked for.
  pub verify_iff :
      (username password : String) (refresh : Bool) (r : AuthenticationResult)
      → (verify c users username password refresh ≡ ok r)
        ↔ (Matches c password (get username users) × (r ≡ granted username password refresh))
  unfolding verify
  verify_iff username password refresh r = (from, to)
    where
      from :
          verify c users username password refresh ≡ ok r
          → Matches c password (get username users) × (r ≡ granted username password refresh)
      from h =
          let m = check_granted username password refresh (get username users) r h in
          (m, cc (check_grants username password refresh (get username users) m))

      to :
          Matches c password (get username users) × (r ≡ granted username password refresh)
          → verify c users username password refresh ≡ ok r
      to (m, e) = rw e (check_grants username password refresh (get username users) m)

  refresh_of_granted :
      (username password : String)
      → authenticate_refresh_token c users
          (object (entry "user" (string username) (entry "password" (string password) end)))
        ≡ verify c users username password false
  unfolding authenticate_refresh_token json_get as_str
  refresh_of_granted username password = refl

  refresh_quiet :
      (p : JsonValue) (r : AuthenticationResult)
      → authenticate_refresh_token c users p ≡ ok r
      → r.refresh_payload ≡ none
  unfolding authenticate_refresh_token
  refresh_quiet (object map) r h =
      let (v, x1, h1) = >>=-eq-ok (lift (ok_or failure (json_get "user" map))) _ h in
      let (user, x2, h2) = >>=-eq-ok (lift (ok_or failure (as_str v))) _ h1 in
      let (w, x3, h3) = >>=-eq-ok (lift (ok_or failure (json_get "password" map))) _ h2 in
      let (password, x4, h4) = >>=-eq-ok (lift (ok_or failure (as_str w))) _ h3 in
      ground (arith, ((verify_iff user password false r).0 h4).1)
  refresh_quiet p r h = absurd (ground arith)

  -- The simple authenticator is well behaved.
  pub simple-IsWellBehaved : IsWellBehaved (simple c users)
  unfolding authenticate
  simple-IsWellBehaved = record {
    quiet = λ s r h. ground (
      arith,
      ((verify_iff (Header.username s) (unwrap_or (Header.password s) "") false r).0 h).1,
    );
    quiet_refresh = λ p r h. refresh_quiet p r h;
    renews = λ s r p h has.
        let username = Header.username s in
        let password = unwrap_or (Header.password s) "" in
        let (m, e) = (verify_iff username password true r).0 h in
        let same : p
            ≡ object (entry "user" (string username) (entry "password" (string password) end)) =
          ground arith in
        rw same (
          rw refresh_of_granted (
            rw ((verify_iff username password false (granted username password false)).1 (m, refl))
              (ground arith)));
  }

  -- With a comparison that accepts equal bytes only, a refresh payload in a prepared response of
  -- the simple authenticator gives, when it is redeemed, that response without the payload.
  pub simple-renews :
      (s : Basic) (refresh : Bool) (r : AuthenticationResult) (p : JsonValue)
      → prepare_authentication_response (simple c users) s refresh ≡ ok r
      → r.refresh_payload ≡ some p
      → prepare_refresh_response (simple c users) p ≡ ok (record r { refresh_payload = none })
  simple-renews = prepare_refresh_response-renews (simple c users) simple-IsWellBehaved
