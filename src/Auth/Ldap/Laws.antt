-- ===== src/Auth/Ldap/Laws.antt =====
-- What the LDAP authenticator promises.
use rowdy.Prelude.{
  String, Bool, true, false, Option, none, some, Result, ok, List, [], ◌∷◌, ◌≡◌, arith, >>=-eq-ok,
  map_err, map_err-eq-ok, unwrap_or, ◌∙◌, ap,
}
use rowdy.Crates.{JsonValue, object, entry, end, json_get, json_insert, json_collect}
use rowdy.Error.Top.{Error}
use rowdy.Auth.Header
use rowdy.Auth.Header.{Basic}
use rowdy.Auth.Authenticator.{
  AuthenticationResult, IsWellBehaved, prepare_authentication_response, prepare_refresh_response,
  prepare_refresh_response-renews,
}
use rowdy.Auth.Header.{Basic}
use rowdy.Auth.Simple.{failure, all_or_joined, partition}
use rowdy.Auth.Ldap.{
  Ldap, LdapAuthenticator, LdapConn, User, SearchEntry, user_from, connect, bind, searcher_bind,
  search, verify, find_user, the_one, build, build_authentication_result, payload_if, in_namespace,
  attribute_values, get_user_subject, authenticate, authenticate_refresh_token, ldap,
  serialize_refresh_token_payload, deserialize_refresh_token_payload,
}

-- A user is read back from the JSON value that it was written to.
pub record ReadsUsers (l : Ldap) : Type 0 where
  pub reads : (u : User) (v : JsonValue) → l.user_to_value u ≡ ok v → l.user_from_value v ≡ ok u

module _ (l : Ldap) (a : LdapAuthenticator) where
  -- How a user was let in: the searcher was bound on the first connection, on which the search then
  -- found one entry, and on a second connection, with nothing bound on it before, a bind with the
  -- entry's name and the password succeeded.
  pub record IsBound (username password : String) (entry : SearchEntry) : Type 0 where
    pub searching : LdapConn
    pub searching_is : connect l a 0 ≡ ok searching
    pub searcher : LdapConn
    pub searcher_bound : searcher_bind l a searching ≡ ok searcher
    pub found : search l a searcher username ≡ ok (entry ∷ [])
    pub binding : LdapConn
    pub binding_is : connect l a 1 ≡ ok binding
    pub user : LdapConn
    pub bound : bind l a binding entry.dn password ≡ ok user

  the_one-eq-ok : (es : List SearchEntry) (e : SearchEntry) → the_one l a es ≡ ok e → es ≡ e ∷ []
  unfolding the_one
  the_one-eq-ok [] e h = absurd (ground arith)
  the_one-eq-ok (x ∷ []) e h = ground arith
  the_one-eq-ok (x ∷ y ∷ r) e h = absurd (ground arith)

  pub verify-IsBound :
      (username password : String) (refresh : Bool) (r : AuthenticationResult)
      → verify l a username password refresh ≡ ok r
      → (entry : SearchEntry) × IsBound username password entry
        × (build l a (user_from entry) refresh ≡ ok r)
  unfolding verify find_user
  verify-IsBound username password refresh r h =
      let (e, found, h1) = >>=-eq-ok (find_user l a username) _ h in
      let (c, connected, h2) = >>=-eq-ok (connect l a 1) _ h1 in
      let (b, bound, built) = >>=-eq-ok (map_err (λ _. failure) (bind l a c e.dn password)) _ h2 in
      let (d, searching, f1) = >>=-eq-ok (connect l a 0) _ found in
      let (s, searcher, f2) = >>=-eq-ok (searcher_bind l a d) _ f1 in
      let (es, all, one) = >>=-eq-ok (map_err (λ _. failure) (search l a s username)) _ f2 in
      (
        e,
        record {
          searching = d;
          searching_is = searching;
          searcher = s;
          searcher_bound = searcher;
          found = map_err-eq-ok _ _ all ∙ ap ok (the_one-eq-ok es e one);
          binding = c;
          binding_is = connected;
          user = b;
          bound = map_err-eq-ok _ _ bound;
        },
        built,
      )

  build_quiet :
      (u : User) (r : AuthenticationResult) → build l a u false ≡ ok r → r.refresh_payload ≡ none
  unfolding build build_authentication_result
  build_quiet u r h =
      let (subject, s, h1) = >>=-eq-ok (get_user_subject l a u) _ h in
      let (pairs, p, h2) =
        >>=-eq-ok (all_or_joined (partition (attribute_values l u.attributes a.include_attributes)))
          _ h1 in
      ground arith

  payload_if-some :
      (u : User) (o : Option JsonValue)
      → payload_if l true u ≡ ok o
      → (v : JsonValue) × (l.user_to_value u ≡ ok v) × (o ≡ some (object (entry "user" v end)))
  unfolding payload_if json_insert
  payload_if-some u o h =
      let (x, serialized, h1) = >>=-eq-ok (serialize_refresh_token_payload l u) _ h in
      let (v, written, h2) = >>=-eq-ok (map_err (λ _. failure) (l.user_to_value u)) _ serialized in
      (v, map_err-eq-ok _ _ written, ground arith)

  without :
      (subject : String) (pairs : List (String × JsonValue)) (o : Option JsonValue) (u : User)
      (r : AuthenticationResult)
      → get_user_subject l a u ≡ ok subject
      → all_or_joined (partition (attribute_values l u.attributes a.include_attributes)) ≡ ok pairs
      → ◌≡◌ {A = Result Error AuthenticationResult}
          (ok (record {
            subject = subject;
            private_claims = in_namespace l a.attributes_namespace (json_collect end pairs);
            refresh_payload = o;
          }))
          (ok r)
      → build l a u false ≡ ok (record r { refresh_payload = none })
  unfolding build
  without subject pairs o u r s p h = rw s (rw p (ground arith))

  -- The result with a payload is the one without it, and the payload is the user's JSON value
  -- under a key.
  build_with_payload :
      (u : User) (r : AuthenticationResult)
      → build l a u true ≡ ok r
      → (build l a u false ≡ ok (record r { refresh_payload = none }))
        × (v : JsonValue) × (l.user_to_value u ≡ ok v)
        × (r.refresh_payload ≡ some (object (entry "user" v end)))
  unfolding build build_authentication_result json_insert
  build_with_payload u r h =
      let (subject, s, h1) = >>=-eq-ok (get_user_subject l a u) _ h in
      let (pairs, p, h2) =
        >>=-eq-ok (all_or_joined (partition (attribute_values l u.attributes a.include_attributes)))
          _ h1 in
      let (o, paid, h3) = >>=-eq-ok (payload_if l true u) _ h2 in
      let (v, written, is_object) = payload_if-some u o paid in
      (without subject pairs o u r s p h3, v, written, ground arith)

  refresh_build :
      (u : User) (v : JsonValue) (reads : ReadsUsers l)
      → l.user_to_value u ≡ ok v
      → authenticate_refresh_token l a (object (entry "user" v end)) ≡ build l a u false
  unfolding authenticate_refresh_token json_get
  refresh_build u v reads written = rw (reads.reads u v written)

  refresh_quiet :
      (p : JsonValue) (r : AuthenticationResult)
      → authenticate_refresh_token l a p ≡ ok r
      → r.refresh_payload ≡ none
  unfolding authenticate_refresh_token
  refresh_quiet p r h =
      let (u, read, built) = >>=-eq-ok (deserialize_refresh_token_payload l p) _ h in
      build_quiet u r built

  -- The LDAP authenticator is well behaved, if users are read back from their JSON values.
  pub ldap-IsWellBehaved : ReadsUsers l → IsWellBehaved (ldap l a)
  unfolding authenticate
  ldap-IsWellBehaved reads = record {
    quiet = λ s r h.
        let (e, bound, built) =
          verify-IsBound (Header.username s) (unwrap_or (Header.password s) "") false r
            (map_err-eq-ok _ _ h) in
        build_quiet (user_from e) r built;
    quiet_refresh = λ p r h. refresh_quiet p r (map_err-eq-ok _ _ h);
    renews = λ s r p h has.
        let (e, bound, built) =
          verify-IsBound (Header.username s) (unwrap_or (Header.password s) "") true r
            (map_err-eq-ok _ _ h) in
        let (plain, v, written, given) = build_with_payload (user_from e) r built in
        let same : p ≡ object (entry "user" v end) = ground arith in
        rw same (rw (refresh_build (user_from e) v reads written) (rw plain));
  }

  -- If users are read back from their JSON values, a refresh payload in a prepared response of the
  -- LDAP authenticator gives, when it is redeemed, that response without the payload.
  pub ldap-renews :
      ReadsUsers l
      → (s : Basic) (refresh : Bool) (r : AuthenticationResult) (p : JsonValue)
      → prepare_authentication_response (ldap l a) s refresh ≡ ok r
      → r.refresh_payload ≡ some p
      → prepare_refresh_response (ldap l a) p ≡ ok (record r { refresh_payload = none })
  ldap-renews reads = prepare_refresh_response-renews (ldap l a) (ldap-IsWellBehaved reads)
