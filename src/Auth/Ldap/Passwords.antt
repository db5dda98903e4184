-- ===== src/Auth/Ldap/Passwords.antt =====
-- What the LDAP authenticator does with the name and the password that it is given.
use rowdy.Prelude.{String, Bool, none, some, ok, [], ◌∷◌, ◌≡◌, refl, map_err, ap, ◌>>=◌}
use rowdy.Auth.Header
use rowdy.Auth.Header.{Basic}
use rowdy.Auth.Simple.{failure}
use rowdy.Auth.Ldap.{
  Ldap, LdapAuthenticator, LdapConn, SearchEntry, user_from, connect, bind, searcher_bind, search,
  verify, find_user, the_one, build, authenticate,
}

module _ (l : Ldap) (a : LdapAuthenticator) where
  find_user-escape : (x y : String) → l.escape x ≡ l.escape y → find_user l a x ≡ find_user l a y
  unfolding find_user search
  find_user-escape x y same = rw same refl

  -- The name that a user gives is used in its escaped form only: two names that are escaped to the
  -- same text are answered alike.
  pub verify-escape :
      (x y password : String) (refresh : Bool)
      → l.escape x ≡ l.escape y
      → verify l a x password refresh ≡ verify l a y password refresh
  unfolding verify find_user
  verify-escape x y password refresh same =
      ap
        (λ u. do
          user ← u
          connection ← connect l a 1
          _ ← map_err (λ _. failure) (bind l a connection user.dn password)
          build l a (user_from user) refresh)
        (find_user-escape x y same)

  -- The search finds exactly one entry for the name, and a second connection can be opened.
  pub record Finds (username : String) (entry : SearchEntry) : Type 0 where
    pub connection : LdapConn
    pub connected : connect l a 0 ≡ ok connection
    pub searcher : LdapConn
    pub searcher_bound : searcher_bind l a connection ≡ ok searcher
    pub found : search l a searcher username ≡ ok (entry ∷ [])
    pub second : LdapConn
    pub second_connected : connect l a 1 ≡ ok second

  found_by :
      (username : String) (entry : SearchEntry)
      → Finds username entry
      → find_user l a username ≡ ok entry
  unfolding find_user the_one
  found_by username entry f = rw f.connected (rw f.searcher_bound (rw f.found refl))

  -- The part of `verify` after the search.
  verify_bound :
      (username : String) (entry : SearchEntry) (refresh : Bool)
      → Finds username entry
      → ((c : LdapConn) (dn : String) → l.simple_bind c dn "" ≡ ok (ok tt))
      → verify l a username "" refresh ≡ build l a (user_from entry) refresh
  unfolding verify bind
  verify_bound username entry refresh f anyone =
      rw (found_by username entry f) (rw f.second_connected (rw (anyone f.second entry.dn) refl))

  -- A directory that answers a bind without a password with a success, as LDAP's unauthenticated
  -- bind does, lets in whoever gives the name of one of its users and no password or an empty one.
  pub authenticate-without_password :
      (username : String) (entry : SearchEntry) (refresh : Bool)
      → Finds username entry
      → ((c : LdapConn) (dn : String) → l.simple_bind c dn "" ≡ ok (ok tt))
      → (authenticate l a (record { username = username; password = none }) refresh
          ≡ build l a (user_from entry) refresh)
        × (authenticate l a (record { username = username; password = some "" }) refresh
            ≡ build l a (user_from entry) refresh)
  unfolding authenticate Header.username Header.password
  authenticate-without_password username entry refresh f anyone =
      (verify_bound username entry refresh f anyone, verify_bound username entry refresh f anyone)
