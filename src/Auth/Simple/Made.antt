-- ===== src/Auth/Simple/Made.antt =====
-- User databases that `hash_passwords` makes (src/auth/simple.rs), and `verify` on them.
use rowdy.Token.Config.{into_bytes}
use rowdy.Prelude.{
  lift, unwrap, unwrap-eq-ok, ℕ, suc, String, Bool, none, some, ok, ◌≡◌, ◌∙◌, refl, subst, arith,
  >>=-eq-ok, [], ◌∷◌, Dict, get, insert, get-insert, ◌==◌, eq_iff, map_err, Bool-cases, inl, inr,
}
use rowdy.Error.Top.{generic_error}
use rowdy.Auth.Util.{Crypto, hash_password_digest, generate_salt}
use rowdy.Auth.Simple.{Users, hash_passwords, hash_passwords_into, verify}
use rowdy.Auth.Simple.Laws.{Compares, Matches, granted, verify_iff}

-- No key of the map is there twice.
abbrev pub HasDistinctKeys : Dict String → Type 0
HasDistinctKeys [] = Unit
HasDistinctKeys ((name, value) ∷ rest) = (get name rest ≡ none) × HasDistinctKeys rest

module _ (c : Crypto) (salt_len : ℕ) where
  -- A user who is no longer to come keeps the entry that there is.
  get-hash_passwords_into :
      (passwords : Dict String) (draw : ℕ) (hashed users : Users) (name : String)
      → get name passwords ≡ none
      → hash_passwords_into c draw salt_len hashed passwords ≡ ok users
      → get name users ≡ get name hashed
  unfolding hash_passwords_into get hash_password_digest
  get-hash_passwords_into [] draw hashed users name absent h = ground arith
  get-hash_passwords_into ((user, password) ∷ rest) draw hashed users name absent h =
      let (salt, drawn, h1) =
        >>=-eq-ok
          (lift (map_err (λ _. generic_error "Unspecified error") (generate_salt c draw salt_len)))
          _ h in
      let (hash, digested, h2) = >>=-eq-ok (unwrap (c.argon2i (into_bytes password) salt)) _ h1 in
      let kept =
        get-hash_passwords_into rest (suc draw) (insert user (hash, salt) hashed) users name
          (ground arith) h2 in
      ground (arith, kept, get-insert user name (hash, salt) hashed)

  hash_passwords_into-Matches :
      (passwords : Dict String) (draw : ℕ) (hashed users : Users) (name password : String)
      → HasDistinctKeys passwords
      → get name passwords ≡ some password
      → hash_passwords_into c draw salt_len hashed passwords ≡ ok users
      → Matches c password (get name users)
  unfolding hash_passwords_into get hash_password_digest
  hash_passwords_into-Matches [] draw hashed users name password distinct found h =
      absurd (ground arith)
  hash_passwords_into-Matches ((user, mine) ∷ rest) draw hashed users name password
        (fresh, distinct) found h =
      let (salt, drawn, h1) =
        >>=-eq-ok
          (lift (map_err (λ _. generic_error "Unspecified error") (generate_salt c draw salt_len)))
          _ h in
      let (hash, digested, h2) = >>=-eq-ok (unwrap (c.argon2i (into_bytes mine) salt)) _ h1 in
      elim (Bool-cases (user == name)) [
        | inl same ↦
            let mine_is : mine ≡ password = ground arith in
            let name_is : user ≡ name = (eq_iff user name).0 same in
            (
              hash,
              salt,
              get-hash_passwords_into rest (suc draw) (insert user (hash, salt) hashed) users name
                    (subst (λ x. get x rest ≡ none) name_is fresh) h2
                  ∙ get-insert user name (hash, salt) hashed
                  ∙ rw same,
              subst (λ x. c.argon2i (into_bytes x) salt ≡ some hash) mine_is
                  (unwrap-eq-ok _ digested),
            )
        | inr differs ↦
            hash_passwords_into-Matches rest (suc draw) (insert user (hash, salt) hashed) users name
              password distinct (ground arith) h2
      ]

  -- With a comparison that accepts equal bytes only, every user of a map of passwords is let in
  -- with that password by an authenticator over the hashes that `hash_passwords` makes of the map,
  -- where it makes them: salts are drawn, and argon2 takes salts of their length.
  pub verify-hash_passwords :
      Compares c
      → (passwords : Dict String) (users : Users) (name password : String) (refresh : Bool)
      → HasDistinctKeys passwords
      → get name passwords ≡ some password
      → hash_passwords c passwords salt_len ≡ ok users
      → verify c users name password refresh ≡ ok (granted name password refresh)
  unfolding hash_passwords
  verify-hash_passwords cmp passwords users name password refresh distinct found h =
      (verify_iff c cmp users name password refresh (granted name password refresh)).1
        (hash_passwords_into-Matches passwords 0 [] users name password distinct found h, refl)
