-- ===== src/Auth/Calm.antt =====
-- Panics of the authenticators (src/auth/).
use rowdy.Token.Config.{into_bytes}
use rowdy.Crates.{object, json_get, as_str}
use rowdy.Auth.Util.{hash_password_digest}
use rowdy.Auth.Simple
use rowdy.Auth.Simple.{verify, check, authenticate_refresh_token, failure}
use rowdy.Prelude.{
  ℕ, List, String, get, some, ok_or, lift, ◌≡◌, Option-cases, inl, inr, NeverPanics-raise, Bool,
  false, arith, err, NeverPanics, NeverPanics-bind, NeverPanics-lift, NeverPanics-if,
  NeverPanics-ok,
}
use rowdy.Crates.{JsonValue}
use rowdy.Auth.Header.{Scheme}
use rowdy.Auth.Authenticator.{
  Authenticator, prepare_authentication_response, prepare_refresh_response,
  misbehaving_authentication, misbehaving_refresh,
}
use rowdy.Auth.Noop.{noop}
use rowdy.Auth.Util.{Crypto}
use rowdy.Auth.Simple.{Users, simple}
use rowdy.Auth.Ldap.{Ldap, LdapAuthenticator, ldap}

pub record IsCalm {S : Type 0} (a : Authenticator S) : Type 0 where
  pub authenticate : (s : S) (b : Bool) → NeverPanics (a.authenticate s b)
  pub refresh : (p : JsonValue) → NeverPanics (a.authenticate_refresh_token p)

module _ {S : Type 0} (a : Authenticator S) (calm : IsCalm a) where
  pub NeverPanics-prepare_authentication_response :
      (s : S) (b : Bool) → NeverPanics (prepare_authentication_response a s b)
  unfolding prepare_authentication_response
  NeverPanics-prepare_authentication_response s b =
      NeverPanics-bind (a.authenticate s b) _ (calm.authenticate s b) (λ r _.
        NeverPanics-if _ _ _ (λ _. NeverPanics-lift (err misbehaving_authentication))
          (λ _. NeverPanics-ok r))

  pub NeverPanics-prepare_refresh_response :
      (p : JsonValue) → NeverPanics (prepare_refresh_response a p)
  unfolding prepare_refresh_response
  NeverPanics-prepare_refresh_response p =
      NeverPanics-bind (a.authenticate_refresh_token p) _ (calm.refresh p) (λ r _.
        NeverPanics-if _ _ _ (λ _. NeverPanics-lift (err misbehaving_refresh))
          (λ _. NeverPanics-ok r))

-- The no-op and LDAP authenticators return their errors.
pub noop-IsCalm : {S : Type 0} (s : Scheme S) (sub : S → _) → IsCalm (noop s sub)
noop-IsCalm s sub = record {
  authenticate = λ _ _. NeverPanics-lift _;
  refresh = λ _. NeverPanics-lift _;
}

pub ldap-IsCalm : (l : Ldap) (a : LdapAuthenticator) → IsCalm (ldap l a)
ldap-IsCalm l a = record {
  authenticate = λ _ _. NeverPanics-lift _;
  refresh = λ _. NeverPanics-lift _;
}

-- argon2 has a digest of every password with each salt that is stored.
pub record HasDigests (c : Crypto) (users : Users) : Type 0 where
  pub digests :
      (name password : String) (hash salt : List ℕ)
      → get name users ≡ some (hash, salt)
      → (digest : List ℕ) × (c.argon2i (into_bytes password) salt ≡ some digest)

module _ (c : Crypto) (users : Users) (has : HasDigests c users) where
  NeverPanics-verify :
      (name password : String) (refresh : Bool) → NeverPanics (verify c users name password refresh)
  unfolding verify check hash_password_digest
  NeverPanics-verify name password refresh = elim (Option-cases (get name users)) [
    | inl missing ↦ rw missing (NeverPanics-raise failure)
    | inr ((hash, salt), stored) ↦
        let (digest, hashed) = has.digests name password hash salt stored in
        rw stored (rw hashed (record { calm = λ e. ground arith }))
  ]

  -- The simple authenticator returns its errors too, where that holds.
  pub simple-IsCalm : IsCalm (simple c users)
  unfolding Simple.authenticate authenticate_refresh_token
  simple-IsCalm = record {
    authenticate = λ s b. NeverPanics-verify _ _ b;
    refresh = λ p. refresh_calm p;
  }
    where
      refresh_calm : (p : JsonValue) → NeverPanics (authenticate_refresh_token c users p)
      refresh_calm (object map) =
          NeverPanics-bind (lift (ok_or failure (json_get "user" map))) _ (NeverPanics-lift _)
            (λ v _.
              NeverPanics-bind (lift (ok_or failure (as_str v))) _ (NeverPanics-lift _) (λ user _.
                NeverPanics-bind (lift (ok_or failure (json_get "password" map))) _
                  (NeverPanics-lift _)
                  (λ w _.
                    NeverPanics-bind (lift (ok_or failure (as_str w))) _ (NeverPanics-lift _)
                      (λ password _. NeverPanics-verify user password false))))
      refresh_calm p = NeverPanics-lift (err failure)
