-- ===== src/Auth/Ldap/Claims.antt =====
-- The private claims that the LDAP authenticator makes of a user's attributes (src/auth/ldap.rs,
-- `build_authentication_result`).
use rowdy.Prelude.{
  String, true, false, Option, none, some, ok, err, List, ◌≡◌, contains, Dict, get, ◌⊎◌,
}
use rowdy.Crates.{JsonValue, JsonMap, json_get}
use rowdy.Auth.Ldap.{Ldap, LdapAuthenticator, User}

-- The JSON value of an attribute of the user.
claim : Ldap → Dict (List String) → String → Option JsonValue
claim l attributes key = elim (get key attributes) [
  | none ↦ none
  | some attribute ↦ elim (l.attribute_to_value attribute) [ ok v ↦ some v | err _ ↦ none ]
]

-- The map of claims of a user: each included attribute that the user has, with its JSON value, and
-- no other.
pub record HoldsClaims (l : Ldap) (a : LdapAuthenticator) (u : User) (m : JsonMap) : Type 0 where
  pub held :
      (key : String) (vs : List String)
      → contains a.include_attributes key ≡ true
      → get key u.attributes ≡ some vs
      → (v : JsonValue) × (l.attribute_to_value vs ≡ ok v) × (json_get key m ≡ some v)
  pub no_other :
      (key : String)
      → (contains a.include_attributes key ≡ false) ⊎ (get key u.attributes ≡ none)
      → json_get key m ≡ none
