-- ===== src/Tests/Building.antt =====
-- The theorems of the build script, the LDAP directory and the connection texts, at concrete
-- values.
use rowdy.Prelude.{String, true, false, some, none, ◌≡◌, ◌↔◌, ◌++◌, refl, [], ◌∷◌, contains}
use rowdy.Prelude.Sort.Laws.{HasNoRepeats}
use rowdy.Build.{Console, main}
use rowdy.Build.Laws.{Takes, IsIncompatible, main-aborts_iff}
use rowdy.Auth.Ldap.{
  bind, build, authenticate, user_from, search, searcher_bind, connect, search_attributes,
  get_subject_attribute,
}
use rowdy.Auth.Ldap.Attributes.{search_attributes-HasNoRepeats}
use rowdy.Auth.Ldap.Passwords.{Finds, authenticate-without_password}
use rowdy.Tests.Directory.{directory, ldap_settings, entry_of_bob}

-- A stable compiler.
abbrev console : Console
console = record {
  is_nightly = some false;
  is_min_version = λ v. some (true, "1.30.0");
  is_min_date = λ d. some (true, "2018-10-25");
  paint = λ color text. text;
  stderr_takes = λ text. true;
  stdout_takes = λ text. true;
}

console-Takes : Takes console
console-Takes = record { stderr = λ t. refl; stdout = λ t. refl }

main-aborts_iff_example :
    ((main console).aborts ≡ true)
    ↔ IsIncompatible (some false) (some (true, "1.30.0")) (some (true, "2018-10-25"))
main-aborts_iff_example = main-aborts_iff console console-Takes

bob_found : Finds directory ldap_settings "bob" entry_of_bob
unfolding connect searcher_bind bind search
bob_found = record {
  connection = record { index = 0; binds = [] };
  connected = refl;
  searcher = record { index = 0; binds = ("cn=searcher", "secret") ∷ [] };
  searcher_bound = refl;
  found = refl;
  second = record { index = 1; binds = [] };
  second_connected = refl;
}

authenticate-without_password_example :
    (authenticate directory ldap_settings (record { username = "bob"; password = none }) true
      ≡ build directory ldap_settings (user_from entry_of_bob) true)
    × (authenticate directory ldap_settings (record { username = "bob"; password = some "" }) true
        ≡ build directory ldap_settings (user_from entry_of_bob) true)
authenticate-without_password_example =
    authenticate-without_password directory ldap_settings "bob" entry_of_bob true bob_found
      (λ c dn. refl)

search_attributes-HasNoRepeats_example :
    HasNoRepeats (search_attributes ldap_settings)
    × ((name : String)
        → contains (search_attributes ldap_settings) name
          ≡ contains
              ("cn"
                ∷ "dn"
                ∷ (ldap_settings.include_attributes ++ (get_subject_attribute ldap_settings ∷ [])))
              name)
search_attributes-HasNoRepeats_example = search_attributes-HasNoRepeats ldap_settings
