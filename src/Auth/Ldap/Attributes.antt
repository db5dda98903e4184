-- ===== src/Auth/Ldap/Attributes.antt =====
-- The attributes that the LDAP authenticator asks the directory for.
use rowdy.Prelude.{String, [], ◌∷◌, ◌++◌, contains, ◌≡◌, ◌∙◌}
use rowdy.Prelude.Sort.{sort}
use rowdy.Prelude.Sort.Laws.{
  HasNoRepeats, sort-IsSorted, dedup-HasNoRepeats, contains-sort, contains-dedup,
}
use rowdy.Auth.Ldap.{LdapAuthenticator, search_attributes, get_subject_attribute}

-- A search asks for `cn`, `dn`, the included attributes and the subject attribute, for no other,
-- and for each of them once.
pub search_attributes-HasNoRepeats :
    (a : LdapAuthenticator)
    → HasNoRepeats (search_attributes a)
      × ((name : String)
          → contains (search_attributes a) name
            ≡ contains
                ("cn" ∷ "dn" ∷ (a.include_attributes ++ (get_subject_attribute a ∷ [])))
                name)
unfolding search_attributes
search_attributes-HasNoRepeats a =
    let names = "cn" ∷ "dn" ∷ (a.include_attributes ++ (get_subject_attribute a ∷ [])) in
    (
      dedup-HasNoRepeats (sort names) (sort-IsSorted names),
      λ name. contains-dedup (sort names) name ∙ contains-sort names name,
    )
