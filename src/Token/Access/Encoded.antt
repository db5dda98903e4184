-- ===== src/Token/Access/Encoded.antt =====
-- `Token::encode` and `Token::decode` (src/token.rs) against each other.
use rowdy.Prelude.{String, ok, ◌≡◌, arith, >>=-eq-ok, map_err-eq-ok, subst}
use rowdy.Crates.Jwt.{Jwt, JwsSecret, JwsHeader, ClaimsSet, decoded, encoded}
use rowdy.Crates.Jwt.Laws.{Verifies, wire}
use rowdy.Token.Access.{Token, encode, encode_jws}

module _ (j : Jwt) {sign check : JwsSecret} (signed : Verifies j sign check) where
  -- The text of an encoded token reads back, and the rest of the token is as it was.
  pub encode-reads :
      (t t' : Token) (h : JwsHeader) (c : ClaimsSet)
      → t.token ≡ decoded h c
      → encode j t sign ≡ ok t'
      → (text : String) × (t' ≡ record t { token = encoded text })
        × (j.into_decoded (encoded text) check h.algorithm ≡ ok (decoded h (wire c)))
  unfolding encode encode_jws
  encode-reads t t' h c is_decoded e =
      let (x, coding, made) = >>=-eq-ok (encode_jws j t.token sign) _ e in
      let coding' = subst (λ y. encode_jws j y sign ≡ ok x) is_decoded coding in
      let (s, is_text, back) = signed.signs h c x (map_err-eq-ok _ _ coding') in
      (s, ground arith, back)
