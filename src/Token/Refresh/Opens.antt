-- ===== src/Token/Refresh/Opens.antt =====
-- `RefreshToken::encrypt` and `RefreshToken::decrypt` (src/token.rs) against each other.
use rowdy.Prelude.{String, ok, ◌≡◌, ◌≢◌, >>=-eq-ok, map_err-eq-ok, ap, ◌∙◌, arith}
use rowdy.Crates.Jwt.{
  Jwt, ClaimsSet, decoded, JwsHeader, JweHeader, decrypted, encrypted, JwsSecret, Jwk,
  SignatureAlgorithm, encoded, KeyManagementAlgorithm, ContentEncryptionAlgorithm,
}
use rowdy.Crates.Jwt.Laws.{Verifies, Decrypts, ChecksAlgorithm, wire}
use rowdy.Token.Refresh.{RefreshToken, encrypt, decrypt, from_jwt}

module _ (j : Jwt) {sign check : JwsSecret} {lock unlock : Jwk} (signed : Verifies j sign check)
    (sealed : Decrypts j lock unlock) where
  -- Where what is signed with one secret verifies with another, and what is encrypted with one key
  -- opens with another, encrypting a decrypted refresh token gives a text, and decrypting that
  -- under the algorithms of its headers gives the claims that went in, with their times in whole
  -- seconds.
  pub decrypt-encrypt :
      (h : JweHeader) (g : JwsHeader) (c : ClaimsSet) (r : RefreshToken)
      → encrypt j (decrypted h (decoded g c)) sign lock ≡ ok r
      → (text : String) × (r ≡ encrypted text)
        × (h' : JweHeader) × (decrypt j
              (encrypted text)
              check
              unlock
              g.algorithm
              h.cek_algorithm
              h.enc_algorithm
            ≡ ok (decrypted h' (decoded g (wire c))))
  unfolding encrypt decrypt
  decrypt-encrypt h g c r e =
      let (jws, signing, e1) = >>=-eq-ok _ _ e in
      let signing' = map_err-eq-ok _ _ (map_err-eq-ok _ _ signing) in
      let locking = map_err-eq-ok _ _ (map_err-eq-ok _ _ e1) in
      let (t, is_text, back) = signed.signs g c jws signing' in
      let (text, is_sealed, h', opened) = sealed.opens h jws r locking in
      (text, is_sealed, h', rw opened (rw is_text (rw back)))

  -- Under another algorithm than that of its header it is not decrypted at all.
  pub decrypt-refuses :
      ChecksAlgorithm j sign check
      → (h : JweHeader) (g : JwsHeader) (c : ClaimsSet) (r : RefreshToken) (a : SignatureAlgorithm)
      → encrypt j (decrypted h (decoded g c)) sign lock ≡ ok r
      → a ≢ g.algorithm
      → (text : String) × (r ≡ encrypted text)
        × ((d : RefreshToken)
            → decrypt j (encrypted text) check unlock a h.cek_algorithm h.enc_algorithm ≢ ok d)
  unfolding encrypt decrypt
  decrypt-refuses checked h g c r a e differs =
      let (jws, signing, e1) = >>=-eq-ok _ _ e in
      let signing' = map_err-eq-ok _ _ (map_err-eq-ok _ _ signing) in
      let locking = map_err-eq-ok _ _ (map_err-eq-ok _ _ e1) in
      let (t, is_text, back) = signed.signs g c jws signing' in
      let (text, is_sealed, h', opened) = sealed.opens h jws r locking in
      let refused = checked.refuses g c t a (signing' ∙ ap ok is_text) differs in
      (
        text,
        is_sealed,
        λ d. rw opened (
            rw is_text (λ back'.
              let (x, decoded', last) =
                >>=-eq-ok (from_jwt j (j.into_decoded (encoded t) check a)) _ back' in
              let same = map_err-eq-ok _ _ (map_err-eq-ok _ _ decoded') in ground arith)),
      )

-- A text that is decrypted is one that the key opens.
pub decrypt-opened :
    (j : Jwt) (text : String) (check : JwsSecret) (unlock : Jwk) (a : SignatureAlgorithm)
    (cek : KeyManagementAlgorithm) (enc : ContentEncryptionAlgorithm) (r : RefreshToken)
    → decrypt j (encrypted text) check unlock a cek enc ≡ ok r
    → (x : RefreshToken) × (j.into_decrypted (encrypted text) unlock cek enc ≡ ok x)
unfolding decrypt
decrypt-opened j text check unlock a cek enc r h =
    let (x, opened, h1) =
      >>=-eq-ok (from_jwt j (j.into_decrypted (encrypted text) unlock cek enc)) _ h in
    (x, map_err-eq-ok _ _ (map_err-eq-ok _ _ opened))
