-- ===== src/Token/Refresh/Calm.antt =====
-- Panics in the encryption and decryption of a refresh token (src/token.rs).
use rowdy.Prelude.{
  ◌≡◌, arith, map_err-eq-ok, NeverPanics, NeverPanics-bind, NeverPanics-lift, NeverPanics-ok,
  NeverPanics-raise,
}
use rowdy.Crates.Jwt.{
  Jwt, JwsSecret, Jwk, Jwe, decrypted, encrypted, SignatureAlgorithm, KeyManagementAlgorithm,
  ContentEncryptionAlgorithm,
}
use rowdy.Crates.Jwt.Laws.{OpensJwe}
use rowdy.Error.Token.{refresh_token_already_encrypted, refresh_token_already_decrypted}
use rowdy.Token.Refresh.{RefreshToken, encrypt, decrypt, unwrap_decrypted, from_jwt}

module _ (j : Jwt) where
  pub NeverPanics-encrypt :
      (token : RefreshToken) (signing : JwsSecret) (key : Jwk)
      → NeverPanics (encrypt j token signing key)
  unfolding encrypt
  NeverPanics-encrypt (encrypted text) signing key =
      NeverPanics-raise refresh_token_already_encrypted
  NeverPanics-encrypt (decrypted h jws) signing key =
      NeverPanics-bind (from_jwt j (j.into_encoded jws signing)) _ (NeverPanics-lift _)
        (λ jws' _. NeverPanics-lift _)

  unwrap_opened : (x r : Jwe) (h : _) (p : _) → r ≡ decrypted h p → NeverPanics (unwrap_decrypted r)
  unfolding unwrap_decrypted
  unwrap_opened x r h p e = record { calm = λ q. ground arith }

  pub NeverPanics-decrypt :
      OpensJwe j
      → (token : RefreshToken) (signing : JwsSecret) (key : Jwk) (a : SignatureAlgorithm)
        (cek : KeyManagementAlgorithm) (enc : ContentEncryptionAlgorithm)
      → NeverPanics (decrypt j token signing key a cek enc)
  unfolding decrypt
  NeverPanics-decrypt opens (decrypted h jws) signing key a cek enc =
      NeverPanics-raise refresh_token_already_decrypted
  NeverPanics-decrypt opens (encrypted text) signing key a cek enc =
      NeverPanics-bind (from_jwt j (j.into_decrypted (encrypted text) key cek enc)) _
        (NeverPanics-lift _)
        (λ jwe came.
          let (h, p, is_open) =
            opens.opened (encrypted text) jwe key cek enc
              (map_err-eq-ok _ _ (map_err-eq-ok _ _ came)) in
          NeverPanics-bind (unwrap_decrypted jwe) _ (unwrap_opened (encrypted text) jwe h p is_open)
            (λ parts _.
              NeverPanics-bind (from_jwt j (j.into_decoded parts.1 signing a)) _
                (NeverPanics-lift _) (λ jws _. NeverPanics-ok (decrypted parts.0 jws))))
