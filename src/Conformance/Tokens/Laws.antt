-- ===== src/Conformance/Tokens/Laws.antt =====
-- How the tests of encoding and encryption in src/token.rs end.
use rowdy.Prelude.{String, ok, err, raise, ◌≡◌, refl, ap, ◌∙◌}
use rowdy.Crates.{json_get, json_insert, as_str}
use rowdy.Crates.Jwt.{Jwt, DateTime, RegisteredClaims, decoded, encoded, encrypted, ClaimsSet}
use rowdy.Crates.Jwt.Laws.{Verifies, Decrypts}
use rowdy.Crates.World.{World}
use rowdy.Error.Token.{
  token_already_encoded, token_already_decoded, refresh_token_already_encrypted,
  refresh_token_already_decrypted,
}
use rowdy.Token.Refresh.{encrypt, decrypt, is_encrypted, is_decrypted, payload, claims_set}
use rowdy.Token.Refresh.Opens.{decrypt-encrypt}
use rowdy.Token.Access.{encode, decode, encrypt_refresh_token, decrypt_refresh_token}
use rowdy.Conformance.Harness.{on_token_error}
use rowdy.Conformance.Fixtures.{
  Normalises, Serves, claims_value, refresh_value, refresh_header, make_refresh_token-value,
  refresh_token_payload,
}
use rowdy.Conformance.Creation.{default_claims}
use rowdy.Conformance.Tokens.{
  signing_secret, key, no_claims, refresh_token_encryption_round_trip, panics_when_encoding_encoded,
  panics_when_decoding_decoded, panics_when_encrypting_encrypted, panics_when_decrypting_decrypted,
  Works,
}

module _ (j : Jwt) (w : World) (issued : DateTime) where
  panics_when_decoding_decoded-panics :
      panics_when_decoding_decoded j w issued ≡ err (on_token_error token_already_decoded)
  unfolding panics_when_decoding_decoded decode
  panics_when_decoding_decoded-panics = refl

  module _ (works : Works j) (verifies : Verifies j signing_secret signing_secret) where
    signed_text :
        (c : ClaimsSet)
        → (t : String) × (j.into_encoded
              (decoded (record { algorithm = j.default_algorithm }) c)
              signing_secret
            ≡ ok (encoded t))
    signed_text c =
        let (r, signed) = works.signs c in
        let (t, is_text, back) = verifies.signs _ c r signed in (t, signed ∙ ap ok is_text)

    panics_when_encoding_encoded-panics :
        panics_when_encoding_encoded j w issued ≡ err (on_token_error token_already_encoded)
    unfolding panics_when_encoding_encoded encode
    panics_when_encoding_encoded-panics =
        let (t, signed) =
          signed_text (record { registered = no_claims; private_claims = default_claims }) in
        simp (signed)

    module _ (urls : Normalises j) (s : Serves w issued) where
      abbrev claims : RegisteredClaims
      claims = claims_value issued (w.urn s.uuid)

      panics_when_decrypting_decrypted-panics :
          panics_when_decrypting_decrypted j w issued
          ≡ err (on_token_error refresh_token_already_decrypted)
      unfolding panics_when_decrypting_decrypted decrypt_refresh_token decrypt
      panics_when_decrypting_decrypted-panics = simp (make_refresh_token-value j urls w issued s)

      module _ (opens : Decrypts j key key) where
        closed_value :
            (sealed : String) × (encrypt j
                (refresh_value j.default_algorithm claims)
                signing_secret
                key
              ≡ ok (encrypted sealed))
        unfolding encrypt
        closed_value =
            let (t, signed) =
              signed_text
                (record { registered = claims; private_claims = refresh_token_payload }) in
            let (r, locked) = works.locks t in
            let (sealed, is_text, h', back) = opens.opens refresh_header (encoded t) r locked in
            (sealed, rw signed (rw locked (rw is_text refl)))

        encrypt-encrypted :
            (t : String)
            → encrypt j (encrypted t) signing_secret key
              ≡ err (raise refresh_token_already_encrypted)
        unfolding encrypt
        encrypt-encrypted t = refl

        panics_when_encrypting_encrypted-panics :
            panics_when_encrypting_encrypted j w issued
            ≡ err (on_token_error refresh_token_already_encrypted)
        unfolding panics_when_encrypting_encrypted encrypt_refresh_token
        panics_when_encrypting_encrypted-panics =
            let (sealed, closed) = closed_value in
            simp (make_refresh_token-value j urls w issued s, closed, encrypt-encrypted sealed)

        refresh_token_encryption_round_trip-passes :
            refresh_token_encryption_round_trip j w issued ≡ ok tt
        unfolding refresh_token_encryption_round_trip is_decrypted is_encrypted payload claims_set
            refresh_token_payload json_insert json_get as_str
        refresh_token_encryption_round_trip-passes =
            let (sealed, closed) = closed_value in
            let (sealed', is_text, h', opened) =
              decrypt-encrypt j verifies opens _ (record { algorithm = j.default_algorithm })
                (record { registered = claims; private_claims = refresh_token_payload })
                (encrypted sealed) closed in
            simp (make_refresh_token-value j urls w issued s, closed ∙ ap ok is_text, opened)
