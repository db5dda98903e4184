-- ===== src/Token/Keys.antt =====
-- src/token.rs: the keys that a `Secret` gives, and `Configuration::keys`.
pub mod Laws
use rowdy.Prelude.{
  String, ℕ, Bool, true, false, Option, none, some, List, Result, ok, err, ◌>>=◌, map_err, Partial,
  lift,
}
use rowdy.Error.Token.{TokenError, generic_error, io_error, jwt_error}
use rowdy.Crates.Jwt.{JwsSecret, Jwk, octet_key}
use rowdy.Crates.World.{World}
use rowdy.Token.Config.{
  Secret, no_secret, byte_sequence, bytes_at, rsa_key_pair, as_bytes, Configuration,
  refresh_token_enabled, refresh_token,
}

pub record Keys : Type 0 where
  pub signing : JwsSecret
  pub signature_verification : JwsSecret
  pub encryption : Option Jwk
  pub decryption : Option Jwk

module _ (w : World) where
  read_file_to_bytes : String → Result TokenError (List ℕ)
  read_file_to_bytes path = map_err io_error (w.read_file path)

  unfoldable pub for_signing : Secret → Result TokenError JwsSecret
  unfolding read_file_to_bytes
  for_signing no_secret = ok JwsSecret.no_secret
  for_signing (byte_sequence sequence) = ok (JwsSecret.bytes (as_bytes sequence))
  for_signing (bytes_at path) = do bytes ← read_file_to_bytes path; ok (JwsSecret.bytes bytes)
  for_signing (rsa_key_pair rsa_private _) = map_err jwt_error (w.rsa_keypair_from_file rsa_private)

  unfoldable pub for_verification : Secret → Result TokenError JwsSecret
  unfolding read_file_to_bytes
  for_verification no_secret = ok JwsSecret.no_secret
  for_verification (byte_sequence sequence) = ok (JwsSecret.bytes (as_bytes sequence))
  for_verification (bytes_at path) = do bytes ← read_file_to_bytes path; ok (JwsSecret.bytes bytes)
  for_verification (rsa_key_pair _ rsa_public) =
      map_err jwt_error (w.public_key_from_file rsa_public)

  unfoldable pub for_encryption : Secret → Result TokenError Jwk
  unfolding read_file_to_bytes
  for_encryption no_secret = err (generic_error "A key is required for encryption")
  for_encryption (byte_sequence sequence) = ok (octet_key (as_bytes sequence))
  for_encryption (bytes_at path) = do bytes ← read_file_to_bytes path; ok (octet_key bytes)
  for_encryption (rsa_key_pair _ _) = err (generic_error "Not supported yet")

  unfoldable pub for_decryption : Secret → Result TokenError Jwk
  unfolding for_encryption
  for_decryption secret = for_encryption secret

  -- `self.refresh_token()` panics where refresh tokens are off.
  encryption_keys : Configuration → Bool → Partial TokenError (Option Jwk × Option Jwk)
  unfolding for_encryption for_decryption refresh_token
  encryption_keys config true = do
    refresh ← refresh_token config
    encryption ← lift (for_encryption refresh.key)
    decryption ← lift (for_decryption refresh.key)
    ok (some encryption, some decryption)
  encryption_keys config false = ok (none, none)

  unfoldable pub keys : Configuration → Partial TokenError Keys
  unfolding encryption_keys for_signing for_verification refresh_token_enabled
  keys config = do
    pair ← encryption_keys config (refresh_token_enabled config)
    signing ← lift (for_signing config.secret)
    verification ← lift (for_verification config.secret)
    ok (record {
      signing = signing;
      signature_verification = verification;
      encryption = pair.0;
      decryption = pair.1;
    })
