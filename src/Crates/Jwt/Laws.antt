-- ===== src/Crates/Jwt/Laws.antt =====
-- Documented behaviour of `biscuit`, as hypotheses of the theorems that rely on it.
use rowdy.Prelude.{String, ◌≡◌, ◌≢◌, ◌≤◌, ◌<◌, ◌/◌, ◌*◌, Option, some, ok, is_ok, false}
use mathlib.Core.Option
use rowdy.Crates.Jwt.{
  Jwt, JwsSecret, Jwk, Jws, Jwe, decoded, encoded, decrypted, encrypted, JwsHeader, JweHeader,
  ClaimsSet, RegisteredClaims, TemporalValidationOptions, DateTime, SignatureAlgorithm,
  KeyManagementAlgorithm, ContentEncryptionAlgorithm,
}

-- A `Timestamp` is written as a `NumericDate`, in whole seconds.
abbrev pub whole_seconds : DateTime → DateTime
whole_seconds t = t / 1000000000 * 1000000000

-- What a claims set is after it was written and read back.
abbrev pub wire : ClaimsSet → ClaimsSet
wire c = record c {
  registered = record c.registered {
    issued_at = Option.map whole_seconds c.registered.issued_at;
    not_before = Option.map whole_seconds c.registered.not_before;
    expiry = Option.map whole_seconds c.registered.expiry;
  };
}

-- A token signed with one secret is encoded, and is read back under the algorithm of its header.
pub record Verifies (j : Jwt) (sign verify : JwsSecret) : Type 0 where
  pub signs :
      (h : JwsHeader) (c : ClaimsSet) (r : Jws)
      → j.into_encoded (decoded h c) sign ≡ ok r
      → (t : String) × (r ≡ encoded t)
        × (j.into_decoded (encoded t) verify h.algorithm ≡ ok (decoded h (wire c)))

-- A token is not read back under another algorithm than that of its header.
pub record ChecksAlgorithm (j : Jwt) (sign verify : JwsSecret) : Type 0 where
  pub refuses :
      (h : JwsHeader) (c : ClaimsSet) (t : String) (a : SignatureAlgorithm)
      → j.into_encoded (decoded h c) sign ≡ ok (encoded t)
      → a ≢ h.algorithm
      → is_ok (j.into_decoded (encoded t) verify a) ≡ false

-- What is encrypted with one key is decrypted with the other, under the algorithms of its header.
-- The header may gain parameters on the way.
pub record Decrypts (j : Jwt) (lock unlock : Jwk) : Type 0 where
  pub opens :
      (h : JweHeader) (p : Jws) (r : Jwe)
      → j.into_encrypted (decrypted h p) lock ≡ ok r
      → (t : String) × (r ≡ encrypted t)
        × (h' : JweHeader) × (j.into_decrypted (encrypted t) unlock h.cek_algorithm h.enc_algorithm
            ≡ ok (decrypted h' p))

-- The times of a token are valid from its start up to its expiry.
pub record ChecksTimes (j : Jwt) : Type 0 where
  pub accepts :
      (c : RegisteredClaims) (o : Option TemporalValidationOptions) (i n e now : DateTime)
      → c.issued_at ≡ some i
      → c.not_before ≡ some n
      → c.expiry ≡ some e
      → i ≤ now
      → n ≤ now
      → now < e
      → j.validate_times c o now ≡ ok tt

-- What is decrypted is open.
pub record OpensJwe (j : Jwt) : Type 0 where
  pub opened :
      (x r : Jwe) (k : Jwk) (a : KeyManagementAlgorithm) (b : ContentEncryptionAlgorithm)
      → j.into_decrypted x k a b ≡ ok r
      → (h : JweHeader) × (p : Jws) × (r ≡ decrypted h p)

-- What is signed is encoded, and what is encrypted is closed.
pub record Seals (j : Jwt) : Type 0 where
  pub encodes :
      (x r : Jws) (k : JwsSecret) → j.into_encoded x k ≡ ok r → (t : String) × (r ≡ encoded t)
  pub encrypts :
      (x r : Jwe) (k : Jwk) → j.into_encrypted x k ≡ ok r → (t : String) × (r ≡ encrypted t)

-- A text that is read as a JWS, which has three parts, is not decrypted as a JWE, which has five.
pub record TellsApart (j : Jwt) : Type 0 where
  pub apart :
      (t : String) (check : JwsSecret) (a : SignatureAlgorithm) (r : Jws) (unlock : Jwk)
      (cek : KeyManagementAlgorithm) (enc : ContentEncryptionAlgorithm) (x : Jwe)
      → j.into_decoded (encoded t) check a ≡ ok r
      → j.into_decrypted (encrypted t) unlock cek enc ≢ ok x

-- The times of a token are not valid after its expiry.
pub record RefusesLate (j : Jwt) : Type 0 where
  pub late :
      (c : RegisteredClaims) (o : Option TemporalValidationOptions) (e now : DateTime)
      → c.expiry ≡ some e
      → j.validate_times c o now ≡ ok tt
      → now ≤ e
