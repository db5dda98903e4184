-- ===== src/Crates/Jwt.antt =====
-- The types of `biscuit` (the crate that the code calls `jwt`), and its functions as parameters.
mod Algorithm
pub mod Laws
pub use Algorithm.*
use rowdy.Prelude.{String, ℕ, List, [], ◌∷◌, Option, Result, Bool}
use rowdy.Crates.Errors.{ForeignError, JwtError}
use rowdy.Crates.Json.{JsonValue}

-- A `jwt::StringOrUri` is its text: `FromStr` may refuse or normalise a text, and two values are
-- equal when their texts are.
abbrev pub StringOrUri : Type 0
StringOrUri = String

pub data SingleOrMultiple : Type 0 where
  single : StringOrUri → SingleOrMultiple
  multiple : List StringOrUri → SingleOrMultiple

-- `SingleOrMultiple::iter`.
abbrev pub iter : SingleOrMultiple → List StringOrUri
iter (single s) = s ∷ []
iter (multiple ss) = ss

-- Registered names of `jwa::KeyManagementAlgorithm` and `jwa::ContentEncryptionAlgorithm`.
abbrev pub KeyManagementAlgorithm : Type 0
KeyManagementAlgorithm = String

abbrev pub ContentEncryptionAlgorithm : Type 0
ContentEncryptionAlgorithm = String

-- A `DateTime<Utc>` is its nanoseconds since the epoch.
abbrev pub DateTime : Type 0
DateTime = ℕ

pub record RegisteredClaims : Type 0 where
  pub issuer : Option StringOrUri
  pub subject : Option StringOrUri
  pub audience : Option SingleOrMultiple
  pub issued_at : Option DateTime
  pub not_before : Option DateTime
  pub expiry : Option DateTime
  pub id : Option String

pub record ClaimsSet : Type 0 where
  pub registered : RegisteredClaims
  pub private_claims : JsonValue

-- `jws::Header<Empty>`; the fields that are left at their defaults do not show.
pub record JwsHeader : Type 0 where
  pub algorithm : SignatureAlgorithm

-- `jws::Compact` at a claims set.
pub data Jws : Type 0 where
  decoded : JwsHeader → ClaimsSet → Jws
  encoded : String → Jws

pub record JweHeader : Type 0 where
  pub cek_algorithm : KeyManagementAlgorithm
  pub enc_algorithm : ContentEncryptionAlgorithm
  pub media_type : Option String
  pub content_type : Option String

-- `jwe::Compact` around a JWS.
pub data Jwe : Type 0 where
  decrypted : JweHeader → Jws → Jwe
  encrypted : String → Jwe

-- `jws::Secret`; the keys are the bytes of the DER files.
pub data JwsSecret : Type 0 where
  no_secret : JwsSecret
  bytes : List ℕ → JwsSecret
  rsa_key_pair : List ℕ → JwsSecret
  public_key : List ℕ → JwsSecret

-- `jwk::JWK<Empty>`, of which the code makes octet keys.
pub data Jwk : Type 0 where
  octet_key : List ℕ → Jwk

pub record TemporalValidationOptions : Type 0 where
  pub issued_at_required : Bool
  pub not_before_required : Bool
  pub expiry_required : Bool

-- The functions of the crate. `default_algorithm` is `SignatureAlgorithm::default()`;
-- `validate_times` reads the clock, which is its last argument.
pub record Jwt : Type 0 where
  pub parse : String → Result JwtError StringOrUri
  pub default_algorithm : SignatureAlgorithm
  pub into_encoded : Jws → JwsSecret → Result JwtError Jws
  pub into_decoded : Jws → JwsSecret → SignatureAlgorithm → Result JwtError Jws
  pub into_encrypted : Jwe → Jwk → Result JwtError Jwe
  pub into_decrypted :
      Jwe → Jwk → KeyManagementAlgorithm → ContentEncryptionAlgorithm → Result JwtError Jwe
  pub validate_times :
      RegisteredClaims
      → Option TemporalValidationOptions
      → DateTime
      → Result ForeignError (Unit {0})
  -- What the accessors of a compact value answer on the other constructor.
  pub unsupported : JwtError
