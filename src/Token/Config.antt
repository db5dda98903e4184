-- ===== src/Token/Config.antt =====
-- src/token.rs: `Configuration`, `RefreshTokenConfiguration`, `Secret`, and the `ByteSequence` of
-- src/lib.rs.
use Prim.Native.Char.{code}
use rowdy.Prelude.{
  ℕ, ◌+◌, ◌/◌, ◌%◌, String, Bool, true, Option, List, [], ◌∷◌, ◌++◌, ltb, is_some, if◌then◌else◌,
  Partial, unwrap,
}
use rowdy.Crates.Jwt.{
  StringOrUri, SingleOrMultiple, KeyManagementAlgorithm, ContentEncryptionAlgorithm,
  SignatureAlgorithm,
}
use rowdy.Crates.World.{Duration}

pub data ByteSequence : Type 0 where
  text : String → ByteSequence
  bytes : List ℕ → ByteSequence

-- The UTF-8 bytes of a character and of a text.
utf8_char : ℕ → List ℕ
utf8_char c =
    if ltb c 0x80
    then c ∷ []
    else if ltb c 0x800
    then (0xc0 + c / 64) ∷ (0x80 + c % 64) ∷ []
    else if ltb c 0x10000
    then (0xe0 + c / 4096) ∷ (0x80 + c / 64 % 64) ∷ (0x80 + c % 64) ∷ []
    else (0xf0 + c / 262144) ∷ (0x80 + c / 4096 % 64) ∷ (0x80 + c / 64 % 64) ∷ (0x80 + c % 64) ∷ []

unfoldable pub into_bytes : String → List ℕ
unfolding utf8_char
into_bytes String.[] = []
into_bytes (String.◌∷◌ c s) = utf8_char (code c) ++ into_bytes s

unfoldable pub as_bytes : ByteSequence → List ℕ
unfolding into_bytes
as_bytes (text string) = into_bytes string
as_bytes (bytes bs) = bs

pub data Secret : Type 0 where
  no_secret : Secret
  byte_sequence : ByteSequence → Secret
  bytes_at : String → Secret
  rsa_key_pair : String → String → Secret

-- `impl Default for Secret`.
abbrev pub default_secret : Secret
default_secret = no_secret

pub record RefreshTokenConfiguration : Type 0 where
  pub cek_algorithm : KeyManagementAlgorithm
  pub enc_algorithm : ContentEncryptionAlgorithm
  pub key : Secret
  pub expiry_duration : Duration

-- `cors::AllOrSome`.
pub data AllOrSome {ℓ} (A : Type ℓ) : Type ℓ where
  everything : AllOrSome A
  these : A → AllOrSome A

pub record Configuration : Type 0 where
  pub issuer : StringOrUri
  pub allowed_origins : AllOrSome (List String)
  pub audience : SingleOrMultiple
  pub signature_algorithm : Option SignatureAlgorithm
  pub secret : Secret
  pub expiry_duration : Duration
  pub refresh_token : Option RefreshTokenConfiguration

abbrev pub default_expiry_duration : Duration
default_expiry_duration = record { secs = 86400; nanos = 0 }

unfoldable pub refresh_token_enabled : Configuration → Bool
refresh_token_enabled config = is_some config.refresh_token

-- Panics if refresh tokens are not enabled.
unfoldable pub refresh_token {ℓ} :
    {E : Type ℓ} → Configuration → Partial E RefreshTokenConfiguration
refresh_token config = unwrap config.refresh_token

-- `cors::Cors`, the fields that the program sets.
pub record Cors : Type 0 where
  pub allowed_origins : AllOrSome (List String)
  pub allowed_methods : List String
  pub allowed_headers : AllOrSome (List String)
  pub allow_credentials : Bool

abbrev pub token_getter_methods : List String
token_getter_methods = "GET" ∷ []

abbrev pub token_getter_headers : List String
token_getter_headers =
    "Authorization" ∷ "Accept" ∷ "Accept-Language" ∷ "Content-Language" ∷ "Content-Type" ∷ "Origin"
    ∷ []

unfoldable pub cors_option : Configuration → Cors
cors_option config = record {
  allowed_origins = config.allowed_origins;
  allowed_methods = token_getter_methods;
  allowed_headers = these token_getter_headers;
  allow_credentials = true;
}
