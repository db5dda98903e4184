-- ===== src/Tests/Sample.antt =====
-- A server with the small token crate, and what its routes answer to a request.
use rowdy.Prelude.{
  ◌+◌, ◌*◌, Bool, true, false, Option, none, some, ok, err, [], ◌∷◌, ◌≡◌, arith, if◌then◌else◌,
  contains, NeverPanics-ok, refl,
}
use rowdy.Crates.{null}
use rowdy.Crates.Jwt.{
  JwsSecret, Jwk, octet_key, encoded, encrypted, decoded, decrypted, SignatureAlgorithm, single,
}
use rowdy.Crates.World.{World, Duration}
use rowdy.Auth.Header.{Scheme, Basic, Bearer}
use rowdy.Auth.Authenticator.{Authenticator, AuthenticationResult, IsWellBehaved}
use rowdy.Token.Config.{Configuration, RefreshTokenConfiguration, byte_sequence, text, everything}
use rowdy.Token.Access.{
  Token, with_configuration_and_time, encode, encrypt_refresh_token, has_refresh_token,
}
use rowdy.Token.Config
use rowdy.Token.Config.{refresh_token_enabled, as_bytes, into_bytes}
use rowdy.Token.Keys.{Keys, keys, for_signing, for_verification, for_encryption, for_decryption}
use rowdy.Token.Access.Calm.{HasRoom}
use rowdy.Auth.Calm.{IsCalm}
use rowdy.Token.Verify.{verify_service}
use rowdy.Token.Make.{make_token, make_header}
use rowdy.Token.Refresh.{RefreshToken, new_decrypted, encrypt, is_encrypted}
use rowdy.Auth.Header.{is_bearer}
use rowdy.Auth.Authenticator.{prepare_authentication_response}
use rowdy.Routes.{Server, AuthParam, token_getter, verify, issue}
use rowdy.Tests.Wire.{sample_header, sample_claims, jwt, failed, refused, seal, sign_sample}

abbrev pub world : World
world = record {
  fill = λ draw n. some [];
  uuid_from_bytes = λ bs. ok bs;
  urn = λ bs. "urn:uuid:0";
  last_date = 9000000000000000000;
  chrono_from_std = λ d. ok (d.secs * 1000000000 + d.nanos);
  read_file = λ path. err failed;
  rsa_keypair_from_file = λ path. err refused;
  public_key_from_file = λ path. err refused;
}

abbrev pub hour : Duration
hour = record { secs = 3600; nanos = 0 }

abbrev pub basic_scheme : Scheme Basic
basic_scheme = record {
  scheme = some "Basic";
  parse_header = λ s. ok (record { username = s; password = none });
  format = λ a. a.username;
}

abbrev pub bearer_scheme : Scheme Bearer
bearer_scheme = record {
  scheme = some "Bearer";
  parse_header = λ s. ok (record { token = s });
  format = λ a. a.token;
}

-- The authentication result that everyone gets.
abbrev pub alice : Bool → AuthenticationResult
alice refresh = record {
  subject = "alice";
  private_claims = null;
  refresh_payload = if refresh then some null else none;
}

abbrev pub anyone : Authenticator Basic
anyone = record {
  authenticate = λ s b. ok (alice b);
  authenticate_refresh_token = λ p. ok (alice false);
}

pub anyone-IsWellBehaved : IsWellBehaved anyone
anyone-IsWellBehaved = record {
  quiet = λ s r h. ground arith;
  quiet_refresh = λ p r h. ground arith;
  renews = λ s r p h has. ground arith;
}

abbrev pub refresh_configuration : RefreshTokenConfiguration
refresh_configuration = record {
  cek_algorithm = "A256GCMKW";
  enc_algorithm = "A256GCM";
  key = byte_sequence (text "lock");
  expiry_duration = hour;
}

abbrev pub configuration : Option SignatureAlgorithm → Configuration
configuration a = record {
  issuer = "https://rowdy.example";
  allowed_origins = everything;
  audience = single "https://service.example";
  signature_algorithm = a;
  secret = byte_sequence (text "key");
  expiry_duration = hour;
  refresh_token = some refresh_configuration;
}

abbrev pub lock : Jwk
lock = octet_key (108 ∷ [])

abbrev pub signing_key : JwsSecret
signing_key = JwsSecret.bytes (107 ∷ [])

-- The server at the algorithm that its tokens are signed with and the one that is configured.
abbrev pub server : SignatureAlgorithm → Option SignatureAlgorithm → Server
server a configured = record {
  jwt = jwt a;
  world = world;
  basic = basic_scheme;
  bearer = bearer_scheme;
  configuration = configuration configured;
  keys = record {
    signing = signing_key;
    signature_verification = signing_key;
    encryption = some lock;
    decryption = some lock;
  };
  authenticator = anyone;
}

abbrev pub user : Basic
user = record { username = "alice"; password = some "password" }

abbrev pub asking : Option Bool → AuthParam
asking offline = record {
  service = "https://service.example";
  scope = "all";
  offline_token = offline;
}

abbrev pub issued_token : Token
issued_token = record {
  token = encoded "signed";
  expires_in = hour;
  issued_at = 0;
  refresh_token = some (encrypted "sealed");
}

-- A user who asks for an offline token gets an access token and a refresh token.
pub token_getter_signed :
    token_getter
      (server SignatureAlgorithm.hs256 (some SignatureAlgorithm.hs256))
      0
      user
      (asking (some true))
    ≡ ok issued_token
unfolding token_getter verify is_bearer prepare_authentication_response issue
    with_configuration_and_time verify_service contains make_token make_header new_decrypted encode
    encrypt_refresh_token encrypt refresh_token_enabled has_refresh_token is_encrypted seal
token_getter_signed =
    rw (sign_sample SignatureAlgorithm.hs256) (rw (sign_sample SignatureAlgorithm.hs256))

-- So does the user of a server with no signature algorithm.
pub token_getter_unsigned :
    token_getter (server SignatureAlgorithm.none none) 0 user (asking (some true)) ≡ ok issued_token
unfolding token_getter verify is_bearer prepare_authentication_response issue
    with_configuration_and_time verify_service contains make_token make_header new_decrypted encode
    encrypt_refresh_token encrypt refresh_token_enabled has_refresh_token is_encrypted seal
token_getter_unsigned = simp (sign_sample SignatureAlgorithm.none)

abbrev pub plain_token : Token
plain_token = record issued_token { refresh_token = none }

-- A user who does not ask for an offline token gets an access token only.
pub token_getter_plain :
    token_getter
      (server SignatureAlgorithm.hs256 (some SignatureAlgorithm.hs256))
      0
      user
      (asking none)
    ≡ ok plain_token
unfolding token_getter verify is_bearer prepare_authentication_response issue
    with_configuration_and_time verify_service contains make_token make_header new_decrypted encode
    encrypt_refresh_token encrypt refresh_token_enabled has_refresh_token is_encrypted seal
token_getter_plain = simp (sign_sample SignatureAlgorithm.hs256)

abbrev pub made_refresh_token : RefreshToken
made_refresh_token =
    decrypted
      (record {
        cek_algorithm = "A256GCMKW";
        enc_algorithm = "A256GCM";
        media_type = some "JOSE";
        content_type = some "JOSE";
      })
      (decoded (sample_header SignatureAlgorithm.hs256) sample_claims)

-- The token of that answer before it is signed.
abbrev pub made_token : Token
made_token = record {
  token = decoded (sample_header SignatureAlgorithm.hs256) sample_claims;
  expires_in = hour;
  issued_at = 0;
  refresh_token = some made_refresh_token;
}

abbrev pub sample_keys : Keys
sample_keys = record {
  signing = JwsSecret.bytes (107 ∷ 101 ∷ 121 ∷ []);
  signature_verification = JwsSecret.bytes (107 ∷ 101 ∷ 121 ∷ []);
  encryption = some (octet_key (108 ∷ 111 ∷ 99 ∷ 107 ∷ []));
  decryption = some (octet_key (108 ∷ 111 ∷ 99 ∷ 107 ∷ []));
}

pub keys_made : keys world (configuration none) ≡ ok sample_keys
unfolding keys refresh_token_enabled for_signing for_verification for_encryption for_decryption
    as_bytes into_bytes Config.refresh_token
keys_made = refl

-- The server with the keys of its configuration.
abbrev pub keyed_server : Server
keyed_server = record (server SignatureAlgorithm.none none) { keys = sample_keys }

pub anyone-IsCalm : IsCalm anyone
anyone-IsCalm = record {
  authenticate = λ s b. NeverPanics-ok (alice b);
  refresh = λ p. NeverPanics-ok (alice false);
}

pub keyed_server-HasRoom : HasRoom world (configuration none) 0
keyed_server-HasRoom = record { access = omega arith; refresh = omega arith }
